-- ===== src/Prelude/Holds.antt =====
-- A list that stands in another at a position.
use Prim.Native.Nat.{ℕ, zero, suc, ◌+◌, ◌-◌, ◌≤◌}
use mathlib.Core.Path.{◌≡◌, refl, sym, ap, ◌∙◌}
use mathlib.Core.List.{List, [], ◌∷◌, ◌++◌, append_assoc, append-nil}
use mathlib.Core.Option.{some}
use native.Mathlib.Omega.{arith}
use chibidb.Prelude.Lists.{
  length, get_elem?, take, drop, sub_list, length-append, drop-append_length, take-append_length,
  length-take,
}

module _ {A : Type 0} where
  pub drop-drop : (p m : ℕ) (xs : List A) → drop m (drop p xs) ≡ drop (p + m) xs
  drop-drop zero m xs = let e : m ≡ 0 + m = omega arith in ap (λ (k : ℕ). drop k xs) e
  drop-drop (suc p) zero [] = let e : suc p ≡ suc p + 0 = omega arith in ap (λ (k : ℕ). drop k []) e
  drop-drop (suc p) (suc m) [] =
      let e : suc (p + suc m) ≡ suc p + suc m = omega arith in ap (λ (k : ℕ). drop k []) e
  drop-drop (suc p) m (x ∷ xs) =
      let e : suc (p + m) ≡ suc p + m = omega arith in
      drop-drop p m xs ∙ ap (λ (k : ℕ). drop k (x ∷ xs)) e

  pub length-drop : (n : ℕ) (xs : List A) → length (drop n xs) ≡ length xs - n
  length-drop zero xs = omega arith
  length-drop (suc n) [] = omega arith
  length-drop (suc n) (x ∷ xs) = omega (arith, length-drop n xs)

  get_elem?_dropped :
      (pos : ℕ) (xs : List A) (x : A) (ys : List A)
      → drop pos xs ≡ x ∷ ys
      → get_elem? xs pos ≡ some x
  get_elem?_dropped zero [] x ys h = ground arith
  get_elem?_dropped zero (a ∷ xs) x ys h = ground arith
  get_elem?_dropped (suc pos) [] x ys h = ground arith
  get_elem?_dropped (suc pos) (a ∷ xs) x ys h = get_elem?_dropped pos xs x ys h

  -- `mid` stands in `xs` from `pos` on.
  pub Holds : List A → ℕ → List A → Type 0
  Holds xs pos mid = (back : List A) × (pos ≤ length xs) × (drop pos xs ≡ mid ++ back)

  pub Holds-append : (front mid back : List A) → Holds (front ++ (mid ++ back)) (length front) mid
  unfolding Holds
  Holds-append front mid back = (
    back,
    omega (arith, length-append front (mid ++ back)),
    drop-append_length front (mid ++ back),
  )

  pub Holds-end : (front mid : List A) → Holds (front ++ mid) (length front) mid
  unfolding Holds
  Holds-end front mid = (
    [],
    omega (arith, length-append front mid),
    drop-append_length front mid ∙ sym (append-nil mid),
  )

  pub Holds-all : (mid back : List A) → Holds (mid ++ back) 0 mid
  unfolding Holds
  Holds-all mid back = (back, omega arith, refl)

  pub Holds-self : (mid : List A) → Holds mid 0 mid
  unfolding Holds
  Holds-self mid = ([], omega arith, sym (append-nil mid))

  pub Holds-inside :
      (xs : List A) (pos : ℕ) (mid : List A) → Holds xs pos mid → pos + length mid ≤ length xs
  unfolding Holds
  Holds-inside xs pos mid (back, h, e) =
      omega (arith, length-drop pos xs, ap length e, length-append mid back)

  pub Holds-left :
      (xs : List A) (pos : ℕ) (ys zs : List A) → Holds xs pos (ys ++ zs) → Holds xs pos ys
  unfolding Holds
  Holds-left xs pos ys zs (back, h, e) = (zs ++ back, h, e ∙ append_assoc ys zs back)

  pub Holds-right :
      (xs : List A) (pos : ℕ) (ys zs : List A)
      → Holds xs pos (ys ++ zs)
      → Holds xs (pos + length ys) zs
  unfolding Holds
  Holds-right xs pos ys zs (back, h, e) = (
    back,
    omega (
      arith,
      length-drop pos xs,
      ap length e,
      length-append (ys ++ zs) back,
      length-append ys zs,
    ),
    sym (drop-drop pos (length ys) xs)
        ∙ ap (drop (length ys)) (e ∙ append_assoc ys zs back)
        ∙ drop-append_length ys (zs ++ back),
  )

  pub take-Holds :
      (xs : List A) (pos : ℕ) (mid : List A)
      → Holds xs pos mid
      → take (length mid) (drop pos xs) ≡ mid
  unfolding Holds
  take-Holds xs pos mid (back, h, e) = ap (take (length mid)) e ∙ take-append_length mid back

  pub get_elem?-Holds :
      (xs : List A) (pos : ℕ) (x : A) (mid : List A)
      → Holds xs pos (x ∷ mid)
      → get_elem? xs pos ≡ some x
  unfolding Holds
  get_elem?-Holds xs pos x mid (back, h, e) = get_elem?_dropped pos xs x (mid ++ back) e

  pub sub_list-Holds :
      (xs : List A) (pos : ℕ) (mid : List A)
      → Holds xs pos mid
      → sub_list pos (pos + length mid) xs ≡ mid
  sub_list-Holds xs pos mid h =
      let e : pos + length mid - pos ≡ length mid = omega arith in rw e (take-Holds xs pos mid h)

  pub take-drop : (n : ℕ) (xs : List A) → take n xs ++ drop n xs ≡ xs
  take-drop zero xs = refl
  take-drop (suc n) [] = refl
  take-drop (suc n) (x ∷ xs) = ap (λ (ys : List A). x ∷ ys) (take-drop n xs)

  -- What stands before and behind it.
  pub Holds-split :
      (xs : List A) (pos : ℕ) (mid : List A)
      → Holds xs pos mid
      → (front : List A) × (back : List A) × (xs ≡ front ++ (mid ++ back)) × (length front ≡ pos)
  unfolding Holds
  Holds-split xs pos mid (back, h, e) = (
    take pos xs,
    back,
    sym (take-drop pos xs) ∙ ap (λ (ys : List A). take pos xs ++ ys) e,
    length-take pos xs h,
  )

  none_left : (xs : List A) → length xs ≡ 0 → xs ≡ []
  none_left [] h = refl
  none_left (x ∷ xs) h = absurd (omega (arith, h))

  pub drop-Holds_end :
      (xs : List A) (pos : ℕ) (mid : List A)
      → Holds xs pos mid
      → pos + length mid ≡ length xs
      → drop pos xs ≡ mid
  unfolding Holds
  drop-Holds_end xs pos mid (back, h, e) end =
      let gone : back ≡ [] =
        none_left back
          (omega (arith, end, length-drop pos xs, ap length e, length-append mid back)) in
      e ∙ ap (λ (ys : List A). mid ++ ys) gone ∙ append-nil mid
