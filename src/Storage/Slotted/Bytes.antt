-- ===== src/Storage/Slotted/Bytes.antt =====
-- Reads of a page after a write.
use chibidb.Prelude.{
  ℕ, zero, suc, ◌+◌, ◌/◌, ◌%◌, ◌≤◌, ◌<◌, ◌≡◌, ◌≢◌, ◌⊎◌, inl, inr, refl, subst, sym, ◌∙◌, ◌==◌,
  if◌then◌else◌, List, [], ◌∷◌, length, length-set, get_or, set, get_or-set_self, get_or-set_ne,
  Bool-cases, arith,
}
use chibidb.Storage.Slotted.{Page, read_u16, write_u16, copy_at, slice}

pub length-write_u16 : (p : Page) (a v : ℕ) → length (write_u16 p a v) ≡ length p
unfolding write_u16
length-write_u16 p a v =
    length-set (set p a (v % 256)) (a + 1) (v / 256 % 256) ∙ length-set p a (v % 256)

pub length-copy_at : (p : Page) (off : ℕ) (bs : List ℕ) → length (copy_at p off bs) ≡ length p
unfolding copy_at
length-copy_at p off [] = refl
length-copy_at p off (b ∷ bs) = length-copy_at (set p off b) (off + 1) bs ∙ length-set p off b

pub byte-write_u16 :
    (p : Page) (a v i : ℕ) → i ≢ a → i ≢ a + 1 → get_or (write_u16 p a v) i 0 ≡ get_or p i 0
unfolding write_u16
byte-write_u16 p a v i h j =
    get_or-set_ne (set p a (v % 256)) (a + 1) i (v / 256 % 256) 0 (λ e. j (sym e))
    ∙ get_or-set_ne p a i (v % 256) 0 (λ e. h (sym e))

pub byte-copy_at :
    (p : Page) (off : ℕ) (bs : List ℕ) (i : ℕ)
    → (i < off) ⊎ (off + length bs ≤ i)
    → get_or (copy_at p off bs) i 0 ≡ get_or p i 0
unfolding copy_at
byte-copy_at p off [] i h = refl
byte-copy_at p off (b ∷ bs) i h =
    byte-copy_at (set p off b) (off + 1) bs i
      (elim h [ inl l ↦ inl (omega arith) | inr r ↦ inr (omega arith) ])
    ∙ get_or-set_ne p off i b 0 (λ e. elim h [ inl l ↦ omega arith | inr r ↦ omega arith ])

-- Words at even places do not overlap.
pub read-write_u16 :
    (p : Page) (a v b : ℕ)
    → a % 2 ≡ 0
    → b % 2 ≡ 0
    → a + 1 < length p
    → v < 65536
    → read_u16 (write_u16 p a v) b ≡ (if a == b then v else read_u16 p b)
unfolding read_u16
read-write_u16 p a v b ea eb ha hv = elim (Bool-cases (a == b)) [
  | inl e ↦ rw e (subst (λ (c : ℕ). read_u16 (write_u16 p a v) c ≡ v) (ground arith) itself)
  | inr n ↦
      rw n (
        pair (ground (arith, byte-write_u16 p a v b))
          (ground (arith, byte-write_u16 p a v (b + 1))))
]
  where
    low : get_or (write_u16 p a v) a 0 ≡ v % 256
    low =
        unfold write_u16 in
        get_or-set_ne (set p a (v % 256)) (a + 1) a (v / 256 % 256) 0 (λ e. omega arith)
        ∙ get_or-set_self p a (v % 256) 0 (omega arith)

    high : get_or (write_u16 p a v) (a + 1) 0 ≡ v / 256 % 256
    high =
        unfold write_u16 in
        get_or-set_self (set p a (v % 256)) (a + 1) (v / 256 % 256) 0
          (omega (arith, length-set p a (v % 256)))

    itself : read_u16 (write_u16 p a v) a ≡ v
    itself = unfold read_u16 in omega (arith, low, high)

    pair :
        get_or (write_u16 p a v) b 0 ≡ get_or p b 0
        → get_or (write_u16 p a v) (b + 1) 0 ≡ get_or p (b + 1) 0
        → read_u16 (write_u16 p a v) b ≡ read_u16 p b
    pair x y = unfold read_u16 in omega (arith, x, y)

pub read_u16-copy_at :
    (p : Page) (off : ℕ) (bs : List ℕ) (b : ℕ)
    → (b + 2 ≤ off)
    → read_u16 (copy_at p off bs) b ≡ read_u16 p b
unfolding read_u16
read_u16-copy_at p off bs b h = omega (
  arith,
  byte-copy_at p off bs b (inl (omega arith)),
  byte-copy_at p off bs (b + 1) (inl (omega arith)),
)

cons : (a b : ℕ) (xs ys : List ℕ) → a ≡ b → xs ≡ ys → a ∷ xs ≡ b ∷ ys
cons a b xs ys e f = cc

pub slice-copy_at :
    (p : Page) (off : ℕ) (bs : List ℕ)
    → off + length bs ≤ length p
    → slice (copy_at p off bs) off (length bs) ≡ bs
unfolding slice copy_at
slice-copy_at p off [] h = refl
slice-copy_at p off (b ∷ bs) h =
    cons _ _ _ _
      (byte-copy_at (set p off b) (off + 1) bs off (inl (omega arith))
        ∙ get_or-set_self p off b 0 (omega arith))
      (slice-copy_at (set p off b) (off + 1) bs (omega (arith, length-set p off b)))

pub slice_same :
    (p q : Page) (off len : ℕ)
    → ((i : ℕ) → off ≤ i → i < off + len → get_or p i 0 ≡ get_or q i 0)
    → slice p off len ≡ slice q off len
unfolding slice
slice_same p q off zero h = refl
slice_same p q off (suc len) h =
    cons _ _ _ _ (h off (omega arith) (omega arith))
      (slice_same p q (off + 1) len (λ i l r. h i (omega arith) (omega arith)))
