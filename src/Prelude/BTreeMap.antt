-- ===== src/Prelude/BTreeMap.antt =====
-- `BTreeMap` with numbers for keys: an association list in the ascending order of its keys.
use Prim.Native.Nat.{ℕ, ◌<◌}
use mathlib.Core.Path.{◌≡◌, refl}
use mathlib.Core.List.{List, [], ◌∷◌}
use mathlib.Core.Option.{Option, none, some}
use native.Mathlib.Omega.{arith}
use chibidb.Prelude.Tests.{ltb, ◌==◌, if◌then◌else◌}

module _ {V : Type 0} where
  abbrev pub get : ℕ → List (ℕ × V) → Option V
  get k [] = none
  get k ((j, v) ∷ m) = let later = get k m in if j == k then some v else later

  -- `entry(k)`, whose value becomes `f` of the value that it had.
  abbrev pub entry : ℕ → (Option V → V) → List (ℕ × V) → List (ℕ × V)
  entry k f [] = (k, f none) ∷ []
  entry k f ((j, v) ∷ m) =
      let later = entry k f m in
      if ltb k j
      then (k, f none) ∷ (j, v) ∷ m
      else if j == k
      then (j, f (some v)) ∷ m
      else (j, v) ∷ later

  abbrev pub remove : ℕ → List (ℕ × V) → List (ℕ × V)
  remove k [] = []
  remove k ((j, v) ∷ m) = let later = remove k m in if j == k then m else (j, v) ∷ later

  -- Every key is above `lo`.
  abbrev pub Above : ℕ → List (ℕ × V) → Type 0
  Above lo [] = Unit
  Above lo ((j, v) ∷ m) = (lo < j) × Above lo m

  abbrev pub IsSorted : List (ℕ × V) → Type 0
  IsSorted [] = Unit
  IsSorted ((j, v) ∷ m) = Above j m × IsSorted m

  abbrev pub keys : List (ℕ × V) → List ℕ
  keys [] = []
  keys ((j, v) ∷ m) = j ∷ keys m

module _ {V : Type 0} where
  pub Above-weaker : (lo hi : ℕ) (m : List (ℕ × V)) → lo < hi → Above hi m → Above lo m
  Above-weaker lo hi [] l h = tt
  Above-weaker lo hi ((j, v) ∷ m) l h = (omega (arith, h.0), Above-weaker lo hi m l (h.1))

  pub Above-entry :
      (lo k : ℕ) (f : Option V → V) (m : List (ℕ × V))
      → lo < k
      → Above lo m
      → Above lo (entry k f m)
  Above-entry lo k f [] l h = (l, tt)
  Above-entry lo k f ((j, v) ∷ m) l h = ground (arith, Above-entry lo k f m)

  pub entry-IsSorted :
      (k : ℕ) (f : Option V → V) (m : List (ℕ × V)) → IsSorted m → IsSorted (entry k f m)
  entry-IsSorted k f [] h = (tt, tt)
  entry-IsSorted k f ((j, v) ∷ m) h =
      ground (arith, entry-IsSorted k f m, Above-entry j k f m, Above-weaker k j m)

  pub get_absent : (k : ℕ) (m : List (ℕ × V)) → Above k m → get k m ≡ none
  get_absent k [] h = refl
  get_absent k ((j, v) ∷ m) h = ground (arith, get_absent k m)

  pub get-entry :
      (k q : ℕ) (f : Option V → V) (m : List (ℕ × V))
      → IsSorted m
      → get q (entry k f m) ≡ (if k == q then some (f (get k m)) else get q m)
  get-entry k q f [] h = ground arith
  get-entry k q f ((j, v) ∷ m) h =
      ground (arith, get-entry k q f m, get_absent k m, Above-weaker k j m, Above-weaker q j m)

  pub get-remove :
      (k q : ℕ) (m : List (ℕ × V))
      → IsSorted m
      → get q (remove k m) ≡ (if k == q then none else get q m)
  get-remove k q [] h = ground arith
  get-remove k q ((j, v) ∷ m) h = ground (arith, get-remove k q m, get_absent k m)

  pub Above-remove : (lo k : ℕ) (m : List (ℕ × V)) → Above lo m → Above lo (remove k m)
  Above-remove lo k [] h = tt
  Above-remove lo k ((j, v) ∷ m) h = ground (arith, Above-remove lo k m)

  pub remove-IsSorted : (k : ℕ) (m : List (ℕ × V)) → IsSorted m → IsSorted (remove k m)
  remove-IsSorted k [] h = tt
  remove-IsSorted k ((j, v) ∷ m) h = ground (arith, remove-IsSorted k m, Above-remove j k m)

  pub get-Above : (lo k : ℕ) (v : V) (m : List (ℕ × V)) → Above lo m → get k m ≡ some v → lo < k
  get-Above lo k v [] h e = ground arith
  get-Above lo k v ((j, w) ∷ m) h e = ground (arith, get-Above lo k v m)
