-- ===== src/Prelude/Map.antt =====
-- `HashMap` as an association list, over keys with a decidable equality. The first entry of a key
-- is the one that counts; `insert` keeps keys apart.
use mathlib.Core.Path.{◌≡◌, refl}
use mathlib.Core.Logic.{ite}
use mathlib.Core.List.{List, [], ◌∷◌}
use mathlib.Core.Option.{Option, none, some}
use native.Mathlib.Omega.{arith}

module _ {ℓ} {K V : Type ℓ} (dec : Discrete K) where
  abbrev pub get : K → List (K × V) → Option V
  get k [] = none
  get k ((j, v) ∷ m) = ite (dec j k) (some v) (get k m)

  abbrev pub insert : K → V → List (K × V) → List (K × V)
  insert k v [] = (k, v) ∷ []
  insert k v ((j, w) ∷ m) = ite (dec j k) ((k, v) ∷ m) ((j, w) ∷ insert k v m)

  abbrev pub remove : K → List (K × V) → List (K × V)
  remove k [] = []
  remove k ((j, v) ∷ m) = ite (dec j k) (remove k m) ((j, v) ∷ remove k m)

  -- `entry(k).or_default()`, read.
  abbrev pub get_default : V → K → List (K × V) → V
  get_default d k m = elim (get k m) [ none ↦ d | some v ↦ v ]

-- `values_mut()` with a body `f`, and `keys`.
abbrev pub map_values {ℓ} : {K V : Type ℓ} → (V → V) → List (K × V) → List (K × V)
map_values f [] = []
map_values f ((j, v) ∷ m) = (j, f v) ∷ map_values f m

module _ {ℓ} {K V : Type ℓ} (dec : Discrete K) where
  pub get-insert :
      (k q : K) (v : V) (m : List (K × V))
      → get dec q (insert dec k v m) ≡ ite (dec k q) (some v) (get dec q m)
  get-insert k q v [] = refl
  get-insert k q v ((j, w) ∷ m) = ground (arith, get-insert k q v m)

  pub get-remove :
      (k q : K) (m : List (K × V)) → get dec q (remove dec k m) ≡ ite (dec k q) none (get dec q m)
  get-remove k q [] = ground arith
  get-remove k q ((j, w) ∷ m) = ground (arith, get-remove k q m)

  pub get-map_values :
      (f : V → V) (q : K) (m : List (K × V))
      → get dec q (map_values f m) ≡ (elim (get dec q m) [ none ↦ none | some v ↦ some (f v) ])
  get-map_values f q [] = refl
  get-map_values f q ((j, w) ∷ m) = ground (arith, get-map_values f q m)

  pub get_default-insert :
      (d : V) (k q : K) (v : V) (m : List (K × V))
      → get_default dec d q (insert dec k v m) ≡ ite (dec k q) v (get_default dec d q m)
  get_default-insert d k q v m = ground (arith, get-insert k q v m)

  pub get_default-remove :
      (d : V) (k q : K) (m : List (K × V))
      → get_default dec d q (remove dec k m) ≡ ite (dec k q) d (get_default dec d q m)
  get_default-remove d k q m = ground (arith, get-remove k q m)
