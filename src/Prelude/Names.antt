-- ===== src/Prelude/Names.antt =====
-- Text as the list of its UTF-8 bytes: table names, user names.
use Prim.Native.Nat.{ℕ}
use mathlib.Core.List.{List}
use native.Mathlib.Decide.{ℕ_discrete}

abbrev pub Name : Type 0
Name = List ℕ

unfoldable pub Name_discrete : Discrete Name
unfolding ℕ_discrete
Name_discrete = hlevel ℕ_discrete
