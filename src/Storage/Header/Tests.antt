-- ===== src/Storage/Header/Tests.antt =====
-- Runs of the header, and the theorem at a concrete page.
use chibidb.Prelude.{ℕ, ◌≡◌, refl, List, [], ◌∷◌, replicate}
use chibidb.Prelude.Result.{Error, err}
use chibidb.Storage.Slotted.{Page}
use chibidb.Storage.Header.{FileKind, read_header, from_byte}

-- "CHIDTEST".
abbrev magic : List ℕ
magic = 67 ∷ 72 ∷ 73 ∷ 68 ∷ 84 ∷ 69 ∷ 83 ∷ 84 ∷ []

abbrev blank : Page
blank = replicate 64 0

short_run :
    read_header (replicate 4 0) magic FileKind.heap ≡ err (Error.runtime "not a chibidb data file")
unfolding read_header
short_run = refl

kind_run : from_byte 7 ≡ err (Error.runtime "unknown file kind")
unfolding from_byte
kind_run = refl
