-- ===== src/Exec/Chars.antt =====
-- `str::chars`: the characters of a UTF-8 text, as their code points.
use chibidb.Prelude.{ℕ, zero, suc, ◌+◌, ◌-◌, ◌*◌, ltb, if◌then◌else◌, List, [], ◌∷◌}

-- `more` bytes of a character are to come, whose bits so far are `acc`.
unfoldable pub chars_from : ℕ → ℕ → List ℕ → List ℕ
chars_from more acc [] = []
chars_from zero acc (b ∷ bs) =
    let one = chars_from 0 0 bs in
    let two = chars_from 1 (b - 0xC0) bs in
    let three = chars_from 2 (b - 0xE0) bs in
    let four = chars_from 3 (b - 0xF0) bs in
    if ltb b 0x80 then b ∷ one else if ltb b 0xE0 then two else if ltb b 0xF0 then three else four
chars_from (suc zero) acc (b ∷ bs) = (acc * 64 + (b - 0x80)) ∷ chars_from 0 0 bs
chars_from (suc (suc more)) acc (b ∷ bs) = chars_from (suc more) (acc * 64 + (b - 0x80)) bs

unfoldable pub chars : List ℕ → List ℕ
chars = chars_from 0 0
