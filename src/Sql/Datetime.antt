-- ===== src/Sql/Datetime.antt =====
-- src/sql/datetime.rs: dates as days since 1970-01-01. A year, a month and a day are integers of the code's
-- i64, far from its bounds; a date's result keeps 32 bits.
pub mod Calendar
mod Tests
use chibidb.Prelude.{
  ℕ, ◌+◌, ◌-◌, ◌*◌, ◌/◌, ◌%◌, ◌^◌, Bool, true, false, not, ◌&&◌, ◌||◌, ltb, leb, ◌==◌,
  if◌then◌else◌, List, [], ◌∷◌, length, get_or, sub_list,
}
use chibidb.Prelude.Result.{Error, Result, ok, err}
use chibidb.Exec.Int64.{ℤ, neg, ◌+ℤ◌, ◌-ℤ◌, ◌*ℤ◌, quot}

abbrev malformed : Result ℕ
malformed = err (Error.runtime "invalid date, expected YYYY-MM-DD")

pub is_digit : ℕ → Bool
is_digit b = leb 0x30 b && leb b 0x39

pub all_digits : List ℕ → Bool
all_digits [] = true
all_digits (b ∷ bs) = let rest = all_digits bs in is_digit b && rest

-- `str::parse` on digits.
pub parse_digits : ℕ → List ℕ → ℕ
parse_digits acc [] = acc
parse_digits acc (b ∷ bs) = parse_digits (acc * 10 + (b - 0x30)) bs

pub is_leap : ℕ → Bool
is_leap y = (y % 4 == 0) && (not (y % 100 == 0) || (y % 400 == 0))

pub days_in_month : ℕ → ℕ → ℕ
days_in_month y m =
    if (m == 2)
    then (if is_leap y then 29 else 28)
    else if (m == 4) || ((m == 6) || ((m == 9) || (m == 11)))
    then 30
    else if leb 1 m && leb m 12
    then 31
    else 0

-- `if y >= 0 { y } else { y - by }`.
abbrev pub lowered : ℤ → ℕ → ℤ
lowered (ℤ.pos y) by = ℤ.pos y
lowered (ℤ.negsuc y) by = ℤ.negsuc y -ℤ ℤ.pos by

-- `days_from_civil` behind its first line, for the year that begins in March.
pub days_from_march : ℤ → ℕ → ℕ → ℤ
days_from_march y m d =
    let era = quot (lowered y 399) (ℤ.pos 400) in
    let yoe = y -ℤ era *ℤ ℤ.pos 400 in
    let mp = (m + 9) % 12 in
    let doy = ℤ.pos ((153 * mp + 2) / 5 + d) -ℤ ℤ.pos 1 in
    let doe = yoe *ℤ ℤ.pos 365 +ℤ quot yoe (ℤ.pos 4) -ℤ quot yoe (ℤ.pos 100) +ℤ doy in
    era *ℤ ℤ.pos 146097 +ℤ doe -ℤ ℤ.pos 719468

pub days_from_civil : ℤ → ℕ → ℕ → ℤ
days_from_civil y m d = days_from_march (if leb m 2 then y -ℤ ℤ.pos 1 else y) m d

-- `as u32` of an i64.
abbrev pub as_u32 : ℤ → ℕ
as_u32 (ℤ.pos n) = n % 2 ^ 32
as_u32 (ℤ.negsuc n) = 2 ^ 32 - 1 - n % 2 ^ 32

abbrev pub is_below : ℤ → ℕ → Bool
is_below (ℤ.pos n) bound = ltb n bound
is_below (ℤ.negsuc n) bound = true

pub civil_from_days : ℤ → ℤ × ℕ × ℕ
civil_from_days days =
    let z = days +ℤ ℤ.pos 719468 in
    let era = quot (lowered z 146096) (ℤ.pos 146097) in
    let doe = z -ℤ era *ℤ ℤ.pos 146097 in
    let yoe =
      quot (doe -ℤ quot doe (ℤ.pos 1460) +ℤ quot doe (ℤ.pos 36524) -ℤ quot doe (ℤ.pos 146096))
        (ℤ.pos 365) in
    let y = yoe +ℤ era *ℤ ℤ.pos 400 in
    let doy = doe -ℤ (yoe *ℤ ℤ.pos 365 +ℤ quot yoe (ℤ.pos 4) -ℤ quot yoe (ℤ.pos 100)) in
    let mp = quot (ℤ.pos 5 *ℤ doy +ℤ ℤ.pos 2) (ℤ.pos 153) in
    let d = as_u32 (doy -ℤ quot (ℤ.pos 153 *ℤ mp +ℤ ℤ.pos 2) (ℤ.pos 5) +ℤ ℤ.pos 1) in
    let m = as_u32 (if is_below mp 10 then mp +ℤ ℤ.pos 3 else mp -ℤ ℤ.pos 9) in
    (if leb m 2 then y +ℤ ℤ.pos 1 else y, m, d)

-- The tests of `parse_date` on the bytes alone.
pub is_well_formed : List ℕ → Bool
is_well_formed b =
    (length b == 10)
    && ((get_or b 4 0 == 0x2D)
        && ((get_or b 7 0 == 0x2D)
            && (all_digits (sub_list 0 4 b)
                && (all_digits (sub_list 5 7 b) && all_digits (sub_list 8 10 b)))))

pub parse_date : List ℕ → Result ℕ
parse_date s =
    let year = parse_digits 0 (sub_list 0 4 s) in
    let month = parse_digits 0 (sub_list 5 7 s) in
    let day = parse_digits 0 (sub_list 8 10 s) in
    if not (is_well_formed s)
    then malformed
    else if not (leb 1 month && leb month 12)
    then malformed
    else if (day == 0) || ltb (days_in_month year month) day
    then malformed
    else ok (as_u32 (days_from_civil (ℤ.pos year) month day))
