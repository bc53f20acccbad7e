-- ===== src/Sql/Datetime/Tests.antt =====
-- Some dates.
use chibidb.Prelude.{◌≡◌, refl, [], ◌∷◌, arith}
use chibidb.Prelude.Result.{Error, ok, err}
use chibidb.Exec.Int64.{ℤ, ◌+ℤ◌}
use chibidb.Sql.Datetime.{
  is_digit, all_digits, parse_digits, is_leap, days_in_month, days_from_march, days_from_civil,
  civil_from_days, is_well_formed, parse_date,
}
use chibidb.Sql.Datetime.Calendar.{next_day, days_from_civil-next_day}

-- `2000-02-29`, and `1900-02-29`.
parses :
    parse_date (0x32 ∷ 0x30 ∷ 0x30 ∷ 0x30 ∷ 0x2D ∷ 0x30 ∷ 0x32 ∷ 0x2D ∷ 0x32 ∷ 0x39 ∷ []) ≡ ok 11016
unfolding parse_date is_well_formed all_digits is_digit parse_digits is_leap days_in_month
    days_from_march days_from_civil
parses = refl

no_leap :
    parse_date (0x31 ∷ 0x39 ∷ 0x30 ∷ 0x30 ∷ 0x2D ∷ 0x30 ∷ 0x32 ∷ 0x2D ∷ 0x32 ∷ 0x39 ∷ [])
    ≡ err (Error.runtime "invalid date, expected YYYY-MM-DD")
unfolding parse_date is_well_formed all_digits is_digit parse_digits is_leap days_in_month
    days_from_march days_from_civil
no_leap = refl

back : civil_from_days (ℤ.pos 11016) ≡ (ℤ.pos 2000, 2, 29)
unfolding civil_from_days
back = refl

before_epoch : civil_from_days (ℤ.negsuc 0) ≡ (ℤ.pos 1969, 12, 31)
unfolding civil_from_days
before_epoch = refl

days_from_civil-next_day_example :
    (days_from_civil (ℤ.pos 2001) 1 1 ≡ days_from_civil (ℤ.pos 2000) 12 31 +ℤ ℤ.pos 1)
    × (days_from_civil (ℤ.pos 1970) 1 1 ≡ ℤ.pos 0)
unfolding days_in_month next_day
days_from_civil-next_day_example =
    days_from_civil-next_day 2000 12 31 (omega arith) (omega arith, omega arith)
      (omega arith, omega arith)
