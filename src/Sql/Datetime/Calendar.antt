-- ===== src/Sql/Datetime/Calendar.antt =====
-- The count of days follows the calendar.
use chibidb.Prelude.{
  ℕ, zero, suc, ◌+◌, ◌-◌, ◌*◌, ◌/◌, ◌%◌, ◌≤◌, ◌<◌, ◌≡◌, refl, sym, ap, subst, ◌∙◌, inl, inr, ltb,
  leb, ◌==◌, if◌then◌else◌, Bool-cases, arith,
}
use chibidb.Exec.Int64.{ℤ, ◌+ℤ◌, ◌-ℤ◌}
use chibidb.Sql.Datetime.{is_leap, days_in_month, days_from_march, days_from_civil}

pos-sub : (a b : ℕ) → b ≤ a → ℤ.pos a -ℤ ℤ.pos b ≡ ℤ.pos (a - b)
pos-sub a zero h = ap ℤ.pos (omega arith)
pos-sub a (suc b) h = ground arith

-- The days up to a day of the year that begins in March, all from the year 0 on.
abbrev march_days : ℕ → ℕ → ℕ → ℕ
march_days y m d = 365 * y + y / 4 - y / 100 + y / 400 + (153 * ((m + 9) % 12) + 2) / 5 + d - 1

days_from_march-pos :
    (y m d : ℕ) → 1 ≤ d → days_from_march (ℤ.pos y) m d ≡ ℤ.pos (march_days y m d) -ℤ ℤ.pos 719468
unfolding days_from_march
days_from_march-pos y m d h =
    let yoe = y - y / 400 * 400 in
    let before = (153 * ((m + 9) % 12) + 2) / 5 in
    rw
      (
        pos-sub y (y / 400 * 400) (omega arith),
        pos-sub (before + d) 1 (omega arith),
        pos-sub (yoe * 365 + yoe / 4) (yoe / 100) (omega arith),
      )
      (ap (λ (n : ℕ). ℤ.pos n -ℤ ℤ.pos 719468) (omega arith))

-- The year that began in March, for a year after 0.
abbrev march_year : ℕ → ℕ → ℕ
march_year y m = if leb m 2 then y - 1 else y

days_from_civil-pos :
    (y m d : ℕ)
    → 1 ≤ y
    → 1 ≤ d
    → days_from_civil (ℤ.pos y) m d ≡ ℤ.pos (march_days (march_year y m) m d) -ℤ ℤ.pos 719468
unfolding days_from_civil
days_from_civil-pos y m d h k = elim (Bool-cases (leb m 2)) [
  | inl e ↦ rw (e, pos-sub y 1 h) (days_from_march-pos (y - 1) m d k)
  | inr e ↦ rw e (days_from_march-pos y m d k)
]

-- The day after, by the calendar.
unfoldable pub next_day : ℕ → ℕ → ℕ → ℕ × ℕ × ℕ
next_day y m d =
    if ltb d (days_in_month y m)
    then (y, m, d + 1)
    else if m == 12
    then (y + 1, 1, 1)
    else (y, m + 1, 1)

one_more : (n : ℕ) → ℤ.pos (n + 1) -ℤ ℤ.pos 719468 ≡ (ℤ.pos n -ℤ ℤ.pos 719468) +ℤ ℤ.pos 1
one_more n = ground arith

inside_month :
    (y m d : ℕ)
    → 1 ≤ d
    → march_days (march_year y m) m (d + 1) ≡ march_days (march_year y m) m d + 1
inside_month y m d h = omega arith

end_of_year :
    (y : ℕ) → 1 ≤ y → march_days (march_year (y + 1) 1) 1 1 ≡ march_days (march_year y 12) 12 31 + 1
end_of_year y h = omega arith

end_of_february : (y : ℕ) → 1 ≤ y → march_days y 3 1 ≡ march_days (y - 1) 2 (days_in_month y 2) + 1
unfolding days_in_month is_leap
end_of_february y h = ground arith

-- The first day of the next month follows the last of a month that does not end the year.
end_of_month :
    (y m : ℕ)
    → 1 ≤ y
    → 1 ≤ m
    → m < 12
    → march_days (march_year y (m + 1)) (m + 1) 1
      ≡ march_days (march_year y m) m (days_in_month y m) + 1
unfolding days_in_month
end_of_month y m h lo hi = elim (Bool-cases (m == 2)) [
  | inl e ↦
      let two : 2 ≡ m = ground arith in
      subst
        (λ (k : ℕ).
          march_days (march_year y (k + 1)) (k + 1) 1
          ≡ march_days (march_year y k) k (days_in_month y k) + 1)
        two (unfold days_in_month in end_of_february y h)
  | inr e ↦ rw e (ground arith)
]

-- The count of the days of a date is that of the day before, and one.
count_step :
    (y m d y' m' d' : ℕ)
    → 1 ≤ y
    → 1 ≤ d
    → 1 ≤ y'
    → 1 ≤ d'
    → march_days (march_year y' m') m' d' ≡ march_days (march_year y m) m d + 1
    → days_from_civil (ℤ.pos y') m' d' ≡ days_from_civil (ℤ.pos y) m d +ℤ ℤ.pos 1
count_step y m d y' m' d' h k h' k' e =
    days_from_civil-pos y' m' d' h' k'
    ∙ ap (λ (n : ℕ). ℤ.pos n -ℤ ℤ.pos 719468) e
    ∙ one_more (march_days (march_year y m) m d)
    ∙ ap (λ (z : ℤ). z +ℤ ℤ.pos 1) (sym (days_from_civil-pos y m d h k))

last_of_year :
    (y m d : ℕ)
    → 1 ≤ y
    → 12 ≡ m
    → days_in_month y m ≡ d
    → march_days (march_year (y + 1) 1) 1 1 ≡ march_days (march_year y m) m d + 1
unfolding days_in_month
last_of_year y m d h twelve same =
    let long : 31 ≡ d = subst (λ (k : ℕ). days_in_month y k ≡ d) (sym twelve) same in
    subst (λ (k : ℕ). march_days (march_year (y + 1) 1) 1 1 ≡ march_days (march_year y k) k d + 1)
      twelve
      (subst
        (λ (j : ℕ). march_days (march_year (y + 1) 1) 1 1 ≡ march_days (march_year y 12) 12 j + 1)
        long (end_of_year y h))

-- For every date after the year 0, the day after it by the calendar, which takes the length of the months
-- from `days_in_month`, has the next number; 1970-01-01 has the number 0.
pub days_from_civil-next_day :
    (y m d : ℕ)
    → 1 ≤ y
    → (1 ≤ m) × (m ≤ 12)
    → (1 ≤ d) × (d ≤ days_in_month y m)
    → (let (y', m', d') = next_day y m d in
        days_from_civil (ℤ.pos y') m' d' ≡ days_from_civil (ℤ.pos y) m d +ℤ ℤ.pos 1)
      × (days_from_civil (ℤ.pos 1970) 1 1 ≡ ℤ.pos 0)
unfolding next_day
days_from_civil-next_day y m d h month day = (
  elim (Bool-cases (ltb d (days_in_month y m))) [
    | inl inside ↦
        rw inside
          (count_step y m d y m (d + 1) h (day.0) h (omega arith) (inside_month y m d (day.0)))
    | inr last ↦
        let same : days_in_month y m ≡ d = ground (arith, day.1) in
        elim (Bool-cases (m == 12)) [
          | inl e ↦
              rw (last, e)
                (count_step y m d (y + 1) 1 1 h (day.0) (omega arith) (omega arith)
                  (last_of_year y m d h (ground arith) same))
          | inr e ↦
              rw (last, e)
                (count_step y m d y (m + 1) 1 h (day.0) h (omega arith) (
                  subst
                    (λ (k : ℕ).
                      march_days (march_year y (m + 1)) (m + 1) 1
                      ≡ march_days (march_year y m) m k + 1)
                    same (end_of_month y m h (month.0) (ground (arith, month.1)))))
        ]
  ],
  unfold days_from_civil days_from_march in refl,
)
