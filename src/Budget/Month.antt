-- ===== src/Budget/Month.antt =====
-- The start of the calendar month of a time in UTC, as `reserve` of app/budget.py computes it by
-- `datetime`: the months are walked from January 1970.
use personal_vault_rag.Prelude.{
  Bool, arith, if◌then◌else◌, ltb, not, suc, zero, ℕ, ◌%◌, ◌&&◌, ◌*◌, ◌+◌, ◌/◌, ◌<◌, ◌==◌, ◌||◌,
  ◌≤◌,
}

abbrev pub day : ℕ
day = 86_400_000_000

is_leap : ℕ → Bool
is_leap y = (y % 4 == 0) && (not (y % 100 == 0) || (y % 400 == 0))

-- The days of month 1 to 12.
month_days : ℕ → ℕ → ℕ
unfolding is_leap
month_days y m =
    if m == 2
    then (if is_leap y then 29 else 28)
    else if (m == 4) || (m == 6) || (m == 9) || (m == 11)
    then 30
    else 31

-- From the first day `start` of month `m` of year `y`: the first day of the month of day `d`.
walk : ℕ → ℕ → ℕ → ℕ → ℕ → ℕ
walk zero y m start d = start
walk (suc fuel) y m start d =
    let next = start + month_days y m in
    let rest = walk fuel (if m == 12 then y + 1 else y) (if m == 12 then 1 else m + 1) next d in
    if ltb d next then start else rest

-- A month has 28 days at least, so the fuel reaches the month of the day.
unfoldable pub month_start : ℕ → ℕ
unfolding walk month_days
month_start stamp = let d = stamp / day in walk (d / 28 + 1) 1970 1 0 d * day

month_days_ge : (y m : ℕ) → 28 ≤ month_days y m
unfolding month_days
month_days_ge y m = ground arith

walk_bounds : (f y m s d : ℕ) → s ≤ d → (s ≤ walk f y m s d) × (walk f y m s d ≤ d)
unfolding walk
walk_bounds zero y m s d h = (omega arith, h)
walk_bounds (suc f) y m s d h = ground (
  arith,
  month_days_ge y m,
  walk_bounds f (if m == 12 then y + 1 else y) (if m == 12 then 1 else m + 1) (s + month_days y m)
      d,
)

walk_mono :
    (f g y m s d e : ℕ)
    → s ≤ d
    → d ≤ e
    → d < s + 28 * f
    → e < s + 28 * g
    → walk f y m s d ≤ walk g y m s e
unfolding walk
walk_mono zero g y m s d e h k p q = absurd (omega arith)
walk_mono (suc f) zero y m s d e h k p q = absurd (omega arith)
walk_mono (suc f) (suc g) y m s d e h k p q = ground (
  arith,
  month_days_ge y m,
  walk_bounds g (if m == 12 then y + 1 else y) (if m == 12 then 1 else m + 1) (s + month_days y m)
      e,
  walk_mono f g (if m == 12 then y + 1 else y) (if m == 12 then 1 else m + 1) (s + month_days y m) d
      e,
)

-- The month of a time starts no later than the time.
pub month_start-le : (t : ℕ) → month_start t ≤ t
unfolding month_start
month_start-le t =
    omega (arith, (walk_bounds (t / day / 28 + 1) 1970 1 0 (t / day) (omega arith)).1)

-- A later time has no earlier month.
pub month_start_mono : (t u : ℕ) → t ≤ u → month_start t ≤ month_start u
unfolding month_start
month_start_mono t u h = omega (
  arith,
  walk_mono (t / day / 28 + 1) (u / day / 28 + 1) 1970 1 0 (t / day) (u / day) (omega arith)
      (omega arith) (omega arith) (omega arith),
)

month_days_le : (y m : ℕ) → month_days y m ≤ 31
unfolding month_days
month_days_le y m = ground arith

walk_reaches : (f y m s d : ℕ) → s ≤ d → d < s + 28 * f → d < walk f y m s d + 31
unfolding walk
walk_reaches zero y m s d h p = absurd (omega arith)
walk_reaches (suc f) y m s d h p = ground (
  arith,
  month_days_ge y m,
  month_days_le y m,
  walk_reaches f (if m == 12 then y + 1 else y) (if m == 12 then 1 else m + 1) (s + month_days y m)
      d,
)

-- The walk has fuel enough: the month of a time starts less than 31 days before it.
pub month_start_reaches : (t : ℕ) → t < month_start t + 31 * day
unfolding month_start
month_start_reaches t =
    omega (arith, walk_reaches (t / day / 28 + 1) 1970 1 0 (t / day) (omega arith) (omega arith))
