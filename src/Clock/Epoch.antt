-- ===== src/Clock/Epoch.antt =====
-- `mktime` against the calendar: the days of the years since 1970, counted one by one.
use manrix.Base.{
  ℕ, zero, suc, ◌+◌, ◌-◌, ◌*◌, ◌/◌, ◌%◌, ◌≤◌, ◌<◌, ◌≡◌, refl, Bool, true, false, ◌&&◌, ◌||◌, not,
  some, List, [], ◌∷◌, arith, ltb, ◌==◌, if◌then◌else◌, ◌∙◌, ap,
}
use manrix.Base.Int.{ℤ, pos, sub_ℕ, ◌+ℤ◌, ltb_ℤ}
use manrix.Clock.{
  Tm, fits_long, sum_long, seconds, eoverflow, time_terms, made_time, clamp_sec, mktime,
}

-- The Gregorian rule.
pub is_leap : ℕ → Bool
is_leap y = y % 400 == 0 || (y % 4 == 0 && not (y % 100 == 0))

-- The days from 1 January 1970 to 1 January 1970 + n.
pub days_since_1970 : ℕ → ℕ
days_since_1970 zero = 0
days_since_1970 (suc n) = days_since_1970 n + (if is_leap (1970 + n) then 366 else 365)

days_closed : (n : ℕ) → days_since_1970 n + (n + 69) / 100 ≡ n * 365 + (n + 1) / 4 + (n + 369) / 400
unfolding days_since_1970 is_leap
days_closed zero = omega arith
days_closed (suc n) = ground (arith, days_closed n)

sum_long-step :
    (acc t next : ℤ) (ts : List ℤ)
    → acc +ℤ t ≡ next
    → fits_long t ≡ true
    → fits_long next ≡ true
    → sum_long acc (t ∷ ts) ≡ sum_long next ts
unfolding sum_long
sum_long-step acc t next ts e p q =
    let q' : fits_long (acc +ℤ t) ≡ true = rw e q in
    rw (p, q', sum_long) (ap (λ a. sum_long a ts) e)

-- Adding what `pos` holds, and taking it away again from enough.
pos-plus : (a b : ℕ) (t : ℤ) → pos b ≡ t → pos a +ℤ t ≡ pos (a + b)
unfolding ◌+ℤ◌
pos-plus a b t e = rw (← e) (ground arith)

pos-minus : (a b : ℕ) → b ≤ a → pos a +ℤ sub_ℕ 0 b ≡ pos (a - b)
unfolding ◌+ℤ◌
pos-minus a b le = ground arith

sum-plus :
    (a b : ℕ) (ts : List ℤ)
    → a + b < 0x8000_0000
    → sum_long (pos a) (pos b ∷ ts) ≡ sum_long (pos (a + b)) ts
sum-plus a b ts lt =
    sum_long-step (pos a) (pos b) (pos (a + b)) ts (pos-plus a b (pos b) refl) (ground arith)
      (ground arith)

sum-minus :
    (a b : ℕ) (ts : List ℤ)
    → b ≤ a
    → a < 0x8000_0000
    → sum_long (pos a) (sub_ℕ 0 b ∷ ts) ≡ sum_long (pos (a - b)) ts
sum-minus a b ts le lt =
    sum_long-step (pos a) (sub_ℕ 0 b) (pos (a - b)) ts (pos-minus a b le) (ground arith)
      (ground arith)

sum-end : (a b : ℕ) → a ≡ b → sum_long (pos a) [] ≡ some (pos b)
unfolding sum_long
sum-end a b e = ap (λ (t : ℕ). some (pos t)) e

-- A broken-down time with all fields in range.
abbrev pub tm : ℕ → ℕ → ℕ → ℕ → ℕ → Tm
tm sec minute hour yday year = record {
  tm_sec = pos sec;
  tm_min = pos minute;
  tm_hour = pos hour;
  tm_yday = pos yday;
  tm_year = pos year;
}

module _ (sec minute hour yday n : ℕ) (hs : sec < 60) (hm : minute < 60) (hh : hour < 24)
    (hd : yday < 366) (hn : n ≤ 67) where
  abbrev total : ℕ
  total = sec + minute * 60 + hour * 3600 + (yday + days_since_1970 n) * 86400

  sum_lem :
      sum_long (pos sec) (time_terms (tm sec minute hour yday (70 + n)) (70 + n)) ≡ some (pos total)
  sum_lem =
      let a₁ : ℕ = sec + minute * 60 in
      let a₂ : ℕ = a₁ + hour * 3600 in
      let a₃ : ℕ = a₂ + yday * 86400 in
      let a₄ : ℕ = a₃ + n * 31536000 in
      let a₅ : ℕ = a₄ + (70 + n - 69) / 4 * 86400 in
      let a₆ : ℕ = a₅ - (70 + n - 1) / 100 * 86400 in
      let years : sub_ℕ ((70 + n) * 31536000) (70 * 31536000) ≡ pos (n * 31536000) = ground arith in
      let same : a₆ + (70 + n + 299) / 400 * 86400 ≡ total = omega (arith, days_closed n) in
      rw years (
        sum-plus sec (minute * 60) _ (omega arith)
        ∙ sum-plus a₁ (hour * 3600) _ (omega arith)
        ∙ sum-plus a₂ (yday * 86400) _ (omega arith)
        ∙ sum-plus a₃ (n * 31536000) _ (omega arith)
        ∙ sum-plus a₄ ((70 + n - 69) / 4 * 86400) _ (omega arith)
        ∙ sum-minus a₅ ((70 + n - 1) / 100 * 86400) _ (omega arith) (omega arith)
        ∙ sum-plus a₆ ((70 + n + 299) / 400 * 86400) [] (omega arith)
        ∙ sum-end (a₆ + (70 + n + 299) / 400 * 86400) total same)

  -- For a broken-down time of the years 1970 to 2037 with its fields in range, `mktime` returns the
  -- seconds since the start of 1970, the days of the years counted by the Gregorian calendar. The one
  -- exception is the start of 1970 itself, for which it returns -1 with EOVERFLOW.
  pub mktime-days_since_1970 :
      mktime (tm sec minute hour yday (70 + n)) ≡ (if total == 0 then eoverflow else seconds total)
  unfolding mktime clamp_sec made_time
  mktime-days_since_1970 =
      let late : ltb_ℤ (pos (70 + n)) (pos 69) ≡ false = ground arith in
      let small : ltb 59 sec ≡ false = ground arith in rw (late, small, sum_lem, made_time) refl
