-- ===== src/Clock.antt =====
-- Time in the C library (soft/libc/timer/time.c). What a system call returns is an argument of its
-- wrapper.
pub mod Epoch
mod Tests
use manrix.Base.{
  ℕ, ◌+◌, ◌-◌, ◌*◌, ◌/◌, Bool, true, false, ◌&&◌, ◌||◌, Option, none, some, List, [], ◌∷◌, ltb,
  ◌==◌, if◌then◌else◌,
}
use manrix.Base.Int.{ℤ, pos, negsuc, sub_ℕ, ◌+ℤ◌, ltb_ℤ, pos_part}

-- `struct tm`, the fields that `mktime` reads.
pub record Tm : Type 0 where
  pub tm_sec : ℤ
  pub tm_min : ℤ
  pub tm_hour : ℤ
  pub tm_yday : ℤ
  pub tm_year : ℤ

-- A value that a 32-bit `long` can hold.
abbrev pub fits_long : ℤ → Bool
fits_long (pos n) = ltb n 0x8000_0000
fits_long (negsuc n) = ltb n 0x8000_0000

-- `x * c`
abbrev pub times : ℤ → ℕ → ℤ
times (pos n) c = pos (n * c)
times (negsuc n) c = sub_ℕ 0 ((n + 1) * c)

-- `acc + t₁ + t₂ + …`, from the left; `none` where a term or a sum leaves the range of `long`.
unfoldable pub sum_long : ℤ → List ℤ → Option ℤ
sum_long acc [] = some acc
sum_long acc (t ∷ ts) = elim (fits_long t && fits_long (acc +ℤ t)) [
  | false ↦ none
  | true ↦ sum_long (acc +ℤ t) ts
]

pub data MadeTime : Type 0 where
  seconds : ℕ → MadeTime
  minus_one : MadeTime
  eoverflow : MadeTime
  undefined : MadeTime

-- The terms of the sum, with the year at least 69.
abbrev pub time_terms : Tm → ℕ → List ℤ
time_terms t year =
    times t.tm_min 60
    ∷ times t.tm_hour 3600
    ∷ times t.tm_yday 86400
    ∷ sub_ℕ (year * 31536000) (70 * 31536000)
    ∷ pos ((year - 69) / 4 * 86400)
    ∷ sub_ℕ 0 ((year - 1) / 100 * 86400)
    ∷ pos ((year + 299) / 400 * 86400)
    ∷ []

-- The test at the end of `mktime`.
unfoldable pub made_time : Option ℤ → MadeTime
made_time none = undefined
made_time (some (negsuc n)) = eoverflow
made_time (some (pos n)) = if n == 0 then eoverflow else seconds n

-- `tm_sec` after the two tests, which write it back.
unfoldable pub clamp_sec : ℤ → ℤ
clamp_sec (negsuc n) = pos 0
clamp_sec (pos n) = if ltb 59 n then pos 59 else pos n

unfoldable pub mktime : Tm → MadeTime
mktime t =
    if ltb_ℤ t.tm_year (pos 69)
    then minus_one
    else made_time (sum_long (clamp_sec t.tm_sec) (time_terms t (pos_part t.tm_year)))

-- How a wrapper ends: with a value, or with -1 and `errno`.
pub data Returned : Type 0 where
  ok : ℤ → Returned
  error : ℕ → Returned
  failed : Returned

abbrev pub einval : ℕ
einval = 0x1d

-- `if(ret < 0) { errno = -ret; return -1; } return …;`
pub checked : ℤ → ℤ → Returned
checked (pos n) value = ok value
checked (negsuc n) value = error (n + 1)

-- `clock`
pub clock : ℤ → Returned
clock ret = ok ret

-- CLOCK_REALTIME is 1.
pub on_realtime : ℕ → ℤ → Returned
unfolding checked
on_realtime clk ret = if clk == 1 then checked ret (pos 0) else error einval

pub clock_getres : ℕ → ℤ → Returned
unfolding on_realtime
clock_getres clk ret = on_realtime clk ret

pub clock_gettime : ℕ → ℤ → Returned
unfolding on_realtime
clock_gettime clk ret = on_realtime clk ret

pub clock_settime : ℕ → ℤ → Returned
unfolding on_realtime
clock_settime clk ret = on_realtime clk ret

-- `time`: the result of `syscall_gettime`, which is also stored unless the pointer is NULL.
pub time : Bool → ℤ → ℤ × Option ℤ
time stored tm = (tm, (if stored then some tm else none))

pub timer_create : ℕ → ℤ → Returned
unfolding on_realtime
timer_create clk ret = on_realtime clk ret

-- A negative id fails without `errno`.
pub timer_delete : ℤ → ℤ → Returned
unfolding checked
timer_delete (negsuc n) ret = failed
timer_delete (pos id) ret = checked ret (pos 0)

pub timer_gettime : ℤ → Returned
unfolding checked
timer_gettime ret = checked ret (pos 0)

-- `nanosleep`; `request` is `rqtp->tv_nsec`, if the pointer is not NULL.
pub nanosleep : Option ℤ → ℤ → Returned
unfolding checked
nanosleep none ret = error einval
nanosleep (some (negsuc n)) ret = error einval
nanosleep (some (pos nsec)) ret = if ltb 10000000 nsec then error einval else checked ret ret
