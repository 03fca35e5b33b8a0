-- ===== src/Clock/Tests.antt =====
-- Runs of the time functions.
use manrix.Base.{◌+◌, ◌*◌, ◌≡◌, refl, true, some, arith, ◌==◌, if◌then◌else◌}
use manrix.Base.Int.{pos, negsuc, ◌+ℤ◌}
use manrix.Clock.{
  mktime, seconds, eoverflow, minus_one, undefined, sum_long, made_time, clamp_sec, ok, error,
  failed, clock, clock_getres, clock_gettime, clock_settime, time, timer_create, timer_delete,
  timer_gettime, nanosleep, einval,
}
use manrix.Clock.Epoch.{tm, days_since_1970, mktime-days_since_1970}

-- 29 February 2000, 12:00:00.
mktime-days_since_1970_example : mktime (tm 0 0 12 59 (70 + 30)) ≡ (
    if 0 + 0 * 60 + 12 * 3600 + (59 + days_since_1970 30) * 86400 == 0
    then eoverflow
    else seconds (0 + 0 * 60 + 12 * 3600 + (59 + days_since_1970 30) * 86400))
mktime-days_since_1970_example =
    mktime-days_since_1970 0 0 12 59 30 (omega arith) (omega arith) (omega arith) (omega arith)
      (omega arith)

leap_day : mktime (tm 0 0 12 59 100) ≡ seconds 951825600
unfolding mktime sum_long made_time clamp_sec ◌+ℤ◌
leap_day = refl

-- The start of 1970, the year 1968, and 2040, which no `long` holds.
epoch_start : mktime (tm 0 0 0 0 70) ≡ eoverflow
unfolding mktime sum_long made_time clamp_sec ◌+ℤ◌
epoch_start = refl

too_early : mktime (tm 0 0 0 0 68) ≡ minus_one
unfolding mktime
too_early = refl

too_late : mktime (tm 0 0 0 0 140) ≡ undefined
unfolding mktime sum_long made_time clamp_sec ◌+ℤ◌
too_late = refl

clock_test : clock (pos 5) ≡ ok (pos 5)
unfolding clock
clock_test = refl

clock_getres_test : clock_getres 2 (pos 0) ≡ error einval
unfolding clock_getres
clock_getres_test = refl

clock_gettime_test : clock_gettime 1 (negsuc 6) ≡ error 7
unfolding clock_gettime
clock_gettime_test = refl

clock_settime_test : clock_settime 1 (pos 3) ≡ ok (pos 0)
unfolding clock_settime
clock_settime_test = refl

time_test : time true (pos 9) ≡ (pos 9, some (pos 9))
unfolding time
time_test = refl

timer_create_test : timer_create 0 (pos 3) ≡ error einval
unfolding timer_create
timer_create_test = refl

timer_delete_test : timer_delete (negsuc 0) (pos 0) ≡ failed
unfolding timer_delete
timer_delete_test = refl

timer_gettime_test : timer_gettime (negsuc 0) ≡ error 1
unfolding timer_gettime
timer_gettime_test = refl

nanosleep_test : nanosleep (some (pos 10000001)) (pos 0) ≡ error einval
unfolding nanosleep
nanosleep_test = refl
