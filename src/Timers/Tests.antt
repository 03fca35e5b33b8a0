-- ===== src/Timers/Tests.antt =====
-- Thread 2 of the scheduler's test machine sleeps, with the timer 50 in the list whose head is 40.
use manrix.Base.{ℕ, ◌≡◌, refl, true, none, some, [], ◌∷◌, ◌==◌, if◌then◌else◌, arith}
use manrix.Kernel.{Ptr, thread_running}
use manrix.DList.{Links}
use manrix.Sched.{sched_init}
use manrix.Sched.Queues.{IsValid, is_ready}
use manrix.Sched.Tests.{started, started-IsValid}
use manrix.Threads.{hash_fn}
use manrix.Timers.{sigev_none, Timer, TimerState, timer_by_id, again, check_round}
use manrix.Timers.Expiry.{Sleeper, check_round-early}

abbrev sleeper : Timer
sleeper = record {
  timeout = 7;
  nextarm = 0;
  notify = sigev_none;
  signo = 0;
  owner = 2;
  flag = 9;
  timer_id = 1;
  next = 0;
}

abbrev unused : Timer
unused = record sleeper { flag = 0; timer_id = 0; owner = 0 }

abbrev timers : Links → ℕ → TimerState
timers l now = record {
  kernel = started;
  timer = λ p. sleeper;
  tmhash = λ i. unused;
  links = l;
  head = 40;
  proc = λ p. 3;
  timers_of = λ pid. 50 ∷ [];
  ticks = now;
  sent = [];
}

abbrev no_timer : Links
no_timer = record { next = λ p. p; prev = λ p. p }

abbrev one_timer : Links
one_timer = record {
  next = λ p. if p == 40 then 50 else 40;
  prev = λ p. if p == 40 then 50 else 40;
}

abbrev at : ℕ → TimerState
at now = timers one_timer now

at-Sleeper : (now : ℕ) → Sleeper 50 4 (at now)
unfolding timer_by_id hash_fn sched_init
at-Sleeper now = record {
  last = refl;
  not_empty = ground arith;
  not_head = ground arith;
  sleeps = refl;
  off = refl;
  range = omega arith;
  valid = started-IsValid;
  unknown = refl;
}

check_round-early_example :
    (s' : TimerState) × (check_round 4 none (at 5) ≡ again (some 2) s')
    × ((u : Ptr) → is_ready u s'.kernel ≡ (if 2 == u then true else is_ready u started))
    × ((s'.kernel.thr 2).states ≡ thread_running)
    × IsValid s'.kernel
check_round-early_example = check_round-early 50 4 none (at 5) (at-Sleeper 5) (omega arith)
