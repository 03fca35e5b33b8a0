-- ===== src/Sched/Tests.antt =====
-- Runs of the scheduler's theorems on a machine with three threads: thread 1 runs and is ready,
-- thread 2 sleeps, thread 9 is the idle thread.
use manrix.Base.{
  ℕ, ◌≤◌, ◌≡◌, refl, true, false, none, some, [], ◌∷◌, arith, ◌==◌, if◌then◌else◌, get_or,
}
use manrix.Base.Int.{pos}
use manrix.Kernel.{Ptr, Message, Thread, Kernel, thread_ready, thread_interruptible, update_thread}
use manrix.Sched.{prioq, last, sched_init, pick, wakeup, sched_timer, sched_other}
use manrix.Sched.Queues.{IsValid, is_ready}
use manrix.Sched.Moves.{enqueued}
use manrix.Sched.Policy.{woken, woken-IsValid, pick-highest, wakeup-IsValid}
use manrix.Sched.Ticks.{Ticked, sched_timer-Ticked}
use manrix.Sched.Init.{sched_init-IsValid}

abbrev pub no_message : Message
no_message = record { w1 = 0; w2 = 0; w3 = 0; w4 = 0; w5 = 0; tid = 0; flags = 0 }

-- A thread of the time-sharing class with static priority 20.
abbrev pub thread : ℕ → ℕ → Thread
thread tid states = record {
  tid = tid;
  states = states;
  schedpolicy = sched_other;
  priority_stat = 20;
  priority_dyn = 20;
  bound = pos 10;
  time_slice = pos 1;
  schedule = false;
  msg = no_message;
  rcvq = [];
  waiting = none;
  euid = 0;
}

-- All asleep, before `sched_init`. The tids 500 and 501 hash to 501 and 500.
abbrev pub asleep : Kernel
asleep = record {
  bitmap = 7;
  run = [];
  nthreads = pos 3;
  thr = λ t. if t == 1 then thread 500 thread_interruptible else thread 501 thread_interruptible;
  current = 1;
  init_thread = 9;
  thash = λ b. if b == 500 then 2 ∷ [] else if b == 501 then 1 ∷ [] else [];
}

abbrev pub initial : Kernel
initial = sched_init asleep

pub initial-IsValid : IsValid initial
initial-IsValid = (sched_init-IsValid asleep).0

abbrev pub started : Kernel
started = enqueued 1 (update_thread 1 woken initial)

pub started-IsValid : IsValid started
unfolding sched_init
started-IsValid = woken-IsValid 1 initial initial-IsValid refl (omega arith)

-- Thread 2 is ready as well.
abbrev pub both : Kernel
both = enqueued 2 (update_thread 2 woken started)

pub both-IsValid : IsValid both
unfolding sched_init
both-IsValid = woken-IsValid 2 started started-IsValid refl (omega arith)

pub caller_ready : is_ready started.current started ≡ true
unfolding sched_init
caller_ready = refl

pick-highest_example :
    (is_ready (pick started) started ≡ true)
    × (prioq (started.thr 1).priority_dyn ≤ prioq (started.thr (pick started)).priority_dyn)
    × (last (get_or started.run (prioq (started.thr (pick started)).priority_dyn) [])
        ≡ some (pick started))
unfolding sched_init
pick-highest_example = pick-highest started started-IsValid 1 caller_ready

wakeup-IsValid_example :
    (k' : Kernel) × (wakeup 2 started ≡ some k')
    × IsValid k'
    × ((u : Ptr) → is_ready u k' ≡ (if 2 == u then true else is_ready u started))
    × ((k'.thr 2).states ≡ thread_ready)
    × ((k'.thr 2).priority_dyn ≡ (started.thr 2).priority_stat)
unfolding sched_init
wakeup-IsValid_example = wakeup-IsValid 2 started started-IsValid refl (omega arith)

sched_timer-Ticked_example : Ticked started (sched_timer started)
unfolding sched_init
sched_timer-Ticked_example = sched_timer-Ticked started started-IsValid caller_ready (omega arith)
