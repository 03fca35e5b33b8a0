-- ===== src/Signal/Tests.antt =====
-- Runs of the theorems on signals, on the machine of the scheduler's tests.
use manrix.Base.{
  ℕ, ◌≡◌, refl, ◌≢◌, true, false, ◌==◌, if◌then◌else◌, none, some, [], ◌∷◌, arith, get_or,
  replicate,
}
use manrix.Base.Int.{pos}
use manrix.Bits.{check_set}
use manrix.Kernel.{enomem, einval, thread_interruptible}
use manrix.Sched.{sched_init}
use manrix.Sched.Tests.{started}
use manrix.Signal.{
  SigQueue, SigAction, Signals, is_blocked, dequeue_signal, no_action, ok, failed, send_signal,
  send_signal_any, init_signals, sigaction, sigprocmask, sigsuspend, find_queued, sigaltstack,
}
use manrix.Signal.Laws.{Takes, dequeue_signal-Takes}

abbrev queue_entry : ℕ → SigQueue
queue_entry signal = record { signal = signal; sinfo = 0 }

abbrev handler : SigAction
handler = record { sa_mask = 0; sa_flags = 0; sa_handler = 4096 }

-- Every signal has a handler, 6 and 7 are queued, and the thread blocks 1 and 3.
abbrev signals : Signals
signals = record {
  kernel = started;
  sigqueue = queue_entry 7 ∷ queue_entry 6 ∷ [];
  action = replicate 32 handler;
  sa_mask = λ t. 10;
  sigpending = λ t. true;
  status = 0;
  exit_status = 0;
  ss = record { ss_sp = 0; ss_size = 0; ss_flags = 0 };
}

find_queued_test : find_queued 1 (queue_entry 4 ∷ queue_entry 7 ∷ []) ≡ some (queue_entry 7)
unfolding find_queued
find_queued_test = refl

send_signal_test : send_signal true 1 (pos 33) 0 signals ≡ failed einval
unfolding send_signal
send_signal_test = refl

send_signal_any_test : send_signal_any true (1 ∷ []) 3 0 signals ≡ ok signals
unfolding send_signal_any is_blocked check_set
send_signal_any_test = refl

sigaction_test : sigaction (pos 10) none signals ≡ (none, failed einval)
unfolding sigaction
sigaction_test = refl

sigprocmask_test :
    sigprocmask 1 (some 5) signals
    ≡ (10, ok (record signals { sa_mask = λ t. if signals.kernel.current == t then 15 else 10 }))
unfolding sigprocmask
sigprocmask_test = refl

-- A process without a signal stack cannot get one.
sigaltstack_test :
    sigaltstack (some (record { ss_sp = 4096; ss_size = 8192; ss_flags = 0 })) signals
    ≡ (signals.ss, failed enomem)
unfolding sigaltstack
sigaltstack_test = refl

init_signals_test : get_or init_signals 5 handler ≡ no_action
unfolding init_signals
init_signals_test = refl

sigsuspend_test : sigsuspend 0 (record signals { sigqueue = [] }) ≢ failed einval
unfolding sigsuspend
sigsuspend_test = ground arith

dequeue_signal-Takes_example : Takes 10 signals.sigqueue (dequeue_signal 10 signals.sigqueue)
dequeue_signal-Takes_example = dequeue_signal-Takes 10 signals.sigqueue

six_free : is_blocked 10 6 ≡ false
unfolding is_blocked check_set
six_free = refl

seven_free : is_blocked 10 7 ≡ false
unfolding is_blocked check_set
seven_free = refl

has_handler : (get_or signals.action 5 no_action).sa_handler ≢ 1
has_handler = ground arith

awake : (signals.kernel.thr 1).states ≢ thread_interruptible
unfolding sched_init
awake = ground arith
