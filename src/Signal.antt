-- ===== src/Signal.antt =====
-- Signals (microkernel/kernel/signal.c). The queue of a process is the list of its queued signals
-- from the front, where `enqueue_signal` adds. `stray` stands for what `is_pending` makes of an
-- empty queue, where it reads the list head as if it was an item.
pub mod Laws
mod Tests
use Prim.Native.Nat.{bit_and, bit_or}
use manrix.Base.{
  ℕ, zero, suc, ◌+◌, ◌-◌, ◌%◌, ◌*◌, Bool, true, false, ◌||◌, Option, none, some, List, [], ◌∷◌, ltb,
  leb, ◌==◌, if◌then◌else◌, get_or, set, replicate,
}
use manrix.Base.Int.{ℤ, pos, negsuc}
use manrix.Bits.{check_set}
use manrix.Kernel.{
  Ptr, Thread, Kernel, Errno, einval, eperm, enomem, test_mask, thread_interruptible, update_thread,
}
use manrix.Sched.{remove_thread, schedule, wakeup}

abbrev pub max_signal : ℕ
max_signal = 32

-- `struct sigqueue`
pub record SigQueue : Type 0 where
  pub signal : ℕ
  pub sinfo : ℕ

-- `struct sigaction`, with the address of the handler.
pub record SigAction : Type 0 where
  pub sa_mask : ℕ
  pub sa_flags : ℕ
  pub sa_handler : ℕ

abbrev pub sig_dfl : ℕ
sig_dfl = 0

abbrev pub sig_ign : ℕ
sig_ign = 1

abbrev pub on_sighand : ℕ
on_sighand = 4

abbrev pub wifsig : ℕ
wifsig = 0x020000

abbrev pub wsignal : ℕ
wsignal = 0xff00

abbrev pub process_exiting : ℕ
process_exiting = 0xc00

-- `stack_t`
pub record SigStack : Type 0 where
  pub ss_sp : ℕ
  pub ss_size : ℕ
  pub ss_flags : ℕ

-- One process's queue and actions, and the masks and flags of its threads.
pub record Signals : Type 0 where
  pub kernel : Kernel
  pub sigqueue : List SigQueue
  pub action : List SigAction
  pub sa_mask : Ptr → ℕ
  pub sigpending : Ptr → Bool
  pub status : ℕ
  pub exit_status : ℕ
  pub ss : SigStack

-- `thr->sigpending = b`
abbrev pub set_pending : Ptr → Bool → Signals → Signals
set_pending thr b s = record s { sigpending = λ t. if thr == t then b else s.sigpending t }

-- `is_blocked`: `bt` takes the number of the bit modulo 32.
pub is_blocked : ℕ → ℕ → Bool
is_blocked mask signal = check_set mask (signal % 32)

-- `dequeue_signal`: the first signal that is not blocked, and the queue without it.
pub dequeue_signal : ℕ → List SigQueue → Option (SigQueue × List SigQueue)
dequeue_signal mask [] = none
dequeue_signal mask (q ∷ qs) = elim (is_blocked mask q.signal) [
  | false ↦ some (q, qs)
  | true ↦ elim (dequeue_signal mask qs) [ none ↦ none | some (r, rs) ↦ some (r, q ∷ rs) ]
]

-- `is_pending`: its loop ends at the last item, which it does not look at.
pub is_pending : Bool → ℕ → List SigQueue → Bool
is_pending stray mask [] = stray
is_pending stray mask (q ∷ []) = false
is_pending stray mask (q ∷ r ∷ rs) = elim (is_blocked mask q.signal) [
  | true ↦ is_pending stray mask (r ∷ rs)
  | false ↦ true
]

-- What `handle_signal` does with the signal that it takes: nothing, `syscall_exit`, or a frame for
-- the handler (`signal_frame`).
pub data Handled : Type 0 where
  no_signal : Handled
  ignored : Handled
  exits : ℕ → Handled
  framed : SigQueue → SigAction → Handled

-- Among the default actions only these do not end the process: SIGCHLD, SIGCONT, SIGTSTP, SIGTTIN,
-- SIGTTOU and SIGSTOP.
abbrev pub default_ignores : ℕ → Bool
default_ignores s = s == 4 || (s == 5 || (s == 19 || (s == 20 || (s == 21 || s == 15))))

abbrev pub no_action : SigAction
no_action = record { sa_mask = 0; sa_flags = 0; sa_handler = 0 }

pub act_on : SigQueue → SigAction → Handled
act_on q act =
    if act.sa_handler == sig_ign
    then ignored
    else if act.sa_handler == sig_dfl
    then (if default_ignores q.signal then ignored else exits q.signal)
    else framed q act

-- The end of `handle_signal`.
pub clear_pending : Bool → Ptr → Signals → Signals
unfolding is_pending
clear_pending stray thr s =
    if is_pending stray (s.sa_mask thr) s.sigqueue then s else set_pending thr false s

-- What follows a signal's handling: a signal that ends the process sets the exit status and the
-- thread's state before `syscall_exit`.
pub after_handling : Bool → Ptr → Handled → Signals → Signals
after_handling stray thr (exits signal) s = record s {
  exit_status = bit_or (bit_or s.exit_status wifsig) (bit_and (signal * 256) wsignal);
  kernel = update_thread thr (λ t. record t { states = process_exiting }) s.kernel;
}
after_handling stray thr no_signal s = clear_pending stray thr s
after_handling stray thr ignored s = clear_pending stray thr s
after_handling stray thr (framed q act) s =
    clear_pending stray thr (record s { status = on_sighand })

-- `handle_signal`; where it calls `syscall_exit`, the state at that call.
pub handle_signal : Bool → Ptr → Signals → Handled × Signals
handle_signal stray thr s = elim (dequeue_signal (s.sa_mask thr) s.sigqueue) [
  | none ↦ (no_signal, clear_pending stray thr s)
  | some (q, qs) ↦
      let s₁ = record s { sigqueue = qs } in
      let h = act_on q (get_or s.action (q.signal - 1) no_action) in
      (h, after_handling stray thr h s₁)
]

-- How a call ends; `fault` is undefined behaviour.
pub data SigResult : Type 0 where
  ok : Signals → SigResult
  failed : Errno → SigResult
  eagain : SigResult
  fault : SigResult

-- The end of `send_signal`: a thread in an interruptible sleep is woken.
pub wake_sleeper : Ptr → Signals → SigResult
wake_sleeper thr s =
    if (s.kernel.thr thr).states == thread_interruptible
    then elim (wakeup thr s.kernel) [ none ↦ fault | some k ↦ ok (record s { kernel = k }) ]
    else ok s

-- `send_signal` of a signal from 0 to 32. `given` says whether `kmem_cache_alloc` gave an entry, and
-- `sinfo` is what the entry's information is afterwards. The action of signal 0 lies before the array.
pub send_in_range : Bool → Ptr → ℕ → ℕ → Signals → SigResult
unfolding is_blocked wake_sleeper
send_in_range given thr signal sinfo s =
    if is_blocked (s.sa_mask thr) signal
    then wake_sleeper thr s
    else if signal == 0
    then fault
    else if (get_or s.action (signal - 1) no_action).sa_handler == sig_ign
    then wake_sleeper thr s
    else if given
    then wake_sleeper thr (
        set_pending thr true
          (record s { sigqueue = (record { signal = signal; sinfo = sinfo }) ∷ s.sigqueue }))
    else eagain

pub send_signal : Bool → Ptr → ℤ → ℕ → Signals → SigResult
unfolding send_in_range
send_signal given thr (negsuc n) sinfo s = failed einval
send_signal given thr (pos signal) sinfo s =
    if ltb max_signal signal then failed einval else send_in_range given thr signal sinfo s

-- `send_signal_any`: the first of the process's threads that does not block the signal.
pub send_signal_any : Bool → List Ptr → ℕ → ℕ → Signals → SigResult
unfolding send_signal is_blocked
send_signal_any given [] signal sinfo s = ok s
send_signal_any given (t ∷ ts) signal sinfo s = elim (is_blocked (s.sa_mask t) signal) [
  | true ↦ send_signal_any given ts signal sinfo s
  | false ↦ send_signal given t (pos signal) sinfo s
]

-- `init_signals`
pub init_signals : List SigAction
init_signals = replicate max_signal no_action

-- `sigaction`: the result and the old action; SIGKILL is 10 and SIGSTOP 15.
pub sigaction : ℤ → Option SigAction → Signals → Option SigAction × SigResult
sigaction (negsuc n) act s = (none, failed einval)
sigaction (pos signal) act s =
    if signal == 0 || ltb max_signal signal
    then (none, failed einval)
    else if signal == 10 || signal == 15
    then (none, failed einval)
    else (
      some (get_or s.action (signal - 1) no_action),
      (elim act [ none ↦ ok s | some a ↦ ok (record s { action = set s.action (signal - 1) a }) ]),
    )

-- `sigprocmask` of the running thread: the old mask and the result. `delmask` is written with
-- `x & ~y = x - (x & y)`.
pub sigprocmask : ℕ → Option ℕ → Signals → ℕ × SigResult
sigprocmask how mask s =
    let thr = s.kernel.current in
    let old = s.sa_mask thr in
    let put : ℕ → Signals = λ m. record s { sa_mask = λ t. if thr == t then m else s.sa_mask t } in
    (
      old,
      (elim mask [
        | none ↦ ok s
        | some m ↦
            if how == 1
            then ok (put (bit_or old m))
            else if how == 2
            then ok (put (old - bit_and old m))
            else if how == 4
            then ok (put m)
            else failed einval
      ]),
    )

-- `sigsuspend`, up to the switch.
pub sigsuspend : ℕ → Signals → SigResult
sigsuspend mask s =
    let thr = s.kernel.current in
    let k = update_thread thr (λ t. record t { states = thread_interruptible }) s.kernel in
    elim (remove_thread thr k) [
      | none ↦ fault
      | some k' ↦
          ok (record s {
            kernel = schedule k';
            sa_mask = λ t. if thr == t then mask else s.sa_mask t;
          })
    ]

-- `sigaltstack`: the old stack and the result. The size that is tested is that of the old stack.
pub sigaltstack : Option SigStack → Signals → SigStack × SigResult
sigaltstack none s = (s.ss, ok s)
sigaltstack (some ss) s = (
  s.ss,
  (if test_mask ss.ss_flags 2
      then failed einval
      else if test_mask s.ss.ss_flags 1
      then failed eperm
      else if ltb s.ss.ss_size 512
      then failed enomem
      else ok (record s { ss = ss })),
)

-- `find_queued`, with `set_has_signal`: the signal's number itself is taken for a mask.
pub find_queued : ℕ → List SigQueue → Option SigQueue
find_queued mask [] = none
find_queued mask (q ∷ qs) = elim (bit_and mask q.signal == 0) [
  | false ↦ some q
  | true ↦ find_queued mask qs
]
