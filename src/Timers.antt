-- ===== src/Timers.antt =====
-- The kernel's timers (microkernel/kernel/timer.c, include/kernel/timer.h): the list of armed timers,
-- whose links are those of DList with its head at the address `head`, and the timers of each process.
-- `none`, `undefined` and `broken` are undefined behaviour, or a loop that is longer than its fuel.
-- Tick counts are far below 2 ^ 64. To free an object changes nothing in it.
pub mod Expiry
mod Tests
use Prim.Native.Nat.{bit_and}
use manrix.Base.{
  ℕ, zero, suc, ◌+◌, ◌*◌, ◌/◌, Bool, true, false, not, ◌||◌, ◌&&◌, Option, none, some, List, [],
  ◌∷◌, ltb, leb, ◌==◌, has, ◌^◌, if◌then◌else◌,
}
use manrix.Kernel.{
  Ptr, Thread, Kernel, thread_running, thread_interruptible, Errno, einval, update_thread,
  test_mask, ◌>>=◌,
}
use manrix.DList.{Links, list_isempty, last_entry, list_enqueue, list_dequeue, list_add_next}
use manrix.Sched.{erase, enqueue_thread, remove_thread, sched_timer, schedule}
use manrix.Threads.{hash_fn}

abbrev pub tm_sleep : ℕ
tm_sleep = 1

abbrev pub tm_timer : ℕ
tm_timer = 2

abbrev pub tm_oneshot : ℕ
tm_oneshot = 4

abbrev pub tm_noaction : ℕ
tm_noaction = 8

-- `sigev_notify`
pub data Notify : Type 0 where
  sigev_none : Notify
  sigev_signal : Notify
  sigev_thread : Notify

-- `struct timer`
pub record Timer : Type 0 where
  pub timeout : ℕ
  pub nextarm : ℕ
  pub notify : Notify
  pub signo : ℕ
  pub owner : Ptr
  pub flag : ℕ
  pub timer_id : ℕ
  pub next : Ptr

-- The kernel, the timers, the entries of `tmhash`, which are timers themselves, the links of the list of
-- armed timers, the processes' timers, the ticks, and the signals that were sent, the last first.
pub record TimerState : Type 0 where
  pub kernel : Kernel
  pub timer : Ptr → Timer
  pub tmhash : ℕ → Timer
  pub links : Links
  pub head : Ptr
  pub proc : Ptr → ℕ
  pub timers_of : ℕ → List Ptr
  pub ticks : ℕ
  pub sent : List (ℕ × ℕ)

abbrev pub update_timer : Ptr → (Timer → Timer) → TimerState → TimerState
update_timer p f s = record s { timer = λ q. if p == q then f (s.timer p) else s.timer q }

abbrev pub set_timers : ℕ → List Ptr → TimerState → TimerState
set_timers pid xs s = record s { timers_of = λ q. if pid == q then xs else s.timers_of q }

-- PAGE_SIZE / sizeof(struct timer): the whole entries of the page of `tmhash`, where a timer has 60 bytes.
abbrev pub tmhash_entries : ℕ
tmhash_entries = 68

-- What `timer_by_id` finds: an entry of the table, a timer, or NULL. With `outside` it reads an entry that
-- is beyond the page: `hash_fn` gives up to 1023.
pub data FoundTimer : Type 0 where
  entry : ℕ → FoundTimer
  item : Ptr → FoundTimer
  missing : FoundTimer
  outside : FoundTimer
  unfinished : FoundTimer

unfoldable pub timer_from : ℕ → ℕ → Ptr → TimerState → FoundTimer
timer_from zero id link s = unfinished
timer_from (suc n) id link s =
    let rest = timer_from n id (s.timer link).next s in
    if link == 0 then missing else if (s.timer link).timer_id == id then item link else rest

unfoldable pub timer_by_id : ℕ → ℕ → TimerState → FoundTimer
unfolding timer_from
timer_by_id fuel id s =
    let tm = s.tmhash (hash_fn id) in
    if leb tmhash_entries (hash_fn id)
    then outside
    else if tm.timer_id == id
    then entry (hash_fn id)
    else timer_from fuel id tm.next s

-- `delete_timer`; to free an entry of the table is undefined.
unfoldable pub delete_timer : ℕ → ℕ → TimerState → Option TimerState
unfolding timer_by_id
delete_timer fuel id s = elim (timer_by_id fuel id s) [
  | entry i ↦ none
  | item p ↦
      let pid = s.proc (s.timer p).owner in
      if has p (s.timers_of pid) then some (set_timers pid (erase p (s.timers_of pid)) s) else none
  | missing ↦ some s
  | outside ↦ none
  | unfinished ↦ none
]

-- The loop of `insert_timer`, from the timer `tm`: where the item goes.
unfoldable pub place_from : ℕ → ℕ → Ptr → TimerState → Option Ptr
place_from zero timeout tm s = none
place_from (suc n) timeout tm s =
    let rest = place_from n timeout (s.links.next tm) s in
    if ltb timeout (s.timer tm).timeout then rest else some tm

-- The end of `insert_timer`: the item is put before the first one that it does not precede.
unfoldable pub insert_into : ℕ → Ptr → Links → TimerState → Option TimerState
unfolding place_from
insert_into fuel p l s =
    let s₁ = record s { links = l } in
    elim (place_from fuel (s.timer p).timeout (l.next s.head) s₁) [
      | none ↦ none
      | some tm ↦ some (record s₁ { links = list_add_next (l.prev tm) p l })
    ]

-- `insert_timer`: an empty list gets the item, and then the item is inserted all the same.
unfoldable pub insert_timer : ℕ → Ptr → TimerState → Option TimerState
unfolding insert_into
insert_timer fuel p s =
    insert_into fuel p
      (if list_isempty s.head s.links then list_enqueue s.head p s.links else s.links) s

-- How a round of `check_timeouts` goes on. `again` has the variable `thr`, NULL at first.
pub data Round : Type 0 where
  stop : TimerState → Round
  again : Option Ptr → TimerState → Round
  undefined : Round

-- A timer that sleeps: its owner runs again.
unfoldable pub wake_owner : ℕ → Ptr → TimerState → Round
unfolding delete_timer
wake_owner fuel p s =
    let thr = (s.timer p).owner in
    elim (enqueue_thread thr
      (update_thread thr (λ t. record t { states = thread_running }) s.kernel)) [
        | none ↦ undefined
        | some k ↦ elim (delete_timer fuel (s.timer p).timer_id (record s { kernel = k })) [
          | none ↦ undefined
          | some s₁ ↦ again (some thr) s₁
        ]
      ]

-- A timer that is armed again, or not.
unfoldable pub rearm : ℕ → Option Ptr → Ptr → TimerState → Round
unfolding insert_timer
rearm fuel thr p s =
    let s₁ = update_timer p (λ t. record t { timeout = t.timeout + t.nextarm }) s in
    if (s.timer p).nextarm == 0
    then again thr s
    else elim (insert_timer fuel p s₁) [ none ↦ undefined | some s₂ ↦ again thr s₂ ]

-- A timer that notifies. After a one-shot timer the field `alarm` of the process of `thr` is cleared,
-- which is undefined if no sleeper was woken before.
unfoldable pub notify_owner : ℕ → Option Ptr → Ptr → TimerState → Round
unfolding delete_timer rearm
notify_owner fuel thr p s =
    let t = s.timer p in
    let s₁ : TimerState = elim t.notify [
      | sigev_none ↦ s
      | sigev_signal ↦ record s { sent = (s.proc t.owner, t.signo) ∷ s.sent }
      | sigev_thread ↦ s
    ] in
    if test_mask t.flag tm_oneshot
    then (elim (delete_timer fuel t.timer_id s₁) [
      | none ↦ undefined
      | some s₂ ↦ elim thr [ none ↦ undefined | some u ↦ rearm fuel (some u) p s₂ ]
    ])
    else rearm fuel thr p s₁

-- A round of `check_timeouts`.
unfoldable pub check_round : ℕ → Option Ptr → TimerState → Round
unfolding wake_owner notify_owner
check_round fuel thr s =
    let lentry = last_entry s.head s.links in
    if list_isempty s.head s.links
    then stop s
    else if not (leb s.ticks (s.timer lentry).timeout)
    then stop s
    else (elim (list_dequeue s.head s.links) [
      | none ↦ undefined
      | some r ↦
          let s₁ = record s { links = r.1 } in
          if test_mask (s.timer lentry).flag tm_sleep
          then wake_owner fuel lentry s₁
          else if test_mask (s.timer lentry).flag tm_timer
          then notify_owner fuel thr lentry s₁
          else again thr s₁
    ])

-- `check_timeouts`, for at most `n` rounds.
unfoldable pub check_timeouts : ℕ → ℕ → Option Ptr → TimerState → Option TimerState
unfolding check_round
check_timeouts zero fuel thr s = none
check_timeouts (suc n) fuel thr s = elim (check_round fuel thr s) [
  | stop s₁ ↦ some s₁
  | again thr' s₁ ↦ check_timeouts n fuel thr' s₁
  | undefined ↦ none
]

-- `timer_int`, the handler of the timer's interrupt.
unfoldable pub timer_int : ℕ → ℕ → TimerState → Option TimerState
unfolding check_timeouts
timer_int n fuel s = do
  s₁ ← check_timeouts n fuel none (record s { ticks = s.ticks + 1 })
  k ← sched_timer s₁.kernel
  some (record s₁ { kernel = schedule k })

-- `timespec_to_tick`, with HZ = 1000.
unfoldable pub timespec_to_tick : ℕ → ℕ → ℕ
timespec_to_tick sec nsec = sec * 1000 + nsec / 1000000 / 1000

-- `timer_create`, for CLOCK_REALTIME, with the structure and the id that were allocated, and no
-- `sigevent`; SIGALRM is 2. `tmhash_insert` stores nothing in the table: it links the
-- timer to the table's entry, which is left out.
unfoldable pub timer_create : Ptr → ℕ → ℕ → TimerState → TimerState
timer_create p id flags s =
    let me = s.kernel.current in
    let s₁ = update_timer p (λ t. record t { timer_id = id; flag = flags; owner = me }) s in
    let s₂ =
      if flags == tm_timer
      then update_timer p (λ t. record t { notify = sigev_signal; signo = 2 }) s₁
      else s₁ in
    set_timers (s.proc me) (p ∷ s.timers_of (s.proc me)) s₂

-- How `do_nsleep` ends, up to the switch: with `returned`, it gives back the timer's address for an
-- error.
pub data Slept : Type 0 where
  refused : Errno → Slept
  returned : Ptr → TimerState → Slept
  asleep : TimerState → Slept
  broken : Slept

-- `do_nsleep`, where `timer_create` is given the structure `p` and the id. An address from 2 ^ 31 on is
-- negative as an `int`. The short wait in the kernel for times below 10 ms has no effect on the state.
unfoldable pub do_nsleep : ℕ → Ptr → ℕ → ℕ → ℕ → TimerState → Slept
unfolding insert_timer timer_create timespec_to_tick
do_nsleep fuel p id sec nsec s =
    let me = s.kernel.current in
    let s₁ = timer_create p id (tm_noaction + tm_sleep) s in
    let s₂ = update_timer p (λ t. record t { timeout = s.ticks + timespec_to_tick sec nsec }) s₁ in
    if ((sec == 0) && (nsec == 0)) || ltb 1000000 nsec
    then refused einval
    else if leb (2 ^ 31) p
    then returned p s₁
    else (elim (insert_timer fuel p s₂) [
      | none ↦ broken
      | some s₃ ↦
          elim (remove_thread me
            (update_thread me (λ t. record t { states = thread_interruptible }) s₃.kernel)) [
              | none ↦ broken
              | some k ↦ asleep (record s₃ { kernel = schedule k })
            ]
    ])
