-- ===== src/Sched.antt =====
-- The scheduler (microkernel/kernel/scheduling.c, include/kernel/scheduling.h). A run queue is the
-- list of its threads, as DList shows the macros of list.h to keep it. `none` is undefined
-- behaviour: an index beyond the 32 queues, an item enqueued twice, or one removed from a queue
-- that it is not in.
pub mod Queues
pub mod Moves
pub mod Policy
pub mod Ticks
pub mod Init
pub mod Tests
use manrix.Base.{
  ℕ, ◌+◌, ◌-◌, ◌*◌, ◌/◌, Bool, true, false, ◌&&◌, ◌||◌, Option, none, some, List, [], ◌∷◌, ltb, leb,
  ◌==◌, if◌then◌else◌, get_or, set, replicate, length, has,
}
use manrix.Base.Int.{ℤ, pos, negsuc, ◌+ℤ◌, ◌-ℤ◌, ltb_ℤ, pos_part}
use manrix.Bits.{set_bit, clear_bit, frs}
use manrix.Kernel.{
  Ptr, Thread, Kernel, thread_ready, thread_running, thread_interruptible, thread_uninterruptible,
  Errno, eperm, minus_one, update_thread, ◌>>=◌,
}

abbrev pub maxq : ℕ
maxq = 32

-- PRIOQ
abbrev pub prioq : ℕ → ℕ
prioq prio = prio / 4

-- SLICE, with HZ = 1000.
abbrev pub slice : ℕ
slice = 40

abbrev pub sched_fifo : ℕ
sched_fifo = 1

abbrev pub sched_rr : ℕ
sched_rr = 2

abbrev pub sched_other : ℕ
sched_other = 4

abbrev pub prio_sys_min : ℕ
prio_sys_min = 46

abbrev pub prio_other_min : ℕ
prio_other_min = 4

abbrev pub max_prio : ℕ
max_prio = 127

-- A thread is linked into some queue.
unfoldable pub is_queued : Ptr → List (List Ptr) → Bool
is_queued t [] = false
is_queued t (q ∷ qs) = has t q || is_queued t qs

-- `list_del` on the list of items.
unfoldable pub erase : Ptr → List Ptr → List Ptr
erase t [] = []
erase t (x ∷ xs) = if x == t then xs else x ∷ erase t xs

-- The last item, which `last_entry` reads.
unfoldable pub last : List Ptr → Option Ptr
last [] = none
last (x ∷ xs) = elim (last xs) [ none ↦ some x | some y ↦ some y ]

-- All but the last item.
unfoldable pub but_last : List Ptr → List Ptr
but_last [] = []
but_last (x ∷ []) = []
but_last (x ∷ y ∷ ys) = x ∷ but_last (y ∷ ys)

-- `sched_init`, for the one run queue.
unfoldable pub sched_init : Kernel → Kernel
sched_init k = record k { bitmap = 0; run = replicate maxq []; nthreads = pos 0 }

unfoldable pub enqueue_thread : Ptr → Kernel → Option Kernel
unfolding is_queued
enqueue_thread thread k =
    let index = prioq (k.thr thread).priority_dyn in
    if ltb index (length k.run) && (if is_queued thread k.run then false else true)
    then some (record k {
      run = set k.run index (thread ∷ get_or k.run index []);
      bitmap = set_bit k.bitmap index;
      nthreads = k.nthreads +ℤ pos 1;
    })
    else none

-- Takes the last thread of a queue. `nthreads` is not written.
unfoldable pub dequeue_thread : ℕ → Kernel → Option (Ptr × Kernel)
unfolding last but_last
dequeue_thread index k =
    let q = get_or k.run index [] in
    elim (last q) [
      | none ↦ none
      | some thread ↦
          let q' = but_last q in
          some (
            thread,
            record k {
              run = set k.run index q';
              bitmap = (if length q' == 0 then clear_bit k.bitmap index else k.bitmap);
            },
          )
    ]

unfoldable pub remove_thread : Ptr → Kernel → Option Kernel
unfolding erase
remove_thread thread k =
    let index = prioq (k.thr thread).priority_dyn in
    let q = get_or k.run index [] in
    if has thread q
    then (let q' = erase thread q in
        some (record k {
          run = set k.run index q';
          bitmap = (if length q' == 0 then clear_bit k.bitmap index else k.bitmap);
          nthreads = k.nthreads -ℤ pos 1;
        }))
    else none

unfoldable pub wakeup : Ptr → Kernel → Option Kernel
unfolding enqueue_thread
wakeup t k = enqueue_thread t (
    update_thread t (λ thr. record thr { states = thread_ready; priority_dyn = thr.priority_stat })
      k)

-- `do_schedrr`: the first thread of the highest queue goes to its back.
unfoldable pub do_schedrr : Kernel → Option Kernel
unfolding dequeue_thread enqueue_thread
do_schedrr k = elim (frs k.bitmap) [
  | none ↦ some k
  | some quenum ↦
      if length (get_or k.run quenum []) == 0
      then some k
      else (dequeue_thread quenum k >>= λ r. enqueue_thread r.0 r.1)
]

-- The part of `sched_timer` for a thread whose time slice has just expired.
unfoldable pub expire : Ptr → Kernel → Option Kernel
unfolding remove_thread enqueue_thread
expire t k =
    let b = (k.thr t).bound -ℤ pos 1 in
    let b' = if ltb_ℤ b (pos prio_other_min) then pos prio_other_min else b in
    remove_thread t (update_thread t (λ thr. record thr { time_slice = pos slice; bound = b' }) k)
    >>= λ k'. enqueue_thread t (
        update_thread t
          (λ thr. record thr { priority_dyn = pos_part (pos thr.priority_stat +ℤ thr.bound) }) k')

-- `--thr->time_slice` and the branch on it, given the value after the decrement.
unfoldable pub count_down : ℤ → Kernel → Option Kernel
unfolding expire
count_down left k =
    let k' = update_thread k.current (λ thr. record thr { time_slice = left }) k in
    elim left [ pos n ↦ if n == 0 then expire k.current k' else some k' | negsuc n ↦ some k' ]

-- `sched_timer`, on each timer interrupt.
unfoldable pub sched_timer : Kernel → Option Kernel
unfolding count_down
sched_timer k =
    let thr = k.thr k.current in
    if thr.schedpolicy == sched_rr
    then some k
    else if (if thr.schedpolicy == sched_other then false else true)
    then some k
    else if leb prio_sys_min thr.priority_stat
    then some k
    else count_down (thr.time_slice -ℤ pos 1) k

-- The thread that `schedule` switches to.
unfoldable pub pick : Kernel → Ptr
unfolding last
pick k = elim (frs k.bitmap) [
  | none ↦ k.init_thread
  | some quenum ↦ elim (last (get_or k.run quenum [])) [ none ↦ k.init_thread | some t ↦ t ]
]

-- `schedule`: `switch_to` makes the thread current, and it then clears its own `schedule` flag.
unfoldable pub schedule : Kernel → Kernel
unfolding pick
schedule k =
    let new = pick k in
    update_thread new (λ t. record t { schedule = false }) (record k { current = new })

-- `syscall_sched_yield`
unfoldable pub sched_yield : Kernel → Option Kernel
unfolding remove_thread enqueue_thread
sched_yield k = remove_thread k.current k >>= λ k₁. enqueue_thread k.current k₁ >>= λ k₂.
    some (update_thread k.current (λ t. record t { schedule = true }) k₂)

pub data Answer (A : Type 0) : Type 0 where
  ok : A → Answer A
  err : Errno → Answer A

-- `superuser()`
abbrev pub superuser : Kernel → Bool
superuser k = (k.thr k.current).euid == 0

-- `sched_get`, at the thread that the id names: the policy and the priority.
unfoldable pub sched_get : Ptr → Kernel → Answer (ℕ × ℕ)
sched_get t k =
    if superuser k then ok ((k.thr t).schedpolicy, (k.thr t).priority_stat) else err eperm

-- The test at the top of `sched_set`, where MIN_PRIO is 4 and MAX_PRIO is 127.
unfoldable pub sched_set_refuses : ℕ → ℕ → Bool
sched_set_refuses pol prio = ltb sched_other pol || (ltb prio_other_min prio || ltb prio max_prio)

-- `sched_set`, at the thread that the id names.
unfoldable pub sched_set : Ptr → ℕ → ℕ → Kernel → Option (Answer ℕ × Kernel)
unfolding remove_thread enqueue_thread sched_set_refuses
sched_set t pol prio k =
    if sched_set_refuses pol prio
    then some (err minus_one, k)
    else if (if superuser k then false else true)
    then some (err eperm, k)
    else (remove_thread t k >>= λ k₁.
        (let k₂ =
            update_thread t
              (λ thr. record thr {
                schedpolicy = (if pol == 0 then thr.schedpolicy else pol);
                priority_stat = prio;
                priority_dyn = prio;
                bound = pos 0;
              })
              k₁ in
          enqueue_thread t k₂ >>= λ k₃. some (ok (k₃.thr t).schedpolicy, k₃)))
