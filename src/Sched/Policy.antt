-- ===== src/Sched/Policy.antt =====
-- What the scheduler promises: whom `schedule` picks, and what `wakeup` and `sched_yield` do.
use manrix.Base.{
  ℕ, ◌≤◌, ◌<◌, ◌≡◌, refl, true, false, some, [], ◌∷◌, arith, ltb, ◌==◌, if◌then◌else◌, get_or,
  length, Bool-cases, inl, inr, Option-cases, ◌∙◌,
}
use manrix.Bits.{check_set, frs}
use manrix.Bits.Laws.{frs-some, frs-none}
use manrix.Kernel.{Ptr, Thread, Kernel, update_thread, thread_ready}
use manrix.Sched.{maxq, prioq, erase, last, enqueue_thread, wakeup, pick, schedule, sched_yield}
use manrix.Sched.Queues.{
  IsValid, is_ready, last-some, last-none, get_or-past, get_or-set, not-mem-queue,
}
use manrix.Sched.Moves.{
  enqueued, enqueue_thread-some, enqueued-IsValid, enqueued-ready, removed, remove_thread-some,
  removed-IsValid, removed-ready, update-IsValid, mem-not-empty,
}

module _ (k : Kernel) (v : IsValid k) where
  -- A ready thread's queue is in range, not empty, and its bit is set.
  ready_bit :
      (u : Ptr)
      → is_ready u k ≡ true
      → (prioq (k.thr u).priority_dyn < maxq)
        × (check_set k.bitmap (prioq (k.thr u).priority_dyn) ≡ true)
  ready_bit u h =
      let i : ℕ = prioq (k.thr u).priority_dyn in
      let lt : i < maxq = elim (Bool-cases (ltb i maxq)) [
        | inl lt ↦ ground arith
        | inr ge ↦ absurd (ground (arith, get_or-past k.run i [], v.queues))
      ] in
      (lt, ground (arith, v.mask i lt, mem-not-empty u (get_or k.run i []) h))

  -- `schedule` switches to a ready thread of the highest priority class, if any thread is ready,
  -- namely to the last of its queue, which has waited longest.
  pub pick-highest :
      (u : Ptr)
      → is_ready u k ≡ true
      → (is_ready (pick k) k ≡ true)
        × (prioq (k.thr u).priority_dyn ≤ prioq (k.thr (pick k)).priority_dyn)
        × (last (get_or k.run (prioq (k.thr (pick k)).priority_dyn) []) ≡ some (pick k))
  unfolding pick
  pick-highest u h = elim (Option-cases (frs k.bitmap)) [
    | inl e ↦
        absurd (ground (arith, ready_bit u h, frs-none k.bitmap (prioq (k.thr u).priority_dyn) e))
    | inr (i, e) ↦
        let (lt, bit, above) = frs-some k.bitmap i e in
        elim (Option-cases (last (get_or k.run i []))) [
          | inl none_there ↦
              absurd (ground (arith, v.mask i lt, last-none (get_or k.run i []) none_there))
          | inr (t, there) ↦
              let is_t : pick k ≡ t = rw (e, there, pick) in
              let at : prioq (k.thr t).priority_dyn ≡ i =
                v.placed i t (last-some (get_or k.run i []) t there) in
              rw (is_t, at)
                (
                  last-some (get_or k.run i []) t there,
                  ground (arith, ready_bit u h, above (prioq (k.thr u).priority_dyn)),
                  there,
                )
        ]
  ]

  -- `schedule` switches to the idle thread if no thread is ready.
  pub pick-idle : ((u : Ptr) → is_ready u k ≡ false) → pick k ≡ k.init_thread
  unfolding pick
  pick-idle none_ready = elim (Option-cases (frs k.bitmap)) [
    | inl e ↦ rw (e, pick)
    | inr (i, e) ↦ elim (Option-cases (last (get_or k.run i []))) [
      | inl none_there ↦ rw (e, none_there, pick)
      | inr (t, there) ↦
          let inside = last-some (get_or k.run i []) t there in
          absurd (ground (arith, v.placed i t inside, none_ready t))
    ]
  ]

-- The thread's own record when `wakeup` enqueues it.
abbrev pub woken : Thread → Thread
woken thr = record thr { states = thread_ready; priority_dyn = thr.priority_stat }

module _ (t : Ptr) (k : Kernel) (v : IsValid k) (out : is_ready t k ≡ false)
    (small : (k.thr t).priority_stat < 128) where
  awake-IsValid : IsValid (update_thread t woken k)
  awake-IsValid = update-IsValid t woken k v (inl out)

  awake-low : ((update_thread t woken k).thr t).priority_dyn < 128
  awake-low = ground arith

  awake-out : is_ready t (update_thread t woken k) ≡ false
  awake-out = not-mem-queue k t v out (prioq ((update_thread t woken k).thr t).priority_dyn)

  pub wakeup-some : wakeup t k ≡ some (enqueued t (update_thread t woken k))
  unfolding wakeup
  wakeup-some = enqueue_thread-some t (update_thread t woken k) awake-IsValid awake-low awake-out

  pub woken-IsValid : IsValid (enqueued t (update_thread t woken k))
  woken-IsValid = enqueued-IsValid t (update_thread t woken k) awake-IsValid awake-low awake-out

  pub woken-ready :
      (u : Ptr)
      → is_ready u (enqueued t (update_thread t woken k)) ≡ (if t == u then true else is_ready u k)
  woken-ready u =
      enqueued-ready t (update_thread t woken k) awake-IsValid awake-low awake-out u ∙ ground arith

  -- `wakeup` of a thread that is not on the run queue, with a static priority below 128, makes it
  -- ready, and keeps the run queue sound; no other thread's readiness changes.
  pub wakeup-IsValid :
      (k' : Kernel) × (wakeup t k ≡ some k')
      × IsValid k'
      × ((u : Ptr) → is_ready u k' ≡ (if t == u then true else is_ready u k))
      × ((k'.thr t).states ≡ thread_ready)
      × ((k'.thr t).priority_dyn ≡ (k.thr t).priority_stat)
  wakeup-IsValid = (
    enqueued t (update_thread t woken k),
    wakeup-some,
    woken-IsValid,
    woken-ready,
    ground arith,
    ground arith,
  )

-- Taking a ready thread `t` off, changing its record and putting it back.
abbrev pub requeued : Ptr → (Thread → Thread) → Kernel → Kernel
requeued t f k = enqueued t (update_thread t f (removed t k))

module _ (t : Ptr) (f : Thread → Thread) (k : Kernel) (v : IsValid k) (ready : is_ready t k ≡ true)
    (small : (f (k.thr t)).priority_dyn < 128) where
  gone : is_ready t (removed t k) ≡ false
  gone = ground (arith, removed-ready t k v ready t)

  changed-IsValid : IsValid (update_thread t f (removed t k))
  changed-IsValid = update-IsValid t f (removed t k) (removed-IsValid t k v ready) (inl gone)

  small_there : ((update_thread t f (removed t k)).thr t).priority_dyn < 128
  small_there = ground arith

  still_gone : is_ready t (update_thread t f (removed t k)) ≡ false
  still_gone =
      not-mem-queue (removed t k) t (removed-IsValid t k v ready) gone
        (prioq ((update_thread t f (removed t k)).thr t).priority_dyn)

  pub requeue-some : enqueue_thread t (update_thread t f (removed t k)) ≡ some (requeued t f k)
  requeue-some =
      enqueue_thread-some t (update_thread t f (removed t k)) changed-IsValid small_there still_gone

  pub requeued-IsValid : IsValid (requeued t f k)
  requeued-IsValid =
      enqueued-IsValid t (update_thread t f (removed t k)) changed-IsValid small_there still_gone

  pub requeued-ready : (u : Ptr) → is_ready u (requeued t f k) ≡ is_ready u k
  requeued-ready u =
      enqueued-ready t (update_thread t f (removed t k)) changed-IsValid small_there still_gone u
      ∙ ground (arith, removed-ready t k v ready u)

-- `sched_yield` of a ready thread
abbrev yielded : Kernel → Kernel
yielded k =
    update_thread k.current (λ t. record t { schedule = true })
      (enqueued k.current (removed k.current k))

module _ (k : Kernel) (v : IsValid k) (ready : is_ready k.current k ≡ true) where
  low : (k.thr k.current).priority_dyn < 128
  low = omega (arith, (ready_bit k v k.current ready).0)

  off : is_ready k.current (removed k.current k) ≡ false
  off = ground (arith, removed-ready k.current k v ready k.current)

  sched_yield-some : sched_yield k ≡ some (yielded k)
  unfolding sched_yield
  sched_yield-some = rw (
    remove_thread-some k.current k v ready,
    enqueue_thread-some k.current (removed k.current k) (removed-IsValid k.current k v ready) low
        off,
  )

  -- `sched_yield` of a ready thread keeps the run queue sound and every thread's readiness, and
  -- puts the thread behind all others of its queue, in their order.
  pub sched_yield-rotates :
      (k' : Kernel) × (sched_yield k ≡ some k')
      × IsValid k'
      × ((u : Ptr) → is_ready u k' ≡ is_ready u k)
      × (get_or k'.run (prioq (k.thr k.current).priority_dyn) []
          ≡ k.current ∷ erase k.current (get_or k.run (prioq (k.thr k.current).priority_dyn) []))
  sched_yield-rotates =
      let r = removed k.current k in
      let vr = removed-IsValid k.current k v ready in
      let i : ℕ = prioq (k.thr k.current).priority_dyn in
      let inside : i < length k.run = omega (arith, v.queues, (ready_bit k v k.current ready).0) in
      let inside' : i < length r.run =
        omega (arith, vr.queues, (ready_bit k v k.current ready).0) in
      (
        yielded k,
        sched_yield-some,
        update-IsValid k.current (λ t. record t { schedule = true }) (enqueued k.current r)
            (enqueued-IsValid k.current r vr low off) (inr refl),
        λ u.
            ground
              (arith, enqueued-ready k.current r vr low off u, removed-ready k.current k v ready u),
        ground (
          arith,
          get_or-set k.run i i (erase k.current (get_or k.run i [])) [] inside,
          get_or-set r.run i i (k.current ∷ get_or r.run i []) [] inside',
        ),
      )

-- `schedule` changes no thread's readiness, state or wait.
module _ (u : Ptr) (k : Kernel) where
  pub ready-schedule : is_ready u (schedule k) ≡ is_ready u k
  unfolding schedule
  ready-schedule = ground arith

  pub states-schedule : ((schedule k).thr u).states ≡ (k.thr u).states
  unfolding schedule
  states-schedule = ground arith

  pub waiting-schedule : ((schedule k).thr u).waiting ≡ (k.thr u).waiting
  unfolding schedule
  waiting-schedule = ground arith

  pub msg-schedule : ((schedule k).thr u).msg ≡ (k.thr u).msg
  unfolding schedule
  msg-schedule = ground arith

  pub rcvq-schedule : ((schedule k).thr u).rcvq ≡ (k.thr u).rcvq
  unfolding schedule
  rcvq-schedule = ground arith

module _ (u : Ptr) (k : Kernel) where
  pub tid-schedule : ((schedule k).thr u).tid ≡ (k.thr u).tid
  unfolding schedule
  tid-schedule = ground arith

  pub stat-schedule : ((schedule k).thr u).priority_stat ≡ (k.thr u).priority_stat
  unfolding schedule
  stat-schedule = ground arith

pub dyn-schedule :
    (u : Ptr) (k : Kernel) → ((schedule k).thr u).priority_dyn ≡ (k.thr u).priority_dyn
unfolding schedule
dyn-schedule u k = ground arith

pub thash-schedule : (b : ℕ) (k : Kernel) → (schedule k).thash b ≡ k.thash b
unfolding schedule
thash-schedule b k = refl

pub schedule-IsValid : (k : Kernel) → IsValid k → IsValid (schedule k)
unfolding schedule
schedule-IsValid k v =
    let k' = record k { current = pick k } in
    let v' : IsValid k' = record {
      queues = v.queues;
      word = v.word;
      mask = v.mask;
      placed = v.placed;
      once = v.once;
    } in
    update-IsValid (pick k) (λ t. record t { schedule = false }) k' v' (inr refl)
