-- ===== src/Sync/Blocks.antt =====
-- Locking an object blocks the caller.
use manrix.Base.{◌<◌, ◌≡◌, refl, true, false, ◌∷◌, ◌==◌, if◌then◌else◌, arith, inr, ◌∙◌}
use manrix.Kernel.{Ptr, Kernel, sync_blocked, update_thread}
use manrix.Sched.{schedule}
use manrix.Sched.Queues.{IsValid, is_ready}
use manrix.Sched.Moves.{removed, remove_thread-some, removed-IsValid, removed-ready, update-IsValid}
use manrix.Sched.Policy.{ready-schedule, states-schedule, dyn-schedule, schedule-IsValid}
use manrix.Sync.{State, update_sync, blocked, lock}
use manrix.Sync.Waiters.{Waits}

module _ (p : Ptr) (s : State) (w : Waits p s)
    (here : is_ready s.kernel.current s.kernel ≡ true) where
  asleep : Kernel
  asleep = update_thread s.kernel.current (λ t. record t { states = sync_blocked }) s.kernel

  asleep-IsValid : IsValid asleep
  unfolding asleep
  asleep-IsValid =
      update-IsValid s.kernel.current (λ t. record t { states = sync_blocked }) s.kernel w.valid
        (inr (ground arith))

  asleep-ready : is_ready s.kernel.current asleep ≡ true
  unfolding asleep
  asleep-ready = ground (arith, here)

  abbrev waiting : State
  waiting =
      update_sync p (λ x. record x { wq = s.kernel.current ∷ x.wq })
        (record s { kernel = schedule (removed s.kernel.current asleep) })

  lock-waiting : lock p s ≡ blocked waiting
  unfolding asleep lock
  lock-waiting =
      rw (remove_thread-some s.kernel.current asleep asleep-IsValid asleep-ready, lock) refl

  waiting-ready :
      (u : Ptr)
      → is_ready u waiting.kernel ≡ (if s.kernel.current == u then false else is_ready u s.kernel)
  unfolding asleep
  waiting-ready u =
      ready-schedule u (removed s.kernel.current asleep)
      ∙ removed-ready s.kernel.current asleep asleep-IsValid asleep-ready u
      ∙ ground arith

  waiting-states :
      (u : Ptr)
      → (waiting.kernel.thr u).states
        ≡ (if s.kernel.current == u then sync_blocked else (s.kernel.thr u).states)
  unfolding asleep
  waiting-states u = states-schedule u (removed s.kernel.current asleep) ∙ ground arith

  waiting-dyn : (u : Ptr) → (waiting.kernel.thr u).priority_dyn ≡ (s.kernel.thr u).priority_dyn
  unfolding asleep
  waiting-dyn u = dyn-schedule u (removed s.kernel.current asleep) ∙ ground arith

  waiting-wq : (waiting.sync p).wq ≡ s.kernel.current ∷ (s.sync p).wq
  waiting-wq = ground arith

  waiting-Waits : (s.kernel.thr s.kernel.current).priority_dyn < 128 → Waits p waiting
  waiting-Waits range = record {
    off = λ u h. ground (arith, waiting-wq, waiting-ready u, w.off u);
    range = λ u h. ground (arith, waiting-wq, waiting-dyn u, w.range u);
    once = ground (arith, waiting-wq, w.once, w.off s.kernel.current);
    valid =
        schedule-IsValid (removed s.kernel.current asleep)
          (removed-IsValid s.kernel.current asleep asleep-IsValid asleep-ready);
  }

-- A running thread that locks an object, held or not, joins the queue of the threads that wait for it:
-- it is SYNC_BLOCKED and off the run queue, no other thread changes, and what was true of the waiting
-- threads is true of the longer queue.
pub lock-joins :
    (p : Ptr) (s : State)
    → Waits p s
    → is_ready s.kernel.current s.kernel ≡ true
    → (s.kernel.thr s.kernel.current).priority_dyn < 128
    → (s' : State) × (lock p s ≡ blocked s')
      × ((s'.sync p).wq ≡ s.kernel.current ∷ (s.sync p).wq)
      × Waits p s'
      × ((u : Ptr)
          → is_ready u s'.kernel ≡ (if s.kernel.current == u then false else is_ready u s.kernel))
      × ((u : Ptr)
          → (s'.kernel.thr u).states
            ≡ (if s.kernel.current == u then sync_blocked else (s.kernel.thr u).states))
lock-joins p s w here range = (
  waiting p s w here,
  lock-waiting p s w here,
  waiting-wq p s w here,
  waiting-Waits p s w here range,
  waiting-ready p s w here,
  waiting-states p s w here,
)
