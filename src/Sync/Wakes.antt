-- ===== src/Sync/Wakes.antt =====
-- Unlocking an object wakes the threads that wait for it.
use manrix.Base.{
  ℕ, zero, suc, ◌<◌, ◌≡◌, refl, true, false, Option, none, some, List, [], ◌∷◌, ◌==◌, if◌then◌else◌,
  arith, length, has, ◌∈◌, inl, ◌∙◌,
}
use manrix.Kernel.{Ptr, Thread, Kernel, thread_running, update_thread}
use manrix.Sched.{last, but_last}
use manrix.Sched.Queues.{IsValid, is_ready, last-some}
use manrix.Sched.Moves.{
  enqueued, enqueue_thread-some, enqueued-IsValid, enqueued-ready, update-IsValid,
}
use manrix.Sync.{
  State, update_sync, sync_fn, found, walk, find_sync, returned, blocked, undefined, current_pid,
  unlock, sync_unlock, on_found, refused, unfinished_call,
}
use manrix.Sync.Waiters.{Waits, has-but_last, but_last-Distinct, length-but_last, last-found}

abbrev pub set_running : Thread → Thread
set_running t = record t { states = thread_running }

-- The state after an unlock that wakes `t`.
abbrev pub woken : Ptr → Ptr → State → State
woken p t s = record (update_sync p (λ x. record x { wq = but_last x.wq }) s) {
  kernel = enqueued t (update_thread t set_running s.kernel);
}

-- A walk depends on the links, the owners and the numbers alone.
record SameTable (s s' : State) : Type 0 where
  pub links : (q : Ptr) → (s'.sync q).next ≡ (s.sync q).next
  pub owners : (q : Ptr) → (s'.sync q).owner ≡ (s.sync q).owner
  pub numbers : (q : Ptr) → (s'.sync q).sync_id ≡ (s.sync q).sync_id
  pub buckets : (b : ℕ) → s'.shash b ≡ s.shash b

walk-same :
    (n pid id : ℕ) (link : Ptr) (s s' : State)
    → SameTable s s'
    → walk n pid id link s' ≡ walk n pid id link s
unfolding walk
walk-same zero pid id link s s' h = refl
walk-same (suc n) pid id link s s' h =
    rw (h.links link, h.owners link, h.numbers link, walk-same n pid id (s.sync link).next s s' h)
      refl

find_sync-same :
    (fuel pid id : ℕ) (s s' : State)
    → SameTable s s'
    → find_sync fuel pid id s' ≡ find_sync fuel pid id s
unfolding find_sync
find_sync-same fuel pid id s s' h =
    let p : Ptr = s.shash (sync_fn pid id) in
    rw
      (
        h.buckets (sync_fn pid id),
        h.owners p,
        h.numbers p,
        h.links p,
        walk-same fuel pid id (s.sync p).next s s' h,
      )
      refl

module _ (p t : Ptr) (s : State) (w : Waits p s) (e : last (s.sync p).wq ≡ some t) where
  there : t ∈ (s.sync p).wq
  there = last-some (s.sync p).wq t e

  k₁ : Kernel
  k₁ = update_thread t set_running s.kernel

  running-IsValid : IsValid k₁
  unfolding k₁
  running-IsValid = update-IsValid t set_running s.kernel w.valid (inl (w.off t there))

  running-off : is_ready t k₁ ≡ false
  unfolding k₁
  running-off = ground (arith, w.off t there)

  running-range : (k₁.thr t).priority_dyn < 128
  unfolding k₁
  running-range = ground (arith, w.range t there)

  unlock-woken : unlock p s ≡ returned 0 (woken p t s)
  unfolding k₁ unlock
  unlock-woken =
      let put = enqueue_thread-some t k₁ running-IsValid running-range running-off in
      rw (e, put, unlock) refl

  woken-ready :
      (u : Ptr) → is_ready u (woken p t s).kernel ≡ (if t == u then true else is_ready u s.kernel)
  unfolding k₁
  woken-ready u =
      let now = enqueued-ready t k₁ running-IsValid running-range running-off u in
      ground (arith, now)

  woken-wq :
      (u : Ptr) → has u ((woken p t s).sync p).wq ≡ (if t == u then false else has u (s.sync p).wq)
  woken-wq u = ground (arith, has-but_last (s.sync p).wq t u w.once e)

  woken-states :
      (u : Ptr)
      → ((woken p t s).kernel.thr u).states
        ≡ (if t == u then thread_running else (s.kernel.thr u).states)
  woken-states u = ground arith

  woken-Waits : Waits p (woken p t s)
  unfolding k₁
  woken-Waits = record {
    off = λ u h. ground (arith, woken-wq u, woken-ready u, w.off u);
    range = λ u h. ground (arith, woken-wq u, w.range u);
    once = ground (arith, but_last-Distinct (s.sync p).wq w.once);
    valid = enqueued-IsValid t k₁ running-IsValid running-range running-off;
  }

  woken-SameTable : SameTable s (woken p t s)
  woken-SameTable = record {
    links = λ q. ground arith;
    owners = λ q. ground arith;
    numbers = λ q. ground arith;
    buckets = λ b. refl;
  }

-- `n` unlocks of one object in a row, by the running thread; `none` if one of them does not return.
unfoldable pub unlocks : ℕ → ℕ → ℕ → State → Option State
unlocks zero fuel id s = some s
unlocks (suc n) fuel id s = elim (sync_unlock fuel id s) [
  | returned r s' ↦ unlocks n fuel id s'
  | refused x s' ↦ none
  | blocked s' ↦ none
  | undefined ↦ none
  | unfinished_call ↦ none
]

sync_unlock-found :
    (fuel id : ℕ) (p : Ptr) (s : State)
    → find_sync fuel (current_pid s) id s ≡ found p
    → sync_unlock fuel id s ≡ unlock p s
unfolding sync_unlock on_found
sync_unlock-found fuel id p s e = rw e refl

unlocks-step :
    (n fuel id r : ℕ) (s s' : State)
    → sync_unlock fuel id s ≡ returned r s'
    → unlocks (suc n) fuel id s ≡ unlocks n fuel id s'
unfolding unlocks
unlocks-step n fuel id r s s' e = rw (e, unlocks) refl

has-empty : (xs : List Ptr) (u : Ptr) → length xs ≡ 0 → has u xs ≡ false
has-empty [] u e = refl
has-empty (x ∷ xs) u e = absurd (omega arith)

-- Every thread that waits for an object is woken: as many unlocks as there are waiting threads all
-- return, and after them the queue is empty, each of those threads is running and on the run queue,
-- and the state and the readiness of every other thread are as before.
pub unlocks-wakes :
    (n fuel id : ℕ) (p : Ptr) (s : State)
    → Waits p s
    → find_sync fuel (current_pid s) id s ≡ found p
    → length (s.sync p).wq ≡ n
    → (s' : State) × (unlocks n fuel id s ≡ some s')
      × (length (s'.sync p).wq ≡ 0)
      × ((u : Ptr)
          → is_ready u s'.kernel ≡ (if has u (s.sync p).wq then true else is_ready u s.kernel))
      × ((u : Ptr)
          → (s'.kernel.thr u).states
            ≡ (if has u (s.sync p).wq then thread_running else (s.kernel.thr u).states))
      × IsValid s'.kernel
unfolding unlocks
unlocks-wakes zero fuel id p s w e len =
    let empty = λ (u : Ptr). has-empty (s.sync p).wq u len in
    (s, refl, len, λ u. rw (empty u) refl, λ u. rw (empty u) refl, w.valid)
unlocks-wakes (suc n) fuel id p s w e len =
    let (t, e_last) = last-found (s.sync p).wq n len in
    let s₁ = woken p t s in
    let call : sync_unlock fuel id s ≡ returned 0 s₁ =
      sync_unlock-found fuel id p s e ∙ unlock-woken p t s w e_last in
    let len₁ : length (s₁.sync p).wq ≡ n = ground (arith, length-but_last (s.sync p).wq n len) in
    let (s', run, done, ready, states, valid) =
      unlocks-wakes n fuel id p s₁ (woken-Waits p t s w e_last)
        (find_sync-same fuel (current_pid s) id s s₁ (woken-SameTable p t s w e_last) ∙ e) len₁ in
    let inside = last-some (s.sync p).wq t e_last in
    (
      s',
      unlocks-step n fuel id 0 s s₁ call ∙ run,
      done,
      λ u.
          ready u ∙ ground (arith, woken-wq p t s w e_last u, woken-ready p t s w e_last u, inside),
      λ u.
          states u
          ∙ ground (arith, woken-wq p t s w e_last u, woken-states p t s w e_last u, inside),
      valid,
    )
