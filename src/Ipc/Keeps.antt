-- ===== src/Ipc/Keeps.antt =====
-- What the scheduler's steps leave alone in a thread, and the block at the end of a call.
use manrix.Base.{
  ℕ, ◌≡◌, refl, true, false, some, List, [], ◌∷◌, ◌==◌, if◌then◌else◌, arith, inr, ◌∙◌, ◌<◌,
}
use manrix.Kernel.{Ptr, Thread, Kernel, update_thread}
use manrix.Sched.{schedule, wakeup}
use manrix.Sched.Queues.{IsValid, is_ready}
use manrix.Sched.Moves.{
  enqueued, removed, remove_thread-some, removed-IsValid, removed-ready, update-IsValid,
}
use manrix.Sched.Policy.{
  ready-schedule, states-schedule, msg-schedule, rcvq-schedule, tid-schedule, stat-schedule,
  schedule-IsValid, thash-schedule, woken, wakeup-some, woken-IsValid, woken-ready,
}
use manrix.Threads.{find_in_chain, find_by_tid, hash_fn}
use manrix.Ipc.{blocked, make_blocked}

-- The messages, the queues of senders, the ids, the static priorities and the table of threads
-- are the same.
pub record Keeps (k k' : Kernel) : Type 0 where
  pub msgs : (u : Ptr) → (k'.thr u).msg ≡ (k.thr u).msg
  pub senders : (u : Ptr) → (k'.thr u).rcvq ≡ (k.thr u).rcvq
  pub tids : (u : Ptr) → (k'.thr u).tid ≡ (k.thr u).tid
  pub stats : (u : Ptr) → (k'.thr u).priority_stat ≡ (k.thr u).priority_stat
  pub table : (b : ℕ) → k'.thash b ≡ k.thash b

find_in_chain-cong :
    (f g : Ptr → Thread) (tid : ℕ) (xs : List Ptr)
    → ((u : Ptr) → (g u).tid ≡ (f u).tid)
    → find_in_chain g tid xs ≡ find_in_chain f tid xs
unfolding find_in_chain
find_in_chain-cong f g tid [] same = refl
find_in_chain-cong f g tid (x ∷ xs) same =
    ground (arith, same x, find_in_chain-cong f g tid xs same)

-- A lookup depends on the ids and the table alone.
pub find_by_tid-cong :
    (tid : ℕ) (k k' : Kernel)
    → ((u : Ptr) → (k'.thr u).tid ≡ (k.thr u).tid)
    → ((b : ℕ) → k'.thash b ≡ k.thash b)
    → find_by_tid tid k' ≡ find_by_tid tid k
unfolding find_by_tid
find_by_tid-cong tid k k' tids table =
    rw (table (hash_fn tid)) (find_in_chain-cong k.thr k'.thr tid (k.thash (hash_fn tid)) tids)

pub wakeup-Keeps :
    (t : Ptr) (k : Kernel)
    → IsValid k
    → is_ready t k ≡ false
    → (k.thr t).priority_stat < 128
    → (k' : Kernel) × (wakeup t k ≡ some k')
      × IsValid k'
      × ((u : Ptr) → is_ready u k' ≡ (if t == u then true else is_ready u k))
      × ((u : Ptr) → (k'.thr u).states ≡ (if t == u then 2 else (k.thr u).states))
      × Keeps k k'
      × (k'.current ≡ k.current)
wakeup-Keeps t k v out small = (
  enqueued t (update_thread t woken k),
  wakeup-some t k v out small,
  woken-IsValid t k v out small,
  woken-ready t k v out small,
  λ u. ground arith,
  record {
    msgs = λ u. ground arith;
    senders = λ u. ground arith;
    tids = λ u. ground arith;
    stats = λ u. ground arith;
    table = λ b. refl;
  },
  refl,
)

-- A ready thread that blocks leaves the run queue in the given state, and the run queue stays
-- sound; no other thread's readiness or state changes.
pub make_blocked-Keeps :
    (state : ℕ) (t : Ptr) (k : Kernel)
    → IsValid k
    → is_ready t k ≡ true
    → (k' : Kernel) × (make_blocked state t k ≡ blocked k')
      × IsValid k'
      × ((u : Ptr) → is_ready u k' ≡ (if t == u then false else is_ready u k))
      × ((u : Ptr) → (k'.thr u).states ≡ (if t == u then state else (k.thr u).states))
      × Keeps k k'
unfolding make_blocked
make_blocked-Keeps state t k v ready =
    let k₁ = update_thread t (λ u. record u { states = state }) k in
    let v₁ : IsValid k₁ =
      update-IsValid t (λ u. record u { states = state }) k v (inr (ground arith)) in
    let r₁ : is_ready t k₁ ≡ true = ground arith in
    let k₂ = removed t k₁ in
    (
      schedule k₂,
      rw (remove_thread-some t k₁ v₁ r₁, make_blocked),
      schedule-IsValid k₂ (removed-IsValid t k₁ v₁ r₁),
      λ u. ready-schedule u k₂ ∙ removed-ready t k₁ v₁ r₁ u ∙ ground arith,
      λ u. states-schedule u k₂ ∙ ground arith,
      record {
        msgs = λ u. msg-schedule u k₂ ∙ ground arith;
        senders = λ u. rcvq-schedule u k₂ ∙ ground arith;
        tids = λ u. tid-schedule u k₂ ∙ ground arith;
        stats = λ u. stat-schedule u k₂ ∙ ground arith;
        table = λ b. thash-schedule b k₂ ∙ ground arith;
      },
    )

pub Keeps-trans : {a b c : Kernel} → Keeps a b → Keeps b c → Keeps a c
Keeps-trans p q = record {
  msgs = λ u. q.msgs u ∙ p.msgs u;
  senders = λ u. q.senders u ∙ p.senders u;
  tids = λ u. q.tids u ∙ p.tids u;
  stats = λ u. q.stats u ∙ p.stats u;
  table = λ b. q.table b ∙ p.table b;
}
