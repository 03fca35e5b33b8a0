-- ===== src/Threads/Laws.antt =====
-- The table of threads as a set, and what waiting for a thread does.
use manrix.Base.{
  ℕ, ◌≡◌, refl, ◌≢◌, Bool, true, false, some, List, [], ◌∷◌, ◌==◌, if◌then◌else◌, arith, has, ◌∈◌,
  ◌∉◌, Distinct, Bool-cases, inl, inr, ap, ◌∙◌,
}
use native.Mathlib.Decide.{ℕ_discrete}
use manrix.Sched.{erase, schedule}
use manrix.Sched.Queues.{has-erase, erase-Distinct, IsValid, is_ready}
use manrix.Sched.Policy.{ready-schedule, states-schedule, waiting-schedule}
use manrix.Sched.Moves.{removed, remove_thread-some, removed-ready, update-IsValid}
use manrix.Kernel.{Ptr, Thread, Kernel, thread_uninterruptible, update_thread}
use manrix.Threads.{
  hash_fn, thash_insert, unlink_after, unlink_chain, thash_remove, Lookup, found, fault,
  find_in_chain, find_by_tid, thread_wait,
}

-- A thread is in the table: in the bucket of its tid.
abbrev pub is_known : Ptr → Kernel → Bool
is_known t k = has t (k.thash (hash_fn (k.thr t).tid))

-- The table is sound: a thread of a bucket hashes to it, stands in it once, and no two threads of
-- the table have one tid.
pub record IsTable (k : Kernel) : Type 0 where
  pub hashed : (b : ℕ) (t : Ptr) → t ∈ k.thash b → hash_fn (k.thr t).tid ≡ b
  pub once : (b : ℕ) → Distinct (k.thash b)
  pub unique :
      (t u : Ptr)
      → is_known t k ≡ true
      → is_known u k ≡ true
      → (k.thr t).tid ≡ (k.thr u).tid
      → t ≡ u

find_in_chain-found :
    (thr : Ptr → Thread) (tid : ℕ) (xs : List Ptr) (t : Ptr)
    → find_in_chain thr tid xs ≡ found t
    → (t ∈ xs) × ((thr t).tid ≡ tid)
unfolding find_in_chain
find_in_chain-found thr tid [] t e = cc
find_in_chain-found thr tid (x ∷ xs) t e = ground (arith, find_in_chain-found thr tid xs t)

find_in_chain-fault :
    (thr : Ptr → Thread) (tid : ℕ) (xs : List Ptr) (t : Ptr)
    → find_in_chain thr tid xs ≡ fault
    → t ∈ xs
    → (thr t).tid ≢ tid
unfolding find_in_chain
find_in_chain-fault thr tid [] t e i = cc
find_in_chain-fault thr tid (x ∷ xs) t e i = ground (arith, find_in_chain-fault thr tid xs t)

-- What a lookup of `tid` promises: the thread that it finds is in the table and has that tid; and
-- where it runs into NULL, no thread of the table has it. So it never returns NULL.
abbrev pub LooksUp : ℕ → Kernel → Lookup → Type 0
LooksUp tid k (found t) = (is_known t k ≡ true) × ((k.thr t).tid ≡ tid)
LooksUp tid k fault = (t : Ptr) → is_known t k ≡ true → (k.thr t).tid ≢ tid

lookup-LooksUp : (tid : ℕ) (k : Kernel) (r : Lookup) → find_by_tid tid k ≡ r → LooksUp tid k r
unfolding find_by_tid
lookup-LooksUp tid k (found t) e =
    ground (arith, find_in_chain-found k.thr tid (k.thash (hash_fn tid)) t e)
lookup-LooksUp tid k fault e =
    λ t i same. ground (arith, find_in_chain-fault k.thr tid (k.thash (hash_fn tid)) t e)

-- For every table and every tid, a thread that `find_by_tid` finds is in the table and has that
-- tid; and where it runs into NULL, no thread of the table has the tid.
pub find_by_tid-LooksUp : (tid : ℕ) (k : Kernel) → LooksUp tid k (find_by_tid tid k)
find_by_tid-LooksUp tid k = lookup-LooksUp tid k (find_by_tid tid k) refl

-- In a sound table, `find_by_tid` finds every thread of the table by its tid.
pub find_by_tid-known :
    (t : Ptr) (k : Kernel) → IsTable k → is_known t k ≡ true → find_by_tid (k.thr t).tid k ≡ found t
find_by_tid-known t k v known = known_lookup (find_by_tid (k.thr t).tid k) refl
  where
    known_lookup : (r : Lookup) → find_by_tid (k.thr t).tid k ≡ r → r ≡ found t
    known_lookup fault e = absurd (lookup-LooksUp (k.thr t).tid k fault e t known refl)
    known_lookup (found u) e =
        let p = lookup-LooksUp (k.thr t).tid k (found u) e in ap found (v.unique u t p.0 known p.1)

unlink_after-absent : (t : Ptr) (xs : List Ptr) → t ∉ xs → unlink_after t xs ≡ xs
unfolding unlink_after
unlink_after-absent t [] out = refl
unlink_after-absent t (x ∷ []) out = refl
unlink_after-absent t (x ∷ y ∷ ys) out = ground (arith, unlink_after-absent t (y ∷ ys))

unlink_after-erase :
    (t x : Ptr) (xs : List Ptr) → Distinct (x ∷ xs) → unlink_after t (x ∷ xs) ≡ x ∷ erase t xs
unfolding unlink_after erase
unlink_after-erase t x [] d = refl
unlink_after-erase t x (y ∷ ys) d = elim (Bool-cases (y == t)) [
  | inl e ↦ rw (e, unlink_after) (ap (λ zs. x ∷ zs) (unlink_after-absent t ys (ground arith)))
  | inr e ↦ rw (e, unlink_after) (ap (λ zs. x ∷ zs) (unlink_after-erase t y ys d.1))
]

-- In a chain without repeats the two ways to unlink are one erasure.
unlink_chain-erase : (t : Ptr) (xs : List Ptr) → Distinct xs → unlink_chain t xs ≡ erase t xs
unfolding unlink_chain erase
unlink_chain-erase t [] d = refl
unlink_chain-erase t (x ∷ xs) d = elim (Bool-cases (x == t)) [
  | inl e ↦ rw e refl
  | inr e ↦ rw e (unlink_after-erase t x xs d)
]

module _ (t : Ptr) (k : Kernel) (v : IsTable k) where
  bucket-thash_remove :
      (b : ℕ)
      → (thash_remove t k).thash b
        ≡ (if hash_fn (k.thr t).tid == b then erase t (k.thash b) else k.thash b)
  unfolding thash_remove
  bucket-thash_remove b = elim (ℕ_discrete (hash_fn (k.thr t).tid) b) [
    | yes e ↦
        let same : (hash_fn (k.thr t).tid == b) ≡ true = ground (arith, e) in
        rw (same, e) (unlink_chain-erase t (k.thash b) (v.once b))
    | no ne ↦ let other : (hash_fn (k.thr t).tid == b) ≡ false = ground (arith, ne) in rw other
  ]

  thr-thash_remove : (u : Ptr) → (thash_remove t k).thr u ≡ k.thr u
  unfolding thash_remove
  thr-thash_remove u = refl

  known-thash_remove :
      (u : Ptr) → is_known u (thash_remove t k) ≡ (if t == u then false else is_known u k)
  known-thash_remove u =
      let b = hash_fn (k.thr u).tid in
      rw (thr-thash_remove u, bucket-thash_remove b)
        (ground (arith, has-erase t u (k.thash b) (v.once b), v.hashed b u))

  -- `thash_remove` takes a thread out of a sound table: afterwards exactly the other threads are
  -- known, and the table is sound.
  pub thash_remove-IsTable :
      IsTable (thash_remove t k)
      × ((u : Ptr) → is_known u (thash_remove t k) ≡ (if t == u then false else is_known u k))
  thash_remove-IsTable = (
    record {
      hashed = λ b u i. rw (thr-thash_remove u) (
          let i' = rw (bucket-thash_remove b) at i in
          ground (arith, has-erase t u (k.thash b) (v.once b), v.hashed b u));
      once = λ b.
          rw (bucket-thash_remove b)
            (ground (arith, v.once b, erase-Distinct t (k.thash b) (v.once b)));
      unique = λ u w i j e.
          v.unique u w (ground (arith, known-thash_remove u)) (ground (arith, known-thash_remove w))
            (rw (thr-thash_remove u, thr-thash_remove w) at e);
    },
    known-thash_remove,
  )

-- `thash_insert` puts a thread whose tid no other thread of the table has into a sound table:
-- afterwards it and the threads that were known are known, and the table is sound.
pub thash_insert-IsTable :
    (t : Ptr) (k : Kernel)
    → IsTable k
    → is_known t k ≡ false
    → ((u : Ptr) → is_known u k ≡ true → (k.thr u).tid ≢ (k.thr t).tid)
    → IsTable (thash_insert t k)
      × ((u : Ptr) → is_known u (thash_insert t k) ≡ (if t == u then true else is_known u k))
unfolding thash_insert
thash_insert-IsTable t k v new fresh = (
  record {
    hashed = λ b u i. ground (arith, v.hashed b u);
    once = λ b. ground (arith, v.once b, new);
    unique = λ u w i j e. ground (arith, v.unique u w, fresh u, fresh w, known u, known w);
  },
  known,
)
  where
    known : (u : Ptr) → is_known u (thash_insert t k) ≡ (if t == u then true else is_known u k)
    known u = ground arith

-- `thread_wait` for a ready thread puts that thread to sleep, uninterruptibly, and off the run
-- queue; the caller, which is to wait, stays ready.
pub thread_wait-sleeps-target :
    (tid : ℕ) (t : Ptr) (k : Kernel)
    → IsValid k
    → find_by_tid tid k ≡ found t
    → is_ready t k ≡ true
    → t ≢ k.current
    → is_ready k.current k ≡ true
    → (k' : Kernel) × (thread_wait tid k ≡ some k')
      × ((k'.thr t).states ≡ thread_uninterruptible)
      × ((k'.thr t).waiting ≡ some k.current)
      × (is_ready t k' ≡ false)
      × (is_ready k.current k' ≡ true)
unfolding thread_wait
thread_wait-sleeps-target tid t k v e ready ne caller =
    let k₁ = update_thread t waited k in
    let k₂ = update_thread t asleep k₁ in
    let v₁ : IsValid k₁ = update-IsValid t waited k v (inr (ground arith)) in
    let v₂ : IsValid k₂ = update-IsValid t asleep k₁ v₁ (inr (ground arith)) in
    let r₂ : is_ready t k₂ ≡ true = ground arith in
    (
      schedule (removed t k₂),
      rw (e, thread_wait, remove_thread-some t k₂ v₂ r₂),
      states-schedule t (removed t k₂) ∙ ground arith,
      waiting-schedule t (removed t k₂) ∙ ground arith,
      ready-schedule t (removed t k₂) ∙ ground (arith, removed-ready t k₂ v₂ r₂ t),
      ready-schedule k.current (removed t k₂) ∙ ground (arith, removed-ready t k₂ v₂ r₂ k.current),
    )
  where
    waited : Thread → Thread
    waited u = record u { waiting = some k.current }

    asleep : Thread → Thread
    asleep u = record u { states = thread_uninterruptible }
