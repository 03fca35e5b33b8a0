-- ===== src/Sched/Moves.antt =====
-- `enqueue_thread`, `remove_thread` and `wakeup` keep the run queue sound.
use manrix.Base.{
  ℕ, ◌≤◌, ◌<◌, ◌≡◌, refl, Bool, true, false, ◌&&◌, some, List, [], ◌∷◌, arith, ltb, ◌==◌,
  if◌then◌else◌, get_or, set, length, ◌∈◌, Bool-cases, inl, inr, length-set, ◌∙◌, ◌⊎◌,
}
use manrix.Base.Int.{pos, ◌+ℤ◌, ◌-ℤ◌}
use manrix.Bits.{check_set, set_bit, clear_bit}
use manrix.Bits.Laws.{check_set-set_bit, check_set-clear_bit, set_bit-lt, clear_bit-le}
use manrix.Kernel.{Ptr, Thread, Kernel, update_thread}
use manrix.Sched.{prioq, erase, enqueue_thread, remove_thread}
use manrix.Sched.Queues.{
  get_or-set, get_or-past, has-erase, erase-Distinct, is_empty, IsValid, is_ready, not-is_queued,
}

-- What `enqueue_thread` does to the run queue.
abbrev pub enqueued : Ptr → Kernel → Kernel
enqueued t k =
    let index = prioq (k.thr t).priority_dyn in
    record k {
      run = set k.run index (t ∷ get_or k.run index []);
      bitmap = set_bit k.bitmap index;
      nthreads = k.nthreads +ℤ pos 1;
    }

-- What `remove_thread` does to the run queue.
abbrev pub removed : Ptr → Kernel → Kernel
removed t k =
    let index = prioq (k.thr t).priority_dyn in
    let q' = erase t (get_or k.run index []) in
    record k {
      run = set k.run index q';
      bitmap = (if length q' == 0 then clear_bit k.bitmap index else k.bitmap);
      nthreads = k.nthreads -ℤ pos 1;
    }

is_empty-length : (q : List Ptr) → (length q == 0) ≡ is_empty q
is_empty-length [] = refl
is_empty-length (x ∷ q) = ground arith

pub mem-not-empty : (t : Ptr) (q : List Ptr) → t ∈ q → is_empty q ≡ false
mem-not-empty t [] h = cc
mem-not-empty t (x ∷ q) h = refl

-- The bits of a word that is cleared at `i` on a condition.
check_set-clear_if :
    (b : Bool) (w i j : ℕ)
    → check_set (if b then clear_bit w i else w) j
      ≡ (if b && (i == j) then false else check_set w j)
check_set-clear_if true w i j = check_set-clear_bit w i j
check_set-clear_if false w i j = refl

clear_if-le : (b : Bool) (w i : ℕ) → (if b then clear_bit w i else w) ≤ w
clear_if-le true w i = clear_bit-le w i
clear_if-le false w i = omega arith

module _ (t : Ptr) (k : Kernel) (v : IsValid k) where
  module _ (small : (k.thr t).priority_dyn < 128) (out : is_ready t k ≡ false) where
    -- A thread that is not on the run queue goes to the front of the queue of its priority.
    pub enqueue_thread-some : enqueue_thread t k ≡ some (enqueued t k)
    unfolding enqueue_thread
    enqueue_thread-some = ground (arith, not-is_queued k t v out, v.queues)

    pub enqueued-IsValid : IsValid (enqueued t k)
    enqueued-IsValid =
        let i : ℕ = prioq (k.thr t).priority_dyn in
        let lt : i < length k.run = omega (arith, v.queues) in
        let at = λ (j : ℕ). get_or-set k.run i j (t ∷ get_or k.run i []) [] lt in
        record {
          queues = length-set k.run i (t ∷ get_or k.run i []) ∙ v.queues;
          word = set_bit-lt 32 k.bitmap i v.word (omega arith);
          mask = λ j le. ground (arith, at j, check_set-set_bit k.bitmap i j, v.mask j le);
          placed = λ j u h. ground (arith, at j, v.placed j u);
          once = λ j. ground (arith, at j, v.once j, v.once i, out);
        }

    -- Afterwards that thread is ready, and the others as before.
    pub enqueued-ready :
        (u : Ptr) → is_ready u (enqueued t k) ≡ (if t == u then true else is_ready u k)
    enqueued-ready u =
        let i : ℕ = prioq (k.thr t).priority_dyn in
        let lt : i < length k.run = omega (arith, v.queues) in
        ground
          (arith, get_or-set k.run i (prioq (k.thr u).priority_dyn) (t ∷ get_or k.run i []) [] lt)

  module _ (there : is_ready t k ≡ true) where
    queue_of_ready : prioq (k.thr t).priority_dyn < length k.run
    queue_of_ready = elim (Bool-cases (ltb (prioq (k.thr t).priority_dyn) (length k.run))) [
      | inl lt ↦ ground arith
      | inr ge ↦ absurd (ground (arith, get_or-past k.run (prioq (k.thr t).priority_dyn) []))
    ]

    -- A thread that is on the run queue is taken out of the queue of its priority.
    pub remove_thread-some : remove_thread t k ≡ some (removed t k)
    unfolding remove_thread
    remove_thread-some = rw there

    pub removed-IsValid : IsValid (removed t k)
    removed-IsValid =
        let i : ℕ = prioq (k.thr t).priority_dyn in
        let q : List Ptr = get_or k.run i [] in
        let lt : i < length k.run = queue_of_ready in
        let at = λ (j : ℕ). get_or-set k.run i j (erase t q) [] lt in
        let bits = λ (j : ℕ). check_set-clear_if (length (erase t q) == 0) k.bitmap i j in
        record {
          queues = length-set k.run i (erase t q) ∙ v.queues;
          word = omega (arith, v.word, clear_if-le (length (erase t q) == 0) k.bitmap i);
          mask = λ j le. ground (
            arith,
            at j,
            bits j,
            v.mask j le,
            is_empty-length (erase t q),
            mem-not-empty t q there,
          );
          placed = λ j u h. ground (arith, at j, v.placed j u, has-erase t u q (v.once i));
          once = λ j. ground (arith, at j, v.once j, erase-Distinct t q (v.once i));
        }

    -- Afterwards exactly the other threads are ready that were.
    pub removed-ready :
        (u : Ptr) → is_ready u (removed t k) ≡ (if t == u then false else is_ready u k)
    removed-ready u =
        let i : ℕ = prioq (k.thr t).priority_dyn in
        let q : List Ptr = get_or k.run i [] in
        ground (
          arith,
          get_or-set k.run i (prioq (k.thr u).priority_dyn) (erase t q) [] queue_of_ready,
          has-erase t u q (v.once i),
        )

-- A thread's own record can change, but for its dynamic priority, without touching the run queue.
pub update-IsValid :
    (t : Ptr) (f : Thread → Thread) (k : Kernel)
    → IsValid k
    → (is_ready t k ≡ false) ⊎ ((f (k.thr t)).priority_dyn ≡ (k.thr t).priority_dyn)
    → IsValid (update_thread t f k)
update-IsValid t f k v ok = record {
  queues = v.queues;
  word = v.word;
  mask = v.mask;
  placed = λ i u h. ground (arith, v.placed i u h);
  once = v.once;
}
