-- ===== src/Sched/Queues.antt =====
-- The queues of the scheduler as lists, and the invariant of the run queue.
use manrix.Base.{
  ℕ, zero, suc, ◌≤◌, ◌<◌, ◌≡◌, refl, Bool, true, false, not, none, some, List, [], ◌∷◌, arith, ◌==◌,
  if◌then◌else◌, get_or, set, length, has, ◌∈◌, ◌∉◌, Distinct, Bool-cases, inl, inr,
  get_or-set_self, get_or-set_ne, ◌^◌,
}
use native.Mathlib.Decide.{ℕ_discrete}
use manrix.Bits.{check_set}
use manrix.Kernel.{Ptr, Kernel}
use manrix.Sched.{maxq, prioq, is_queued, erase, last}

pub get_or-set {ℓ} :
    {A : Type ℓ} (xs : List A) (i j : ℕ) (v d : A)
    → i < length xs
    → get_or (set xs i v) j d ≡ (if i == j then v else get_or xs j d)
get_or-set xs i j v d lt = elim (ℕ_discrete i j) [
  | yes e ↦ rw (← e, get_or-set_self xs i v d lt) (ground arith)
  | no ne ↦ rw (get_or-set_ne xs i j v d ne) (ground arith)
]

pub get_or-past {ℓ} : {A : Type ℓ} (xs : List A) (i : ℕ) (d : A) → length xs ≤ i → get_or xs i d ≡ d
get_or-past [] i d h = refl
get_or-past (x ∷ xs) zero d h = absurd (omega arith)
get_or-past (x ∷ xs) (suc i) d h = get_or-past xs i d (omega arith)

pub has-erase :
    (t u : Ptr) (xs : List Ptr)
    → Distinct xs
    → has u (erase t xs) ≡ (if t == u then false else has u xs)
unfolding erase
has-erase t u [] d = ground arith
has-erase t u (x ∷ xs) d = ground (arith, has-erase t u xs d.1)

pub erase-Distinct : (t : Ptr) (xs : List Ptr) → Distinct xs → Distinct (erase t xs)
unfolding erase
erase-Distinct t [] d = tt
erase-Distinct t (x ∷ xs) d = ground (arith, erase-Distinct t xs d.1, has-erase t x xs d.1)

pub last-some : (xs : List Ptr) (t : Ptr) → last xs ≡ some t → t ∈ xs
unfolding last
last-some [] t e = cc
last-some (x ∷ xs) t e = ground (arith, last-some xs t)

pub last-none : (xs : List Ptr) → last xs ≡ none → xs ≡ []
unfolding last
last-none [] e = refl
last-none (x ∷ xs) e = ground arith

-- A queued thread stands in one of the queues.
pub is_queued-none :
    (t : Ptr) (qs : List (List Ptr)) → ((i : ℕ) → t ∉ get_or qs i []) → is_queued t qs ≡ false
unfolding is_queued
is_queued-none t [] h = refl
is_queued-none t (q ∷ qs) h = ground (arith, h 0, is_queued-none t qs (λ i. h (suc i)))

pub is_queued-mem :
    (t : Ptr) (qs : List (List Ptr)) (i : ℕ) → t ∈ get_or qs i [] → is_queued t qs ≡ true
unfolding is_queued
is_queued-mem t [] i h = cc
is_queued-mem t (q ∷ qs) zero h = ground arith
is_queued-mem t (q ∷ qs) (suc i) h = ground (arith, is_queued-mem t qs i h)

abbrev pub is_empty : List Ptr → Bool
is_empty [] = true
is_empty (x ∷ xs) = false

-- The run queue is sound: there are 32 queues, bit `i` of the bitmap is set exactly if queue `i`
-- is not empty, a queued thread stands in the queue of its dynamic priority, and in it once.
pub record IsValid (k : Kernel) : Type 0 where
  pub queues : length k.run ≡ maxq
  pub word : k.bitmap < 2 ^ 32
  pub mask : (i : ℕ) → i < maxq → check_set k.bitmap i ≡ not (is_empty (get_or k.run i []))
  pub placed : (i : ℕ) (t : Ptr) → t ∈ get_or k.run i [] → prioq (k.thr t).priority_dyn ≡ i
  pub once : (i : ℕ) → Distinct (get_or k.run i [])

-- A thread is on the run queue.
abbrev pub is_ready : Ptr → Kernel → Bool
is_ready t k = has t (get_or k.run (prioq (k.thr t).priority_dyn) [])

-- A thread that is not ready is in no queue.
pub not-mem-queue :
    (k : Kernel) (t : Ptr) → IsValid k → is_ready t k ≡ false → (i : ℕ) → t ∉ get_or k.run i []
not-mem-queue k t v out i = elim (Bool-cases (has t (get_or k.run i []))) [
  | inl there ↦ absurd (ground (arith, v.placed i t there))
  | inr away ↦ away
]

pub not-is_queued :
    (k : Kernel) (t : Ptr) → IsValid k → is_ready t k ≡ false → is_queued t k.run ≡ false
not-is_queued k t v out = is_queued-none t k.run (not-mem-queue k t v out)
