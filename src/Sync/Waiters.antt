-- ===== src/Sync/Waiters.antt =====
-- The threads that wait for an object, and the lists that they stand in.
use manrix.Base.{
  ℕ, suc, ◌<◌, ◌≡◌, refl, false, some, List, [], ◌∷◌, ◌==◌, if◌then◌else◌, arith, length, has, ◌∈◌,
  Distinct,
}
use manrix.Kernel.{Ptr}
use manrix.Sched.{last, but_last}
use manrix.Sched.Queues.{IsValid, is_ready, last-some}
use manrix.Sync.{State}

-- The threads that wait for an object: off the run queue, each once, and with a priority in range.
pub record Waits (p : Ptr) (s : State) : Type 0 where
  pub off : (t : Ptr) → t ∈ (s.sync p).wq → is_ready t s.kernel ≡ false
  pub range : (t : Ptr) → t ∈ (s.sync p).wq → (s.kernel.thr t).priority_dyn < 128
  pub once : Distinct (s.sync p).wq
  pub valid : IsValid s.kernel

pub has-but_last :
    (xs : List Ptr) (t u : Ptr)
    → Distinct xs
    → last xs ≡ some t
    → has u (but_last xs) ≡ (if t == u then false else has u xs)
unfolding last but_last
has-but_last [] t u d e = ground arith
has-but_last (x ∷ []) t u d e = ground (arith, e)
has-but_last (x ∷ y ∷ ys) t u d e =
    let e' : last (y ∷ ys) ≡ some t = ground (arith, e) in
    ground (arith, has-but_last (y ∷ ys) t u d.1 e', last-some (y ∷ ys) t e', d.0)

pub but_last-mem : (xs : List Ptr) (u : Ptr) → u ∈ but_last xs → u ∈ xs
unfolding but_last
but_last-mem [] u h = h
but_last-mem (x ∷ []) u h = ground arith
but_last-mem (x ∷ y ∷ ys) u h = ground (arith, but_last-mem (y ∷ ys) u)

pub but_last-Distinct : (xs : List Ptr) → Distinct xs → Distinct (but_last xs)
unfolding but_last
but_last-Distinct [] d = tt
but_last-Distinct (x ∷ []) d = tt
but_last-Distinct (x ∷ y ∷ ys) d =
    (ground (arith, d.0, but_last-mem (y ∷ ys) x), but_last-Distinct (y ∷ ys) d.1)

pub length-but_last : (xs : List Ptr) (n : ℕ) → length xs ≡ suc n → length (but_last xs) ≡ n
unfolding but_last
length-but_last [] n e = absurd (omega arith)
length-but_last (x ∷ []) n e = omega arith
length-but_last (x ∷ y ∷ ys) n e = omega (arith, length-but_last (y ∷ ys) (length ys) refl)

pub last-found : (xs : List Ptr) (n : ℕ) → length xs ≡ suc n → (t : Ptr) × (last xs ≡ some t)
unfolding last
last-found [] n e = absurd (omega arith)
last-found (x ∷ []) n e = (x, refl)
last-found (x ∷ y ∷ ys) n e =
    let (t, h) = last-found (y ∷ ys) (length ys) refl in (t, ground (arith, h))
