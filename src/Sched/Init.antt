-- ===== src/Sched/Init.antt =====
-- `sched_init` makes a sound run queue.
use manrix.Base.{
  ℕ, zero, suc, ◌≡◌, refl, false, List, [], arith, get_or, replicate, length-replicate,
}
use manrix.Bits.Laws.{check_set-zero}
use manrix.Kernel.{Ptr, Kernel}
use manrix.Sched.{maxq, prioq, sched_init}
use manrix.Sched.Queues.{IsValid, is_ready}

get_or-replicate {ℓ} : {A : Type ℓ} (n i : ℕ) (d : A) → get_or (replicate n d) i d ≡ d
get_or-replicate zero i d = refl
get_or-replicate (suc n) zero d = refl
get_or-replicate (suc n) (suc i) d = get_or-replicate n i d

-- After `sched_init` the run queue is sound and no thread is ready.
pub sched_init-IsValid :
    (k : Kernel) → IsValid (sched_init k) × ((t : Ptr) → is_ready t (sched_init k) ≡ false)
unfolding sched_init
sched_init-IsValid k = (
  record {
    queues = length-replicate {A = List Ptr} maxq [];
    word = omega arith;
    mask = λ i lt. rw (check_set-zero i, get_or-replicate {A = List Ptr} maxq i []) refl;
    placed = λ i t h. absurd (ground (arith, get_or-replicate {A = List Ptr} maxq i [], h));
    once = λ i. rw (get_or-replicate {A = List Ptr} maxq i []) tt;
  },
  λ t. rw (get_or-replicate {A = List Ptr} maxq (prioq (k.thr t).priority_dyn) []) refl,
)
