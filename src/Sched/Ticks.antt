-- ===== src/Sched/Ticks.antt =====
-- The timer tick (`sched_timer`) and `sched_set`.
use manrix.Base.{
  ℕ, zero, suc, ◌<◌, ◌≡◌, refl, true, false, Option, some, arith, leb, ◌==◌, if◌then◌else◌,
  Bool-cases, inl, inr, ◌⊎◌, ◌∙◌,
}
use manrix.Base.Int.{ℤ, pos, negsuc, ◌+ℤ◌, ◌-ℤ◌, ltb_ℤ, pos_part, ◌≤ℤ◌}
use manrix.Kernel.{Ptr, Thread, Kernel, update_thread, minus_one}
use manrix.Sched.{
  sched_timer, expire, count_down, sched_set, sched_set_refuses, err, prio_sys_min, slice,
}
use manrix.Sched.Queues.{IsValid, is_ready}
use manrix.Sched.Policy.{requeued, requeue-some, requeued-IsValid, requeued-ready}
use manrix.Sched.Moves.{remove_thread-some, update-IsValid}

-- The record of a thread whose slice has expired, before and after it is dequeued.
abbrev refilled : Thread → Thread
refilled thr =
    let b = thr.bound -ℤ pos 1 in
    record thr { time_slice = pos slice; bound = (if ltb_ℤ b (pos 4) then pos 4 else b) }

abbrev reranked : Thread → Thread
reranked thr = record thr { priority_dyn = pos_part (pos thr.priority_stat +ℤ thr.bound) }

refilled_bound : (b : ℤ) → let c = b -ℤ pos 1 in pos 4 ≤ℤ (if ltb_ℤ c (pos 4) then pos 4 else c)
unfolding ◌-ℤ◌
refilled_bound b = ground arith

refilled_top :
    (b : ℤ) → b ≤ℤ pos 82 → let c = b -ℤ pos 1 in (if ltb_ℤ c (pos 4) then pos 4 else c) ≤ℤ pos 82
unfolding ◌-ℤ◌
refilled_top b h = ground arith

reranked_small :
    (s : ℕ) (b : ℤ)
    → s < 46
    → pos 4 ≤ℤ b
    → b ≤ℤ pos 82
    → (pos_part (pos s +ℤ b) < 128) × (pos (pos_part (pos s +ℤ b)) ≡ pos s +ℤ b)
unfolding ◌+ℤ◌
reranked_small s b lt lo hi = ground arith

module _ (t : Ptr) (k : Kernel) (v : IsValid k) (ready : is_ready t k ≡ true)
    (user : (k.thr t).priority_stat < prio_sys_min) (bounded : (k.thr t).bound ≤ℤ pos 82) where
  expire-requeues :
      (k' : Kernel) × (expire t k ≡ some k')
      × IsValid k'
      × ((u : Ptr) → is_ready u k' ≡ is_ready u k)
      × (pos 4 ≤ℤ (k'.thr t).bound)
      × ((k'.thr t).bound ≤ℤ pos 82)
      × ((k'.thr t).time_slice ≡ pos slice)
      × (pos (k'.thr t).priority_dyn ≡ pos (k'.thr t).priority_stat +ℤ (k'.thr t).bound)
  unfolding expire
  expire-requeues =
      let numbers =
        reranked_small (k.thr t).priority_stat (refilled (k.thr t)).bound user
          (refilled_bound (k.thr t).bound) (refilled_top (k.thr t).bound bounded) in
      let k₁ = update_thread t refilled k in
      let v₁ : IsValid k₁ = update-IsValid t refilled k v (inr (ground arith)) in
      let r₁ : is_ready t k₁ ≡ true = ground arith in
      let small : (reranked (k₁.thr t)).priority_dyn < 128 = ground (arith, numbers) in
      (
        requeued t reranked k₁,
        rw (remove_thread-some t k₁ v₁ r₁) (requeue-some t reranked k₁ v₁ r₁ small),
        requeued-IsValid t reranked k₁ v₁ r₁ small,
        λ u. requeued-ready t reranked k₁ v₁ r₁ small u ∙ ground arith,
        ground (arith, refilled_bound (k.thr t).bound),
        ground (arith, refilled_top (k.thr t).bound bounded),
        ground arith,
        ground (arith, numbers),
      )

-- What a timer tick on `k` promises of its outcome: it is defined, keeps the run queue sound, every
-- thread's readiness and the limit on the running thread's bound; and it either leaves that thread's
-- dynamic priority, or gives it a new slice and its static priority plus a bound of at least 4.
abbrev pub Ticked : Kernel → Option Kernel → Type 0
Ticked k o =
    (k' : Kernel) × (o ≡ some k')
    × IsValid k'
    × ((u : Ptr) → is_ready u k' ≡ is_ready u k)
    × ((k'.thr k.current).bound ≤ℤ pos 82)
    × (((k'.thr k.current).priority_dyn ≡ (k.thr k.current).priority_dyn)
        ⊎ (((k'.thr k.current).time_slice ≡ pos slice)
            × (pos 4 ≤ℤ (k'.thr k.current).bound)
            × (pos (k'.thr k.current).priority_dyn
                ≡ pos (k'.thr k.current).priority_stat +ℤ (k'.thr k.current).bound)))

abbrev counted : ℤ → Kernel → Kernel
counted left k = update_thread k.current (λ thr. record thr { time_slice = left }) k

module _ (k : Kernel) (v : IsValid k) (ready : is_ready k.current k ≡ true)
    (bounded : (k.thr k.current).bound ≤ℤ pos 82) where
  counted-IsValid : (left : ℤ) → IsValid (counted left k)
  counted-IsValid left =
      update-IsValid k.current (λ thr. record thr { time_slice = left }) k v (inr refl)

  counted-Ticked : (left : ℤ) → Ticked k (some (counted left k))
  counted-Ticked left = (
    counted left k,
    refl,
    counted-IsValid left,
    λ u. ground arith,
    ground arith,
    inl (ground arith),
  )

  count_down-Ticked :
      (left : ℤ) → (k.thr k.current).priority_stat < prio_sys_min → Ticked k (count_down left k)
  unfolding count_down
  count_down-Ticked (negsuc n) user = counted-Ticked (negsuc n)
  count_down-Ticked (pos (suc n)) user =
      let e : (suc n == 0) ≡ false = ground arith in rw e (counted-Ticked (pos (suc n)))
  count_down-Ticked (pos zero) user =
      let (k', e, v', same, low, top, full, dyn) =
        expire-requeues k.current (counted (pos 0) k) (counted-IsValid (pos 0)) (ground arith)
          (ground arith) (ground arith) in
      (k', e, v', λ u. same u ∙ ground arith, top, inr (full, low, dyn))

  -- A timer interrupt that finds the running thread ready on a sound run queue, with a bound of
  -- at most 82, is defined: it never indexes a queue out of range. It keeps the run queue sound,
  -- every thread's readiness and the limit of 82 on the bound; and it either leaves the thread's
  -- dynamic priority, or gives the thread a new slice, a bound of at least 4, and its static
  -- priority plus that bound as its dynamic priority.
  pub sched_timer-Ticked : Ticked k (sched_timer k)
  unfolding sched_timer
  sched_timer-Ticked = elim (Bool-cases ((k.thr k.current).schedpolicy == 2)) [
    | inl rr ↦ rw rr (k, refl, v, λ u. refl, bounded, inl refl)
    | inr not_rr ↦ elim (Bool-cases ((k.thr k.current).schedpolicy == 4)) [
      | inr fifo ↦ rw (not_rr, fifo) (k, refl, v, λ u. refl, bounded, inl refl)
      | inl other ↦ elim (Bool-cases (leb prio_sys_min (k.thr k.current).priority_stat)) [
        | inl sys ↦ rw (not_rr, other, sys) (k, refl, v, λ u. refl, bounded, inl refl)
        | inr user ↦
            rw (not_rr, other, user)
              (count_down-Ticked ((k.thr k.current).time_slice -ℤ pos 1) (ground arith))
      ]
    ]
  ]

-- `sched_set` refuses every priority with -1: no number is at most 4 and at least 127.
pub sched_set-refuses :
    (t : Ptr) (pol prio : ℕ) (k : Kernel) → sched_set t pol prio k ≡ some (err minus_one, k)
unfolding sched_set sched_set_refuses
sched_set-refuses t pol prio k = ground arith
