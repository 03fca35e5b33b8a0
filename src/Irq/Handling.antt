-- ===== src/Irq/Handling.antt =====
-- What an interrupt does.
use manrix.Base.{
  ℕ, zero, suc, ◌<◌, ◌≡◌, refl, ◌≢◌, Bool, true, false, Option, none, some, List, [], ◌∷◌, ltb,
  ◌==◌, if◌then◌else◌, arith, ◌∙◌,
}
use manrix.Kernel.{Ptr, Kernel, test_mask}
use manrix.Sched.{wakeup, schedule}
use manrix.Sched.Queues.{IsValid, is_ready}
use manrix.Sched.Policy.{ready-schedule, schedule-IsValid}
use manrix.Ipc.Keeps.{wakeup-Keeps}
use manrix.Irq.{
  max_irq, thread_blocked, Irq, IrqState, serve_irq, Handled, served, undefined, going_on,
  handle_loop, handle_irq,
}

-- A line with one handler, whose thread waits for it.
pub record OneWaits (irqno : ℕ) (s : IrqState) : Type 0 where
  pub line : irqno < max_irq
  pub alone : s.list irqno ≡ []
  pub handled : (s.pc_irq irqno).handler ≡ true
  pub asleep : test_mask (s.kernel.thr (s.pc_irq irqno).owner).states thread_blocked ≡ true
  pub off : is_ready (s.pc_irq irqno).owner s.kernel ≡ false
  pub range : (s.kernel.thr (s.pc_irq irqno).owner).priority_stat < 128
  pub valid : IsValid s.kernel

serve_irq-wakes :
    (i : Irq) (s : IrqState) (k : Kernel)
    → i.handler ≡ true
    → test_mask (s.kernel.thr i.owner).states thread_blocked ≡ true
    → wakeup i.owner s.kernel ≡ some k
    → serve_irq i s
      ≡ some
          (record s { requested = λ t. if i.owner == t then true else s.requested t; kernel = k })
unfolding serve_irq
serve_irq-wakes i s k handled asleep woken = rw (handled, asleep, woken, serve_irq) refl

handle_loop-alone :
    (n : ℕ) (items ahead : List Ptr) (here : Irq) (s t : IrqState)
    → items ≡ []
    → serve_irq here s ≡ some t
    → handle_loop (suc n) items here ahead s ≡ served (record t { kernel = schedule t.kernel })
unfolding handle_loop
handle_loop-alone n [] ahead here s t alone e = rw (e, handle_loop) refl
handle_loop-alone n (x ∷ xs) ahead here s t alone e = absurd (ground (arith, alone))

-- An interrupt on a line with one handler, whose thread waits, wakes that thread: the interrupt is
-- handled in one round, the thread is ready and marked for the request, no other thread's readiness
-- or mark changes, and the run queue stays sound.
pub handle_irq-wakes :
    (fuel irqno : ℕ) (s : IrqState)
    → OneWaits irqno s
    → (t : IrqState) × (handle_irq (suc fuel) irqno s ≡ served t)
      × ((u : Ptr)
          → is_ready u t.kernel
            ≡ (if (s.pc_irq irqno).owner == u then true else is_ready u s.kernel))
      × ((u : Ptr) → t.requested u ≡ (if (s.pc_irq irqno).owner == u then true else s.requested u))
      × IsValid t.kernel
unfolding handle_irq
handle_irq-wakes fuel irqno s h =
    let owner : Ptr = (s.pc_irq irqno).owner in
    let (k, woken, v, ready, states, keeps, same) =
      wakeup-Keeps owner s.kernel h.valid h.off h.range in
    let marked : IrqState = record s {
      requested = λ t. if owner == t then true else s.requested t;
      kernel = k;
    } in
    let served_one = serve_irq-wakes (s.pc_irq irqno) s k h.handled h.asleep woken in
    let inside : ltb irqno max_irq ≡ true = ground (arith, h.line) in
    (
      record marked { kernel = schedule k },
      rw (inside, handle_irq)
          (handle_loop-alone fuel (s.list irqno) (s.list irqno) (s.pc_irq irqno) s marked h.alone
            served_one),
      λ u. ready-schedule u k ∙ ready u,
      λ u. refl,
      schedule-IsValid k v,
    )

abbrev is_served : Handled → Bool
is_served (served t) = true
is_served undefined = false
is_served going_on = false

one-more :
    (f : IrqState → Handled) (r : Option IrqState)
    → ((s₁ : IrqState) → is_served (f s₁) ≡ false)
    → is_served (elim r as (λ x. Handled) [ none ↦ undefined | some s₁ ↦ f s₁ ]) ≡ false
one-more f none later = refl
one-more f (some s₁) later = later s₁

loop-shared :
    (n : ℕ) (x : Ptr) (xs ahead : List Ptr) (here : Irq) (s : IrqState)
    → is_served (handle_loop n (x ∷ xs) here ahead s) ≡ false
unfolding handle_loop
loop-shared zero x xs ahead here s = refl
loop-shared (suc n) x xs [] here s = ground arith
loop-shared (suc n) x xs (p ∷ ps) here s =
    one-more (λ s₁. handle_loop n (x ∷ xs) (s₁.irq p) ps s₁) (serve_irq here s)
      (λ s₁. loop-shared n x xs ps (s₁.irq p) s₁)

any-shared :
    (n : ℕ) (items ahead : List Ptr) (here : Irq) (s : IrqState)
    → items ≢ []
    → is_served (handle_loop n items here ahead s) ≡ false
any-shared n [] ahead here s shared = absurd (shared refl)
any-shared n (x ∷ xs) ahead here s shared = loop-shared n x xs ahead here s

-- An interrupt on a line with several handlers is never handled to its end: whatever the number of
-- rounds, the loop has not come to `schedule`.
pub handle_irq-shared :
    (fuel irqno : ℕ) (s t : IrqState) → s.list irqno ≢ [] → handle_irq fuel irqno s ≢ served t
unfolding handle_irq
handle_irq-shared fuel irqno s t shared e =
    let never = any-shared fuel (s.list irqno) (s.list irqno) (s.pc_irq irqno) s shared in
    ground (arith, never, e)
