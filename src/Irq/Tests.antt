-- ===== src/Irq/Tests.antt =====
-- The line 1, on which the thread 2 waits, and the line 5, which two handlers share.
use manrix.Base.{ℕ, ◌≡◌, refl, ◌≢◌, true, false, [], ◌∷◌, ◌==◌, if◌then◌else◌, arith, inr}
use manrix.Kernel.{Ptr, Thread, update_thread}
use manrix.Sched.{sched_init}
use manrix.Sched.Queues.{IsValid, is_ready}
use manrix.Sched.Moves.{update-IsValid}
use manrix.Sched.Tests.{started, started-IsValid}
use manrix.Irq.{Irq, IrqState, irq_wait, served, handle_irq}
use manrix.Irq.Handling.{OneWaits, handle_irq-wakes}

abbrev waits : Thread → Thread
waits t = record t { states = irq_wait }

abbrev handler_of : ℕ → Ptr → Irq
handler_of id owner = record { id = id; flag = 0; handler = true; owner = owner; next = 0 }

abbrev lines : IrqState
lines = record {
  kernel = update_thread 2 waits started;
  pc_irq = λ n. handler_of n 2;
  list = λ n. if n == 5 then 40 ∷ [] else [];
  irq = λ p. handler_of 16 1;
  irqhash = λ b. 0;
  next_id = 17;
  requested = λ t. false;
}

line_one : OneWaits 1 lines
unfolding sched_init
line_one = record {
  line = omega arith;
  alone = refl;
  handled = refl;
  asleep = refl;
  off = refl;
  range = ground arith;
  valid = update-IsValid 2 waits started started-IsValid (inr refl);
}

handle_irq-wakes_example :
    (t : IrqState) × (handle_irq 1 1 lines ≡ served t)
    × ((u : Ptr) → is_ready u t.kernel ≡ (if 2 == u then true else is_ready u lines.kernel))
    × ((u : Ptr) → t.requested u ≡ (if 2 == u then true else false))
    × IsValid t.kernel
unfolding sched_init
handle_irq-wakes_example = handle_irq-wakes 0 1 lines line_one

two_handlers : lines.list 5 ≢ []
two_handlers = cc
