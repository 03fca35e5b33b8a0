-- ===== src/Ipc/Faults.antt =====
-- Three ways in which message passing departs from what it is meant to do.
use manrix.Base.{ℕ, ◌<◌, ◌≡◌, refl, ◌≢◌, Bool, true, false, arith, ◌∙◌, ◌∈◌}
use manrix.Kernel.{Ptr, Message, Kernel, send_blocked, enomem, thread_ready}
use manrix.Sched.Queues.{IsValid, is_ready}
use manrix.Threads.{Lookup, found, fault, find_by_tid}
use manrix.Threads.Laws.{is_known, LooksUp, find_by_tid-LooksUp}
use manrix.Ipc.{done, failed, undefined, transfer_msg, send_message, reply_message}
use manrix.Ipc.Calls.{CanReach, stored, prepared, prepared-ready, prepared-senders, send_queued-bad}
use manrix.Ipc.Answers.{reply_message-wakes}

send-fault :
    (share : Ptr → Ptr → ℕ → ℕ → Bool × ℕ) (tid : ℕ) (m : Message) (k : Kernel) (r : Lookup)
    → find_by_tid tid k ≡ r
    → LooksUp tid k r
    → ((t : Ptr) → is_known t k ≡ true → (k.thr t).tid ≢ tid)
    → send_message share tid m k ≡ undefined
unfolding send_message
send-fault share tid m k fault e l h = rw (e, send_message)
send-fault share tid m k (found t) e l h = absurd (h t l.0 l.1)

module _ (share : Ptr → Ptr → ℕ → ℕ → Bool × ℕ) where
  -- To a tid that no thread of the table has, `send_message` does not answer -ESRCH: its lookup
  -- reads through NULL.
  pub send_message-unknown :
      (tid : ℕ) (m : Message) (k : Kernel)
      → ((t : Ptr) → is_known t k ≡ true → (k.thr t).tid ≢ tid)
      → send_message share tid m k ≡ undefined
  send_message-unknown tid m k h =
      send-fault share tid m k (find_by_tid tid k) refl (find_by_tid-LooksUp tid k) h

  -- When the pages of a message cannot be shared, `send_message` fails with -ENOMEM, but the
  -- sender, which stays ready, has joined the receiver's queue.
  pub send_message-leaves-sender :
      (tid : ℕ) (r : Ptr) (m : Message) (k : Kernel)
      → CanReach tid r k
      → (transfer_msg share r k.current (stored m k)).0 ≡ false
      → (k' : Kernel) × (send_message share tid m k ≡ failed enomem k')
        × (k.current ∈ (k'.thr r).rcvq)
        × (is_ready k.current k' ≡ true)
  unfolding send_message
  send_message-leaves-sender tid r m k c bad = (
    prepared share r m k,
    rw (c.named, send_message, send_queued-bad share r m k bad),
    ground (arith, prepared-senders share r m k r),
    prepared-ready share r m k k.current ∙ c.caller,
  )

-- `reply_message` completes the call of a thread that is SEND_BLOCKED, whose message nobody has
-- received: that thread becomes ready with the reply as its message, and is still in the queue
-- of the receiver that it sent to.
pub reply_message-unreceived :
    (tid : ℕ) (w r : Ptr) (m : Message) (k : Kernel)
    → IsValid k
    → find_by_tid tid k ≡ found w
    → (k.thr w).states ≡ send_blocked
    → is_ready w k ≡ false
    → (k.thr w).priority_stat < 128
    → w ∈ (k.thr r).rcvq
    → (k' : Kernel) × (reply_message tid m k ≡ done 0 k')
      × ((k'.thr w).states ≡ thread_ready)
      × ((k'.thr w).msg ≡ m)
      × (w ∈ (k'.thr r).rcvq)
reply_message-unreceived tid w r m k v named state out low queued =
    let (k', e, v', ready, states, msgs, senders, cur) =
      reply_message-wakes k v tid w m named (rw state) out low in
    (k', e, states w ∙ ground arith, msgs w ∙ ground arith, rw (senders r) queued)
