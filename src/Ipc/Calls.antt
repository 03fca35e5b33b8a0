-- ===== src/Ipc/Calls.antt =====
-- What `send_message` does on a sound kernel.
use manrix.Base.{
  ℕ, ◌<◌, ◌≡◌, refl, ◌≢◌, Bool, true, false, some, ◌∷◌, ◌==◌, if◌then◌else◌, arith, inr, ◌∙◌,
}
use manrix.Kernel.{
  Ptr, Message, Kernel, update_thread, send_blocked, receive_blocked, test_mask, thread_ready,
  enomem,
}
use manrix.Sched.{wakeup}
use manrix.Sched.Queues.{IsValid, is_ready}
use manrix.Sched.Moves.{update-IsValid}
use manrix.Threads.{found, find_by_tid}
use manrix.Ipc.{
  Outcome, blocked, make_blocked, transfer_msg, queue_sender, send_queued, finish_send, failed,
  send_message,
}
use manrix.Ipc.Keeps.{Keeps, Keeps-trans, wakeup-Keeps, make_blocked-Keeps}

-- The caller is ready on a sound run queue, and the tid names another thread.
pub record CanReach (tid : ℕ) (r : Ptr) (k : Kernel) : Type 0 where
  pub valid : IsValid k
  pub caller : is_ready k.current k ≡ true
  pub named : find_by_tid tid k ≡ found r
  pub other : r ≢ k.current
  pub ranked : (k.thr r).priority_stat < 128

finish-wakes :
    (r s : Ptr) (p k : Kernel) {o : Outcome}
    → p.current ≡ s
    → test_mask (p.thr r).states receive_blocked ≡ true
    → wakeup r p ≡ some k
    → make_blocked send_blocked s k ≡ o
    → finish_send r p ≡ o
unfolding finish_send
finish-wakes r s p k cur t e h = rw (t, e, cur) h

finish-queues :
    (r s : Ptr) (p : Kernel) {o : Outcome}
    → p.current ≡ s
    → test_mask (p.thr r).states receive_blocked ≡ false
    → make_blocked send_blocked s p ≡ o
    → finish_send r p ≡ o
unfolding finish_send
finish-queues r s p cur t h = rw t (rw (← cur) at h)

-- The message as it is stored in the sender, and what the transfer makes of it.
abbrev pub stored : Message → Kernel → Message
stored m k = record m { tid = (k.thr k.current).tid }

module _ (share : Ptr → Ptr → ℕ → ℕ → Bool × ℕ) (r : Ptr) (m : Message) (k : Kernel) where
  abbrev pub sent : Message
  sent = (transfer_msg share r k.current (stored m k)).1

  -- The state before the receiver is woken.
  pub prepared : Kernel
  prepared = update_thread k.current (λ t. record t { msg = sent }) (queue_sender r m k)

  pub prepared-IsValid : IsValid k → IsValid prepared
  unfolding prepared queue_sender
  prepared-IsValid v =
      update-IsValid k.current (λ t. record t { msg = sent }) (queue_sender r m k)
        (update-IsValid r (λ t. record t { rcvq = k.current ∷ t.rcvq }) _
          (update-IsValid k.current (λ t. record t { msg = record m { tid = t.tid } }) k v
            (inr refl))
          (inr (ground arith)))
        (inr (ground arith))

  module _ (u : Ptr) where
    pub prepared-ready : is_ready u prepared ≡ is_ready u k
    unfolding prepared queue_sender
    prepared-ready = ground arith

    pub prepared-states : (prepared.thr u).states ≡ (k.thr u).states
    unfolding prepared queue_sender
    prepared-states = ground arith

    pub prepared-stats : (prepared.thr u).priority_stat ≡ (k.thr u).priority_stat
    unfolding prepared queue_sender
    prepared-stats = ground arith

    pub prepared-tids : (prepared.thr u).tid ≡ (k.thr u).tid
    unfolding prepared queue_sender
    prepared-tids = ground arith

    pub prepared-msg : (prepared.thr u).msg ≡ (if k.current == u then sent else (k.thr u).msg)
    unfolding prepared queue_sender
    prepared-msg = ground arith

    pub prepared-senders :
        (prepared.thr u).rcvq ≡ (if r == u then k.current ∷ (k.thr u).rcvq else (k.thr u).rcvq)
    unfolding prepared queue_sender
    prepared-senders = ground arith

  pub prepared-thash : (b : ℕ) → prepared.thash b ≡ k.thash b
  unfolding prepared queue_sender
  prepared-thash b = refl

  stored-msg : ((queue_sender r m k).thr k.current).msg ≡ stored m k
  unfolding queue_sender
  stored-msg = ground arith

  current-queue_sender : (queue_sender r m k).current ≡ k.current
  unfolding queue_sender
  current-queue_sender = refl

  current-prepared : prepared.current ≡ k.current
  unfolding prepared queue_sender
  current-prepared = refl

  send_queued-good :
      (transfer_msg share r k.current (stored m k)).0 ≡ true
      → send_queued share r (queue_sender r m k) ≡ finish_send r prepared
  unfolding send_queued prepared
  send_queued-good good = rw (current-queue_sender, stored-msg, good)

  pub send_queued-bad :
      (transfer_msg share r k.current (stored m k)).0 ≡ false
      → send_queued share r (queue_sender r m k) ≡ failed enomem prepared
  unfolding send_queued prepared
  send_queued-bad bad = rw (current-queue_sender, stored-msg, bad)

  -- The transfer of the pages succeeds.
  abbrev pub Transfers : Type 0
  Transfers = (transfer_msg share r k.current (stored m k)).0 ≡ true

  module _ (tid : ℕ) (c : CanReach tid r k) (good : Transfers) where
    -- A send that wakes the receiver, against the state before it is woken.
    pub send_message-Keeps :
        is_ready r k ≡ false
        → test_mask (k.thr r).states receive_blocked ≡ true
        → (k' : Kernel) × (send_message share tid m k ≡ blocked k')
          × IsValid k'
          × ((u : Ptr)
              → is_ready u k'
                ≡ (if k.current == u then false else if r == u then true else is_ready u k))
          × ((k'.thr k.current).states ≡ send_blocked)
          × ((k'.thr r).states ≡ thread_ready)
          × Keeps prepared k'
    unfolding send_message
    send_message-Keeps asleep waits =
        let p = prepared in
        let (k₂, e₂, v₂, ready₂, states₂, keeps₂, cur₂) =
          wakeup-Keeps r p (prepared-IsValid c.valid) (prepared-ready r ∙ asleep)
            (rw (prepared-stats r) c.ranked) in
        let there : is_ready k.current k₂ ≡ true =
          ground (arith, ready₂ k.current, prepared-ready k.current, c.caller) in
        let (k₃, e₃, v₃, ready₃, states₃, keeps₃) =
          make_blocked-Keeps send_blocked k.current k₂ v₂ there in
        (
          k₃,
          rw (c.named, send_message, send_queued-good good)
              (finish-wakes r k.current p k₂ current-prepared (rw (prepared-states r) waits) e₂ e₃),
          v₃,
          λ u. ready₃ u ∙ ground (arith, ready₂ u, prepared-ready u),
          states₃ k.current ∙ ground arith,
          states₃ r ∙ ground (arith, states₂ r, c.other),
          Keeps-trans keeps₂ keeps₃,
        )

    -- `send_message` to a thread whose state shares no bit with RECEIVE_BLOCKED, one that is
    -- running or ready: the sender leaves the run queue in SEND_BLOCKED, first in the receiver's
    -- queue and with its message stored; no other thread's readiness or state changes.
    pub send_message-queues :
        test_mask (k.thr r).states receive_blocked ≡ false
        → (k' : Kernel) × (send_message share tid m k ≡ blocked k')
          × IsValid k'
          × ((u : Ptr) → is_ready u k' ≡ (if k.current == u then false else is_ready u k))
          × ((u : Ptr)
              → (k'.thr u).states ≡ (if k.current == u then send_blocked else (k.thr u).states))
          × Keeps prepared k'
    unfolding send_message
    send_message-queues awake =
        let p = prepared in
        let (k₃, e₃, v₃, ready₃, states₃, keeps₃) =
          make_blocked-Keeps send_blocked k.current p (prepared-IsValid c.valid)
            (prepared-ready k.current ∙ c.caller) in
        (
          k₃,
          rw (c.named, send_message, send_queued-good good)
              (finish-queues r k.current p current-prepared (rw (prepared-states r) awake) e₃),
          v₃,
          λ u. ready₃ u ∙ ground (arith, prepared-ready u),
          λ u. states₃ u ∙ ground (arith, prepared-states u),
          keeps₃,
        )
