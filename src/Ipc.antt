-- ===== src/Ipc.antt =====
-- Message passing (microkernel/kernel/message.c). A call that blocks is split at its call of
-- `schedule`: the first half ends in `blocked`, and the second half runs when the thread is current
-- again. `share` stands for `vm_share_addr` of the virtual memory component, which the messages
-- only call: given receiver, sender, address and size it says whether the pages could be shared and
-- what the address is afterwards.
pub mod Keeps
pub mod Calls
pub mod Answers
pub mod Fifo
pub mod Faults
pub mod Rpc
mod Tests
use Prim.Native.Nat.{bit_and}
use manrix.Base.{ℕ, ◌+◌, Bool, true, false, Option, none, some, List, [], ◌∷◌, ◌==◌, if◌then◌else◌}
use manrix.Kernel.{
  Ptr, Message, Thread, Kernel, Errno, esrch, einval, enomem, minus_one, send_blocked,
  receive_blocked, reply_blocked, test_mask, update_thread,
}
use manrix.Sched.{remove_thread, schedule, wakeup, last, but_last}
use manrix.Threads.{Lookup, found, fault, find_by_tid}

abbrev pub msg_short : ℕ
msg_short = 1

abbrev pub msg_map_send : ℕ
msg_map_send = 4

abbrev pub msg_map_receive : ℕ
msg_map_receive = 8

abbrev pub msg_noreply : ℕ
msg_noreply = 0x20

-- How a system call, or the half of one, ends.
pub data Outcome : Type 0 where
  done : ℕ → Kernel → Outcome
  failed : Errno → Kernel → Outcome
  blocked : Kernel → Outcome
  undefined : Outcome

-- `make_send_blocked` and its two kin: the state differs.
unfoldable pub make_blocked : ℕ → Ptr → Kernel → Outcome
make_blocked state thr k =
    elim (remove_thread thr (update_thread thr (λ t. record t { states = state }) k)) [
      | none ↦ undefined
      | some k' ↦ blocked (schedule k')
    ]

-- `send_message` once the receiver is found: the sender's message is stored and it joins the
-- receiver's queue.
unfoldable pub queue_sender : Ptr → Message → Kernel → Kernel
queue_sender r_thr mesg k =
    let sender = k.current in
    let k₁ = update_thread sender (λ t. record t { msg = record mesg { tid = t.tid } }) k in
    update_thread r_thr (λ t. record t { rcvq = sender ∷ t.rcvq }) k₁

-- The wake-up of the receiver and the block.
unfoldable pub finish_send : Ptr → Kernel → Outcome
finish_send r_thr k =
    if test_mask (k.thr r_thr).states receive_blocked
    then elim (wakeup r_thr k) [
      | none ↦ undefined
      | some k' ↦ make_blocked send_blocked k.current k'
    ]
    else make_blocked send_blocked k.current k

module _ (share : Ptr → Ptr → ℕ → ℕ → Bool × ℕ) where
  -- `transfer_msg`: whether it succeeded, and the sender's message afterwards.
  unfoldable pub transfer_msg : Ptr → Ptr → Message → Bool × Message
  transfer_msg rcv snd msg =
      if test_mask msg.flags msg_short
      then (true, msg)
      else if test_mask msg.flags msg_map_receive
      then (let (good, ptr) = share rcv snd msg.w4 msg.w5 in (good, record msg { w4 = ptr }))
      else if test_mask msg.flags msg_map_send
      then (let (good, ptr) = share rcv snd msg.w2 msg.w3 in (good, record msg { w2 = ptr }))
      else (true, msg)

  -- The transfer, and what follows it.
  unfoldable pub send_queued : Ptr → Kernel → Outcome
  send_queued r_thr k =
      let sender = k.current in
      let (good, msg) = transfer_msg r_thr sender (k.thr sender).msg in
      let k₁ = update_thread sender (λ t. record t { msg = msg }) k in
      if good then finish_send r_thr k₁ else failed enomem k₁

  -- `send_message`, up to the switch.
  unfoldable pub send_message : ℕ → Message → Kernel → Outcome
  send_message tid mesg k = elim (find_by_tid tid k) [
    | fault ↦ undefined
    | found r_thr ↦ send_queued r_thr (queue_sender r_thr mesg k)
  ]

-- What `send_message` gives its caller when it runs again: the message and its first word.
abbrev pub send_resumed : Kernel → ℕ × Message
send_resumed k = ((k.thr k.current).msg.w1, (k.thr k.current).msg)

-- `receive_message`: with no sender waiting it blocks, and starts again when it runs. The result
-- is 0 for a message that wants no reply, and the sender's tid otherwise; the message itself is
-- the sender's `msg`, which is returned beside it.
unfoldable pub receive_message : Kernel → Outcome × Option Message
receive_message k =
    let rcv = k.current in
    elim (last (k.thr rcv).rcvq) [
      | none ↦ (make_blocked receive_blocked rcv k, none)
      | some snd ↦
          let k₁ = update_thread rcv (λ t. record t { rcvq = but_last t.rcvq }) k in
          let msg = (k₁.thr snd).msg in
          if test_mask msg.flags msg_noreply
          then (elim (wakeup snd k₁) [ none ↦ undefined | some k₂ ↦ done 0 k₂ ], some msg)
          else (
            done (k₁.thr snd).tid (update_thread snd (λ t. record t { states = reply_blocked }) k₁),
            some msg,
          )
    ]

-- `unmap_message` has only its first branch left: a short message is copied again.
abbrev pub unmap_message : Ptr → Message → Kernel → Kernel
unmap_message rcv message k =
    if test_mask message.flags msg_short
    then update_thread rcv (λ t. record t { msg = message }) k
    else k

-- `reply_message`
unfoldable pub reply_message : ℕ → Message → Kernel → Outcome
reply_message tid msg k = elim (find_by_tid tid k) [
  | fault ↦ undefined
  | found wait ↦
      if test_mask (k.thr wait).states reply_blocked
      then (let k₁ = unmap_message wait msg (update_thread wait (λ t. record t { msg = msg }) k) in
          elim (wakeup wait k₁) [ none ↦ undefined | some k₂ ↦ done 0 k₂ ])
      else failed esrch k
]
