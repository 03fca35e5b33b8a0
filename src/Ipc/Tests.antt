-- ===== src/Ipc/Tests.antt =====
-- Runs of the message-passing theorems: thread 1 is the client, thread 2 the server.
use manrix.Base.{
  ◌∈◌, has, ℕ, ◌≡◌, refl, ◌≢◌, Bool, true, false, some, [], ◌∷◌, arith, ◌==◌, if◌then◌else◌, inr,
}
use manrix.Kernel.{
  test_mask, Ptr, Message, Thread, Kernel, update_thread, send_blocked, receive_blocked,
  reply_blocked,
}
use manrix.Sched.{last, sched_init}
use manrix.Sched.Queues.{IsValid, is_ready}
use manrix.Sched.Moves.{update-IsValid}
use manrix.Sched.Tests.{
  no_message, initial, initial-IsValid, started, started-IsValid, both, both-IsValid, caller_ready,
}
use manrix.Threads.{find_by_tid, find_in_chain, hash_fn, found}
use manrix.Threads.Laws.{is_known}
use manrix.Ipc.{
  msg_noreply, done, blocked, transfer_msg, send_message, send_resumed, receive_message,
  reply_message,
}
use manrix.Ipc.Calls.{CanReach, stored, sent, Transfers}
use manrix.Ipc.Answers.{reply_message-wakes}
use manrix.Ipc.Fifo.{answers, receive_all, receive_all-answers}
use manrix.Ipc.Rpc.{switch, switch-IsValid, send-receive-reply}

-- `vm_share_addr`, where it maps the pages at the sender's address, and where it fails.
abbrev share : Ptr → Ptr → ℕ → ℕ → Bool × ℕ
share r s a n = (true, a)

abbrev share_fails : Ptr → Ptr → ℕ → ℕ → Bool × ℕ
share_fails r s a n = (false, a)

-- A request that is copied, one whose pages are mapped, and a reply.
abbrev request : Message
request = record no_message { w1 = 41; flags = 1 }

abbrev mapped : Message
mapped = record no_message { w2 = 4096; w3 = 100; flags = 4 }

abbrev reply : Message
reply = record no_message { w1 = 42; flags = 1 }

abbrev with_state : ℕ → Thread → Thread
with_state state t = record t { states = state }

-- The server waits for a message.
abbrev listening : Kernel
listening = update_thread 2 (with_state receive_blocked) started

listening-IsValid : IsValid listening
listening-IsValid = update-IsValid 2 (with_state receive_blocked) started started-IsValid (inr refl)

find_server : find_by_tid 501 listening ≡ found 2
unfolding find_by_tid find_in_chain hash_fn sched_init
find_server = refl

find_client : find_by_tid 500 listening ≡ found 1
unfolding find_by_tid find_in_chain hash_fn sched_init
find_client = refl

listening-CanReach : CanReach 501 2 listening
unfolding sched_init
listening-CanReach = record {
  valid = listening-IsValid;
  caller = caller_ready;
  named = find_server;
  other = ground arith;
  ranked = omega arith;
}

transfers : Transfers share 2 request listening
unfolding transfer_msg
transfers = refl

send-receive-reply_example :
    (k₁ k₂ k₃ : Kernel) × (send_message share 501 request listening ≡ blocked k₁)
    × (receive_message (switch 2 k₁) ≡ (done 500 k₂, some (sent share 2 request listening)))
    × (reply_message 500 reply k₂ ≡ done 0 k₃)
    × (send_resumed (switch 1 k₃) ≡ (42, reply))
    × IsValid k₃
    × (is_ready 1 k₃ ≡ true)
    × (is_ready 2 k₃ ≡ true)
unfolding sched_init
send-receive-reply_example =
    send-receive-reply share 2 request reply listening 501 listening-CanReach transfers refl refl
      refl refl find_client (omega arith)

find_ready : find_by_tid 501 both ≡ found 2
unfolding find_by_tid find_in_chain hash_fn sched_init
find_ready = refl

both-CanReach : CanReach 501 2 both
unfolding sched_init
both-CanReach = record {
  valid = both-IsValid;
  caller = refl;
  named = find_ready;
  other = ground arith;
  ranked = omega arith;
}

both_transfers : Transfers share 2 mapped both
unfolding transfer_msg
both_transfers = refl

not_shared : (transfer_msg share_fails 2 both.current (stored mapped both)).0 ≡ false
unfolding transfer_msg
not_shared = refl

no_such_tid : (t : Ptr) → is_known t both ≡ true → (both.thr t).tid ≢ 777
unfolding sched_init
no_such_tid t i = ground arith

-- The server runs, and the client waits to send to it.
abbrev serving : Kernel
serving = update_thread 2 (λ t. record t { rcvq = 1 ∷ [] }) (switch 2 listening)

serving-IsValid : IsValid serving
serving-IsValid =
    update-IsValid 2 (λ t. record t { rcvq = 1 ∷ [] }) (switch 2 listening)
      (switch-IsValid 2 listening listening-IsValid) (inr refl)

one_waits : last (serving.thr serving.current).rcvq ≡ some 1
unfolding last
one_waits = refl

-- The thread 3 has sent after the thread 1.
abbrev serving_two : Kernel
serving_two = update_thread 2 (λ t. record t { rcvq = 3 ∷ 1 ∷ [] }) serving

serving_two-IsValid : IsValid serving_two
serving_two-IsValid =
    update-IsValid 2 (λ t. record t { rcvq = 3 ∷ 1 ∷ [] }) serving serving-IsValid (inr refl)

wants_reply :
    (s : Ptr) → s ∈ 1 ∷ 3 ∷ [] → test_mask (serving_two.thr s).msg.flags msg_noreply ≡ false
unfolding sched_init
wants_reply s i = ground arith

receive_all-answers_example :
    (k' : Kernel) × (receive_all 2 serving_two ≡ some (answers serving_two (1 ∷ 3 ∷ []), k'))
    × IsValid k'
    × ((k'.thr 2).rcvq ≡ [])
    × ((u : Ptr)
        → (k'.thr u).states
          ≡ (if has u (1 ∷ 3 ∷ []) then reply_blocked else (serving_two.thr u).states))
    × ((u : Ptr) → is_ready u k' ≡ is_ready u serving_two)
    × ((u : Ptr) → (k'.thr u).msg ≡ (serving_two.thr u).msg)
    × (k'.current ≡ 2)
unfolding sched_init
receive_all-answers_example =
    receive_all-answers (1 ∷ 3 ∷ []) serving_two serving_two-IsValid refl wants_reply

-- The server waits for the reply to a call of its own.
abbrev calling : Kernel
calling = update_thread 2 (with_state reply_blocked) started

calling-IsValid : IsValid calling
calling-IsValid = update-IsValid 2 (with_state reply_blocked) started started-IsValid (inr refl)

find_caller : find_by_tid 501 calling ≡ found 2
unfolding find_by_tid find_in_chain hash_fn sched_init
find_caller = refl

reply_message-wakes_example :
    (k' : Kernel) × (reply_message 501 reply calling ≡ done 0 k')
    × IsValid k'
    × ((u : Ptr) → is_ready u k' ≡ (if 2 == u then true else is_ready u calling))
    × ((u : Ptr) → (k'.thr u).states ≡ (if 2 == u then 2 else (calling.thr u).states))
    × ((u : Ptr) → (k'.thr u).msg ≡ (if 2 == u then reply else (calling.thr u).msg))
    × ((u : Ptr) → (k'.thr u).rcvq ≡ (calling.thr u).rcvq)
    × (k'.current ≡ calling.current)
unfolding sched_init
reply_message-wakes_example =
    reply_message-wakes calling calling-IsValid 501 2 reply find_caller refl refl (omega arith)

-- The client waits to send to the server, which has not yet received.
abbrev waiting : Kernel
waiting =
    update_thread 1 (with_state send_blocked)
      (update_thread 2 (λ t. record t { rcvq = 1 ∷ [] }) initial)

waiting-IsValid : IsValid waiting
waiting-IsValid =
    update-IsValid 1 (with_state send_blocked) _
      (update-IsValid 2 (λ t. record t { rcvq = 1 ∷ [] }) initial initial-IsValid (inr refl))
      (inr refl)

find_waiting : find_by_tid 500 waiting ≡ found 1
unfolding find_by_tid find_in_chain hash_fn sched_init
find_waiting = refl
