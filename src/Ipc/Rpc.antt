-- ===== src/Ipc/Rpc.antt =====
-- A whole remote call: send, receive, reply and the return of the send.
use manrix.Base.{ℕ, ◌<◌, ◌≡◌, refl, ◌≢◌, Bool, true, false, some, [], ◌∷◌, arith, ◌∙◌, sym, ap}
use manrix.Kernel.{Ptr, Message, Kernel, receive_blocked, reply_blocked, test_mask}
use manrix.Sched.{last}
use manrix.Sched.Queues.{IsValid, is_ready}
use manrix.Threads.{found, find_by_tid}
use manrix.Ipc.{
  msg_noreply, done, blocked, transfer_msg, send_message, send_resumed, receive_message,
  reply_message,
}
use manrix.Ipc.Keeps.{find_by_tid-cong}
use manrix.Ipc.Calls.{
  CanReach, sent, Transfers, prepared, prepared-stats, prepared-tids, prepared-msg,
  prepared-senders, prepared-thash, send_message-Keeps,
}
use manrix.Ipc.Answers.{taken, taken-kept, receive_message-takes, reply_message-wakes}

-- The processor goes on with another thread.
abbrev pub switch : Ptr → Kernel → Kernel
switch t k = record k { current = t }

pub switch-IsValid : (t : Ptr) (k : Kernel) → IsValid k → IsValid (switch t k)
switch-IsValid t k v = record {
  queues = v.queues;
  word = v.word;
  mask = v.mask;
  placed = v.placed;
  once = v.once;
}

flags-sent :
    (share : Ptr → Ptr → ℕ → ℕ → Bool × ℕ) (r : Ptr) (m : Message) (k : Kernel)
    → (sent share r m k).flags ≡ m.flags
unfolding transfer_msg
flags-sent share r m k = ground arith

last-one : (t : Ptr) → last (t ∷ []) ≡ some t
unfolding last
last-one t = refl

-- The part of a call from the client's block on, on any later kernel `k` in which the client still
-- waits.
module _ (client server : Ptr) (m reply : Message) (k : Kernel) (v : IsValid k)
    (queue : (k.thr server).rcvq ≡ client ∷ []) (held : (k.thr client).msg ≡ m)
    (wants : test_mask m.flags msg_noreply ≡ false)
    (known : find_by_tid (k.thr client).tid k ≡ found client)
    (blocked_client : is_ready client k ≡ false) (running : is_ready server k ≡ true)
    (ranked : (k.thr client).priority_stat < 128) (apart : server ≢ client) where
  after : Kernel
  after = taken (switch server k) (switch-IsValid server k v) client

  received :
      (receive_message (switch server k) ≡ (done (k.thr client).tid after, some m))
      × IsValid after
      × ((u : Ptr) → is_ready u after ≡ is_ready u k)
      × ((after.thr client).states ≡ reply_blocked)
      × (find_by_tid (k.thr client).tid after ≡ found client)
      × ((after.thr client).priority_stat ≡ (k.thr client).priority_stat)
  unfolding after
  received =
      let at_server = switch server k in
      let v' = switch-IsValid server k v in
      let (e, va, ready, states, senders, msgs) =
        receive_message-takes at_server v' client (rw queue (last-one client)) (rw held wants) in
      (
        e ∙ ap (λ t. (done (k.thr client).tid after, some t)) held,
        va,
        ready,
        states client ∙ ground arith,
        find_by_tid-cong (k.thr client).tid k after (λ u. (taken-kept at_server v' client u).0)
              (λ b. refl)
            ∙ known,
        (taken-kept at_server v' client client).1,
      )

  pub receive-reply :
      (k₂ k₃ : Kernel) × (receive_message (switch server k) ≡ (done (k.thr client).tid k₂, some m))
      × (reply_message (k.thr client).tid reply k₂ ≡ done 0 k₃)
      × (send_resumed (switch client k₃) ≡ (reply.w1, reply))
      × IsValid k₃
      × (is_ready client k₃ ≡ true)
      × (is_ready server k₃ ≡ true)
  receive-reply =
      let (e, va, ready, state, named, stat) = received in
      let (k₃, e₃, v₃, ready₃, states₃, msgs₃, senders₃, cur₃) =
        reply_message-wakes after va (k.thr client).tid client reply named (rw state)
          (ready client ∙ blocked_client) (rw stat ranked) in
      let got : (k₃.thr client).msg ≡ reply = msgs₃ client ∙ ground arith in
      (
        after,
        k₃,
        e,
        e₃,
        rw got,
        v₃,
        ready₃ client ∙ ground arith,
        ready₃ server ∙ ground (arith, ready server),
      )

module _ (share : Ptr → Ptr → ℕ → ℕ → Bool × ℕ) (server : Ptr) (m reply : Message) (k : Kernel)
    (tid : ℕ) (c : CanReach tid server k) (good : Transfers share server m k)
    (idle : is_ready server k ≡ false) (waits : (k.thr server).states ≡ receive_blocked)
    (alone : (k.thr server).rcvq ≡ []) (wants : test_mask m.flags msg_noreply ≡ false)
    (known : find_by_tid (k.thr k.current).tid k ≡ found k.current)
    (ranked : (k.thr k.current).priority_stat < 128) where
  -- A call of a server that waits in `receive_message` with no other sender: whenever the server
  -- runs next, it receives the client's message and tid; when it replies to that tid, the client
  -- is ready again, and its `send_message` returns the reply and its first word. The run queue is
  -- sound at the end, with both threads ready.
  pub send-receive-reply :
      (k₁ k₂ k₃ : Kernel) × (send_message share tid m k ≡ blocked k₁)
      × (receive_message (switch server k₁)
          ≡ (done (k.thr k.current).tid k₂, some (sent share server m k)))
      × (reply_message (k.thr k.current).tid reply k₂ ≡ done 0 k₃)
      × (send_resumed (switch k.current k₃) ≡ (reply.w1, reply))
      × IsValid k₃
      × (is_ready k.current k₃ ≡ true)
      × (is_ready server k₃ ≡ true)
  send-receive-reply =
      let client = k.current in
      let p = prepared share server m k in
      let (k₁, e₁, v₁, ready₁, state_c, state_s, keeps) =
        send_message-Keeps share server m k tid c good idle (rw waits) in
      let queue : (k₁.thr server).rcvq ≡ client ∷ [] =
        keeps.senders server ∙ prepared-senders share server m k server ∙ ground (arith, alone) in
      let held : (k₁.thr client).msg ≡ sent share server m k =
        keeps.msgs client ∙ prepared-msg share server m k client ∙ ground arith in
      let tids : (u : Ptr) → (k₁.thr u).tid ≡ (k.thr u).tid =
        λ u. keeps.tids u ∙ prepared-tids share server m k u in
      let named : find_by_tid (k.thr client).tid k₁ ≡ found client =
        find_by_tid-cong (k.thr client).tid k k₁ tids
          (λ b. keeps.table b ∙ prepared-thash share server m k b)
        ∙ known in
      let (k₂, k₃, e₂, e₃, res, v₃, rc, rs) =
        receive-reply client server (sent share server m k) reply k₁ v₁ queue held
          (rw (flags-sent share server m k) wants) (rw (tids client) named)
          (ready₁ client ∙ ground arith) (ready₁ server ∙ ground (arith, c.other))
          (rw (keeps.stats client, prepared-stats share server m k client) ranked) c.other in
      (
        k₁,
        k₂,
        k₃,
        e₁,
        e₂ ∙ ap (λ t. (done t k₂, some (sent share server m k))) (tids client),
        ap (λ t. reply_message t reply k₂) (sym (tids client)) ∙ e₃,
        res,
        v₃,
        rc,
        rs,
      )
