-- ===== src/Ipc/Answers.antt =====
-- What `receive_message` and `reply_message` do on a sound kernel.
use manrix.Base.{
  ℕ, ◌<◌, ◌≡◌, refl, Bool, true, false, none, some, [], ◌==◌, if◌then◌else◌, arith, inr, ◌∙◌,
}
use manrix.Kernel.{Ptr, Message, Kernel, update_thread, receive_blocked, reply_blocked, test_mask}
use manrix.Sched.{last, but_last}
use manrix.Sched.Queues.{IsValid, is_ready}
use manrix.Sched.Moves.{update-IsValid}
use manrix.Threads.{found, find_by_tid}
use manrix.Ipc.{msg_noreply, msg_short, done, blocked, receive_message, reply_message}
use manrix.Ipc.Keeps.{Keeps, wakeup-Keeps, make_blocked-Keeps}

-- `unmap_message` with its test decided.
abbrev copied : Bool → Ptr → Message → Kernel → Kernel
copied again w m k =
    let k₁ = update_thread w (λ t. record t { msg = m }) k in
    if again then update_thread w (λ t. record t { msg = m }) k₁ else k₁

module _ (w : Ptr) (m : Message) (k : Kernel) where
  copied-IsValid : (again : Bool) → IsValid k → IsValid (copied again w m k)
  copied-IsValid true v =
      update-IsValid w (λ t. record t { msg = m }) _
        (update-IsValid w (λ t. record t { msg = m }) k v (inr refl)) (inr refl)
  copied-IsValid false v = update-IsValid w (λ t. record t { msg = m }) k v (inr refl)

  -- Copying once or twice, only the message of `w` changes.
  copied-same :
      (again : Bool) (u : Ptr)
      → (is_ready u (copied again w m k) ≡ is_ready u k)
        × (((copied again w m k).thr u).states ≡ (k.thr u).states)
        × (((copied again w m k).thr u).priority_stat ≡ (k.thr u).priority_stat)
        × (((copied again w m k).thr u).rcvq ≡ (k.thr u).rcvq)
        × (((copied again w m k).thr u).msg ≡ (if w == u then m else (k.thr u).msg))
  copied-same true u = ground arith
  copied-same false u = ground arith

  copied-current : (again : Bool) → (copied again w m k).current ≡ k.current
  copied-current true = refl
  copied-current false = refl

module _ (k : Kernel) (v : IsValid k) where
  -- With no sender waiting, a ready receiver blocks in RECEIVE_BLOCKED and nothing else changes.
  pub receive_message-blocks :
      is_ready k.current k ≡ true
      → (k.thr k.current).rcvq ≡ []
      → (k' : Kernel) × (receive_message k ≡ (blocked k', none))
        × IsValid k'
        × ((u : Ptr) → is_ready u k' ≡ (if k.current == u then false else is_ready u k))
        × ((k'.thr k.current).states ≡ receive_blocked)
        × Keeps k k'
  unfolding receive_message last
  receive_message-blocks caller empty =
      let (k', e, v', ready, states, keeps) =
        make_blocked-Keeps receive_blocked k.current k v caller in
      (k', rw (empty, receive_message, e), v', ready, states k.current ∙ ground arith, keeps)

  -- The state after a message that wants a reply was taken.
  abbrev pub taken : Ptr → Kernel
  taken snd =
      update_thread snd (λ t. record t { states = reply_blocked })
        (update_thread k.current (λ t. record t { rcvq = but_last t.rcvq }) k)

  pub taken-kept :
      (snd u : Ptr)
      → (((taken snd).thr u).tid ≡ (k.thr u).tid)
        × (((taken snd).thr u).priority_stat ≡ (k.thr u).priority_stat)
  taken-kept snd u = ground arith

  -- With senders waiting, `receive_message` takes the one that has waited longest. If its message
  -- wants a reply, the call returns that sender's tid and message and leaves it REPLY_BLOCKED;
  -- no other state, no readiness and no message changes, and the run queue stays sound.
  pub receive_message-takes :
      (snd : Ptr)
      → last (k.thr k.current).rcvq ≡ some snd
      → test_mask (k.thr snd).msg.flags msg_noreply ≡ false
      → (receive_message k ≡ (done (k.thr snd).tid (taken snd), some (k.thr snd).msg))
        × IsValid (taken snd)
        × ((u : Ptr) → is_ready u (taken snd) ≡ is_ready u k)
        × ((u : Ptr)
            → ((taken snd).thr u).states ≡ (if snd == u then reply_blocked else (k.thr u).states))
        × ((u : Ptr)
            → ((taken snd).thr u).rcvq
              ≡ (if k.current == u then but_last (k.thr u).rcvq else (k.thr u).rcvq))
        × ((u : Ptr) → ((taken snd).thr u).msg ≡ (k.thr u).msg)
  unfolding receive_message
  receive_message-takes snd e reply = (
    (let k₁ = update_thread k.current (λ t. record t { rcvq = but_last t.rcvq }) k in
        let same_msg : (k₁.thr snd).msg ≡ (k.thr snd).msg = ground arith in
        let same_tid : (k₁.thr snd).tid ≡ (k.thr snd).tid = ground arith in
        rw (e, receive_message) (rw (same_msg, same_tid, reply) refl)),
    update-IsValid snd (λ t. record t { states = reply_blocked }) _
        (update-IsValid k.current (λ t. record t { rcvq = but_last t.rcvq }) k v (inr refl))
        (inr refl),
    λ u. ground arith,
    λ u. ground arith,
    λ u. ground arith,
    λ u. ground arith,
  )

  -- `reply_message` to a thread that is off the run queue and whose state shares a bit with
  -- REPLY_BLOCKED stores the message in it, makes it ready and returns 0; no other thread's
  -- message, state or readiness changes, and the run queue stays sound.
  pub reply_message-wakes :
      (tid : ℕ) (w : Ptr) (m : Message)
      → find_by_tid tid k ≡ found w
      → test_mask (k.thr w).states reply_blocked ≡ true
      → is_ready w k ≡ false
      → (k.thr w).priority_stat < 128
      → (k' : Kernel) × (reply_message tid m k ≡ done 0 k')
        × IsValid k'
        × ((u : Ptr) → is_ready u k' ≡ (if w == u then true else is_ready u k))
        × ((u : Ptr) → (k'.thr u).states ≡ (if w == u then 2 else (k.thr u).states))
        × ((u : Ptr) → (k'.thr u).msg ≡ (if w == u then m else (k.thr u).msg))
        × ((u : Ptr) → (k'.thr u).rcvq ≡ (k.thr u).rcvq)
        × (k'.current ≡ k.current)
  unfolding reply_message
  reply_message-wakes tid w m named waits asleep low =
      let again : Bool = test_mask m.flags msg_short in
      let k₁ = copied again w m k in
      let same = copied-same w m k again in
      let (k', e, v', ready, states, keeps, cur) =
        wakeup-Keeps w k₁ (copied-IsValid w m k again v) ((same w).0 ∙ asleep)
          (rw ((same w).2) low) in
      (
        k',
        rw (named, reply_message, waits, e),
        v',
        λ u. ready u ∙ ground (arith, same u),
        λ u. states u ∙ ground (arith, same u),
        λ u. keeps.msgs u ∙ (same u).4,
        λ u. keeps.senders u ∙ (same u).3,
        cur ∙ copied-current w m k again,
      )
