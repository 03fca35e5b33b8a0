-- ===== src/Ipc/Fifo.antt =====
-- Receiving from a queue of senders, over and over.
use manrix.Base.{
  ℕ, zero, suc, ◌≡◌, refl, false, Option, none, some, List, [], ◌∷◌, ◌++◌, if◌then◌else◌, ◌∈◌, has,
  length, arith, ◌∙◌, ap,
}
use manrix.Kernel.{Ptr, Message, Kernel, reply_blocked, test_mask}
use manrix.Sched.{last, but_last}
use manrix.Sched.Queues.{IsValid, is_ready}
use manrix.Ipc.{Outcome, done, failed, blocked, undefined, msg_noreply, receive_message}
use manrix.Ipc.Answers.{taken, taken-kept, receive_message-takes}

-- What a receive that gives a message gives, and the kernel after it.
abbrev pub given : Outcome × Option Message → Option ((ℕ × Message) × Kernel)
given (done tid k, some msg) = some ((tid, msg), k)
given (done tid k, none) = none
given (failed e k, m) = none
given (blocked k, m) = none
given (undefined, m) = none

-- `n` calls of `receive_message` in a row: what they give, the first one first. `none` if one of them does
-- not give a message.
unfoldable pub receive_all : ℕ → Kernel → Option (List (ℕ × Message) × Kernel)
receive_all zero k = some ([], k)
receive_all (suc n) k = elim (given (receive_message k)) [
  | none ↦ none
  | some (answer, k₁) ↦ elim (receive_all n k₁) [
    | none ↦ none
    | some (rest, k₂) ↦ some (answer ∷ rest, k₂)
  ]
]

-- A queue whose senders came in this order: the newest stands in front.
abbrev pub arrived : List Ptr → List Ptr
arrived [] = []
arrived (s ∷ ss) = arrived ss ++ s ∷ []

-- The tids and the messages of threads.
abbrev pub answers : Kernel → List Ptr → List (ℕ × Message)
answers k [] = []
answers k (s ∷ ss) = ((k.thr s).tid, (k.thr s).msg) ∷ answers k ss

last-snoc : (xs : List Ptr) (x : Ptr) → last (xs ++ x ∷ []) ≡ some x
unfolding last
last-snoc [] x = refl
last-snoc (y ∷ ys) x = rw (last-snoc ys x) refl

but_last-snoc : (xs : List Ptr) (x : Ptr) → but_last (xs ++ x ∷ []) ≡ xs
unfolding but_last
but_last-snoc [] x = refl
but_last-snoc (y ∷ []) x = refl
but_last-snoc (y ∷ z ∷ zs) x = ap (λ l. y ∷ l) (but_last-snoc (z ∷ zs) x)

answers-cong :
    (ss : List Ptr) (k k' : Kernel)
    → ((u : Ptr) → (k'.thr u).tid ≡ (k.thr u).tid)
    → ((u : Ptr) → (k'.thr u).msg ≡ (k.thr u).msg)
    → answers k' ss ≡ answers k ss
answers-cong [] k k' tids msgs = refl
answers-cong (s ∷ ss) k k' tids msgs = rw (tids s, msgs s, answers-cong ss k k' tids msgs) refl

receive_all-step :
    (n tid : ℕ) (msg : Message) (k k₁ k₂ : Kernel) (rest : List (ℕ × Message))
    → receive_message k ≡ (done tid k₁, some msg)
    → receive_all n k₁ ≡ some (rest, k₂)
    → receive_all (suc n) k ≡ some ((tid, msg) ∷ rest, k₂)
unfolding receive_all
receive_all-step n tid msg k k₁ k₂ rest one more = rw (one, receive_all, more) refl

-- On a sound run queue, as many receives as senders wait, when each of their messages wants a reply: they
-- give the tids and the messages of the senders in the order of their arrival. After that the queue is empty and all senders
-- are in REPLY_BLOCKED; no other thread's state, no readiness and no message has changed, the receiver is
-- current still, and the run queue stays sound.
pub receive_all-answers :
    (senders : List Ptr) (k : Kernel)
    → IsValid k
    → (k.thr k.current).rcvq ≡ arrived senders
    → ((s : Ptr) → s ∈ senders → test_mask (k.thr s).msg.flags msg_noreply ≡ false)
    → (k' : Kernel) × (receive_all (length senders) k ≡ some (answers k senders, k'))
      × IsValid k'
      × ((k'.thr k.current).rcvq ≡ [])
      × ((u : Ptr)
          → (k'.thr u).states ≡ (if has u senders then reply_blocked else (k.thr u).states))
      × ((u : Ptr) → is_ready u k' ≡ is_ready u k)
      × ((u : Ptr) → (k'.thr u).msg ≡ (k.thr u).msg)
      × (k'.current ≡ k.current)
unfolding receive_all
receive_all-answers [] k v queue wants = (k, refl, v, queue, λ u. refl, λ u. refl, λ u. refl, refl)
receive_all-answers (s ∷ ss) k v queue wants =
    let k₁ = taken k v s in
    let (one, v₁, ready₁, states₁, senders₁, msgs₁) =
      receive_message-takes k v s (ap last queue ∙ last-snoc (arrived ss) s)
        (wants s (ground arith)) in
    let queue₁ : (k₁.thr k₁.current).rcvq ≡ arrived ss =
      senders₁ k.current ∙ ground arith ∙ ap but_last queue ∙ but_last-snoc (arrived ss) s in
    let (k₂, more, v₂, empty, states₂, ready₂, msgs₂, cur₂) =
      receive_all-answers ss k₁ v₁ queue₁
        (λ t i. ap (λ m. test_mask m.flags msg_noreply) (msgs₁ t) ∙ wants t (ground (arith, i))) in
    let same = answers-cong ss k k₁ (λ u. (taken-kept k v s u).0) msgs₁ in
    (
      k₂,
      receive_all-step (length ss) (k.thr s).tid (k.thr s).msg k k₁ k₂ (answers k₁ ss) one more
          ∙ ap (λ l. some (((k.thr s).tid, (k.thr s).msg) ∷ l, k₂)) same,
      v₂,
      empty,
      λ u. states₂ u ∙ ground (arith, states₁ u),
      λ u. ready₂ u ∙ ready₁ u,
      λ u. msgs₂ u ∙ msgs₁ u,
      cur₂,
    )
