-- ===== src/Signal/Laws.antt =====
-- Which signal is delivered, and what becomes of the others.
use manrix.Base.{
  ℕ, ◌-◌, ◌≤◌, ◌<◌, ◌≡◌, refl, ◌≢◌, Bool, true, false, Option, none, some, List, [], ◌∷◌, ◌++◌,
  arith, ltb, ◌==◌, get_or, Bool-cases, inl, inr, ◌∙◌, ap,
}
use manrix.Base.Int.{pos}
use manrix.Kernel.{Ptr, thread_interruptible}
use manrix.Signal.{
  on_sighand, SigQueue, SigAction, Signals, sig_ign, max_signal, is_blocked, dequeue_signal,
  is_pending, framed, no_action, act_on, after_handling, clear_pending, handle_signal, ok,
  wake_sleeper, send_in_range, send_signal, set_pending,
}

-- Every signal of the list is blocked.
abbrev pub AllBlocked : ℕ → List SigQueue → Type 0
AllBlocked mask [] = Unit
AllBlocked mask (q ∷ qs) = (is_blocked mask q.signal ≡ true) × AllBlocked mask qs

-- What taking a signal from `queue` promises: without one, all are blocked; otherwise it is the
-- first that is not blocked, and the others stay in their order.
abbrev pub Takes : ℕ → List SigQueue → Option (SigQueue × List SigQueue) → Type 0
Takes mask queue none = AllBlocked mask queue
Takes mask queue (some (q, rest)) =
    (before after : List SigQueue) × (queue ≡ before ++ q ∷ after)
    × (rest ≡ before ++ after)
    × AllBlocked mask before
    × (is_blocked mask q.signal ≡ false)

-- For every mask and queue, `dequeue_signal` takes the first signal that is not blocked and
-- leaves the others in their order; it takes none only if all are blocked.
pub dequeue_signal-Takes :
    (mask : ℕ) (queue : List SigQueue) → Takes mask queue (dequeue_signal mask queue)
unfolding dequeue_signal
dequeue_signal-Takes mask [] = tt
dequeue_signal-Takes mask (q ∷ qs) = elim (Bool-cases (is_blocked mask q.signal)) [
  | inr free ↦ rw (free, dequeue_signal) ([], qs, refl, refl, tt, free)
  | inl blocked ↦
      rw (blocked, dequeue_signal)
        (passed (dequeue_signal mask qs) (dequeue_signal-Takes mask qs) blocked)
]
  where
    passed :
        (r : Option (SigQueue × List SigQueue))
        → Takes mask qs r
        → is_blocked mask q.signal ≡ true
        → Takes mask (q ∷ qs) (elim r [ none ↦ none | some (t, ts) ↦ some (t, q ∷ ts) ])
    passed none all b = (b, all)
    passed (some (t, ts)) (before, after, e, er, all, free) b =
        (q ∷ before, after, ap (λ l. q ∷ l) e, ap (λ l. q ∷ l) er, (b, all), free)

-- `is_pending` never looks at the signal at the back, which is the oldest.
pub is_pending-one :
    (stray : Bool) (mask : ℕ) (q : SigQueue) → is_pending stray mask (q ∷ []) ≡ false
unfolding is_pending
is_pending-one stray mask q = refl

wake_sleeper-awake :
    (thr : Ptr) (s : Signals)
    → (s.kernel.thr thr).states ≢ thread_interruptible
    → wake_sleeper thr s ≡ ok s
unfolding wake_sleeper
wake_sleeper-awake thr s ne =
    let test : ((s.kernel.thr thr).states == thread_interruptible) ≡ false = ground arith in rw test

dequeue_signal-front :
    (mask : ℕ) (q : SigQueue) (qs : List SigQueue)
    → is_blocked mask q.signal ≡ false
    → dequeue_signal mask (q ∷ qs) ≡ some (q, qs)
unfolding dequeue_signal
dequeue_signal-front mask q qs free = rw (free, dequeue_signal)

abbrev pub queued : Ptr → SigQueue → Signals → Signals
queued thr q s = set_pending thr true (record s { sigqueue = q ∷ s.sigqueue })

module _ (thr : Ptr) (signal sinfo : ℕ) (s : Signals) (positive : 0 < signal)
    (small : signal ≤ max_signal) (free : is_blocked (s.sa_mask thr) signal ≡ false)
    (handled : (get_or s.action (signal - 1) no_action).sa_handler ≢ sig_ign)
    (awake : (s.kernel.thr thr).states ≢ thread_interruptible) where
  abbrev entry : SigQueue
  entry = record { signal = signal; sinfo = sinfo }

  -- A signal from 1 to 32 that an awake thread neither blocks nor ignores is marked as pending, and
  -- it is the one that the thread takes next, with its information; the queue is then as before.
  pub send_signal-dequeue_signal :
      (s' : Signals) × (send_signal true thr (pos signal) sinfo s ≡ ok s')
      × (s'.sigpending thr ≡ true)
      × (dequeue_signal (s'.sa_mask thr) s'.sigqueue
          ≡ some (record { signal = signal; sinfo = sinfo }, s.sigqueue))
  unfolding send_signal send_in_range
  send_signal-dequeue_signal =
      let inside : ltb max_signal signal ≡ false = ground arith in
      let not_zero : (signal == 0) ≡ false = ground arith in
      let not_ign : ((get_or s.action (signal - 1) no_action).sa_handler == sig_ign) ≡ false =
        ground arith in
      (
        queued thr entry s,
        rw (inside, free, not_zero, not_ign) (wake_sleeper-awake thr (queued thr entry s) awake),
        ground arith,
        dequeue_signal-front (s.sa_mask thr) entry s.sigqueue free,
      )

handle_signal-takes :
    (stray : Bool) (thr : Ptr) (q : SigQueue) (qs : List SigQueue) (act : SigAction) (s : Signals)
    → dequeue_signal (s.sa_mask thr) s.sigqueue ≡ some (q, qs)
    → act_on q (get_or s.action (q.signal - 1) no_action) ≡ framed q act
    → handle_signal stray thr s
      ≡ (framed q act, clear_pending stray thr (record s { sigqueue = qs; status = on_sighand }))
unfolding handle_signal after_handling
handle_signal-takes stray thr q qs act s e h = rw (e, handle_signal) (rw (h, after_handling) refl)

act_on-framed : (q : SigQueue) (act : SigAction) → 2 ≤ act.sa_handler → act_on q act ≡ framed q act
unfolding act_on
act_on-framed q act handler =
    let not_ign : (act.sa_handler == 1) ≡ false = ground arith in
    let not_dfl : (act.sa_handler == 0) ≡ false = ground arith in rw (not_ign, not_dfl)

clear_pending-clears :
    (stray : Bool) (thr : Ptr) (s : Signals)
    → is_pending stray (s.sa_mask thr) s.sigqueue ≡ false
    → clear_pending stray thr s ≡ set_pending thr false s
unfolding clear_pending
clear_pending-clears stray thr s e = rw e

-- With two signals queued, of which the newer has a handler and neither is blocked, `handle_signal`
-- delivers the newer and reports that nothing is pending, although the older is still queued.
pub handle_signal-forgets :
    (stray : Bool) (thr : Ptr) (newer older : SigQueue) (act : SigAction) (s : Signals)
    → s.sigqueue ≡ newer ∷ older ∷ []
    → is_blocked (s.sa_mask thr) newer.signal ≡ false
    → is_blocked (s.sa_mask thr) older.signal ≡ false
    → get_or s.action (newer.signal - 1) no_action ≡ act
    → 2 ≤ act.sa_handler
    → (s' : Signals) × (handle_signal stray thr s ≡ (framed newer act, s'))
      × (s'.sigqueue ≡ older ∷ [])
      × (s'.sigpending thr ≡ false)
handle_signal-forgets stray thr newer older act s eq free free' ea handler =
    let s₁ = record s { sigqueue = older ∷ []; status = on_sighand } in
    let front : dequeue_signal (s.sa_mask thr) s.sigqueue ≡ some (newer, older ∷ []) =
      ap (dequeue_signal (s.sa_mask thr)) eq
      ∙ dequeue_signal-front (s.sa_mask thr) newer (older ∷ []) free in
    let acts : act_on newer (get_or s.action (newer.signal - 1) no_action) ≡ framed newer act =
      ap (act_on newer) ea ∙ act_on-framed newer act handler in
    (
      set_pending thr false s₁,
      handle_signal-takes stray thr newer (older ∷ []) act s front acts
          ∙ ap (λ t. (framed newer act, t))
              (clear_pending-clears stray thr s₁ (is_pending-one stray (s.sa_mask thr) older)),
      refl,
      ground arith,
    )
