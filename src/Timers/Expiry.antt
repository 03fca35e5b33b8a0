-- ===== src/Timers/Expiry.antt =====
-- Arming timers, and which of them expire.
use manrix.Base.{
  ℕ, zero, suc, ◌≤◌, ◌<◌, ◌≡◌, refl, ◌≢◌, true, false, Option, some, leb, ◌==◌, if◌then◌else◌,
  arith, ◌∙◌, inl,
}
use manrix.Kernel.{Ptr, Thread, Kernel, thread_running, update_thread, test_mask}
use manrix.DList.{
  set_next, set_prev, Links, list_isempty, last_entry, list_enqueue, list_dequeue, list_add_next,
}
use manrix.Sched.Queues.{IsValid, is_ready}
use manrix.Sched.Moves.{
  enqueued, enqueue_thread-some, enqueued-IsValid, enqueued-ready, update-IsValid,
}
use manrix.Threads.{hash_fn}
use manrix.Timers.{
  tm_sleep, TimerState, missing, timer_from, timer_by_id, delete_timer, place_from, insert_into,
  insert_timer, again, wake_owner, check_round, check_timeouts,
}

place_from-here :
    (n timeout : ℕ) (tm : Ptr) (s : TimerState)
    → (s.timer tm).timeout ≡ timeout
    → place_from (suc n) timeout tm s ≡ some tm
unfolding place_from
place_from-here n timeout tm s e = ground (arith, e)

module _ (p : Ptr) (s : TimerState) (nxt : s.links.next s.head ≡ s.head)
    (prv : s.links.prev s.head ≡ s.head) (other : p ≢ s.head) where
  abbrev alone : Links
  alone = list_enqueue s.head p s.links

  alone-links : (alone.next s.head ≡ p) × (alone.prev p ≡ s.head)
  unfolding list_enqueue
  alone-links = (ground (arith, nxt), ground (arith, nxt))

  abbrev twice : Links
  twice = list_add_next (alone.prev (alone.next s.head)) p alone

  empty_list : list_isempty s.head s.links ≡ true
  unfolding list_isempty
  empty_list = ground (arith, nxt)

  insert_into-twice :
      (fuel : ℕ) → insert_into (suc fuel) p alone s ≡ some (record s { links = twice })
  unfolding insert_into
  insert_into-twice fuel =
      let (next, prev) = alone-links in
      let placed =
        place_from-here fuel (s.timer p).timeout (alone.next s.head) (record s { links = alone })
          (rw next refl) in
      rw (placed, insert_into) (rw next refl)

  insert_timer-twice : (fuel : ℕ) → insert_timer (suc fuel) p s ≡ some (record s { links = twice })
  unfolding insert_timer
  insert_timer-twice fuel = rw (empty_list, insert_timer) (insert_into-twice fuel)

  -- A timer, other than the head, that is put into an empty list becomes its own next timer: the list
  -- goes from the head to the timer and no further.
  pub insert_timer-loops :
      (fuel : ℕ)
      → (s' : TimerState) × (insert_timer (suc fuel) p s ≡ some s')
        × (s'.links.next s'.head ≡ p)
        × (s'.links.next p ≡ p)
  unfolding list_add_next
  insert_timer-loops fuel =
      let (next, prev) = alone-links in
      (
        record s { links = twice },
        insert_timer-twice fuel,
        ground (arith, next, prev),
        ground (arith, next, prev),
      )

abbrev pub running : Thread → Thread
running t = record t { states = thread_running }

-- The last timer of the list is that of a thread that sleeps.
pub record Sleeper (e : Ptr) (fuel : ℕ) (s : TimerState) : Type 0 where
  pub last : s.links.prev s.head ≡ e
  pub not_empty : s.links.next s.head ≢ s.head
  pub not_head : e ≢ s.head
  pub sleeps : test_mask (s.timer e).flag tm_sleep ≡ true
  pub off : is_ready (s.timer e).owner s.kernel ≡ false
  pub range : (s.kernel.thr (s.timer e).owner).priority_dyn < 128
  pub valid : IsValid s.kernel
  pub unknown : timer_by_id fuel (s.timer e).timer_id s ≡ missing

timer_from-same :
    (n id : ℕ) (link : Ptr) (s : TimerState) (k : Kernel) (l : Links)
    → timer_from n id link (record s { kernel = k; links = l }) ≡ timer_from n id link s
unfolding timer_from
timer_from-same zero id link s k l = refl
timer_from-same (suc n) id link s k l = rw (timer_from-same n id (s.timer link).next s k l) refl

timer_by_id-same :
    (fuel id : ℕ) (s : TimerState) (k : Kernel) (l : Links)
    → timer_by_id fuel id (record s { kernel = k; links = l }) ≡ timer_by_id fuel id s
unfolding timer_by_id
timer_by_id-same fuel id s k l =
    rw (timer_from-same fuel id (s.tmhash (hash_fn id)).next s k l) refl

delete_timer-same :
    (fuel id : ℕ) (s : TimerState) (k : Kernel) (l : Links)
    → timer_by_id fuel id s ≡ missing
    → delete_timer fuel id (record s { kernel = k; links = l })
      ≡ some (record s { kernel = k; links = l })
unfolding delete_timer
delete_timer-same fuel id s k l e = rw (timer_by_id-same fuel id s k l ∙ e, delete_timer) refl

-- The links once the last item `e` is taken.
abbrev dequeued : Ptr → Ptr → Links → Links
dequeued head e l =
    let nxt = l.prev e in
    let l₁ = set_prev head nxt l in
    if nxt == head then set_next head head l₁ else set_next nxt head l₁

list_dequeue-last :
    (head e : Ptr) (l : Links)
    → l.prev head ≡ e
    → e ≢ head
    → list_dequeue head l ≡ some (e, dequeued head e l)
unfolding list_dequeue
list_dequeue-last head e l last other =
    let some_item : (e == head) ≡ false = ground arith in rw (last, some_item, list_dequeue) refl

module _ (e : Ptr) (fuel : ℕ) (thr : Option Ptr) (s : TimerState) (h : Sleeper e fuel s) where
  -- When the last timer of the list is that of a sleeper and its time is over, `check_timeouts` changes
  -- nothing: the sleeper is not woken, and no other timer is looked at.
  pub check_timeouts-overdue :
      (n : ℕ) → (s.timer e).timeout < s.ticks → check_timeouts (suc n) fuel thr s ≡ some s
  unfolding check_timeouts check_round list_isempty last_entry
  check_timeouts-overdue n over =
      let open_list : (s.links.next s.head == s.head) ≡ false = ground (arith, h.not_empty) in
      let late : leb s.ticks (s.timer (s.links.prev s.head)).timeout ≡ false =
        ground (arith, h.last) in
      rw (open_list, late, check_timeouts, check_round) refl

  not_isempty : list_isempty s.head s.links ≡ false
  unfolding list_isempty
  not_isempty = ground (arith, h.not_empty)

  last_is : last_entry s.head s.links ≡ e
  unfolding last_entry
  last_is = h.last

  abbrev awake : Kernel
  awake = update_thread (s.timer e).owner running s.kernel

  awake-IsValid : IsValid awake
  awake-IsValid = update-IsValid (s.timer e).owner running s.kernel h.valid (inl h.off)

  awake-off : is_ready (s.timer e).owner awake ≡ false
  awake-off = ground (arith, h.off)

  awake-range : (awake.thr (s.timer e).owner).priority_dyn < 128
  awake-range = ground (arith, h.range)

  wake_owner-wakes :
      (l : Links)
      → wake_owner fuel e (record s { links = l })
        ≡ again
            (some (s.timer e).owner)
            (record s { links = l; kernel = enqueued (s.timer e).owner awake })
  unfolding wake_owner
  wake_owner-wakes l =
      let put = enqueue_thread-some (s.timer e).owner awake awake-IsValid awake-range awake-off in
      let gone =
        delete_timer-same fuel (s.timer e).timer_id s (enqueued (s.timer e).owner awake) l
          h.unknown in
      rw (put, gone, wake_owner) refl

  -- When the last timer of the list is that of a sleeper (a valid kernel, in which the thread is not
  -- ready and has a priority below 128, and a timer that the table does not know, and whose id hashes to
  -- one of the 68 entries that are in the table's page) and its time is not over yet, a round of
  -- `check_timeouts` wakes the thread: it is running and ready, no other thread becomes ready or stops
  -- being so, and the kernel stays valid.
  pub check_round-early :
      s.ticks ≤ (s.timer e).timeout
      → (s' : TimerState) × (check_round fuel thr s ≡ again (some (s.timer e).owner) s')
        × ((u : Ptr)
            → is_ready u s'.kernel ≡ (if (s.timer e).owner == u then true else is_ready u s.kernel))
        × ((s'.kernel.thr (s.timer e).owner).states ≡ thread_running)
        × IsValid s'.kernel
  unfolding check_round
  check_round-early early =
      let l = dequeued s.head e s.links in
      let taken = list_dequeue-last s.head e s.links h.last h.not_head in
      let due : leb s.ticks (s.timer (last_entry s.head s.links)).timeout ≡ true =
        rw last_is (ground arith) in
      let sleeps : test_mask (s.timer (last_entry s.head s.links)).flag tm_sleep ≡ true =
        rw last_is h.sleeps in
      (
        record s { links = l; kernel = enqueued (s.timer e).owner awake },
        rw (not_isempty, due, taken, sleeps, check_round) (rw last_is (wake_owner-wakes l)),
        λ u.
            enqueued-ready (s.timer e).owner awake awake-IsValid awake-range awake-off u
            ∙ ground arith,
        ground arith,
        enqueued-IsValid (s.timer e).owner awake awake-IsValid awake-range awake-off,
      )
