-- ===== src/Sync/Tests.antt =====
-- Threads 1 and 2 belong to the process 500, which has one object, at 100.
use manrix.Base.{
  ℕ, ◌≡◌, refl, ◌≢◌, true, some, List, [], ◌∷◌, arith, ◌==◌, if◌then◌else◌, length, has,
}
use manrix.Kernel.{Ptr, thread_running}
use manrix.Sched.{sched_init}
use manrix.Sched.Queues.{IsValid, is_ready}
use manrix.Sched.Tests.{started, started-IsValid}
use manrix.Sync.{Sync, State, found, fault, find_sync}
use manrix.Sync.Waiters.{Waits}
use manrix.Sync.Wakes.{unlocks, unlocks-wakes}

abbrev no_object : Sync
no_object = record { sync_type = 0; sync_id = 0; wq = []; owner = 0; next = 0 }

abbrev empty : State
empty = record {
  kernel = started;
  proc = λ t. 500;
  sync = λ p. no_object;
  shash = λ b. 0;
  syncs = λ p. [];
  ids = λ p. 0;
}

abbrev many : State
many = record empty { ids = λ p. 3 }

abbrev object_of : ℕ → Ptr → List Ptr → Sync
object_of pid next wq = record { sync_type = 1; sync_id = 0; wq = wq; owner = pid; next = next }

-- The thread 2 waits for the object.
abbrev waited : State
waited = record empty {
  sync = λ p. object_of 500 0 (2 ∷ []);
  shash = λ b. if 0 == b then 100 else 0;
}

-- Objects 0 of the processes 501, 502 and 500 in one bucket.
abbrev shared : State
shared = record empty {
  sync = λ p.
      if p == 100
      then object_of 501 200 []
      else if p == 200
      then object_of 502 300 []
      else object_of 500 0 [];
  shash = λ b. if 0 == b then 100 else 0;
}

abbrev hundred : ℕ
hundred = 100

hundred_given : hundred ≢ 0
hundred_given = omega arith

abbrev two_hundred : ℕ
two_hundred = 200

-- An empty bucket is read through.
find_test : find_sync 3 500 0 empty ≡ fault
unfolding find_sync
find_test = refl

waited-Waits : Waits 100 waited
unfolding sched_init
waited-Waits = record {
  off = λ t h. ground arith;
  range = λ t h. ground arith;
  once = (refl, tt);
  valid = started-IsValid;
}

finds : find_sync 4 500 0 waited ≡ found 100
unfolding find_sync
finds = refl

unlocks-wakes_example :
    (s' : State) × (unlocks 1 4 0 waited ≡ some s')
    × (length (s'.sync 100).wq ≡ 0)
    × ((u : Ptr) → is_ready u s'.kernel ≡ (if has u (2 ∷ []) then true else is_ready u started))
    × ((u : Ptr)
        → (s'.kernel.thr u).states
          ≡ (if has u (2 ∷ []) then thread_running else (started.thr u).states))
    × IsValid s'.kernel
unfolding sched_init
unlocks-wakes_example = unlocks-wakes 1 4 0 100 waited waited-Waits finds refl
