-- ===== src/SigSet/Laws.antt =====
-- Membership after adding and removing a signal.
use manrix.Base.{ℕ, ◌%◌, ◌<◌, ◌≡◌, refl, true, false, none, some, arith, ltb, ◌==◌, if◌then◌else◌}
use manrix.Base.Int.{pos}
use manrix.Bits.{check_set, set_bit, clear_bit}
use manrix.Bits.Laws.{check_set-set_bit, check_set-clear_bit}
use manrix.SigSet.{SigMem, ok, einval, sigemptyset, sigfillset, sigaddset, sigdelset, sigismember}

-- Adding a signal below 32 makes it a member and changes no other below 32.
sigismember-sigaddset :
    (m : SigMem) (i j : ℕ)
    → i < 32
    → j < 32
    → (m' : SigMem) × (sigaddset (some m) (pos i) ≡ ok 0 m')
      × (sigismember (some m') (pos j)
          ≡ ok (if (if i == j then true else check_set m.sigset j) then 1 else 0) m')
unfolding sigaddset sigismember
sigismember-sigaddset m i j lt lt' =
    let low : ltb 32 i ≡ false = ground arith in
    let low' : ltb 32 j ≡ false = ground arith in
    let inside : ltb i 32 ≡ true = ground arith in
    let same : j % 32 ≡ j = omega arith in
    (
      record m { sigset = set_bit m.sigset i },
      rw (low, inside),
      rw (low', same, check_set-set_bit m.sigset i j) refl,
    )

-- Removing a signal below 32 takes it out and changes no other below 32.
sigismember-sigdelset :
    (m : SigMem) (i j : ℕ)
    → i < 32
    → j < 32
    → (m' : SigMem) × (sigdelset (some m) (pos i) ≡ ok 0 m')
      × (sigismember (some m') (pos j)
          ≡ ok (if (if i == j then false else check_set m.sigset j) then 1 else 0) m')
unfolding sigdelset sigismember
sigismember-sigdelset m i j lt lt' =
    let low : ltb 32 i ≡ false = ground arith in
    let low' : ltb 32 j ≡ false = ground arith in
    let inside : ltb i 32 ≡ true = ground arith in
    let same : j % 32 ≡ j = omega arith in
    (
      record m { sigset = clear_bit m.sigset i },
      rw (low, inside),
      rw (low', same, check_set-clear_bit m.sigset i j) refl,
    )

abbrev blank : SigMem
blank = record { sigset = 0; behind = 0 }

-- Signal 32 is written behind the set.
sigaddset_test : sigaddset (some blank) (pos 32) ≡ ok 0 (record { sigset = 0; behind = 1 })
unfolding sigaddset set_bit
sigaddset_test = refl

sigfillset_test : sigfillset (some blank) ≡ ok 0 (record { sigset = 4294967295; behind = 0 })
unfolding sigfillset
sigfillset_test = refl

sigemptyset_test : sigemptyset none ≡ einval
unfolding sigemptyset
sigemptyset_test = refl
