-- ===== src/SigSet.antt =====
-- The signal sets of the C library (soft/libc/signal/sigset.c). `bts` and `btr` on memory go past
-- the word for an index of 32, so the word behind the set is part of the model.
mod Laws
use manrix.Base.{ℕ, ◌-◌, ◌%◌, Bool, true, false, ◌||◌, Option, none, some, ltb, if◌then◌else◌}
use manrix.Base.Int.{ℤ, pos, negsuc}
use manrix.Bits.{check_set, set_bit, clear_bit}

-- A `sigset_t` and the word behind it in memory.
pub record SigMem : Type 0 where
  pub sigset : ℕ
  pub behind : ℕ

-- How a call ends: `einval` is -1 with `errno` set to EINVAL.
pub data SetResult : Type 0 where
  ok : ℕ → SigMem → SetResult
  einval : SetResult

-- A NULL set is `none`.
pub sigemptyset : Option SigMem → SetResult
sigemptyset none = einval
sigemptyset (some m) = ok 0 (record m { sigset = 0 })

pub sigfillset : Option SigMem → SetResult
sigfillset none = einval
sigfillset (some m) = ok 0 (record m { sigset = 0xffff_ffff })

-- The test at the top of the other three, with MAX_SIGNAL 32.
abbrev out_of_range : ℤ → Bool
out_of_range (negsuc n) = true
out_of_range (pos signo) = ltb 32 signo

abbrev signal_number : ℤ → ℕ
signal_number (negsuc n) = 0
signal_number (pos signo) = signo

-- A bit operation on the memory at the set.
abbrev at_bit : (ℕ → ℕ → ℕ) → SigMem → ℕ → SigMem
at_bit f m signo =
    if ltb signo 32
    then record m { sigset = f m.sigset signo }
    else record m { behind = f m.behind (signo - 32) }

pub sigaddset : Option SigMem → ℤ → SetResult
sigaddset none signo = einval
sigaddset (some m) signo =
    if out_of_range signo then einval else ok 0 (at_bit set_bit m (signal_number signo))

pub sigdelset : Option SigMem → ℤ → SetResult
sigdelset none signo = einval
sigdelset (some m) signo =
    if out_of_range signo then einval else ok 0 (at_bit clear_bit m (signal_number signo))

-- `bt` on a register takes the index modulo 32.
pub sigismember : Option SigMem → ℤ → SetResult
sigismember none signo = einval
sigismember (some m) signo =
    if out_of_range signo
    then einval
    else ok (if check_set m.sigset (signal_number signo % 32) then 1 else 0) m
