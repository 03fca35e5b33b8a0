-- ===== src/Bits.antt =====
-- The bit operations of the architecture (microkernel/include/i386/asm/asm.h), on 32-bit words kept
-- as numbers below 2 ^ 32. The source has them as `bts`, `btr`, `bt`, `bsf` and `bsr`.
pub mod Laws
use manrix.Base.{
  ℕ, zero, suc, ◌+◌, ◌*◌, ◌/◌, ◌%◌, ◌^◌, Bool, true, false, Option, none, some, ◌==◌, if◌then◌else◌,
}

-- `check_set`: bit `i` of the word.
unfoldable pub check_set : ℕ → ℕ → Bool
check_set x zero = x % 2 == 1
check_set x (suc i) = check_set (x / 2) i

-- `set_bit` and `clear_bit`.
unfoldable pub set_bit : ℕ → ℕ → ℕ
set_bit x zero = x / 2 * 2 + 1
set_bit x (suc i) = set_bit (x / 2) i * 2 + x % 2

unfoldable pub clear_bit : ℕ → ℕ → ℕ
clear_bit x zero = x / 2 * 2
clear_bit x (suc i) = clear_bit (x / 2) i * 2 + x % 2

abbrev pub max_int_val : ℕ
max_int_val = 0xffff_ffff

abbrev pub bits_per_int : ℕ
bits_per_int = 32

-- The lowest clear bit among the first `n`, as `bsf` scans the complement.
unfoldable pub first_clear : ℕ → ℕ → Option ℕ
first_clear zero x = none
first_clear (suc n) x = elim (x % 2 == 0) [
  | true ↦ some 0
  | false ↦ elim (first_clear n (x / 2)) [ none ↦ none | some i ↦ some (suc i) ]
]

-- `ffc`: `none` where the source leaves the result undefined.
unfoldable pub ffc : ℕ → Option ℕ
unfolding first_clear
ffc x = first_clear bits_per_int x

-- The highest set bit among the first `n`, as `bsr` scans.
unfoldable pub last_set : ℕ → ℕ → Option ℕ
last_set zero x = none
last_set (suc n) x = elim (last_set n (x / 2)) [
  | none ↦ if x % 2 == 1 then some 0 else none
  | some i ↦ some (suc i)
]

-- `frs`: `none` stands for its -1.
unfoldable pub frs : ℕ → Option ℕ
unfolding last_set
frs x = if x == 0 then none else last_set bits_per_int x
