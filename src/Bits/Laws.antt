-- ===== src/Bits/Laws.antt =====
-- What the bit operations of Bits do to each bit, and what the scans find.
use manrix.Base.{
  ℕ, zero, suc, ◌+◌, ◌*◌, ◌/◌, ◌%◌, ◌^◌, ◌≤◌, ◌<◌, ◌≡◌, refl, ◌≢◌, true, false, none, some, arith,
  ◌==◌, if◌then◌else◌, Option-cases, inl, inr,
}
use native.Mathlib.Nat.{pow-suc}
use native.Mathlib.Decide.{ℕ_discrete}
use manrix.Bits.{check_set, set_bit, clear_bit, first_clear, ffc, last_set, frs, max_int_val}

pub check_set-set_bit :
    (x i j : ℕ) → check_set (set_bit x i) j ≡ (if i == j then true else check_set x j)
unfolding check_set set_bit
check_set-set_bit x zero zero = ground arith
check_set-set_bit x zero (suc j) =
    let e : (x / 2 * 2 + 1) / 2 ≡ x / 2 = omega arith in rw e (ground arith)
check_set-set_bit x (suc i) zero = ground arith
check_set-set_bit x (suc i) (suc j) =
    let e : (set_bit (x / 2) i * 2 + x % 2) / 2 ≡ set_bit (x / 2) i = omega arith in
    rw e (ground (arith, check_set-set_bit (x / 2) i j))

pub check_set-clear_bit :
    (x i j : ℕ) → check_set (clear_bit x i) j ≡ (if i == j then false else check_set x j)
unfolding check_set clear_bit
check_set-clear_bit x zero zero = ground arith
check_set-clear_bit x zero (suc j) =
    let e : x / 2 * 2 / 2 ≡ x / 2 = omega arith in rw e (ground arith)
check_set-clear_bit x (suc i) zero = ground arith
check_set-clear_bit x (suc i) (suc j) =
    let e : (clear_bit (x / 2) i * 2 + x % 2) / 2 ≡ clear_bit (x / 2) i = omega arith in
    rw e (ground (arith, check_set-clear_bit (x / 2) i j))

pub check_set-zero : (j : ℕ) → check_set 0 j ≡ false
unfolding check_set
check_set-zero zero = refl
check_set-zero (suc j) = check_set-zero j

pub first_clear-some : (n x i : ℕ) → first_clear n x ≡ some i → (i < n) × (check_set x i ≡ false)
unfolding first_clear check_set
first_clear-some zero x i h = cc
first_clear-some (suc n) x zero h = ground arith
first_clear-some (suc n) x (suc i) h = ground (arith, first_clear-some n (x / 2) i)

-- Every bit below the one that the scan finds is set.
pub first_clear-below : (n x i j : ℕ) → first_clear n x ≡ some i → j < i → check_set x j ≡ true
unfolding first_clear check_set
first_clear-below zero x i j h lt = cc
first_clear-below (suc n) x zero j h lt = absurd (omega arith)
first_clear-below (suc n) x (suc i) zero h lt = ground arith
first_clear-below (suc n) x (suc i) (suc j) h lt = ground (arith, first_clear-below n (x / 2) i j)

pub first_clear-none : (n x : ℕ) → first_clear n x ≡ none → x < 2 ^ n → x + 1 ≡ 2 ^ n
unfolding first_clear
first_clear-none zero x h lt = omega arith
first_clear-none (suc n) x h lt = ground (arith, pow-suc 2 n, first_clear-none n (x / 2))

pub set_bit-lt : (n x i : ℕ) → x < 2 ^ n → i < n → set_bit x i < 2 ^ n
unfolding set_bit
set_bit-lt zero x i h k = absurd (omega arith)
set_bit-lt (suc n) x zero h k = omega (arith, pow-suc 2 n)
set_bit-lt (suc n) x (suc i) h k = omega (arith, pow-suc 2 n, set_bit-lt n (x / 2) i)

pub clear_bit-le : (x i : ℕ) → clear_bit x i ≤ x
unfolding clear_bit
clear_bit-le x zero = omega arith
clear_bit-le x (suc i) = omega (arith, clear_bit-le (x / 2) i)

pub last_set-some : (n x i : ℕ) → last_set n x ≡ some i → (i < n) × (check_set x i ≡ true)
unfolding last_set check_set
last_set-some zero x i h = cc
last_set-some (suc n) x zero h = ground arith
last_set-some (suc n) x (suc i) h = ground (arith, last_set-some n (x / 2) i)

pub last_set-none : (n x j : ℕ) → last_set n x ≡ none → j < n → check_set x j ≡ false
unfolding last_set check_set
last_set-none zero x j h k = absurd (omega arith)
last_set-none (suc n) x zero h k = ground arith
last_set-none (suc n) x (suc j) h k = ground (arith, last_set-none n (x / 2) j)

pub last_set-above : (n x i j : ℕ) → last_set n x ≡ some i → i < j → j < n → check_set x j ≡ false
unfolding last_set check_set
last_set-above zero x i j h lt k = cc
last_set-above (suc n) x i zero h lt k = absurd (omega arith)
last_set-above (suc n) x zero (suc j) h lt k = ground (arith, last_set-none n (x / 2) j)
last_set-above (suc n) x (suc i) (suc j) h lt k = ground (arith, last_set-above n (x / 2) i j)

-- A word that is not full has a clear bit below 32.
pub ffc-some :
    (w : ℕ)
    → w < 2 ^ 32
    → w ≢ max_int_val
    → (i : ℕ) × (ffc w ≡ some i) × (i < 32) × (check_set w i ≡ false)
unfolding ffc
ffc-some w h ne = elim (Option-cases (first_clear 32 w)) [
  | inl e ↦ absurd (omega (arith, first_clear-none 32 w e h))
  | inr (i, e) ↦ (i, e, (first_clear-some 32 w i e).0, (first_clear-some 32 w i e).1)
]

-- Clearing the bit that has just been set gives the word back.
pub clear_bit-set_bit : (x i : ℕ) → check_set x i ≡ false → clear_bit (set_bit x i) i ≡ x
unfolding check_set set_bit clear_bit
clear_bit-set_bit x zero h = ground arith
clear_bit-set_bit x (suc i) h =
    let e : (set_bit (x / 2) i * 2 + x % 2) / 2 ≡ set_bit (x / 2) i = omega arith in
    rw e (omega (arith, clear_bit-set_bit (x / 2) i h))

-- `frs` finds the highest set bit of a word.
pub frs-some :
    (x i : ℕ)
    → frs x ≡ some i
    → (i < 32) × (check_set x i ≡ true) × ((j : ℕ) → i < j → j < 32 → check_set x j ≡ false)
unfolding frs
frs-some x i e = (
  ground (arith, last_set-some 32 x i),
  ground (arith, last_set-some 32 x i),
  λ j lt le. ground (arith, last_set-above 32 x i j),
)

pub frs-none : (x j : ℕ) → frs x ≡ none → j < 32 → check_set x j ≡ false
unfolding frs
frs-none x j e lt = elim (ℕ_discrete x 0) [
  | yes z ↦ rw z (check_set-zero j)
  | no nz ↦ ground (arith, last_set-none 32 x j)
]
