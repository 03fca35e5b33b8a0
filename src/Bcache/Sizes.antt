-- ===== src/Bcache/Sizes.antt =====
-- `list_index`: its loop ends, and which free list it chooses.
use manrix.Base.{
  ℕ, zero, suc, ◌+◌, ◌*◌, ◌/◌, ◌≤◌, ◌<◌, ◌-◌, ◌^◌, ◌≡◌, true, false, some, refl, arith, leb, ltb,
  Bool-cases, inl, inr, ap, ◌∙◌,
}
use native.Mathlib.Nat.{pow-suc}
use manrix.Base.Int.{pos, negsuc, sub_ℕ}
use manrix.Bcache.{halvings, list_index}

-- With more rounds allowed than the size has bits, the loop ends, and counts the bits.
pub halvings_bits :
    (fuel size bit : ℕ)
    → size < 2 ^ fuel
    → (r : ℕ) × (halvings (suc fuel) (pos size) bit ≡ some (bit + r))
      × (size < 2 ^ r)
      × (2 ^ r ≤ 2 * size + 1)
      × (1 ≤ size → 2 ^ r ≤ 2 * size)
unfolding halvings
halvings_bits zero size bit lt =
    let none_left : leb 1 size ≡ false = ground arith in
    (0, rw none_left (ground arith), omega arith, omega arith, λ h. omega arith)
halvings_bits (suc fuel) size bit lt = elim (Bool-cases (leb 1 size)) [
  | inr done ↦ (0, rw done (ground arith), ground arith, omega arith, λ h. omega arith)
  | inl more ↦
      let (r, e, below, above, tight) =
        halvings_bits fuel (size / 2) (bit + 1) (omega (arith, pow-suc 2 fuel)) in
      let positive : 1 ≤ size = ground arith in
      let double : 2 ^ suc r ≤ 2 * size = ground (arith, pow-suc 2 r, tight) in
      (
        suc r,
        rw more (e ∙ ap (λ (t : ℕ). some t) (omega arith)),
        omega (arith, pow-suc 2 r),
        omega arith,
        λ h. double,
      )
]

halvings-negative : (fuel n bit : ℕ) → halvings (suc fuel) (negsuc n) bit ≡ some bit
unfolding halvings
halvings-negative fuel n bit = refl

-- The loop of `list_index` ends for every 32-bit size. Below 2 ^ 31 the index is the number of bits of the
-- size, less 10, where 0 has none; from 2 ^ 31 on the size is negative as an `int`, and the index is -10.
pub list_index_bits :
    (size : ℕ)
    → size < 2 ^ 32
    → (size < 2 ^ 31
        → (r : ℕ) × (list_index size ≡ some (sub_ℕ r 10)) × (2 ^ r ≤ 2 * size + 1) × (size < 2 ^ r))
      × (2 ^ 31 ≤ size → list_index size ≡ some (negsuc 9))
unfolding list_index
list_index_bits size lt = (
  (λ small.
      let (r, e, below, above, tight) = halvings_bits 32 size 0 lt in
      let same : 0 + r ≡ r = omega arith in
      let kept : ltb size (2 ^ 31) ≡ true = ground (arith, small) in
      (r, rw (kept, e, list_index) (ap (λ (t : ℕ). some (sub_ℕ t 10)) same), above, below)),
  (λ large.
      let negative : ltb size (2 ^ 31) ≡ false = ground (arith, large) in
      rw (negative, halvings-negative 32 (2 ^ 32 - 1 - size) 0, list_index) refl),
)
