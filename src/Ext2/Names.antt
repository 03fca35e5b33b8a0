-- ===== src/Ext2/Names.antt =====
-- Comparing names.
use manrix.Base.{
  ℕ, zero, suc, ◌+◌, ◌<◌, ◌≡◌, refl, ◌≢◌, Bool, true, false, ◌&&◌, some, ltb, ◌==◌, arith,
  Bool-cases, inl, inr,
}
use manrix.Ext2.{Bytes, check_from, check_name}

-- Whether two names have the same characters from `i` on, for `n` characters.
pub same_from : Bytes → Bytes → ℕ → ℕ → Bool
same_from dest src zero i = true
same_from dest src (suc n) i = (src i == dest i) && same_from dest src n (suc i)

-- A name without wildcards.
pub record IsLiteral (src : Bytes) (srclen : ℕ) : Type 0 where
  pub no_question : (i : ℕ) → i < srclen → src i ≢ 63
  pub no_star : (i : ℕ) → i < srclen → src i ≢ 42

check_from-literal :
    (n i : ℕ) (dest : Bytes) (nlen : ℕ) (src : Bytes) (srclen : ℕ)
    → IsLiteral src srclen
    → i + n ≡ srclen
    → check_from (suc n) dest nlen src srclen i i
      ≡ some (same_from dest src n i && (srclen == nlen))
unfolding check_from same_from
check_from-literal zero i dest nlen src srclen h e =
    let here : i ≡ srclen = omega arith in ground (arith, here)
check_from-literal (suc n) i dest nlen src srclen h e =
    let later = check_from-literal n (suc i) dest nlen src srclen h (omega arith) in
    let inside : ltb i srclen ≡ true = ground arith in
    let question : (src i == 63) ≡ false = ground (arith, h.no_question i) in
    let star : (src i == 42) ≡ false = ground (arith, h.no_star i) in
    elim (Bool-cases (src i == dest i)) [
      | inl same ↦ rw (inside, question, star, same, later, check_from, same_from) refl
      | inr other ↦ rw (inside, question, star, other, check_from, same_from) refl
    ]

-- A name without wildcards matches exactly the name that has its length and its characters, and the
-- comparison always ends.
pub check_name-literal :
    (dest : Bytes) (nlen : ℕ) (src : Bytes) (srclen : ℕ)
    → IsLiteral src srclen
    → check_name dest nlen src srclen ≡ some (same_from dest src srclen 0 && (srclen == nlen))
unfolding check_name
check_name-literal dest nlen src srclen h =
    check_from-literal srclen 0 dest nlen src srclen h (omega arith)
