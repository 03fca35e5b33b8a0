-- ===== src/Keyboard/Case.antt =====
-- Letters and their capitals, and the bounds of the table of characters.
use manrix.Base.{
  ℕ, zero, suc, ◌+◌, ◌-◌, ◌<◌, ◌≤◌, ◌≡◌, refl, Bool, true, false, ◌&&◌, ◌||◌, Option, none, some,
  List, [], ◌∷◌, leb, ◌==◌, if◌then◌else◌, get_elem?, length, arith, Bool-cases, inl, inr, ap,
}
use manrix.Tty.{Terminal, has_mask}
use manrix.Keyboard.{
  keystat_shift, keystat_caps, scode, have_caps_effect, have_shift_effect, have_nlock_effect,
  modifier_key, shift_code, check_extended, table_code1, put_ascii, scancode_check,
}

-- A test of all numbers below a bound.
all_below : (ℕ → Bool) → ℕ → Bool
all_below f zero = true
all_below f (suc n) = f n && all_below f n

all_below-at : (f : ℕ → Bool) (n i : ℕ) → all_below f n ≡ true → i < n → f i ≡ true
unfolding all_below
all_below-at f zero i e lt = absurd (omega arith)
all_below-at f (suc n) i e lt = elim (Bool-cases (i == n)) [
  | inl same ↦ ground (arith, same)
  | inr other ↦ all_below-at f n i (ground arith) (ground arith)
]

-- The character of a code is the small letter of the character of the other.
abbrev is_small_of : Option ℕ → Option ℕ → Bool
is_small_of (some a) (some b) = (b == a + 32) && (leb 65 a && leb a 90)
is_small_of none x = false
is_small_of (some a) none = false

abbrev letter_test : ℕ → Bool
letter_test c = if have_caps_effect c then is_small_of (put_ascii (scode c)) (put_ascii c) else true

letters : all_below letter_test 128 ≡ true
unfolding all_below have_caps_effect put_ascii
letters = refl

caps-letter : (c : ℕ) → have_caps_effect c ≡ true → (c < 128) × (letter_test c ≡ true)
unfolding have_caps_effect
caps-letter c e =
    let small : c < 128 = ground arith in (small, all_below-at letter_test 128 c letters small)

shift_code-letter :
    (keyflag c : ℕ)
    → have_caps_effect c ≡ true
    → shift_code keyflag c
      ≡ (if has_mask keyflag keystat_shift || has_mask keyflag keystat_caps then scode c else c)
unfolding shift_code have_caps_effect have_shift_effect have_nlock_effect
shift_code-letter keyflag c e = ground arith

small-of :
    (x y : Option ℕ)
    → is_small_of x y ≡ true
    → (a : ℕ) × (65 ≤ a) × (a ≤ 90) × (x ≡ some a) × (y ≡ some (a + 32))
small-of none y e = absurd (ground arith)
small-of (some a) none e = absurd (ground arith)
small-of (some a) (some b) e = (a, ground (arith, e), ground (arith, e), refl, ground (arith, e))

letter-no-modifier : (c : ℕ) (t : Terminal) → have_caps_effect c ≡ true → modifier_key c t ≡ none
unfolding modifier_key have_caps_effect
letter-no-modifier c t e = ground arith

check_extended-plain :
    (c : ℕ) (t : Terminal)
    → modifier_key c t ≡ none
    → c < 128
    → check_extended c t ≡ (some (shift_code t.t_input.keyflag c), t)
unfolding check_extended
check_extended-plain c t none_held small =
    let plain : (c == 0xe0) ≡ false = ground arith in
    let press : leb 128 c ≡ false = ground arith in
    rw (plain, none_held, press, check_extended) refl

-- A key that the caps lock acts on is a letter: the code that goes on is that of the capital exactly if
-- shift is held or the caps lock is on, and the table has one of the letters A to Z of ASCII at the one
-- code and the same letter, small, at the other; the terminal does not change.
pub check_extended-letter :
    (c : ℕ) (t : Terminal)
    → have_caps_effect c ≡ true
    → (a : ℕ) × (65 ≤ a)
      × (a ≤ 90)
      × (put_ascii (scode c) ≡ some a)
      × (put_ascii c ≡ some (a + 32))
      × (check_extended c t ≡ (
        some (
            if has_mask t.t_input.keyflag keystat_shift || has_mask t.t_input.keyflag keystat_caps
            then scode c
            else c),
        t,
      ))
check_extended-letter c t e =
    let (small, tested) = caps-letter c e in
    let (a, first, last, capital, letter) =
      small-of (put_ascii (scode c)) (put_ascii c) (ground arith) in
    (
      a,
      first,
      last,
      capital,
      letter,
      rw (← shift_code-letter t.t_input.keyflag c e)
          (check_extended-plain c t (letter-no-modifier c t e) small),
    )

get_elem?-inside : (xs : List ℕ) (i : ℕ) → i < length xs → (a : ℕ) × (get_elem? xs i ≡ some a)
get_elem?-inside [] i lt = absurd (omega arith)
get_elem?-inside (x ∷ xs) zero lt = (x, refl)
get_elem?-inside (x ∷ xs) (suc i) lt = get_elem?-inside xs i (omega arith)

put_ascii-inside : (code : ℕ) → 0 < code → code < 256 → (a : ℕ) × (put_ascii code ≡ some a)
unfolding put_ascii
put_ascii-inside code pos small =
    let size : length table_code1 ≡ 258 = refl in
    let (a, e) = get_elem?-inside table_code1 (code - 1) (omega (arith, size)) in
    let given : (code == 0) ≡ false = ground arith in (a, rw given e)

shift_code-byte :
    (keyflag c : ℕ) → 0 < c → c < 128 → (0 < shift_code keyflag c) × (shift_code keyflag c < 256)
unfolding shift_code have_caps_effect have_shift_effect have_nlock_effect
shift_code-byte keyflag c pos small = (ground arith, ground arith)

positive : (c : ℕ) → scancode_check c ≡ true → 0 < c
unfolding scancode_check
positive c good = ground arith

check_extended-code :
    (c code : ℕ) (t : Terminal)
    → (check_extended c t).0 ≡ some code
    → (c < 128) × (shift_code t.t_input.keyflag c ≡ code)
unfolding check_extended
check_extended-code c code t e = (ground arith, ground arith)

-- Every code that reaches the table is inside it: for any scan code that is no error,
-- and any state of the modifier keys, the code that `check_extended` lets through has a character.
pub check_extended-inside :
    (c code : ℕ) (t t' : Terminal)
    → scancode_check c ≡ true
    → check_extended c t ≡ (some code, t')
    → (a : ℕ) × (put_ascii code ≡ some a)
check_extended-inside c code t t' good e =
    let (small, same) = check_extended-code c code t (ap (λ r. r.0) e) in
    let (pos, byte) = shift_code-byte t.t_input.keyflag c (positive c good) small in
    put_ascii-inside code (rw (← same) pos) (rw (← same) byte)
