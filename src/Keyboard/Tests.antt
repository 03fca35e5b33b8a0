-- ===== src/Keyboard/Tests.antt =====
-- Keys pressed at a terminal with shift held.
use manrix.Base.{ℕ, ◌+◌, ◌≤◌, ◌≡◌, refl, true, some, []}
use manrix.Tty.{Terminal}
use manrix.Keyboard.{
  scode, have_caps_effect, scancode_check, check_extended, shift_code, put_ascii, modifier_key,
  toggle, have_shift_effect, have_nlock_effect,
}
use manrix.Keyboard.Case.{check_extended-letter, check_extended-inside}

abbrev shift_held : Terminal
shift_held = record {
  t_termios = record { c_lflag = 16; c_cc = λ i. 0 };
  t_input = record {
    queue = λ i. 0;
    last_scancode = 0;
    end = 0;
    keyflag = 6;
    led = 0;
    flag = 0;
    thread = 0;
  };
  pgid = 7;
  log = [];
}

-- The caps lock's led goes out when the lock is set, and on when it is cleared.
led_test : (toggle 8 4 (toggle 8 4 shift_held.t_input)).led ≡ 4
unfolding toggle
led_test = refl

-- Shift and the quote key give a bar.
quote_test : put_ascii (shift_code 6 40) ≡ some 124
unfolding put_ascii shift_code have_shift_effect have_caps_effect have_nlock_effect
quote_test = refl

a_key : have_caps_effect 30 ≡ true
unfolding have_caps_effect
a_key = refl

check_extended-letter_example :
    (a : ℕ) × (65 ≤ a)
    × (a ≤ 90)
    × (put_ascii (scode 30) ≡ some a)
    × (put_ascii 30 ≡ some (a + 32))
    × (check_extended 30 shift_held ≡ (some 158, shift_held))
check_extended-letter_example = check_extended-letter 30 shift_held a_key

good : scancode_check 30 ≡ true
unfolding scancode_check
good = refl

passes : check_extended 30 shift_held ≡ (some 158, shift_held)
unfolding check_extended modifier_key shift_code have_shift_effect have_caps_effect
    have_nlock_effect
passes = refl

check_extended-inside_example : (a : ℕ) × (put_ascii 158 ≡ some a)
check_extended-inside_example = check_extended-inside 30 158 shift_held shift_held good passes
