-- ===== src/Keyboard.antt =====
-- The keyboard of the console server (servers/console/keyboard.c, asctable.c and i386/keyboard.h).
-- Scan codes and characters are bytes; what the controller's port gives is an argument, and enabling
-- and disabling the keyboard and the end of the interrupt are not modelled.
pub mod Case
mod Tests
use Prim.Native.Nat.{bit_and, bit_or, bit_xor}
use manrix.Base.{
  ℕ, ◌+◌, ◌-◌, ◌%◌, Bool, true, false, not, ◌&&◌, ◌||◌, Option, none, some, List, [], ◌∷◌, ltb, leb,
  ◌==◌, if◌then◌else◌, get_elem?,
}
use manrix.Tty.{TermQueue, Terminal, screen, set_led, has_mask, emit, update_input, read_key}

abbrev pub keystat_shift : ℕ
keystat_shift = 0x06

abbrev pub keystat_caps : ℕ
keystat_caps = 0x08

abbrev pub keystat_nlock : ℕ
keystat_nlock = 0x10

abbrev pub keystat_scroll : ℕ
keystat_scroll = 0x20

-- LED_SCROLL_LOCK, LED_NUM_LOCK and LED_CAPS_LOCK.
abbrev pub led_scroll : ℕ
led_scroll = 1

abbrev pub led_num : ℕ
led_num = 2

abbrev pub led_caps : ℕ
led_caps = 4

-- SCODE, of a byte.
abbrev pub scode : ℕ → ℕ
scode n = (128 + n) % 256

-- `x &= ~mask`, on words.
abbrev pub clear_mask : ℕ → ℕ → ℕ
clear_mask x mask = bit_and x (bit_xor mask 0xffffffff)

-- `termqueue_init`, which leaves the flag and the waiting thread.
unfoldable pub termqueue_init : TermQueue → TermQueue
termqueue_init q = record q { last_scancode = 0; end = 0; keyflag = 0; led = 0 }

-- `scancode_check`: whether the code is none of those that report an error or an answer.
unfoldable pub scancode_check : ℕ → Bool
scancode_check s =
    not ((s == 0x00) || (s == 0xff) || (s == 0xee) || (s == 0xfa) || (s == 0xfc) || (s == 0xfe))

abbrev pub within : ℕ → ℕ → ℕ → Bool
within lo hi c = leb lo c && leb c hi

unfoldable pub have_nlock_effect : ℕ → Bool
have_nlock_effect c = within 71 83 c

unfoldable pub have_caps_effect : ℕ → Bool
have_caps_effect c = within 16 25 c || within 30 38 c || within 44 50 c

unfoldable pub have_shift_effect : ℕ → Bool
have_shift_effect c = within 2 13 c || within 16 27 c || within 30 41 c || within 44 53 c

-- A lock key toggles its flag, and sets its led when the flag is cleared.
unfoldable pub toggle : ℕ → ℕ → TermQueue → TermQueue
toggle key led q =
    if has_mask q.keyflag key
    then record q { keyflag = clear_mask q.keyflag key; led = bit_or q.led led }
    else record q { keyflag = bit_or q.keyflag key; led = clear_mask q.led led }

-- The keys of the `switch` in `check_extended`; `none`: the code is not one of them. The led is sent
-- after the toggle for the caps lock and before it for the other two.
unfoldable pub modifier_key : ℕ → Terminal → Option Terminal
unfolding toggle
modifier_key ch t =
    if (ch == 42) || (ch == 54)
    then some (update_input (λ q. record q { keyflag = bit_or q.keyflag keystat_shift }) t)
    else if (ch == 170) || (ch == 182)
    then some (update_input (λ q. record q { keyflag = clear_mask q.keyflag keystat_shift }) t)
    else if ch == 58
    then (let t' = update_input (toggle keystat_caps led_caps) t in
        some (emit (set_led t'.t_input.led) t'))
    else if ch == 69
    then some (update_input (toggle keystat_nlock led_num) (emit (set_led t.t_input.led) t))
    else if ch == 70
    then some (update_input (toggle keystat_scroll led_scroll) (emit (set_led t.t_input.led) t))
    else none

-- The code after one of the three tests at the end of `check_extended`.
abbrev pub shifted : Bool → Bool → ℕ → ℕ
shifted on effect ch = if on && effect then scode ch else ch

unfoldable pub shift_code : ℕ → ℕ → ℕ
shift_code keyflag ch =
    let ch₁ = shifted (has_mask keyflag keystat_shift) (have_shift_effect ch) ch in
    let ch₂ = shifted (has_mask keyflag keystat_caps) (have_caps_effect ch₁) ch₁ in
    shifted (has_mask keyflag keystat_nlock) (have_nlock_effect ch₂) ch₂

-- `check_extended`: the code that goes on, if it returns 0, and the terminal.
unfoldable pub check_extended : ℕ → Terminal → Option ℕ × Terminal
unfolding modifier_key shift_code
check_extended ch t = if ch == 0xe0 then (none, t) else elim (modifier_key ch t) [
  | some t' ↦ (none, t')
  | none ↦ if leb 128 ch then (none, t) else (some (shift_code t.t_input.keyflag ch), t)
]

abbrev pub table_code1 : List ℕ
table_code1 =
    27 ∷ 49 ∷ 50 ∷ 51 ∷ 52 ∷ 53 ∷ 54 ∷ 55 ∷ 56 ∷ 57 ∷ 48 ∷ 45 ∷ 61 ∷ 0 ∷ 0 ∷ 113 ∷ 119 ∷ 101 ∷ 114
    ∷ 116 ∷ 121 ∷ 117 ∷ 105 ∷ 111 ∷ 112 ∷ 91 ∷ 93 ∷ 10 ∷ 0 ∷ 97 ∷ 115 ∷ 100 ∷ 102 ∷ 103 ∷ 104 ∷ 106
    ∷ 107 ∷ 108 ∷ 59 ∷ 39 ∷ 96 ∷ 0 ∷ 0 ∷ 122 ∷ 120 ∷ 99 ∷ 118 ∷ 98 ∷ 110 ∷ 109 ∷ 44 ∷ 46 ∷ 47 ∷ 0
    ∷ 42 ∷ 0 ∷ 32 ∷ 0 ∷ 0 ∷ 0 ∷ 0 ∷ 0 ∷ 0 ∷ 0 ∷ 0 ∷ 0 ∷ 0 ∷ 0 ∷ 0 ∷ 0 ∷ 0 ∷ 0 ∷ 0 ∷ 0 ∷ 0 ∷ 0 ∷ 0
    ∷ 0 ∷ 0 ∷ 0 ∷ 0 ∷ 0 ∷ 0 ∷ 0 ∷ 0 ∷ 0 ∷ 0 ∷ 0 ∷ 0 ∷ 0 ∷ 0 ∷ 0 ∷ 0 ∷ 0 ∷ 0 ∷ 0 ∷ 0 ∷ 0 ∷ 0 ∷ 0 ∷ 0
    ∷ 0 ∷ 0 ∷ 0 ∷ 0 ∷ 0 ∷ 0 ∷ 0 ∷ 0 ∷ 0 ∷ 0 ∷ 0 ∷ 0 ∷ 0 ∷ 0 ∷ 0 ∷ 0 ∷ 0 ∷ 0 ∷ 0 ∷ 0 ∷ 0 ∷ 0 ∷ 0 ∷ 0
    ∷ 0 ∷ 0 ∷ 0 ∷ 27 ∷ 33 ∷ 64 ∷ 35 ∷ 36 ∷ 37 ∷ 94 ∷ 38 ∷ 42 ∷ 40 ∷ 41 ∷ 95 ∷ 43 ∷ 0 ∷ 0 ∷ 81 ∷ 87
    ∷ 69 ∷ 82 ∷ 84 ∷ 89 ∷ 85 ∷ 73 ∷ 79 ∷ 80 ∷ 123 ∷ 125 ∷ 0 ∷ 0 ∷ 65 ∷ 83 ∷ 68 ∷ 70 ∷ 71 ∷ 72 ∷ 74
    ∷ 75 ∷ 76 ∷ 58 ∷ 124 ∷ 34 ∷ 0 ∷ 0 ∷ 90 ∷ 88 ∷ 67 ∷ 86 ∷ 66 ∷ 78 ∷ 77 ∷ 60 ∷ 62 ∷ 63 ∷ 0 ∷ 0 ∷ 0
    ∷ 0 ∷ 0 ∷ 0 ∷ 0 ∷ 0 ∷ 0 ∷ 0 ∷ 0 ∷ 0 ∷ 0 ∷ 0 ∷ 0 ∷ 0 ∷ 0 ∷ 55 ∷ 56 ∷ 57 ∷ 45 ∷ 52 ∷ 53 ∷ 54 ∷ 43
    ∷ 49 ∷ 50 ∷ 51 ∷ 48 ∷ 46 ∷ 0 ∷ 0 ∷ 0 ∷ 0 ∷ 0 ∷ 0 ∷ 0 ∷ 0 ∷ 0 ∷ 0 ∷ 0 ∷ 0 ∷ 0 ∷ 0 ∷ 0 ∷ 0 ∷ 0 ∷ 0
    ∷ 0 ∷ 0 ∷ 0 ∷ 0 ∷ 0 ∷ 0 ∷ 0 ∷ 0 ∷ 0 ∷ 0 ∷ 0 ∷ 0 ∷ 0 ∷ 0 ∷ 0 ∷ 0 ∷ 0 ∷ 0 ∷ 0 ∷ 0 ∷ 0 ∷ 0 ∷ 0 ∷ 0
    ∷ 0 ∷ 0 ∷ 0 ∷ 0 ∷ 0 ∷ []

-- `put_ascii`; `none` is an index outside the table.
unfoldable pub put_ascii : ℕ → Option ℕ
put_ascii scancode = if scancode == 0 then none else get_elem? table_code1 (scancode - 1)

-- What `kb_intr` does with a code that goes on.
unfoldable pub enter : ℕ → Terminal → Option Terminal
enter code t = elim (put_ascii code) [
  | none ↦ none
  | some ascii ↦ read_key ascii (emit (screen ascii) t)
]

-- `kb_intr`, where the port gave `scancode`. `none` is an index outside the table or the queue.
-- `last_scancode` is the code after `check_extended`.
unfoldable pub kb_intr : ℕ → Terminal → Option Terminal
unfolding check_extended enter
kb_intr scancode t =
    let finish : ℕ → Terminal → Terminal =
      λ code t'. update_input (λ q. record q { last_scancode = code }) t' in
    if not (scancode_check scancode)
    then some (finish scancode t)
    else (let (next, t') = check_extended scancode t in
        elim next [
          | none ↦ some (finish scancode t')
          | some code ↦ elim (enter code t') [ none ↦ none | some t'' ↦ some (finish code t'') ]
        ])
