-- ===== src/Tty/Tests.antt =====
-- A terminal in canonical mode, and its keys.
use manrix.Base.{ℕ, ◌<◌, ◌≡◌, refl, ◌≢◌, none, some, [], ◌∷◌, arith, ◌==◌, if◌then◌else◌}
use manrix.Tty.{TermQueue, Terminal, copied, raw_read, raw_wait}
use manrix.Tty.Lines.{IsCanonical, IsPlain, serve, serve-line}

-- End of file 4, end of line 10, erase 8, interrupt 3, kill 21, quit 28.
abbrev control : ℕ → ℕ
control i =
    if i == 1
    then 4
    else if i == 2
    then 10
    else if i == 3
    then 8
    else if i == 4
    then 3
    else if i == 5
    then 21
    else 28

abbrev no_input : TermQueue
no_input = record {
  queue = λ i. 0;
  last_scancode = 0;
  end = 0;
  keyflag = 0;
  led = 0;
  flag = 0;
  thread = 0;
}

abbrev quiet : Terminal
quiet = record {
  t_termios = record { c_lflag = 16; c_cc = control };
  t_input = no_input;
  pgid = 7;
  log = [];
}

abbrev full : Terminal
full = record quiet { t_input = record no_input { end = 512 } }

quiet-IsCanonical : IsCanonical quiet.t_termios
quiet-IsCanonical = record {
  canonical = refl;
  no_signals = refl;
  eol_null = omega arith;
  eol_kill = omega arith;
  eol_erase = omega arith;
}

a-IsPlain : IsPlain quiet.t_termios 97
a-IsPlain = record {
  not_null = omega arith;
  not_eol = omega arith;
  not_eof = omega arith;
  not_kill = omega arith;
  not_erase = omega arith;
}

not_broken : quiet.t_input.flag ≢ 1
not_broken = omega arith

-- A raw read of a terminal with VMIN not 0 returns a count that was never set.
raw_test :
    raw_read 1 (record quiet { t_input = record no_input { end = 40 } })
    ≡ copied 1 none no_input.queue (record quiet { t_input = record no_input { end = 40 } })
unfolding raw_read raw_wait
raw_test = refl

serve-line_example :
    (queue : ℕ → ℕ) × (t' : Terminal) × (serve 9 80 (97 ∷ 97 ∷ 10 ∷ []) quiet
      ≡ some (copied 80 (some 2) queue t'))
    × ((queue 0 ≡ 97) × ((queue 1 ≡ 97) × Unit {0}))
    × ((i : ℕ) → i < 0 → queue i ≡ 0)
    × (t'.t_input.end ≡ 0)
    × (t'.t_input.flag ≡ 0)
serve-line_example =
    serve-line 9 80 (97 ∷ 97 ∷ []) quiet quiet-IsCanonical (a-IsPlain, (a-IsPlain, tt)) not_broken
      (omega arith) (omega arith)

differ : control 2 ≢ control 1
differ = omega arith
