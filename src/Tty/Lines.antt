-- ===== src/Tty/Lines.antt =====
-- Reading a line in canonical mode.
use manrix.Base.{
  ℕ, suc, ◌+◌, ◌≤◌, ◌<◌, ◌≡◌, refl, ◌≢◌, true, false, Option, none, some, List, [], ◌∷◌, ◌==◌,
  if◌then◌else◌, arith, length, ◌∙◌, sym, ◌++◌, ap,
}
use mathlib.Core.Path.{subst}
use manrix.Tty.{
  Terminal, Termios, icanon, isig, veol, veof, vkill, verase, max_input, flag_break, update_input,
  has_mask, waken, queue_key, read_key, key_signal, Reading, asleep, copied, take_line, icanon_read,
}

-- A character that canonical mode only stores: not 0, and no control character.
pub record IsPlain (trm : Termios) (ch : ℕ) : Type 0 where
  pub not_null : ch ≢ 0
  pub not_eol : ch ≢ trm.c_cc veol
  pub not_eof : ch ≢ trm.c_cc veof
  pub not_kill : ch ≢ trm.c_cc vkill
  pub not_erase : ch ≢ trm.c_cc verase

abbrev pub AllPlain : Termios → List ℕ → Type 0
AllPlain trm [] = Unit
AllPlain trm (c ∷ cs) = IsPlain trm c × AllPlain trm cs

-- Canonical mode without signals, where the end of line is an ordinary key.
pub record IsCanonical (trm : Termios) : Type 0 where
  pub canonical : has_mask trm.c_lflag icanon ≡ true
  pub no_signals : has_mask trm.c_lflag isig ≡ false
  pub eol_null : trm.c_cc veol ≢ 0
  pub eol_kill : trm.c_cc veol ≢ trm.c_cc vkill
  pub eol_erase : trm.c_cc veol ≢ trm.c_cc verase

-- A read that is served by these keys: it sleeps, the next key is read, and it goes through the read
-- again; `none` if a key overflows the queue.
unfoldable pub serve : ℕ → ℕ → List ℕ → Terminal → Option Reading
serve self size [] t = some (icanon_read self size t)
serve self size (c ∷ cs) t = elim (icanon_read self size t) [
  | copied n count queue t' ↦ some (copied n count queue t')
  | asleep t' ↦ elim (read_key c t') [ none ↦ none | some t'' ↦ serve self size cs t'' ]
]

abbrev sleeping : ℕ → Terminal → Terminal
sleeping self t = update_input (λ q. record q { thread = self }) t

icanon_read-asleep :
    (self size : ℕ) (t : Terminal)
    → t.t_input.end < size
    → t.t_input.flag ≢ flag_break
    → icanon_read self size t ≡ asleep (sleeping self t)
unfolding icanon_read
icanon_read-asleep self size t small quiet = ground arith

icanon_read-line :
    (self size : ℕ) (t : Terminal)
    → t.t_input.end < size
    → t.t_input.flag ≡ flag_break
    → icanon_read self size t ≡ take_line size (update_input (λ q. record q { flag = 0 }) t)
unfolding icanon_read
icanon_read-line self size t small done = ground (arith, done)

abbrev stored : ℕ → Terminal → Terminal
stored ch t = waken (
    update_input
      (λ q. record q { queue = λ i. if q.end == i then ch else q.queue i; end = q.end + 1 }) t)

abbrev ended : Terminal → Terminal
ended t = waken (update_input (λ q. record q { flag = flag_break }) t)

module _ (t : Terminal) (c : IsCanonical t.t_termios) where
  read_key-plain :
      (ch : ℕ)
      → IsPlain t.t_termios ch
      → t.t_input.end < max_input
      → read_key ch t ≡ some (stored ch t)
  unfolding read_key queue_key key_signal
  read_key-plain ch p small =
      ground (
        arith, c.canonical, c.no_signals, p.not_null, p.not_eol, p.not_eof, p.not_kill, p.not_erase,
      )

  read_key-eol : read_key (t.t_termios.c_cc veol) t ≡ some (ended t)
  unfolding read_key queue_key key_signal
  read_key-eol = ground (arith, c.canonical, c.no_signals, c.eol_null, c.eol_kill, c.eol_erase)

-- What waking the reader leaves alone.
waken-keeps :
    (t : Terminal)
    → ((waken t).t_termios ≡ t.t_termios)
      × ((waken t).t_input.end ≡ t.t_input.end)
      × ((waken t).t_input.flag ≡ t.t_input.flag)
      × ((waken t).t_input.queue ≡ t.t_input.queue)
unfolding waken
waken-keeps t = (ground arith, ground arith, ground arith, ground arith)

serve-step :
    (self size ch : ℕ) (cs : List ℕ) (t t' t'' : Terminal)
    → icanon_read self size t ≡ asleep t'
    → read_key ch t' ≡ some t''
    → serve self size (ch ∷ cs) t ≡ serve self size cs t''
unfolding serve
serve-step self size ch cs t t' t'' e f = rw (e, f, serve) refl

serve-nil :
    (self size : ℕ) (t : Terminal) (r : Reading)
    → icanon_read self size t ≡ r
    → serve self size [] t ≡ some r
unfolding serve
serve-nil self size t r e = ap (λ x. some x) e

-- The line that the queue holds from index `n` on.
abbrev Holds : (ℕ → ℕ) → ℕ → List ℕ → Type 0
Holds queue n [] = Unit
Holds queue n (c ∷ cs) = (queue n ≡ c) × Holds queue (suc n) cs

module _ (self size : ℕ) (t : Terminal) (c : IsCanonical t.t_termios)
    (quiet : t.t_input.flag ≢ flag_break) (small : t.t_input.end < size) where
  abbrev line_end : Terminal
  line_end = ended (sleeping self t)

  abbrev line_read : Terminal
  line_read = update_input (λ q. record q { flag = 0; end = 0 }) line_end

  serve-eol :
      serve self size (t.t_termios.c_cc veol ∷ []) t
      ≡ some (copied size (some t.t_input.end) line_end.t_input.queue line_read)
  unfolding take_line
  serve-eol =
      let (trm, end, flag, queue) =
        waken-keeps (update_input (λ q. record q { flag = flag_break }) (sleeping self t)) in
      serve-step self size (t.t_termios.c_cc veol) [] t (sleeping self t) line_end
        (icanon_read-asleep self size t small quiet) (read_key-eol (sleeping self t) c)
      ∙ serve-nil self size line_end _ (icanon_read-line self size line_end (rw end small) flag)
      ∙ ap (λ n. some (copied size (some n) line_end.t_input.queue line_read)) end

  serve-plain :
      (ch : ℕ) (keys : List ℕ)
      → IsPlain t.t_termios ch
      → t.t_input.end < max_input
      → serve self size (ch ∷ keys) t ≡ serve self size keys (stored ch (sleeping self t))
  serve-plain ch keys p room =
      serve-step self size ch keys t (sleeping self t) (stored ch (sleeping self t))
        (icanon_read-asleep self size t small quiet) (read_key-plain (sleeping self t) c ch p room)

stored-keeps :
    (self ch : ℕ) (t : Terminal)
    → ((stored ch (sleeping self t)).t_termios ≡ t.t_termios)
      × ((stored ch (sleeping self t)).t_input.end ≡ t.t_input.end + 1)
      × ((stored ch (sleeping self t)).t_input.flag ≡ t.t_input.flag)
      × ((i : ℕ)
          → (stored ch (sleeping self t)).t_input.queue i
            ≡ (if t.t_input.end == i then ch else t.t_input.queue i))
unfolding waken
stored-keeps self ch t = (ground arith, ground arith, ground arith, λ i. ground arith)

-- A read that waits for a line in canonical mode with signals off (ICANON set, ISIG clear, and an end of
-- line that is not NUL, KILL or ERASE), with no break pending and perhaps with characters in the queue:
-- any characters that are not NUL and none of the four control characters of a line (end of line, end of
-- file, KILL and ERASE), and then the end of line, all within the size of the read and the 512 bytes of
-- the queue, make it return; the count is that of all characters, the copied bytes hold the line behind
-- the characters that were there, and the queue is empty again.
pub serve-line :
    (self size : ℕ) (line : List ℕ) (t : Terminal)
    → IsCanonical t.t_termios
    → AllPlain t.t_termios line
    → t.t_input.flag ≢ flag_break
    → t.t_input.end + length line < size
    → t.t_input.end + length line ≤ max_input
    → (queue : ℕ → ℕ) × (t' : Terminal) × (serve self size (line ++ t.t_termios.c_cc veol ∷ []) t
        ≡ some (copied size (some (t.t_input.end + length line)) queue t'))
      × Holds queue t.t_input.end line
      × ((i : ℕ) → i < t.t_input.end → queue i ≡ t.t_input.queue i)
      × (t'.t_input.end ≡ 0)
      × (t'.t_input.flag ≡ 0)
serve-line self size [] t c p quiet small room =
    let whole : t.t_input.end + 0 ≡ t.t_input.end = omega arith in
    let (trm, end, flag, queue) =
      waken-keeps (update_input (λ q. record q { flag = flag_break }) (sleeping self t)) in
    (
      (line_end self size t c quiet (omega arith)).t_input.queue,
      line_read self size t c quiet (omega arith),
      rw whole (serve-eol self size t c quiet (omega arith)),
      tt,
      λ i lt. rw queue refl,
      refl,
      refl,
    )
serve-line self size (ch ∷ line) t c p quiet small room =
    let u = stored ch (sleeping self t) in
    let (trm, end, flag, queue) = stored-keeps self ch t in
    let eol = t.t_termios.c_cc veol in
    let (q, t', run, held, kept, end', flag') =
      serve-line self size line u (rw trm c) (rw trm p.1) (rw flag quiet) (rw end (omega arith))
        (rw end (omega arith)) in
    let count : u.t_input.end + length line ≡ t.t_input.end + suc (length line) =
      rw end (omega arith) in
    (
      q,
      t',
      serve-plain self size t c quiet (omega arith) ch (line ++ eol ∷ []) p.0 (omega arith)
          ∙ ap (λ trm'. serve self size (line ++ trm'.c_cc veol ∷ []) u) (sym trm)
          ∙ run
          ∙ ap (λ n. some (copied size (some n) q t')) count,
      (
        kept t.t_input.end (rw end (omega arith)) ∙ queue t.t_input.end ∙ ground arith,
        subst (λ n. Holds q n line) (end ∙ omega arith) held,
      ),
      λ i lt. kept i (rw end (omega arith)) ∙ queue i ∙ ground arith,
      end',
      flag',
    )
