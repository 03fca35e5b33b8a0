-- ===== src/Tty/Editing.antt =====
-- The editing characters, and the end of the queue.
use manrix.Base.{
  ℕ, zero, suc, ◌≤◌, ◌≡◌, refl, ◌≢◌, true, false, none, some, ◌==◌, arith, ◌∙◌, ◌⊎◌, inl, inr, ap,
  Bool-cases,
}
use manrix.Tty.{
  Terminal, TermQueue, Termios, icanon, veol, veof, vkill, verase, max_input, update_input,
  has_mask, differs, vkill_from, process_vkill, process_verase, queue_key, read_key, key_signal,
}
use manrix.Tty.Lines.{IsCanonical, IsPlain}

always-differs : (trm : Termios) (c : ℕ) → trm.c_cc veol ≢ trm.c_cc veof → differs trm c ≡ true
unfolding differs
always-differs trm c apart = ground arith

vkill_from-same :
    (trm : Termios) (queue : ℕ → ℕ) (n : ℕ)
    → trm.c_cc veol ≢ trm.c_cc veof
    → vkill_from trm queue n ≡ n
unfolding vkill_from
vkill_from-same trm queue zero apart = refl
vkill_from-same trm queue (suc n) apart = rw (always-differs trm (queue (suc n)) apart) refl

process_vkill-same :
    (trm : Termios) (q : TermQueue) → trm.c_cc veol ≢ trm.c_cc veof → process_vkill trm q ≡ q
unfolding process_vkill
process_vkill-same trm q apart =
    ap (λ n. record q { end = n }) (vkill_from-same trm q.queue q.end apart)

process_verase-same :
    (trm : Termios) (q : TermQueue) → trm.c_cc veol ≢ trm.c_cc veof → process_verase trm q ≡ q
unfolding process_verase
process_verase-same trm q apart = rw (always-differs trm (q.queue q.end) apart) refl

key_signal-keeps :
    (ch : ℕ) (t : Terminal)
    → ((key_signal ch t).t_termios ≡ t.t_termios) × ((key_signal ch t).t_input ≡ t.t_input)
unfolding key_signal
key_signal-keeps ch t = (ground arith, ground arith)

module _ (t : Terminal) (ch : ℕ) (canonical : has_mask t.t_termios.c_lflag icanon ≡ true) where
  read_key-kill :
      (ch == t.t_termios.c_cc vkill) ≡ true
      → read_key ch t ≡ some (update_input (process_vkill t.t_termios) (key_signal ch t))
  unfolding read_key
  read_key-kill kill =
      let (trm, input) = key_signal-keeps ch t in rw (trm, canonical, kill, read_key) refl

  read_key-erase :
      (ch == t.t_termios.c_cc vkill) ≡ false
      → (ch == t.t_termios.c_cc verase) ≡ true
      → read_key ch t ≡ some (update_input (process_verase t.t_termios) (key_signal ch t))
  unfolding read_key
  read_key-erase other erase =
      let (trm, input) = key_signal-keeps ch t in rw (trm, canonical, other, erase, read_key) refl

-- In canonical mode, with different characters for the end of line and the end of file, neither the
-- kill nor the erase character takes anything out of the queue: both are swallowed.
pub read_key-edits-nothing :
    (t : Terminal) (ch : ℕ)
    → has_mask t.t_termios.c_lflag icanon ≡ true
    → t.t_termios.c_cc veol ≢ t.t_termios.c_cc veof
    → (ch ≡ t.t_termios.c_cc vkill) ⊎ (ch ≡ t.t_termios.c_cc verase)
    → (t' : Terminal) × (read_key ch t ≡ some t') × (t'.t_input ≡ t.t_input)
read_key-edits-nothing t ch canonical apart editing =
    let (trm, input) = key_signal-keeps ch t in
    elim (Bool-cases (ch == t.t_termios.c_cc vkill)) [
      | inl kill ↦ (
        update_input (process_vkill t.t_termios) (key_signal ch t),
        read_key-kill t ch canonical kill,
        process_vkill-same t.t_termios (key_signal ch t).t_input apart ∙ input,
      )
      | inr other ↦ (
        update_input (process_verase t.t_termios) (key_signal ch t),
        read_key-erase t ch canonical other (ground (arith, editing)),
        process_verase-same t.t_termios (key_signal ch t).t_input apart ∙ input,
      )
    ]

-- Nothing stops a plain character when the queue is full: it is written behind the 512 bytes.
pub read_key-beyond :
    (t : Terminal) (ch : ℕ)
    → IsCanonical t.t_termios
    → IsPlain t.t_termios ch
    → max_input ≤ t.t_input.end
    → read_key ch t ≡ none
unfolding read_key queue_key key_signal
read_key-beyond t ch c p full =
    ground
      (arith, c.canonical, c.no_signals, p.not_null, p.not_eol, p.not_eof, p.not_kill, p.not_erase)
