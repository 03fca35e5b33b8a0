-- ===== src/Tty.antt =====
-- The terminal of the console server (servers/console/tty.c, tty.h, and the parts of
-- soft/libc/include/termios.h that it reads). The input queue is a function of the index, and an
-- index beyond its 512 bytes is undefined behaviour. Signals, wake-ups and replies, which are calls of
-- the C library, are a log, the newest first.
pub mod Lines
pub mod Editing
mod Tests
use Prim.Native.Nat.{bit_and, bit_or, bit_xor}
use manrix.Base.{
  ℕ, zero, suc, ◌+◌, ◌-◌, Bool, true, false, not, ◌||◌, Option, none, some, List, [], ◌∷◌, ltb,
  ◌==◌, if◌then◌else◌,
}

-- The indices of the control characters.
abbrev pub vtime : ℕ
vtime = 0

abbrev pub veof : ℕ
veof = 1

abbrev pub veol : ℕ
veol = 2

abbrev pub verase : ℕ
verase = 3

abbrev pub vintr : ℕ
vintr = 4

abbrev pub vkill : ℕ
vkill = 5

abbrev pub vmin : ℕ
vmin = 6

abbrev pub vquit : ℕ
vquit = 7

abbrev pub vstart : ℕ
vstart = 8

abbrev pub vstop : ℕ
vstop = 9

abbrev pub vsusp : ℕ
vsusp = 10

abbrev pub icanon : ℕ
icanon = 0x10

abbrev pub isig : ℕ
isig = 0x40

abbrev pub max_input : ℕ
max_input = 512

abbrev pub flag_break : ℕ
flag_break = 1

abbrev pub scode_nl : ℕ
scode_nl = 0xa

-- `struct termios`, as far as it is read. `c_cc` has 10 items; at 10, which is VSUSP, it stands for
-- what lies behind them.
pub record Termios : Type 0 where
  pub c_lflag : ℕ
  pub c_cc : ℕ → ℕ

-- `struct termqueue`; `thread` is 0 when nobody waits.
pub record TermQueue : Type 0 where
  pub queue : ℕ → ℕ
  pub last_scancode : ℕ
  pub end : ℕ
  pub keyflag : ℕ
  pub led : ℕ
  pub flag : ℕ
  pub thread : ℕ

-- A reply carries a number, or the message's own words (`none`).
pub data Effect : Type 0 where
  killpg : ℕ → ℕ → Effect
  pthread_kill : ℕ → ℕ → Effect
  wake : ℕ → Effect
  reply : ℕ → Option ℕ → Effect
  screen : ℕ → Effect
  set_led : ℕ → Effect

-- `struct terminal`, with the log.
pub record Terminal : Type 0 where
  pub t_termios : Termios
  pub t_input : TermQueue
  pub pgid : ℕ
  pub log : List Effect

-- The C condition `x & mask`.
abbrev pub has_mask : ℕ → ℕ → Bool
has_mask x mask = not (bit_and x mask == 0)

abbrev pub emit : Effect → Terminal → Terminal
emit e t = record t { log = e ∷ t.log }

abbrev pub update_input : (TermQueue → TermQueue) → Terminal → Terminal
update_input f t = record t { t_input = f t.t_input }

-- The condition that the kill and the erase character share.
unfoldable pub differs : Termios → ℕ → Bool
differs trm c = not (c == trm.c_cc veol) || not (c == trm.c_cc veof) || not (c == scode_nl)

-- `process_vkill`, from the given end of the queue.
unfoldable pub vkill_from : Termios → (ℕ → ℕ) → ℕ → ℕ
vkill_from trm queue zero = 0
vkill_from trm queue (suc n) =
    let rest = vkill_from trm queue n in if differs trm (queue (suc n)) then suc n else rest

unfoldable pub process_vkill : Termios → TermQueue → TermQueue
process_vkill trm q = record q { end = vkill_from trm q.queue q.end }

unfoldable pub process_verase : Termios → TermQueue → TermQueue
process_verase trm q = if differs trm (q.queue q.end) then q else record q { end = 0 }

-- The signals of the first part of `read_key`: SIGINT is 9, SIGQUIT 13 and SIGTSTP 19.
unfoldable pub key_signal : ℕ → Terminal → Terminal
key_signal ch t =
    let cc = t.t_termios.c_cc in
    if not (has_mask t.t_termios.c_lflag isig)
    then t
    else if ch == cc vintr
    then emit (killpg t.pgid 9) t
    else if ch == cc vquit
    then emit (killpg t.pgid 13) t
    else if ch == cc vstart
    then t
    else if ch == cc vstop
    then t
    else if ch == cc vsusp
    then emit (killpg t.pgid 19) t
    else t

-- The label `wakenout`.
unfoldable pub waken : Terminal → Terminal
waken t =
    let t' = if t.t_input.thread == 0 then t else emit (wake t.t_input.thread) t in
    update_input (λ q. record q { thread = 0 }) t'

-- The label `do_q`; `none`: the character is written behind the queue.
unfoldable pub queue_key : ℕ → Terminal → Option Terminal
unfolding waken
queue_key ch t =
    let cc = t.t_termios.c_cc in
    let q = t.t_input in
    if ch == 0
    then some t
    else if (ch == cc veol) || (ch == cc veof)
    then some (waken (update_input (λ q. record q { flag = flag_break }) t))
    else if ltb q.end max_input
    then some (
        waken (
          update_input
            (λ q. record q { queue = λ i. if q.end == i then ch else q.queue i; end = q.end + 1 })
            t))
    else none

unfoldable pub read_key : ℕ → Terminal → Option Terminal
unfolding key_signal queue_key process_vkill process_verase
read_key ch t₀ =
    let t = key_signal ch t₀ in
    let trm = t.t_termios in
    if not (has_mask trm.c_lflag icanon)
    then queue_key ch t
    else if ch == trm.c_cc vkill
    then some (update_input (process_vkill trm) t)
    else if ch == trm.c_cc verase
    then some (update_input (process_verase trm) t)
    else queue_key ch t

-- How a read ends or pauses: in `asleep` the thread sleeps, and goes through the read again once it
-- is woken; `none` is a count that was never set. The bytes that are copied are those of the queue.
pub data Reading : Type 0 where
  asleep : Terminal → Reading
  copied : ℕ → Option ℕ → (ℕ → ℕ) → Terminal → Reading

-- The end of `icanon_read`.
unfoldable pub take_line : ℕ → Terminal → Reading
take_line size t =
    copied size (some t.t_input.end) t.t_input.queue (update_input (λ q. record q { end = 0 }) t)

-- One round of `icanon_read`, by the thread `self`.
unfoldable pub icanon_read : ℕ → ℕ → Terminal → Reading
unfolding take_line
icanon_read self size t =
    if ltb t.t_input.end size
    then if t.t_input.flag == flag_break
      then take_line size (update_input (λ q. record q { flag = 0 }) t)
      else asleep (update_input (λ q. record q { thread = self }) t)
    else take_line size t

-- One round of the loop of `raw_read`; `nread` is what its first part has set.
unfoldable pub raw_wait : ℕ → Option ℕ → Terminal → Reading
raw_wait size nread t =
    if ltb t.t_input.end (t.t_termios.c_cc vmin)
    then asleep t
    else copied size nread t.t_input.queue t

unfoldable pub raw_read : ℕ → Terminal → Reading
unfolding raw_wait
raw_read size t =
    let cc = t.t_termios.c_cc in
    if (if cc vmin == 0 then cc vtime == 0 else false)
    then raw_wait size (some t.t_input.end) (update_input (λ q. record q { end = 0 }) t)
    else raw_wait size none t

-- `msg_con_open` and `msg_con_close`, where `syscall_get_user` gave `gid`.
unfoldable pub msg_con_open : ℕ → Bool → ℕ → Terminal → Terminal
msg_con_open tid noreply gid t =
    let t' = record t { pgid = gid } in if noreply then t' else emit (reply tid none) t'

-- The first part of `msg_con_read`, where `getpgid` gave `pgid`: SIGTTIN is 20.
unfoldable pub check_group : ℕ → ℕ → Terminal → Terminal
check_group tid pgid t = if t.pgid == pgid then t else emit (pthread_kill tid 20) t

unfoldable pub msg_con_read : ℕ → ℕ → ℕ → ℕ → Terminal → Reading
unfolding check_group icanon_read raw_read
msg_con_read self tid pgid size t₀ =
    let t = check_group tid pgid t₀ in
    if has_mask t.t_termios.c_lflag icanon then icanon_read self size t else raw_read size t

-- The reply at the end of `msg_con_read`; a count that was never set is sent all the same.
unfoldable pub reply_read : ℕ → Reading → Reading
reply_read tid (asleep t) = asleep t
reply_read tid (copied size nread queue t) = copied size nread queue (emit (reply tid nread) t)

unfoldable pub msg_tcgetattr : ℕ → Terminal → Termios × Terminal
msg_tcgetattr tid t = (t.t_termios, emit (reply tid none) t)

unfoldable pub msg_tcsetattr : ℕ → Termios → Terminal → Terminal
msg_tcsetattr tid trm t = emit (reply tid none) (record t { t_termios = trm })

unfoldable pub msg_tcgetsid : ℕ → Terminal → Terminal
msg_tcgetsid tid t = emit (reply tid (some t.pgid)) t

-- TCIFLUSH is 1.
unfoldable pub msg_tcflush : ℕ → ℕ → Terminal → Terminal
msg_tcflush tid type t =
    let t' = if has_mask type 1 then update_input (λ q. record q { end = 0 }) t else t in
    emit (reply tid none) t'
