-- ===== src/Kernel.antt =====
-- The kernel state that the scheduler, the thread table and message passing share: `struct thread`
-- (microkernel/include/kernel/thread.h), `struct message` (message.h) and the run queue of the one
-- processor of the default configuration (scheduling.h; MANRIX_SMP and MANRIX_KPREEMPT are not
-- defined in config.h, so there is one run queue and the preemption counters are no code).
use Prim.Native.Nat.{bit_and}
use manrix.Base.{ℕ, Bool, not, Option, none, some, List, ◌==◌, if◌then◌else◌}
use manrix.Base.Int.{ℤ}

-- A thread is named by its pointer.
abbrev pub Ptr : Type 0
Ptr = ℕ

-- `struct message`. The unions share their words: `w2` is `snd_ptr`, `w3` `snd_bufsize`, `w4`
-- `rcv_ptr` and `w5` `rcv_bufsize`.
pub record Message : Type 0 where
  pub w1 : ℕ
  pub w2 : ℕ
  pub w3 : ℕ
  pub w4 : ℕ
  pub w5 : ℕ
  pub tid : ℕ
  pub flags : ℕ

-- The fields of `struct thread` that these parts read or write. `euid` is that of its process.
-- `rcvq` lists the threads that wait to send to it, the newest first.
pub record Thread : Type 0 where
  pub tid : ℕ
  pub states : ℕ
  pub schedpolicy : ℕ
  pub priority_stat : ℕ
  pub priority_dyn : ℕ
  pub bound : ℤ
  pub time_slice : ℤ
  pub schedule : Bool
  pub msg : Message
  pub rcvq : List Ptr
  pub waiting : Option Ptr
  pub euid : ℕ

-- `struct rqueue`, the threads, the running thread, the idle thread and the hash table of threads.
-- Each queue of `run` lists its threads from the front.
pub record Kernel : Type 0 where
  pub bitmap : ℕ
  pub run : List (List Ptr)
  pub nthreads : ℤ
  pub thr : Ptr → Thread
  pub current : Ptr
  pub init_thread : Ptr
  pub thash : ℕ → List Ptr

-- Thread states.
abbrev pub thread_running : ℕ
thread_running = 0x01

abbrev pub thread_ready : ℕ
thread_ready = 0x02

abbrev pub thread_uninterruptible : ℕ
thread_uninterruptible = 0x14

abbrev pub thread_interruptible : ℕ
thread_interruptible = 0x18

abbrev pub send_blocked : ℕ
send_blocked = 0x34

abbrev pub receive_blocked : ℕ
receive_blocked = 0x54

abbrev pub reply_blocked : ℕ
reply_blocked = 0x94

abbrev pub sync_blocked : ℕ
sync_blocked = 0x214

-- The C condition `x & mask`.
abbrev pub test_mask : ℕ → ℕ → Bool
test_mask x mask = not (bit_and x mask == 0)

-- The error numbers that these parts return, negated.
pub data Errno : Type 0 where
  eperm esrch einval enomem : Errno
  minus_one : Errno

-- `p->field = …` for a thread.
abbrev pub update_thread : Ptr → (Thread → Thread) → Kernel → Kernel
update_thread p f k = record k { thr = λ q. if p == q then f (k.thr p) else k.thr q }

infixl 5 ◌>>=◌
abbrev pub ◌>>=◌ {ℓ κ} : {A : Type ℓ} {B : Type κ} → Option A → (A → Option B) → Option B
none >>= f = none
some a >>= f = f a
