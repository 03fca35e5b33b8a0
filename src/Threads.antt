-- ===== src/Threads.antt =====
-- The table of threads (`thash` in microkernel/kernel/thread.c) and the thread operations that touch
-- only it and the scheduler. A bucket is the list of its chain of `next` links.
pub mod Laws
mod Tests
use Prim.Native.Nat.{bit_and, bit_xor}
use manrix.Base.{
  ℕ, ◌+◌, ◌/◌, Bool, true, false, Option, none, some, List, [], ◌∷◌, ◌==◌, if◌then◌else◌,
}
use manrix.Kernel.{
  Ptr, Thread, Kernel, thread_interruptible, thread_uninterruptible, update_thread, ◌>>=◌,
}
use manrix.Sched.{remove_thread, schedule, wakeup}

-- hash_fn, with HASH_SIZE / sizeof(void *) = 1024 buckets.
unfoldable pub hash_fn : ℕ → ℕ
hash_fn x = bit_and (bit_xor (x / 256) x) 1023

abbrev pub set_bucket : ℕ → List Ptr → Kernel → Kernel
set_bucket b chain k = record k { thash = λ i. if b == i then chain else k.thash i }

unfoldable pub thash_insert : Ptr → Kernel → Kernel
thash_insert thread k = let b = hash_fn (k.thr thread).tid in set_bucket b (thread ∷ k.thash b) k

-- `for(link = …) if(link->next == thread) link->next = thread->next;`
unfoldable pub unlink_after : Ptr → List Ptr → List Ptr
unlink_after thread [] = []
unlink_after thread (x ∷ []) = x ∷ []
unlink_after thread (x ∷ y ∷ ys) = elim (y == thread) [
  | true ↦ x ∷ unlink_after thread ys
  | false ↦ x ∷ unlink_after thread (y ∷ ys)
]

unfoldable pub unlink_chain : Ptr → List Ptr → List Ptr
unfolding unlink_after
unlink_chain thread [] = []
unlink_chain thread (x ∷ xs) = if x == thread then xs else unlink_after thread (x ∷ xs)

unfoldable pub thash_remove : Ptr → Kernel → Kernel
unfolding unlink_chain
thash_remove thread k =
    let b = hash_fn (k.thr thread).tid in set_bucket b (unlink_chain thread (k.thash b)) k

-- A lookup finds a thread or reads through the NULL at the end of the chain.
pub data Lookup : Type 0 where
  found : Ptr → Lookup
  fault : Lookup

unfoldable pub find_in_chain : (Ptr → Thread) → ℕ → List Ptr → Lookup
find_in_chain thr tid [] = fault
find_in_chain thr tid (x ∷ xs) = elim ((thr x).tid == tid) [
  | true ↦ found x
  | false ↦ find_in_chain thr tid xs
]

-- `find_by_tid`: both the test of the first entry and the loop read `link->tid` before the test for
-- NULL.
unfoldable pub find_by_tid : ℕ → Kernel → Lookup
unfolding find_in_chain
find_by_tid tid k = find_in_chain k.thr tid (k.thash (hash_fn tid))

-- `none` is undefined behaviour of the scheduler: the thread is not on the run queue.
unfoldable pub sleep_interruptible : Ptr → Kernel → Option Kernel
sleep_interruptible thr k =
    remove_thread thr (update_thread thr (λ t. record t { states = thread_interruptible }) k)
    >>= λ k'. some (schedule k')

unfoldable pub sleep_uninterruptible : Ptr → Kernel → Option Kernel
sleep_uninterruptible thr k =
    remove_thread thr (update_thread thr (λ t. record t { states = thread_uninterruptible }) k)
    >>= λ k'. some (schedule k')

-- `thread_wait`, up to the switch.
unfoldable pub thread_wait : ℕ → Kernel → Option Kernel
unfolding sleep_uninterruptible
thread_wait tid k = elim (find_by_tid tid k) [
  | fault ↦ none
  | found thr ↦
      sleep_uninterruptible thr (update_thread thr (λ t. record t { waiting = some k.current }) k)
]

-- `exec_thread`. The lists of `rcvq` are made empty whatever they held.
unfoldable pub exec_thread : Ptr → Kernel → Option Kernel
exec_thread thr k =
    let woken : Option Kernel = elim ((k.thr thr).waiting) [
      | none ↦ some k
      | some w ↦ wakeup w k
    ] in
    woken >>= λ k'. some (update_thread thr (λ t. record t { waiting = none; rcvq = [] }) k')
