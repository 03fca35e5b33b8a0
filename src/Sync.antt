-- ===== src/Sync.antt =====
-- The synchronisation objects of the kernel (microkernel/kernel/sync.c, include/kernel/sync.h). The
-- hash table's chains are the objects' `next` links, and a walk along one runs on fuel. A queue of
-- waiting threads and the list of a process's objects are lists, front first, as in Sched.
-- `undefined` is a read through NULL, an index beyond the table's page, a list that does not hold
-- the item, or a queue of waiting threads that is empty when one is taken.
pub mod Lookup
pub mod Waiters
pub mod Wakes
pub mod Blocks
mod Tests
use manrix.Base.{
  ℕ, zero, suc, ◌+◌, ◌*◌, Bool, true, false, ◌&&◌, ◌||◌, Option, none, some, List, [], ◌∷◌, ltb,
  ◌==◌, if◌then◌else◌,
}
use manrix.Kernel.{
  Ptr, Thread, Kernel, thread_running, sync_blocked, Errno, einval, enomem, update_thread, ◌>>=◌,
}
use manrix.Sched.{erase, last, but_last, enqueue_thread, remove_thread, schedule}

-- `struct sync`
pub record Sync : Type 0 where
  pub sync_type : ℕ
  pub sync_id : ℕ
  pub wq : List Ptr
  pub owner : ℕ
  pub next : Ptr

-- The objects, the hash table, and what the processes keep of them: `proc` is the pid of a thread's
-- process, `syncs` and `ids` are the list and the counter of its `struct syncstruct`.
pub record State : Type 0 where
  pub kernel : Kernel
  pub proc : Ptr → ℕ
  pub sync : Ptr → Sync
  pub shash : ℕ → Ptr
  pub syncs : ℕ → List Ptr
  pub ids : ℕ → ℕ

abbrev pub update_sync : Ptr → (Sync → Sync) → State → State
update_sync p f s = record s { sync = λ q. if p == q then f (s.sync p) else s.sync q }

abbrev pub update_syncs : ℕ → List Ptr → State → State
update_syncs pid xs s = record s { syncs = λ q. if pid == q then xs else s.syncs q }

-- `shash` is a page of 1024 pointers.
abbrev pub table_size : ℕ
table_size = 1024

abbrev pub sync_fn : ℕ → ℕ → ℕ
sync_fn owner id = owner * id

unfoldable pub shash_insert : Ptr → State → Option State
shash_insert p s =
    let bucket = sync_fn (s.sync p).owner (s.sync p).sync_id in
    let s₁ = update_sync p (λ x. record x { next = s.shash bucket }) s in
    if ltb bucket table_size
    then some (record s₁ { shash = λ b. if bucket == b then p else s.shash b })
    else none

-- The tests of the owner and the id of an object.
abbrev pub matches : ℕ → ℕ → Sync → Bool
matches pid id x = (x.owner == pid) && (x.sync_id == id)

pub data Found : Type 0 where
  found : Ptr → Found
  absent : Found
  fault : Found
  unfinished : Found

-- The loop of `find_sync`, which goes on while both the owner and the id differ.
unfoldable pub walk : ℕ → ℕ → ℕ → Ptr → State → Found
walk zero pid id link s = unfinished
walk (suc n) pid id link s =
    let x = s.sync link in
    let rest = walk n pid id x.next s in
    if link == 0
    then fault
    else if (x.owner == pid) || (x.sync_id == id)
    then found link
    else if x.next == 0
    then absent
    else rest

unfoldable pub find_sync : ℕ → ℕ → ℕ → State → Found
find_sync fuel pid id s =
    let p = s.shash (sync_fn pid id) in
    if ltb (sync_fn pid id) table_size
    then if p == 0
      then fault
      else if matches pid id (s.sync p)
      then found p
      else walk fuel pid id (s.sync p).next s
    else fault

pub data Removed : Type 0 where
  removed : State → Removed
  faulted : Removed
  out_of_fuel : Removed

-- The loop of `shash_remove`, which reads `link->next` before each round.
unfoldable pub unlink : ℕ → Ptr → Ptr → State → Removed
unlink zero target link s = out_of_fuel
unlink (suc n) target link s =
    let t = s.sync target in
    let after = (s.sync link).next in
    let s₁ =
      if matches t.owner t.sync_id (s.sync after)
      then update_sync link (λ x. record x { next = t.next }) s
      else s in
    let rest = unlink n target (s₁.sync link).next s₁ in
    if link == 0 then faulted else if after == 0 then removed s else rest

-- The branch for the first object of a bucket assigns only a local variable.
unfoldable pub shash_remove : ℕ → Ptr → State → Removed
shash_remove fuel target s =
    let t = s.sync target in
    let bucket = sync_fn t.owner t.sync_id in
    let p = s.shash bucket in
    if ltb bucket table_size
    then if p == 0
      then faulted
      else if matches t.owner t.sync_id (s.sync p)
      then removed s
      else unlink fuel target p s
    else faulted

-- How a call ends.
pub data SyncResult : Type 0 where
  returned : ℕ → State → SyncResult
  refused : Errno → State → SyncResult
  blocked : State → SyncResult
  undefined : SyncResult
  unfinished_call : SyncResult

abbrev pub current_pid : State → ℕ
current_pid s = s.proc s.kernel.current

-- `syscall_sync_create`, where `kmem_cache_alloc` gave `p`.
unfoldable pub sync_create : Ptr → ℕ → State → SyncResult
sync_create p type s =
    let pid = current_pid s in
    let id = s.ids pid in
    let new : Sync = record { sync_type = type; sync_id = id; wq = []; owner = pid; next = 0 } in
    let s₁ = record s { ids = λ q. if pid == q then id + 1 else s.ids q } in
    if p == 0 then refused enomem s else elim (shash_insert p (update_sync p (λ x. new) s₁)) [
      | none ↦ undefined
      | some s₂ ↦ returned id (update_syncs pid (p ∷ s₂.syncs pid) s₂)
    ]

-- A call on the object that `find_sync` finds.
unfoldable pub on_found : Found → (Ptr → SyncResult) → State → SyncResult
on_found (found p) call s = call p
on_found absent call s = refused einval s
on_found fault call s = undefined
on_found unfinished call s = unfinished_call

-- `syscall_sync_destroy`, after the object is found.
unfoldable pub destroy : ℕ → Ptr → State → SyncResult
destroy fuel p s =
    let pid = current_pid s in
    elim (shash_remove fuel p (update_syncs pid (erase p (s.syncs pid)) s)) [
      | removed s₁ ↦ returned 0 s₁
      | faulted ↦ undefined
      | out_of_fuel ↦ unfinished_call
    ]

unfoldable pub sync_destroy : ℕ → ℕ → State → SyncResult
sync_destroy fuel id s = on_found (find_sync fuel (current_pid s) id s) (λ p. destroy fuel p s) s

-- `syscall_sync_lock`, after the object is found: the caller joins its queue.
unfoldable pub lock : Ptr → State → SyncResult
lock p s =
    let thr = s.kernel.current in
    elim (remove_thread thr
      (update_thread thr (λ t. record t { states = sync_blocked }) s.kernel)) [
        | none ↦ undefined
        | some k ↦
            blocked
              (update_sync p (λ x. record x { wq = thr ∷ x.wq }) (record s { kernel = schedule k }))
      ]

unfoldable pub sync_lock : ℕ → ℕ → State → SyncResult
sync_lock fuel id s = on_found (find_sync fuel (current_pid s) id s) (λ p. lock p s) s

-- `syscall_sync_unlock`, after the object is found.
unfoldable pub unlock : Ptr → State → SyncResult
unlock p s = elim (last (s.sync p).wq) [
  | none ↦ undefined
  | some thr ↦
      let s₁ = update_sync p (λ x. record x { wq = but_last x.wq }) s in
      elim (enqueue_thread thr
        (update_thread thr (λ t. record t { states = thread_running }) s.kernel)) [
          | none ↦ undefined
          | some k ↦ returned 0 (record s₁ { kernel = k })
        ]
]

unfoldable pub sync_unlock : ℕ → ℕ → State → SyncResult
sync_unlock fuel id s = on_found (find_sync fuel (current_pid s) id s) (λ p. unlock p s) s

-- The loop of `delete_sync` takes the last object each time; `n` bounds its rounds, `fuel` each walk.
unfoldable pub delete_sync : ℕ → ℕ → ℕ → State → Removed
delete_sync zero fuel pid s = out_of_fuel
delete_sync (suc n) fuel pid s = elim (last (s.syncs pid)) [
  | none ↦ removed s
  | some p ↦ elim (shash_remove fuel p (update_syncs pid (but_last (s.syncs pid)) s)) [
    | faulted ↦ faulted
    | out_of_fuel ↦ out_of_fuel
    | removed s₁ ↦ delete_sync n fuel pid s₁
  ]
]
