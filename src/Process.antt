-- ===== src/Process.antt =====
-- Processes (microkernel/kernel/process.c): the hash table, the children of a process, fork, spawn,
-- wait and the marks of an exit. A process's field `child` is the head of the list of its children and
-- its own links in its parent's list at once. Its links hold either the address of a process or that of
-- a `child` field; the latter, read as a process, is undefined behaviour, and so is NULL.
pub mod Calls
pub mod Family
pub mod Waiting
mod Tests
use Prim.Native.Nat.{bit_and, bit_or}
use manrix.Base.{
  ℕ, zero, suc, ◌+◌, ◌%◌, ◌^◌, Bool, true, false, not, ◌||◌, ◌&&◌, Option, none, some, List, [],
  ◌∷◌, ltb, leb, ◌==◌, if◌then◌else◌, has,
}
use manrix.Base.Int.{ℤ, pos, negsuc, ◌+ℤ◌, ltb_ℤ}
use manrix.Kernel.{Ptr, test_mask, ◌>>=◌}
use manrix.Threads.{hash_fn}
use manrix.VmMap.Fork.{dup_none}

abbrev pub process_active : ℕ
process_active = 1

abbrev pub process_zombie : ℕ
process_zombie = 2

abbrev pub stat_vforked : ℕ
stat_vforked = 8

abbrev pub dup_share : ℕ
dup_share = 2

abbrev pub wnohang : ℕ
wnohang = 1

abbrev pub wifexit : ℕ
wifexit = 0x01_0000

-- `struct process`, the fields that these operations use.
pub record Process : Type 0 where
  pub pid : ℕ
  pub parent : Ptr
  pub next : Ptr
  pub map : Ptr
  pub start_time : ℕ
  pub user_time : ℕ
  pub system_time : ℕ
  pub alarm : Ptr
  pub flag : ℕ
  pub status : ℕ
  pub exit_status : ℕ

-- What a link of the children's lists holds: a process, or the field `child` of one.
pub data Addr : Type 0 where
  item : Ptr → Addr
  head : Ptr → Addr

-- The processes, their `child` links, the hash table, the list of all processes, and the processes that
-- were freed.
pub record Processes : Type 0 where
  pub proc : Ptr → Process
  pub child_next : Ptr → Addr
  pub child_prev : Ptr → Addr
  pub phash : ℕ → Ptr
  pub proclist : List Ptr
  pub shares : Ptr → ℤ
  pub freed : List Ptr

abbrev pub update_proc : Ptr → (Process → Process) → Processes → Processes
update_proc p f s = record s { proc = λ q. if p == q then f (s.proc p) else s.proc q }

abbrev pub set_child_next : Ptr → Addr → Processes → Processes
set_child_next p a s = record s { child_next = λ q. if p == q then a else s.child_next q }

abbrev pub set_child_prev : Ptr → Addr → Processes → Processes
set_child_prev p a s = record s { child_prev = λ q. if p == q then a else s.child_prev q }

abbrev pub is_head : Ptr → Addr → Bool
is_head p (item q) = false
is_head p (head q) = p == q

unfoldable pub phash_insert : Ptr → Processes → Processes
phash_insert p s =
    let b = hash_fn (s.proc p).pid in
    let s₁ = update_proc p (λ x. record x { next = s.phash b }) s in
    record s₁ { phash = λ i. if b == i then p else s.phash i }

-- The loop of `phash_remove`, whose tests are joined by `||`.
unfoldable pub phash_walk : ℕ → Ptr → Ptr → Processes → Option Ptr
phash_walk zero p link s = none
phash_walk (suc n) p link s =
    let next = (s.proc link).next in
    let rest = phash_walk n p next s in
    if link == 0 then none else if not (next == p) || not (next == 0) then rest else some link

-- `phash_remove`: for the first process of a bucket only a local variable changes.
unfoldable pub phash_remove : ℕ → Ptr → Processes → Option Processes
unfolding phash_walk
phash_remove fuel p s =
    let first = s.phash (hash_fn (s.proc p).pid) in
    if first == p then some s else (elim (phash_walk fuel p first s) [
      | none ↦ none
      | some link ↦ some (update_proc link (λ x. record x { next = (s.proc p).next }) s)
    ])

pub data FoundProcess : Type 0 where
  found : Ptr → FoundProcess
  unknown : FoundProcess
  fault : FoundProcess

unfoldable pub find_pid_from : ℕ → ℕ → Ptr → Processes → FoundProcess
find_pid_from zero pid link s = fault
find_pid_from (suc n) pid link s =
    let next = (s.proc link).next in
    let rest = find_pid_from n pid next s in
    if link == 0
    then fault
    else if (s.proc link).pid == pid
    then found link
    else if next == 0
    then unknown
    else rest

-- `find_by_pid`; an empty bucket, and a bucket with one other process, are reads through NULL.
unfoldable pub find_by_pid : ℕ → ℕ → Processes → FoundProcess
unfolding find_pid_from
find_by_pid fuel pid s =
    let p = s.phash (hash_fn pid) in
    if p == 0
    then fault
    else if (s.proc p).pid == pid
    then found p
    else find_pid_from fuel pid (s.proc p).next s

-- `list_init(&p->child)`
abbrev pub init_children : Ptr → Processes → Processes
init_children p s = set_child_prev p (head p) (set_child_next p (head p) s)

-- `p->child.prev = a` through the address `x` of a process.
abbrev pub write_prev : Addr → Addr → Processes → Option Processes
write_prev (item q) a s = if q == 0 then none else some (set_child_prev q a s)
write_prev (head q) a s = none

abbrev pub write_next : Addr → Addr → Processes → Option Processes
write_next (item q) a s = if q == 0 then none else some (set_child_next q a s)
write_next (head q) a s = none

-- `list_add(&parent->child, p, child, process_t)`
unfoldable pub add_child : Ptr → Ptr → Processes → Option Processes
add_child parent p s =
    let nxt = s.child_next parent in
    let s₁ =
      set_child_next p nxt (set_child_prev p (head parent) (set_child_next parent (item p) s)) in
    if is_head parent nxt
    then some (set_child_prev parent (item p) s₁)
    else write_prev nxt (item p) s₁

-- `list_del(&parent->child, p, child, process_t)`
unfoldable pub del_child : Ptr → Ptr → Processes → Option Processes
del_child parent p s =
    let prev = s.child_prev p in
    let next = s.child_next p in
    let s₁ : Option Processes =
      if is_head parent prev then some (set_child_next parent next s) else write_next prev next s in
    s₁ >>= λ s₂.
    if is_head parent next then some (set_child_prev parent prev s₂) else write_prev next prev s₂

unfoldable pub have_children : Ptr → Processes → Bool
have_children p s = not (is_head p (s.child_next p))

-- How `do_fork` and `do_spawn` end: with the process, or with the error's number.
pub data Forked : Type 0 where
  forked : Ptr → Processes → Forked
  failed : ℕ → Processes → Forked
  undefined : Forked

abbrev pub enomem_code : ℕ
enomem_code = 0x31

-- The new process before it is put into the lists: a copy of its parent's structure.
abbrev pub copied : Ptr → ℕ → Process → Process
copied parent pid x = record x {
  parent = parent;
  pid = pid;
  start_time = 0;
  user_time = 0;
  system_time = 0;
}

-- `errout`: the process is freed and stays in the lists.
abbrev pub errout : Ptr → ℕ → Processes → Forked
errout p code s = failed code (record s { freed = p ∷ s.freed })

-- `do_fork`, with the structure `p` that was allocated, the pid of `alloc_pid`, the result of
-- `fd_fork` and the map of `vm_map_fork`, NULL if it failed. The thread of the new process is left out.
unfoldable pub do_fork : Ptr → ℕ → ℤ → Ptr → Ptr → ℕ → Processes → Forked
do_fork p pid fd_result map parent flag s =
    let s₁ =
      init_children p
        (update_proc p (λ x. record (copied parent pid (s.proc parent)) { alarm = 0 }) s) in
    elim (add_child parent p s₁) [
      | none ↦ undefined
      | some s₂ ↦
          let s₃ = record s₂ { proclist = p ∷ s₂.proclist } in
          let s₄ = phash_insert p s₃ in
          let m = (s.proc parent).map in
          elim fd_result [
            | negsuc n ↦ errout p (n + 1) s₃
            | pos n ↦
                if test_mask flag dup_share
                then forked p (
                    update_proc p (λ x. record x { status = stat_vforked; flag = flag })
                      (record s₄ {
                        shares = λ q. if m == q then s₄.shares m +ℤ pos 1 else s₄.shares q;
                      }))
                else if map == 0
                then errout p enomem_code (update_proc p (λ x. record x { map = 0 }) s₄)
                else forked p (update_proc p (λ x. record x { map = map; flag = flag }) s₄)
          ]
    ]
