-- ===== src/Process/Calls.antt =====
-- The calls of process.c that look at processes: spawn, wait, the children's times, the marks of an
-- exit, and the ids of a process and its parent.
use Prim.Native.Nat.{bit_or}
use manrix.Base.{
  ℕ, zero, suc, ◌+◌, ◌%◌, ◌^◌, Bool, not, Option, none, some, ◌∷◌, ◌==◌, if◌then◌else◌,
}
use manrix.Base.Int.{ℤ, pos, negsuc}
use manrix.Kernel.{Ptr, test_mask}
use manrix.Process.{
  process_active, process_zombie, wnohang, wifexit, Process, Addr, item, head, Processes,
  update_proc, phash_insert, found, unknown, fault, find_by_pid, init_children, add_child,
  del_child, have_children, Forked, forked, failed, enomem_code, copied,
}

-- `do_spawn`, with what was allocated and the map of `vm_map_fork`. Its thread and its descriptors are
-- left out.
unfoldable pub do_spawn : Ptr → ℕ → Ptr → Ptr → Processes → Forked
unfolding add_child phash_insert
do_spawn p pid map parent s =
    let s₁ = init_children p (
      update_proc p (λ x. record (copied parent pid (s.proc parent)) { status = process_active })
        s) in
    elim (add_child parent p s₁) [
      | none ↦ Forked.undefined
      | some s₂ ↦
          let s₃ =
            update_proc p (λ x. record x { map = map })
              (phash_insert p (record s₂ { proclist = p ∷ s₂.proclist })) in
          if map == 0 then failed enomem_code s₃ else forked p s₃
    ]

-- The children of `p` from an address on. NULL ends the walk of `get_zombie_child` only. `undefined`
-- reads the head of another process's list as a process; `unfinished` is a walk longer than its fuel.
pub data Zombie : Type 0 where
  zombie : Ptr → Zombie
  none_found : Zombie
  undefined : Zombie
  unfinished : Zombie

unfoldable pub zombie_from : ℕ → Ptr → Addr → Processes → Zombie
zombie_from zero p a s = unfinished
zombie_from (suc n) p (head q) s = if p == q then none_found else undefined
zombie_from (suc n) p (item q) s =
    let rest = zombie_from n p (s.child_next q) s in
    if q == 0
    then none_found
    else if test_mask (s.proc q).status process_zombie
    then zombie q
    else rest

unfoldable pub get_zombie_child : ℕ → Ptr → Processes → Zombie
unfolding zombie_from
get_zombie_child fuel p s = zombie_from fuel p (s.child_next p) s

-- The sum of a time over the children of `p`, from an address on, in a 32-bit `long`.
unfoldable pub times_from : ℕ → (Process → ℕ) → Ptr → Addr → ℕ → Processes → Option ℕ
times_from zero f p a total s = none
times_from (suc n) f p (head q) total s = if p == q then some total else none
times_from (suc n) f p (item q) total s =
    let rest = times_from n f p (s.child_next q) ((total + f (s.proc q)) % 2 ^ 32) s in
    if q == 0 then none else rest

unfoldable pub childs_time : ℕ → (Process → ℕ) → Ptr → Processes → Option ℕ
unfolding times_from have_children
childs_time fuel f p s =
    if not (have_children p s) then some 0 else times_from fuel f p (s.child_next p) 0 s

unfoldable pub get_childs_utime : ℕ → Ptr → Processes → Option ℕ
unfolding childs_time
get_childs_utime fuel p s = childs_time fuel (λ x. x.user_time) p s

unfoldable pub get_childs_stime : ℕ → Ptr → Processes → Option ℕ
unfolding childs_time
get_childs_stime fuel p s = childs_time fuel (λ x. x.system_time) p s

-- How `waitpid` ends: with a child's pid and exit status, with the error ECHILD, asleep, or with 0.
pub data Waited : Type 0 where
  reaped : ℕ → ℕ → Processes → Waited
  no_child : Waited
  asleep : Waited
  zero_result : Waited
  undefined : Waited

-- `waitpid` once it has looked for the child, up to its sleep.
unfoldable pub wait_for : Ptr → Option Ptr → ℕ → Bool → Processes → Waited
unfolding have_children del_child
wait_for proc chld flags sigpending s =
    let rest =
      if test_mask flags wnohang
      then no_child
      else if not (have_children proc s)
      then no_child
      else if sigpending
      then zero_result
      else asleep in
    elim chld [
      | none ↦ rest
      | some c ↦
          if (s.proc c).status == process_zombie
          then (elim (del_child proc c s) [
            | none ↦ undefined
            | some s₁ ↦
                reaped (s.proc c).pid (s.proc c).exit_status (record s₁ { freed = c ∷ s₁.freed })
          ])
          else rest
    ]

-- `waitpid` of the process `proc`. A sleeper that runs again gets 0.
unfoldable pub waitpid : ℕ → Ptr → ℤ → ℕ → Bool → Processes → Waited
unfolding wait_for have_children find_by_pid
waitpid fuel proc (negsuc n) flags sigpending s =
    if not (have_children proc s) then no_child else wait_for proc none flags sigpending s
waitpid fuel proc (pos zero) flags sigpending s =
    if not (have_children proc s) then no_child else wait_for proc none flags sigpending s
waitpid fuel proc (pos (suc n)) flags sigpending s =
    if not (have_children proc s) then no_child else (elim (find_by_pid fuel (suc n) s) [
      | fault ↦ undefined
      | unknown ↦ no_child
      | found c ↦
          if not ((s.proc c).parent == proc)
          then no_child
          else wait_for proc (some c) flags sigpending s
    ])

-- The marks that `syscall_exit` leaves for the parent, if SIGCHLD is not ignored.
unfoldable pub mark_exited : ℕ → Process → Process
mark_exited status x = record x {
  exit_status = bit_or (bit_or x.exit_status (status % 256)) wifexit;
  status = bit_or x.status process_zombie;
}

-- `change_pid`, without the id that is given back: the process stays where it was in the table, too.
unfoldable pub change_pid : Ptr → ℕ → Processes → Processes
unfolding phash_insert
change_pid p new s = phash_insert p (update_proc p (λ x. record x { pid = new }) s)

-- `syscall_getppid` of the process `p`.
unfoldable pub getppid : Ptr → Processes → ℕ
getppid p s = (s.proc (s.proc p).parent).pid
