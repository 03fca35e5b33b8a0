-- ===== src/Process/Tests.antt =====
-- The process 10 has the children 30 and 20, with the pids 501 and 500. The process 40 is new.
use manrix.Base.{ℕ, ◌≡◌, refl, true, some, [], ◌∷◌, ◌==◌, if◌then◌else◌, arith}
use manrix.Base.Int.{pos}
use manrix.Threads.{hash_fn}
use manrix.Process.{Process, item, head, Processes, have_children, fault, find_by_pid, phash_remove}
use manrix.Process.Calls.{undefined, get_zombie_child, mark_exited, get_childs_utime}
use manrix.Process.Family.{IsFamily}
use manrix.Process.Waiting.{get_zombie_child-stranger}

abbrev process : ℕ → ℕ → ℕ → Process
process pid parent status = record {
  pid = pid;
  parent = parent;
  next = 0;
  map = 7;
  start_time = 0;
  user_time = 100;
  system_time = 1;
  alarm = 0;
  flag = 0;
  status = status;
  exit_status = 0x01_0005;
}

-- The status of the two children is an argument.
abbrev family : ℕ → Processes
family status = record {
  proc = λ p.
      if p == 10
      then process 499 1 0
      else if p == 20
      then process 500 10 status
      else process 501 10 status;
  child_next = λ p. if p == 10 then item 30 else if p == 30 then item 20 else head 10;
  child_prev = λ p. if p == 10 then item 20 else if p == 30 then head 10 else item 30;
  phash = λ b. if b == 501 then 20 else if b == 500 then 30 else 0;
  proclist = [];
  shares = λ m. pos 1;
  freed = [];
}

family-IsFamily : (status : ℕ) → IsFamily (family status) 10 (30 ∷ 20 ∷ [])
family-IsFamily status = record {
  children = (refl, refl, (refl, refl, (refl, refl)));
  distinct = (refl, (refl, (refl, tt)));
  nonnull = refl;
}

-- A pid whose bucket is empty.
find_empty : find_by_pid 1 777 (family 0) ≡ fault
unfolding find_by_pid hash_fn
find_empty = refl

-- The first process of a bucket stays in the table.
remove_first : phash_remove 3 20 (family 0) ≡ some (family 0)
unfolding phash_remove hash_fn
remove_first = refl

times : get_childs_utime 3 10 (family 0) ≡ some 200
unfolding get_childs_utime
times = refl

get_zombie_child-stranger_example :
    (have_children 30 (family 0) ≡ true) × (get_zombie_child 4 30 (family 0) ≡ undefined)
get_zombie_child-stranger_example =
    get_zombie_child-stranger 4 10 30 [] (20 ∷ []) (family 0) (family-IsFamily 0) (omega arith)
      (ground arith) (refl, tt)

-- The children as they are once they were active and exited with the code 5.
abbrev exited : Processes
exited = record (family 1) {
  proc = λ p.
      if p == 10
      then process 499 1 0
      else mark_exited 5 (process (if p == 20 then 500 else 501) 10 1);
}
