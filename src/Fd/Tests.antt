-- ===== src/Fd/Tests.antt =====
-- Runs of the file table's theorems: a process with one file at 7, in descriptor 0.
use manrix.Base.{
  ◌≡◌, refl, ◌≢◌, true, none, some, List, [], ◌∷◌, arith, replicate, length, length-replicate,
}
use manrix.Base.Int.{pos}
use manrix.Bits.{check_set, max_int_val, ffc}
use manrix.Kernel.{Ptr}
use manrix.Fd.{Fd, ok, fault, free_fdesc, grow_fd, fd_free, live, entries, syscall_dup}
use manrix.Fd.Laws.{IsValid}

abbrev small : Fd
small = record {
  fd_max = 32;
  fd_hint = 0;
  bitmap = 1;
  low = 7 ∷ replicate 31 0;
  page = none;
  released = [];
}

small-IsValid : IsValid small
small-IsValid = record {
  entries_low = refl;
  word = omega arith;
  whole = λ table e. cc;
  top = omega arith;
}

small_room : small.bitmap ≢ max_int_val
small_room = ground arith

-- All of the first 32 descriptors are taken, and there is a page for up to 100.
abbrev large : Fd
large = record {
  fd_max = 100;
  fd_hint = 0;
  bitmap = max_int_val;
  low = replicate 32 7;
  page = some (replicate 1024 0);
  released = [];
}

large_whole : (table : List Ptr) → large.page ≡ some table → length table ≡ 1024
large_whole table e = ground (arith, length-replicate {A = Ptr} 1024 0)

large-IsValid : IsValid large
large-IsValid = record {
  entries_low = refl;
  word = omega arith;
  whole = large_whole;
  top = omega arith;
}

-- Closing descriptor 32 of a process without a page reads through NULL.
free_fdesc_test : free_fdesc (pos 32) small ≡ fault
unfolding free_fdesc
free_fdesc_test = refl

-- A second page forgets the first.
grow_fd_test : grow_fd true 200 large ≡ ok 0 (record large { fd_max = 200 })
unfolding grow_fd
grow_fd_test = refl

-- A table that is full below 32 can take no duplicate.
syscall_dup_test : syscall_dup 32 0 1 large ≡ fault
unfolding syscall_dup ffc
syscall_dup_test = refl

small_files : fd_free small ≡ some (7 ∷ [])
unfolding fd_free live entries
small_files = refl

-- The pointer in descriptor 0.
abbrev file : Ptr
file = 7

file_given : file ≢ 0
file_given = ground arith

zero_open : check_set small.bitmap 0 ≡ true
unfolding check_set
zero_open = refl
