-- ===== src/Fd.antt =====
-- The table of open files of a process (microkernel/kernel/fd.c). A file is named by its pointer, 0
-- is NULL. What `kmem_cache_alloc` returned for a call is an argument of it; `released` lists what
-- was given to `kmem_cache_free`, the newest first.
pub mod Laws
pub mod Page
pub mod Release
mod Tests
use manrix.Base.{
  ℕ, zero, suc, ◌+◌, ◌-◌, Bool, true, false, Option, none, some, List, [], ◌∷◌, ◌++◌, ltb, leb,
  ◌==◌, if◌then◌else◌, get_elem?, get_or, set, replicate, length,
}
use manrix.Base.Int.{ℤ, pos, negsuc}
use manrix.Bits.{set_bit, clear_bit, ffc}
use manrix.Kernel.{Ptr}

abbrev pub max_def_fd : ℕ
max_def_fd = 32

-- PAGE_SIZE / sizeof(vm_offset_t)
abbrev pub page_entries : ℕ
page_entries = 1024

-- `struct fd`: `low` is `fileptr[0]` to `fileptr[31]`, and `page` the table that `fileptr[32]`
-- points to, if it is not NULL.
pub record Fd : Type 0 where
  pub fd_max : ℕ
  pub fd_hint : ℕ
  pub bitmap : ℕ
  pub low : List Ptr
  pub page : Option (List Ptr)
  pub released : List Ptr

-- How a call ends: with a descriptor or 0, with an error, or in undefined behaviour.
pub data FdResult : Type 0 where
  ok : ℕ → Fd → FdResult
  minus_one : FdResult
  enomem : FdResult
  ebadf : FdResult
  fault : FdResult

-- The search of a table for an entry of 0 among the first `n`, from index `i`.
pub data Slot : Type 0 where
  at : ℕ → Slot
  no_slot : Slot
  outside : Slot

pub find_slot : ℕ → List Ptr → ℕ → Slot
find_slot zero table i = no_slot
find_slot (suc n) [] i = outside
find_slot (suc n) (t ∷ ts) i = elim (t == 0) [ true ↦ at i | false ↦ find_slot n ts (i + 1) ]

-- The end of `alloc_fdesc`: the whole table is searched.
pub search_page : Ptr → List Ptr → Fd → FdResult
unfolding find_slot
search_page newfd table fd = elim (find_slot fd.fd_max table 0) [
  | outside ↦ fault
  | no_slot ↦ minus_one
  | at i ↦ ok (i + max_def_fd) (record fd { fd_hint = i + 1; page = some (set table i newfd) })
]

-- `alloc_fdesc` once no descriptor below 32 is free.
pub alloc_in_page : Ptr → Fd → FdResult
unfolding search_page
alloc_in_page newfd fd = if leb fd.fd_max max_def_fd then minus_one else elim fd.page [
  | none ↦ minus_one
  | some table ↦ elim (get_elem? table fd.fd_hint) [
    | none ↦ fault
    | some t ↦
        if t == 0
        then ok (fd.fd_hint + max_def_fd)
            (record fd { fd_hint = fd.fd_hint + 1; page = some (set table fd.fd_hint newfd) })
        else search_page newfd table fd
  ]
]

-- What `ffc` returns: `undef` for a word without a clear bit, where it is undefined.
unfoldable pub ffc_or : ℕ → ℕ → ℕ
ffc_or undef x = elim (ffc x) [ none ↦ undef | some i ↦ i ]

-- `alloc_fdesc`, with `newfd` from `kmem_cache_alloc`.
unfoldable pub alloc_fdesc : ℕ → Ptr → Fd → FdResult
unfolding alloc_in_page ffc_or
alloc_fdesc undef newfd fd =
    let desc = ffc_or undef fd.bitmap in
    if ltb desc max_def_fd
    then ok desc (record fd { bitmap = set_bit fd.bitmap desc; low = set fd.low desc newfd })
    else alloc_in_page newfd fd

-- `free_fdesc`
pub free_fdesc : ℤ → Fd → FdResult
free_fdesc (negsuc n) fd = minus_one
free_fdesc (pos desc) fd =
    if ltb fd.fd_max desc
    then minus_one
    else if ltb desc max_def_fd
    then ok 0 (record fd {
      fd_hint = desc;
      bitmap = clear_bit fd.bitmap desc;
      released = get_or fd.low desc 0 ∷ fd.released;
    })
    else elim fd.page [
      | none ↦ fault
      | some table ↦ elim (get_elem? table (desc - max_def_fd)) [
        | none ↦ fault
        | some ptr ↦ ok 0 (record fd { fd_hint = desc; released = ptr ∷ fd.released })
      ]
    ]

-- `grow_fd`; `page_given` says whether `kmem_alloc` gave a page. A negative `fdmax` counts as 0.
pub grow_fd : Bool → ℕ → Fd → FdResult
grow_fd page_given fdmax fd =
    if leb fdmax max_def_fd
    then ok 0 fd
    else if page_given
    then ok 0 (record fd { page = some (replicate page_entries 0); fd_max = fdmax })
    else enomem

-- The pointers of a table that are not NULL, in the order in which the loops of `fd_free` meet them.
pub live : List Ptr → List Ptr
live [] = []
live (p ∷ ps) = elim (p == 0) [ true ↦ live ps | false ↦ p ∷ live ps ]

-- The first `n` entries of a table; `none` where that reads past its end.
pub entries : ℕ → List Ptr → Option (List Ptr)
entries zero table = some []
entries (suc n) [] = none
entries (suc n) (t ∷ ts) = elim (entries n ts) [ none ↦ none | some us ↦ some (t ∷ us) ]

-- `fd_free`: the pointers that it gives to `kmem_cache_free`, in that order.
pub fd_free : Fd → Option (List Ptr)
unfolding live entries
fd_free fd =
    let table : List Ptr = elim fd.page [ none ↦ [] | some t ↦ t ] in
    elim (entries (fd.fd_max - max_def_fd) table) [
      | none ↦ none
      | some upper ↦ some (live fd.low ++ live upper)
    ]

-- The file that `syscall_dup` finds for `fd1`. From 32 on it indexes `fileptr` itself with `fd1`,
-- which is in bounds for 32 alone.
pub dup_source : ℕ → Fd → Option Ptr
dup_source fd1 fd =
    if ltb fd1 max_def_fd
    then some (get_or fd.low fd1 0)
    else if fd1 == max_def_fd
    then elim fd.page [ none ↦ none | some table ↦ get_elem? table 0 ]
    else none

-- `syscall_dup`, once its two arguments are known not to be negative. Past the first 32 descriptors
-- it reads through the NULL in `table`.
pub syscall_dup : ℕ → ℕ → ℕ → Fd → FdResult
unfolding dup_source ffc_or
syscall_dup undef fd1 fd2 fd =
    if ltb fd.fd_max fd1
    then ebadf
    else if ltb fd.fd_max fd2
    then ebadf
    else elim (dup_source fd1 fd) [
      | none ↦ fault
      | some ptr ↦
          let desc = ffc_or undef fd.bitmap in
          if ptr == 0
          then ebadf
          else if ltb desc max_def_fd
          then ok desc (record fd { bitmap = set_bit fd.bitmap desc; low = set fd.low desc ptr })
          else if leb fd.fd_max max_def_fd
          then minus_one
          else fault
    ]
