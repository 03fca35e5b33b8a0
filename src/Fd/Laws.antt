-- ===== src/Fd/Laws.antt =====
-- What handing out and giving back a descriptor below 32 does to the table of open files.
use manrix.Base.{
  ℕ, ◌^◌, ◌≤◌, ◌<◌, ◌≡◌, refl, ◌≢◌, true, false, none, some, List, ◌∷◌, arith, ltb, ◌==◌,
  if◌then◌else◌, get_or, set, length, get_or-set_self,
}
use manrix.Base.Int.{pos}
use manrix.Bits.{first_clear, check_set, set_bit, ffc, max_int_val}
use manrix.Bits.Laws.{ffc-some, first_clear-below, check_set-set_bit, clear_bit-set_bit}
use manrix.Kernel.{Ptr}
use manrix.Sched.Queues.{get_or-set}
use manrix.Fd.{Fd, ok, max_def_fd, page_entries, ffc_or, alloc_fdesc, free_fdesc}

-- The first 32 entries are there and the bitmap is a word; a page, where there is one, is whole, and
-- there are no more descriptors than entries.
pub record IsValid (fd : Fd) : Type 0 where
  pub entries_low : length fd.low ≡ max_def_fd
  pub word : fd.bitmap < 2 ^ 32
  pub whole : (table : List Ptr) → fd.page ≡ some table → length table ≡ page_entries
  pub top : fd.fd_max ≤ page_entries

lowest : (x i j : ℕ) → ffc x ≡ some i → j < i → check_set x j ≡ true
unfolding ffc
lowest x i j e lt = first_clear-below 32 x i j e lt

ffc-max : ffc max_int_val ≡ none
unfolding ffc first_clear
ffc-max = refl

pub ffc_or-max : (undef : ℕ) → ffc_or undef max_int_val ≡ undef
unfolding ffc_or
ffc_or-max undef = rw (ffc-max, ffc_or)

-- The table after a descriptor below 32 was handed out.
abbrev pub given : ℕ → Ptr → Fd → Fd
given desc newfd fd = record fd { bitmap = set_bit fd.bitmap desc; low = set fd.low desc newfd }

pub ffc_or-some : (undef x i : ℕ) → ffc x ≡ some i → ffc_or undef x ≡ i
unfolding ffc_or
ffc_or-some undef x i e = rw (e, ffc_or)

alloc_fdesc-low :
    (undef : ℕ) (newfd : Ptr) (fd : Fd) (i : ℕ)
    → ffc_or undef fd.bitmap ≡ i
    → i < max_def_fd
    → alloc_fdesc undef newfd fd ≡ ok i (given i newfd fd)
unfolding alloc_fdesc
alloc_fdesc-low undef newfd fd i e lt =
    let test : ltb i max_def_fd ≡ true = ground arith in rw (e, test)

module _ (undef : ℕ) (newfd : Ptr) (fd : Fd) (v : IsValid fd) (room : fd.bitmap ≢ max_int_val) where
  -- While one of the first 32 descriptors is free, `alloc_fdesc` hands out the lowest of them, marks
  -- it and no other, and stores the new file there and nowhere else.
  pub alloc_fdesc-lowest :
      (desc : ℕ) × (alloc_fdesc undef newfd fd ≡ ok desc (given desc newfd fd))
      × (desc < max_def_fd)
      × (check_set fd.bitmap desc ≡ false)
      × ((j : ℕ) → j < desc → check_set fd.bitmap j ≡ true)
      × ((j : ℕ)
          → check_set (given desc newfd fd).bitmap j
            ≡ (if desc == j then true else check_set fd.bitmap j))
      × ((j : ℕ)
          → get_or (given desc newfd fd).low j 0 ≡ (if desc == j then newfd else get_or fd.low j 0))
  alloc_fdesc-lowest =
      let (i, e, small, clear) = ffc-some fd.bitmap v.word room in
      (
        i,
        alloc_fdesc-low undef newfd fd i (ffc_or-some undef fd.bitmap i e) small,
        small,
        clear,
        λ j lt. lowest fd.bitmap i j e lt,
        λ j. check_set-set_bit fd.bitmap i j,
        λ j. get_or-set fd.low i j newfd 0 (omega (arith, v.entries_low)),
      )

  -- Freeing the descriptor that `alloc_fdesc` has just handed out restores the bitmap and releases the
  -- file, but the pointer to it stays in the table.
  pub free_fdesc-alloc_fdesc :
      max_def_fd ≤ fd.fd_max
      → (desc : ℕ) × (fd' : Fd) × (alloc_fdesc undef newfd fd ≡ ok desc fd')
        × (free_fdesc (pos desc) fd'
            ≡ ok 0 (record fd {
              fd_hint = desc;
              low = set fd.low desc newfd;
              released = newfd ∷ fd.released;
            }))
  unfolding free_fdesc
  free_fdesc-alloc_fdesc top =
      let (i, e, small, clear, below, bits, files) = alloc_fdesc-lowest in
      let inside : ltb fd.fd_max i ≡ false = ground arith in
      let test : ltb i max_def_fd ≡ true = ground arith in
      (
        i,
        given i newfd fd,
        e,
        rw (
          inside,
          test,
          clear_bit-set_bit fd.bitmap i clear,
          get_or-set_self fd.low i newfd 0 (omega (arith, v.entries_low)),
        ),
      )
