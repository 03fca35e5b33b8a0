-- ===== src/Pmap/Tests.antt =====
-- The kernel's map 1 has the directory 0x10000 and the table 0x11000 for its first 4 MB; the map 2 has the
-- directory 0x12000 and the table 0x13000 for the addresses from 0x400000 on.

use manrix.Base.{
  ℕ, ◌+◌, ◌/◌, ◌%◌, ◌^◌, ◌≡◌, refl, ◌≢◌, [], ◌∷◌, ◌==◌, ◌&&◌, if◌then◌else◌, arith, some, ◌∈◌,
}
use manrix.Kernel.{Ptr}
use manrix.Pmap.{
  Pmaps, set_word, zero_page, own_page, entered, tabled, page_table_allocate, entry_of, directory,
  pmap_enter,
}
use manrix.Pmap.Copy.{
  copy_words, pmap_share_kernel, enter_pages, pmap_enter_range, change_pages, pmap_cow,
  protect_entry,
}
use manrix.Pmap.Walk.{walk, IsApart, pmap_enter-walk, pmap_enter-kernel}
use manrix.Pmap.Sharing.{copy_words-maps, pmap_share_kernel-walk}

abbrev memory : Pmaps
memory = record {
  kernel_map = 1;
  word = λ t i.
      if (t == 0x1_0000) && (i == 896)
      then 0x1_1003
      else if (t == 0x1_2000) && (i == 1)
      then 0x1_3007
      else 0;
  pdbr = λ m. if m == 1 then 0x1_0000 else if m == 2 then 0x1_2000 else 0;
  plist = λ m. [];
  procs = 2 ∷ [];
  pages = 0x2_0000 ∷ 0x2_1000 ∷ [];
}

pmap_enter-walk_example :
    (t : Pmaps) × (pmap_enter 1 2 0x5000 0x40_1000 7 memory ≡ entered t)
    × (walk 2 0x40_1000 t ≡ entry_of 0x5000 7)
    × ((map' vaddr' : ℕ)
        → IsApart 2 0x40_1000 map' vaddr' memory
        → walk map' vaddr' t ≡ walk map' vaddr' memory)
pmap_enter-walk_example =
    pmap_enter-walk 0 2 0x5000 0x40_1000 7 memory (ground arith) (ground arith) (ground arith)

-- The next page of the same table is apart.
next-IsApart : IsApart 2 0x40_1000 2 0x40_2000 memory
next-IsApart = record { directories = ground arith; places = refl }

abbrev bare : Pmaps
bare = record memory { word = λ t i. 0 }

bare_uncovered :
    (base : Ptr)
    → base ∈ bare.pages
    → bare.word (bare.pdbr bare.kernel_map) ((base + 0xe000_0000) % 2 ^ 32 / 2 ^ 22 % 1024) ≡ 0
bare_uncovered base i = refl

pmap_enter-kernel_example : pmap_enter 9 1 0x5000 0xe040_0000 3 bare ≢ entered bare
pmap_enter-kernel_example =
    pmap_enter-kernel 9 0x5000 0xe040_0000 3 bare bare (ground arith) refl bare_uncovered

-- The kernel's entry of the page 0x20000, in its table 0x11000, and the page cleared.
abbrev after_page : Pmaps
after_page =
    zero_page 0x2_0000
      (set_word 0x1_1000 0x20 0x2_0003 (own_page 3 0x2_0000 (0x2_1000 ∷ []) memory))

a_page : page_table_allocate (pmap_enter 1) 3 memory ≡ tabled 0x2_0000 after_page
unfolding page_table_allocate pmap_enter directory
a_page = refl

abbrev with_directory : Pmaps
with_directory = record after_page { pdbr = λ m. if 3 == m then 0x2_0000 else memory.pdbr m }

abbrev shared : Pmaps
shared = copy_words 128 896 0x1_0000 0x2_0000 with_directory

shares : pmap_share_kernel (pmap_enter 1) 3 memory ≡ entered shared
unfolding pmap_share_kernel
shares = rw (a_page, pmap_share_kernel) refl

own_directory : shared.pdbr 3 ≢ shared.pdbr shared.kernel_map
own_directory =
    let (dirs, same_kernel) = copy_words-maps 128 896 0x1_0000 0x2_0000 with_directory in
    rw (same_kernel, dirs) (ground arith)

pmap_share_kernel-walk_example :
    walk 3 0xe002_0010 shared ≡ walk shared.kernel_map 0xe002_0010 shared
pmap_share_kernel-walk_example =
    pmap_share_kernel-walk 1 3 memory shared shares own_directory 0xe002_0010 (omega arith)

-- A page that was entered for reading and writing, read-only after a copy on write.
cow_test :
    pmap_cow 2 2 0x40_1000 0x40_2000 (set_word 0x1_3000 1 0x5007 memory)
    ≡ some (set_word 0x1_3000 1 0x5005 (set_word 0x1_3000 1 0x5007 memory))
unfolding pmap_cow change_pages
cow_test = refl

protect_test : protect_entry 3 0x5005 ≡ 0x5007
unfolding protect_entry
protect_test = refl

-- A range of one page is entered with the page behind it.
two_pages :
    pmap_enter_range 3 (pmap_enter 1) 2 0x5000 0x40_1000 4096 7 memory
    ≡ entered (set_word 0x1_3000 2 0x6007 (set_word 0x1_3000 1 0x5007 memory))
unfolding pmap_enter_range enter_pages pmap_enter directory
two_pages = refl
