-- ===== src/Pmap.antt =====
-- Page tables (microkernel/arch/i386/pmap.c, and the macros of include/i386/asm/vm_param.h). A page is
-- named by its base address, and `word` gives the words of the page there. The locks, which only keep
-- preemption off, the translation buffer, and a table's place in `pmap_object` are left out.
pub mod Copy
pub mod Sharing
pub mod Walk
mod Tests
use Prim.Native.Nat.{bit_and, bit_or}
use manrix.Base.{
  ℕ, zero, suc, ◌+◌, ◌*◌, ◌/◌, ◌%◌, ◌^◌, Bool, true, false, ◌&&◌, Option, none, some, List, [], ◌∷◌,
  ltb, ◌==◌, if◌then◌else◌,
}
use manrix.Kernel.{Ptr}
use manrix.VmMap.{kernel_base}

abbrev pub page_present : ℕ
page_present = 1

abbrev pub page_rw : ℕ
page_rw = 2

abbrev pub addr_to_pdenum : ℕ → ℕ
addr_to_pdenum addr = addr / 2 ^ 22 % 1024

abbrev pub addr_to_ptenum : ℕ → ℕ
addr_to_ptenum addr = addr / 2 ^ 12 % 1024

abbrev pub addr_to_pte : ℕ → ℕ
addr_to_pte addr = bit_and addr 0xffff_f000

-- The maps: their directories (0 is NULL) and the pages they own; the maps of all processes, in the order
-- of `proclist`; and the pages that `get_page` gives, the next one first.
pub record Pmaps : Type 0 where
  pub kernel_map : Ptr
  pub word : Ptr → ℕ → ℕ
  pub pdbr : Ptr → Ptr
  pub plist : Ptr → List Ptr
  pub procs : List Ptr
  pub pages : List Ptr

abbrev pub set_word : Ptr → ℕ → ℕ → Pmaps → Pmaps
set_word t i x s = record s { word = λ u j. if (t == u) && (i == j) then x else s.word u j }

-- How a call ends: `undefined` is a use of the NULL that `get_page` returned, and `endless` a recursion
-- that goes deeper than its fuel.
pub data Entered : Type 0 where
  entered : Pmaps → Entered
  undefined : Entered
  endless : Entered

pub data Tabled : Type 0 where
  tabled : Ptr → Pmaps → Tabled
  undefined : Tabled
  endless : Tabled

-- `memset` of a page.
abbrev pub zero_page : Ptr → Pmaps → Pmaps
zero_page t s = record s { word = λ u j. if t == u then 0 else s.word u j }

-- `get_page`, and the page in the map's list.
abbrev pub own_page : Ptr → Ptr → List Ptr → Pmaps → Pmaps
own_page map base rest s = record s {
  pages = rest;
  plist = λ m. if map == m then base ∷ s.plist m else s.plist m;
}

-- `page_table_allocate`, given the `pmap_enter` that it calls.
unfoldable pub page_table_allocate : (Ptr → ℕ → ℕ → ℕ → Pmaps → Entered) → Ptr → Pmaps → Tabled
page_table_allocate enter map s = elim s.pages [
  | [] ↦ Tabled.undefined
  | base ∷ rest ↦
      elim (enter s.kernel_map base ((base + kernel_base) % 2 ^ 32) page_rw
        (own_page map base rest s)) [
          | entered s₁ ↦ tabled base (zero_page base s₁)
          | undefined ↦ Tabled.undefined
          | endless ↦ Tabled.endless
        ]
]

-- `kernel_map_update`
unfoldable pub update_maps : ℕ → ℕ → List Ptr → Pmaps → Pmaps
update_maps pte idx [] s = s
update_maps pte idx (p ∷ ps) s = update_maps pte idx ps (set_word (s.pdbr p) idx pte s)

abbrev pub kernel_map_update : ℕ → ℕ → Pmaps → Pmaps
kernel_map_update pte idx s = update_maps pte idx s.procs s

-- The directory of a map, which is allocated if it has none.
unfoldable pub directory : (Ptr → ℕ → ℕ → ℕ → Pmaps → Entered) → Ptr → Pmaps → Tabled
unfolding page_table_allocate
directory enter map s = elim (s.pdbr map == 0) [
  | false ↦ tabled (s.pdbr map) s
  | true ↦ elim (page_table_allocate enter map s) [
    | tabled pde s₁ ↦ tabled pde (record s₁ { pdbr = λ m. if map == m then pde else s₁.pdbr m })
    | undefined ↦ Tabled.undefined
    | endless ↦ Tabled.endless
  ]
]

abbrev pub entry_of : ℕ → ℕ → ℕ
entry_of addr protection = bit_or (bit_or (addr_to_pte addr) page_present) protection

-- A new table `pte` in the directory `pde`, and in those of all processes if the map is the kernel's.
unfoldable pub link_table : Ptr → Ptr → Ptr → ℕ → ℕ → Pmaps → Pmaps
unfolding update_maps
link_table map pde pte vaddr protection s =
    let newpte = entry_of pte protection in
    let idx = addr_to_pdenum vaddr in
    let s₁ = if map == s.kernel_map then kernel_map_update newpte idx s else s in
    set_word pde idx newpte s₁

-- `pmap_enter`
unfoldable pub pmap_enter : ℕ → Ptr → ℕ → ℕ → ℕ → Pmaps → Entered
unfolding directory page_table_allocate link_table
pmap_enter zero map paddr vaddr protection s = endless
pmap_enter (suc n) map paddr vaddr protection s =
    let page : ℕ → Pmaps → Entered =
      λ pte t. entered (set_word pte (addr_to_ptenum vaddr) (entry_of paddr protection) t) in
    elim (directory (pmap_enter n) map s) [
      | undefined ↦ Entered.undefined
      | endless ↦ Entered.endless
      | tabled pde s₁ ↦ elim (s₁.word pde (addr_to_pdenum vaddr) == 0) [
        | false ↦ page (addr_to_pte (s₁.word pde (addr_to_pdenum vaddr))) s₁
        | true ↦ elim (page_table_allocate (pmap_enter n) map s₁) [
          | undefined ↦ Entered.undefined
          | endless ↦ Entered.endless
          | tabled pte s₂ ↦ page pte (link_table map pde pte vaddr protection s₂)
        ]
      ]
    ]
