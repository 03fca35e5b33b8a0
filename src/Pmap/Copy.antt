-- ===== src/Pmap/Copy.antt =====
-- The rest of pmap.c's operations on maps: sharing the kernel's tables, the copy for a fork, and the
-- changes of a range. Removing a range is left out: it writes through entries with their flags.
use Prim.Native.Nat.{bit_and, bit_or}
use manrix.Base.{
  ℕ, zero, suc, ◌+◌, ◌-◌, ◌%◌, ◌^◌, true, false, ◌||◌, Option, none, some, [], ltb, ◌==◌,
  if◌then◌else◌,
}
use manrix.Kernel.{Ptr, test_mask}
use manrix.VmMap.{clear_mask}
use manrix.Pmap.{
  page_rw, addr_to_pdenum, addr_to_ptenum, addr_to_pte, Pmaps, set_word, Entered, entered,
  undefined, endless, tabled, page_table_allocate,
}

abbrev pub ntables : ℕ
ntables = 1024

abbrev pub ktable_start : ℕ
ktable_start = 896

-- The loop of `pmap_enter_range`, up to the physical address `last`, which is included.
unfoldable pub enter_pages :
    ℕ → (Ptr → ℕ → ℕ → ℕ → Pmaps → Entered) → Ptr → ℕ → ℕ → ℕ → ℕ → Pmaps → Entered
enter_pages zero enter map pa last vaddr protection s = Entered.endless
enter_pages (suc n) enter map pa last vaddr protection s =
    let next = (pa + 4096) % 2 ^ 32 in
    elim (ltb last pa) [
      | true ↦ entered s
      | false ↦ elim (enter map pa vaddr protection s) [
        | undefined ↦ Entered.undefined
        | endless ↦ Entered.endless
        | entered s₁ ↦ enter_pages n enter map next last ((vaddr + 4096) % 2 ^ 32) protection s₁
      ]
    ]

-- `pmap_enter_range`
unfoldable pub pmap_enter_range :
    ℕ → (Ptr → ℕ → ℕ → ℕ → Pmaps → Entered) → Ptr → ℕ → ℕ → ℕ → ℕ → Pmaps → Entered
pmap_enter_range fuel enter map paddr vaddr limit protection s =
    let size = addr_to_pte ((limit + 4095) % 2 ^ 32) in
    enter_pages fuel enter map paddr ((paddr + size) % 2 ^ 32) vaddr protection s

-- The loops that copy the words of a table that are not 0: `n` words, from the index `i`.
unfoldable pub copy_words : ℕ → ℕ → Ptr → Ptr → Pmaps → Pmaps
copy_words zero i src dest s = s
copy_words (suc n) i src dest s =
    let x = s.word src i in
    copy_words n (i + 1) src dest (if x == 0 then s else set_word dest i x s)

-- `pmap_share_kernel`
unfoldable pub pmap_share_kernel : (Ptr → ℕ → ℕ → ℕ → Pmaps → Entered) → Ptr → Pmaps → Entered
pmap_share_kernel enter nmap s = elim (page_table_allocate enter nmap s) [
  | undefined ↦ Entered.undefined
  | endless ↦ Entered.endless
  | tabled dest s₁ ↦
      let s₂ = record s₁ { pdbr = λ m. if nmap == m then dest else s₁.pdbr m } in
      entered (copy_words (ntables - ktable_start) ktable_start (s₂.pdbr s₂.kernel_map) dest s₂)
]

-- The loop of `pmap_copy` over the tables of the source: `n` of them, from the index `pde`.
unfoldable pub copy_tables :
    (Ptr → ℕ → ℕ → ℕ → Pmaps → Entered) → ℕ → ℕ → Ptr → Ptr → Ptr → Pmaps → Entered
copy_tables enter zero pde map src_pde dest_pde s = entered s
copy_tables enter (suc n) pde map src_pde dest_pde s = elim (s.word src_pde pde == 0) [
  | true ↦ copy_tables enter n (pde + 1) map src_pde dest_pde s
  | false ↦ elim (page_table_allocate enter map s) [
    | undefined ↦ Entered.undefined
    | endless ↦ Entered.endless
    | tabled dest_pte s₁ ↦
        let s₂ = copy_words ntables 0 (addr_to_pte (s₁.word src_pde pde)) dest_pte s₁ in
        let x = bit_or (addr_to_pte dest_pte) (bit_and (s₂.word src_pde pde) 0xfff) in
        copy_tables enter n (pde + 1) map src_pde dest_pde (set_word dest_pde pde x s₂)
  ]
]

-- `pmap_copy`, with `map` from `pmap_create`.
unfoldable pub pmap_copy : (Ptr → ℕ → ℕ → ℕ → Pmaps → Entered) → Ptr → Ptr → Pmaps → Entered
pmap_copy enter map src s =
    let s₀ = record s { plist = λ m. if map == m then [] else s.plist m } in
    elim (page_table_allocate enter map s₀) [
      | undefined ↦ Entered.undefined
      | endless ↦ Entered.endless
      | tabled dest_pde s₁ ↦
          let s₂ = record s₁ { pdbr = λ m. if map == m then dest_pde else s₁.pdbr m } in
          elim (copy_tables enter ktable_start 0 map (s₂.pdbr src) dest_pde s₂) [
            | undefined ↦ Entered.undefined
            | endless ↦ Entered.endless
            | entered s₃ ↦ entered (
                copy_words (ntables - ktable_start) ktable_start (s₃.pdbr s₃.kernel_map) dest_pde
                  s₃)
          ]
    ]

-- The entry of an address, changed by `f`. The directory's entry is not looked at: it may be 0.
abbrev pub change_entry : Ptr → ℕ → (ℕ → ℕ) → Pmaps → Pmaps
change_entry map vaddr f s =
    let pte = addr_to_pte (s.word (s.pdbr map) (addr_to_pdenum vaddr)) in
    set_word pte (addr_to_ptenum vaddr) (f (s.word pte (addr_to_ptenum vaddr))) s

-- The loops over the pages of a range; `none` where they take more steps than their fuel.
unfoldable pub change_pages : ℕ → Ptr → ℕ → ℕ → (ℕ → ℕ) → Pmaps → Option Pmaps
change_pages zero map start end f s = none
change_pages (suc n) map start end f s =
    let rest = change_pages n map ((start + 4096) % 2 ^ 32) end f (change_entry map start f s) in
    if ltb start end then rest else some s

-- `pmap_cow`
unfoldable pub pmap_cow : ℕ → Ptr → ℕ → ℕ → Pmaps → Option Pmaps
pmap_cow fuel map start end s =
    if s.pdbr map == 0
    then some s
    else change_pages fuel map start end (λ x. clear_mask x page_rw) s

-- VM_PAGE_READ, VM_PAGE_WRITE and VM_PAGE_EXEC are 1, 2 and 4.
unfoldable pub protect_entry : ℕ → ℕ → ℕ
protect_entry prot x =
    let y = if test_mask prot 1 || test_mask prot 4 then clear_mask x page_rw else x in
    if test_mask prot 2 then bit_or y page_rw else y

-- `pmap_protect`: its result, 0 or 1, with the state.
unfoldable pub pmap_protect : ℕ → Ptr → ℕ → ℕ → ℕ → Pmaps → Option (ℕ × Pmaps)
pmap_protect fuel map svaddr evaddr prot s =
    if s.pdbr map == 0
    then some (0, s)
    else (elim (change_pages fuel map svaddr evaddr (protect_entry prot) s) [
      | none ↦ none
      | some s₁ ↦ some (1, s₁)
    ])
