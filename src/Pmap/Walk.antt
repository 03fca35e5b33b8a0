-- ===== src/Pmap/Walk.antt =====
-- What an address means once a page was mapped to it, and the recursion of the kernel's own tables.

use manrix.Base.{
  ℕ, zero, suc, ◌+◌, ◌%◌, ◌^◌, ◌≡◌, refl, ◌≢◌, false, List, [], ◌∷◌, ◌==◌, if◌then◌else◌, ◌&&◌, ◌∈◌,
  arith, ◌⊎◌, inl, inr,
}
use manrix.Kernel.{Ptr}
use manrix.VmMap.{kernel_base}
use manrix.Pmap.{
  page_rw, addr_to_pdenum, addr_to_ptenum, addr_to_pte, Pmaps, set_word, own_page, Entered, entered,
  Tabled, tabled, page_table_allocate, entry_of, directory, pmap_enter,
}

-- The processor's walk of a map, in the same memory: the entry of the page of an address, or 0.
unfoldable pub walk : Ptr → ℕ → Pmaps → ℕ
walk map vaddr s =
    let pde = s.word (s.pdbr map) (addr_to_pdenum vaddr) in
    if pde == 0 then 0 else s.word (addr_to_pte pde) (addr_to_ptenum vaddr)

-- The two addresses' entries stand in different places, and the directory of the second map is not the
-- table of the first address.
pub record IsApart (map : Ptr) (vaddr : ℕ) (map' : Ptr) (vaddr' : ℕ) (s : Pmaps) : Type 0 where
  pub directories : addr_to_pte (s.word (s.pdbr map) (addr_to_pdenum vaddr)) ≢ s.pdbr map'
  pub places :
      ((addr_to_pte (s.word (s.pdbr map) (addr_to_pdenum vaddr))
          == addr_to_pte (s.word (s.pdbr map') (addr_to_pdenum vaddr')))
        && (addr_to_ptenum vaddr == addr_to_ptenum vaddr'))
      ≡ false

-- Where the directory and the table of an address are there, and the table is not the directory, a page
-- is mapped with one step, without a new table: the walk of the address gives the page's entry, and the
-- walk of every address, of any map, whose entry stands elsewhere gives what it gave before.
pub pmap_enter-walk :
    (n : ℕ) (map paddr vaddr protection : ℕ) (s : Pmaps)
    → s.pdbr map ≢ 0
    → s.word (s.pdbr map) (addr_to_pdenum vaddr) ≢ 0
    → addr_to_pte (s.word (s.pdbr map) (addr_to_pdenum vaddr)) ≢ s.pdbr map
    → (t : Pmaps) × (pmap_enter (suc n) map paddr vaddr protection s ≡ entered t)
      × (walk map vaddr t ≡ entry_of paddr protection)
      × ((map' vaddr' : ℕ)
          → IsApart map vaddr map' vaddr' s
          → walk map' vaddr' t ≡ walk map' vaddr' s)
unfolding pmap_enter directory walk
pmap_enter-walk n map paddr vaddr protection s dir table apart =
    let t =
      set_word (addr_to_pte (s.word (s.pdbr map) (addr_to_pdenum vaddr))) (addr_to_ptenum vaddr)
        (entry_of paddr protection) s in
    (
      t,
      ground (arith, dir, table),
      ground (arith, dir, table, apart),
      λ map' vaddr' other. ground (arith, dir, table, apart, other.directories, other.places),
    )

Entered-cases :
    (e : Entered)
    → ((t : Pmaps) × (e ≡ entered t)) ⊎ ((e ≡ Entered.undefined) ⊎ (e ≡ Entered.endless))
Entered-cases (entered t) = inl (t, refl)
Entered-cases Entered.undefined = inr (inl refl)
Entered-cases Entered.endless = inr (inr refl)

pub Tabled-cases :
    (e : Tabled)
    → ((d : Ptr) × (t : Pmaps) × (e ≡ tabled d t)) ⊎ ((e ≡ Tabled.undefined) ⊎ (e ≡ Tabled.endless))
Tabled-cases (tabled d t) = inl (d, t, refl)
Tabled-cases Tabled.undefined = inr (inl refl)
Tabled-cases Tabled.endless = inr (inr refl)

-- No table comes where the call for the kernel's own entry of it does not succeed.
no_table :
    (enter : Ptr → ℕ → ℕ → ℕ → Pmaps → Entered) (map : Ptr) (s : Pmaps) (xs : List Ptr)
    → s.pages ≡ xs
    → ((base : Ptr) (rest : List Ptr) (t : Pmaps)
        → xs ≡ base ∷ rest
        → enter s.kernel_map base ((base + kernel_base) % 2 ^ 32) page_rw (own_page map base rest s)
          ≢ entered t)
    → (d : Ptr) (t : Pmaps) → page_table_allocate enter map s ≢ tabled d t
unfolding page_table_allocate
no_table enter map s [] e fails d t = rw e cc
no_table enter map s (base ∷ rest) e fails d t =
    let call =
      enter s.kernel_map base ((base + kernel_base) % 2 ^ 32) page_rw (own_page map base rest s) in
    elim (Entered-cases call) [
      | inl (u, called) ↦ elim (fails base rest u refl called) [ ]
      | inr (inl called) ↦ rw (e, page_table_allocate, called) cc
      | inr (inr called) ↦ rw (e, page_table_allocate, called) cc
    ]

-- While no table of the kernel's map covers the pages that are still to be given out, mapping a page in
-- that map at an address without a table never succeeds, whatever the depth: each new table wants a
-- table for itself, until the pages are used up.
pub pmap_enter-kernel :
    (n paddr vaddr protection : ℕ) (s t : Pmaps)
    → s.pdbr s.kernel_map ≢ 0
    → s.word (s.pdbr s.kernel_map) (addr_to_pdenum vaddr) ≡ 0
    → ((base : Ptr)
        → base ∈ s.pages
        → s.word (s.pdbr s.kernel_map) (addr_to_pdenum ((base + kernel_base) % 2 ^ 32)) ≡ 0)
    → pmap_enter n s.kernel_map paddr vaddr protection s ≢ entered t
unfolding pmap_enter directory
pmap_enter-kernel zero paddr vaddr protection s t dir bare uncovered = cc
pmap_enter-kernel (suc n) paddr vaddr protection s t dir bare uncovered =
    let fails = no_table (pmap_enter n) s.kernel_map s s.pages refl (λ base rest u e.
      pmap_enter-kernel n base ((base + kernel_base) % 2 ^ 32) page_rw
        (own_page s.kernel_map base rest s) u dir (uncovered base (rw e (ground arith)))
        (λ b i. uncovered b (rw e (ground (arith, i))))) in
    elim (Tabled-cases (page_table_allocate (pmap_enter n) s.kernel_map s)) [
      | inl (d, u, given) ↦ elim (fails d u given) [ ]
      | inr (inl given) ↦ ground (arith, dir, bare, given)
      | inr (inr given) ↦ ground (arith, dir, bare, given)
    ]
