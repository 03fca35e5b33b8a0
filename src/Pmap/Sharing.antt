-- ===== src/Pmap/Sharing.antt =====
-- What a map has of the kernel's once it shares the kernel's tables.
use manrix.Base.{
  ℕ, zero, suc, ◌+◌, ◌<◌, ◌≤◌, ◌≡◌, refl, ◌≢◌, ◌==◌, if◌then◌else◌, arith, ◌⊎◌, inl, inr,
  Bool-cases, ◌∙◌, sym, ap,
}
use manrix.Kernel.{Ptr}
use manrix.Pmap.{
  addr_to_pdenum, Pmaps, set_word, Entered, entered, tabled, page_table_allocate, pmap_enter,
}
use manrix.Pmap.Copy.{ktable_start, copy_words, pmap_share_kernel}
use manrix.Pmap.Walk.{walk, Tabled-cases}

pub copy_words-maps :
    (n i : ℕ) (src dest : Ptr) (s : Pmaps)
    → ((copy_words n i src dest s).pdbr ≡ s.pdbr)
      × ((copy_words n i src dest s).kernel_map ≡ s.kernel_map)
unfolding copy_words
copy_words-maps zero i src dest s = (refl, refl)
copy_words-maps (suc n) i src dest s = elim (Bool-cases (s.word src i == 0)) [
  | inl e ↦ rw (e, copy_words) (copy_words-maps n (i + 1) src dest s)
  | inr e ↦
      rw (e, copy_words) (copy_words-maps n (i + 1) src dest (set_word dest i (s.word src i) s))
]

-- Words that the copy does not write: those of other pages, and those before the first index.
copy_words-other :
    (n i : ℕ) (src dest u : Ptr) (j : ℕ) (s : Pmaps)
    → (dest ≢ u) ⊎ (j < i)
    → (copy_words n i src dest s).word u j ≡ s.word u j
unfolding copy_words
copy_words-other zero i src dest u j s elsewhere = refl
copy_words-other (suc n) i src dest u j s elsewhere =
    let later : (dest ≢ u) ⊎ (j < i + 1) = ground (arith, elsewhere) in
    let x = s.word src i in
    copy_words-other n (i + 1) src dest u j (if x == 0 then s else set_word dest i x s) later
    ∙ ground (arith, elsewhere)

copy_words-at :
    (n i : ℕ) (src dest : Ptr) (j : ℕ) (s : Pmaps)
    → dest ≢ src
    → i ≤ j
    → j < i + n
    → s.word dest j ≡ 0
    → (copy_words n i src dest s).word dest j ≡ s.word src j
unfolding copy_words
copy_words-at zero i src dest j s apart from to empty = ground (arith, from, to)
copy_words-at (suc n) i src dest j s apart from to empty =
    let x = s.word src i in
    let s₁ = if x == 0 then s else set_word dest i x s in
    elim (Bool-cases (i == j)) [
      | inl here ↦
          copy_words-other n (i + 1) src dest dest j s₁ (inr (ground (arith, here)))
          ∙ ground (arith, here, empty)
      | inr there ↦
          copy_words-at n (i + 1) src dest j s₁ apart (ground (arith, from, there)) (omega arith)
            (ground (arith, there, empty))
          ∙ ground (arith, apart)
    ]

zeroed :
    (enter : Ptr → ℕ → ℕ → ℕ → Pmaps → Entered) (map : Ptr) (s : Pmaps) (d : Ptr) (u : Pmaps)
    (j : ℕ)
    → page_table_allocate enter map s ≡ tabled d u
    → u.word d j ≡ 0
unfolding page_table_allocate
zeroed enter map s d u j given = ground (arith, given)

abbrev end_of : Pmaps → Entered → Pmaps
end_of s (entered t) = t
end_of s Entered.undefined = s
end_of s Entered.endless = s

walk-by :
    (map map' vaddr : ℕ) (t : Pmaps)
    → t.word (t.pdbr map) (addr_to_pdenum vaddr) ≡ t.word (t.pdbr map') (addr_to_pdenum vaddr)
    → walk map vaddr t ≡ walk map' vaddr t
unfolding walk
walk-by map map' vaddr t same = rw same refl

shared-walk :
    (nmap d : Ptr) (vaddr : ℕ) (u : Pmaps)
    → u.pdbr nmap ≡ d
    → d ≢ u.pdbr u.kernel_map
    → u.word d (addr_to_pdenum vaddr) ≡ 0
    → ktable_start ≤ addr_to_pdenum vaddr
    → walk nmap vaddr (copy_words 128 ktable_start (u.pdbr u.kernel_map) d u)
      ≡ walk u.kernel_map vaddr (copy_words 128 ktable_start (u.pdbr u.kernel_map) d u)
shared-walk nmap d vaddr u its apart empty high =
    let k = u.pdbr u.kernel_map in
    let j = addr_to_pdenum vaddr in
    let c = copy_words 128 ktable_start k d u in
    let (dirs, same_kernel) = copy_words-maps 128 ktable_start k d u in
    let copied = copy_words-at 128 ktable_start k d j u apart high (ground arith) empty in
    let kept = copy_words-other 128 ktable_start k d k j u (inl apart) in
    walk-by nmap u.kernel_map vaddr c (rw (dirs, its) (copied ∙ sym kept))

-- A new map that was made to share the kernel's tables, and whose directory is not the kernel's, leads
-- every address of the kernel's part, from the 896th table on, where the kernel's map leads it.
pub pmap_share_kernel-walk :
    (n : ℕ) (nmap : Ptr) (s t : Pmaps)
    → pmap_share_kernel (pmap_enter n) nmap s ≡ entered t
    → t.pdbr nmap ≢ t.pdbr t.kernel_map
    → (vaddr : ℕ) → ktable_start ≤ addr_to_pdenum vaddr
    → walk nmap vaddr t ≡ walk t.kernel_map vaddr t
unfolding pmap_share_kernel
pmap_share_kernel-walk n nmap s t shared apart vaddr high =
    elim (Tabled-cases (page_table_allocate (pmap_enter n) nmap s)) [
      | inl (d, u, given) ↦
          let u₂ = record u { pdbr = λ m. if nmap == m then d else u.pdbr m } in
          let k = u₂.pdbr u₂.kernel_map in
          let run : pmap_share_kernel (pmap_enter n) nmap s
              ≡ entered (copy_words 128 ktable_start k d u₂) =
            rw (given, pmap_share_kernel) refl in
          let same : copy_words 128 ktable_start k d u₂ ≡ t = ap (end_of s) (sym run ∙ shared) in
          let (dirs, same_kernel) = copy_words-maps 128 ktable_start k d u₂ in
          let others : d ≢ k = λ e. apart (rw (← same, dirs, same_kernel) (ground (arith, e))) in
          let empty = zeroed (pmap_enter n) nmap s d u (addr_to_pdenum vaddr) given in
          let c = copy_words 128 ktable_start k d u₂ in
          let there = shared-walk nmap d vaddr u₂ (ground arith) others empty high in
          rw (← same) (there ∙ ap (λ x. walk x vaddr c) (sym same_kernel))
      | inr (inl given) ↦ ground (arith, shared, given)
      | inr (inr given) ↦ ground (arith, shared, given)
    ]
