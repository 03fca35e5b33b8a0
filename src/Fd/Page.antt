-- ===== src/Fd/Page.antt =====
-- Handing out a descriptor of 32 or more, from the page.
use manrix.Base.{
  ℕ, zero, suc, ◌+◌, ◌≤◌, ◌<◌, ◌≡◌, refl, ◌≢◌, false, some, List, [], ◌∷◌, arith, ltb, leb, ◌==◌,
  get_or, set, length, Bool-cases, inl, inr, get_elem?-eq-get_or,
}
use manrix.Bits.{max_int_val}
use manrix.Kernel.{Ptr}
use manrix.Fd.{
  Fd, FdResult, ok, minus_one, enomem, ebadf, fault, max_def_fd, page_entries, Slot, at, no_slot,
  outside, find_slot, search_page, alloc_in_page, ffc_or, alloc_fdesc,
}
use manrix.Fd.Laws.{IsValid, ffc_or-max}

-- The three results of a search.
data SlotCases (r : Slot) : Type 0 where
  is_outside : r ≡ outside → SlotCases r
  is_none : r ≡ no_slot → SlotCases r
  is_at : (i : ℕ) → r ≡ at i → SlotCases r

slot-cases : (r : Slot) → SlotCases r
slot-cases outside = is_outside refl
slot-cases no_slot = is_none refl
slot-cases (at i) = is_at i refl

-- What `alloc_fdesc` promises where the first 32 descriptors are taken, with `table` the page: it
-- takes an entry that was 0 and no other, or all that it searches are taken.
abbrev pub TakesSlot : Ptr → List Ptr → Fd → FdResult → Type 0
TakesSlot newfd table fd (ok desc fd') =
    (i : ℕ) × (desc ≡ i + max_def_fd)
    × (i < page_entries)
    × (get_or table i 1 ≡ 0)
    × (fd' ≡ record fd { fd_hint = i + 1; page = some (set table i newfd) })
TakesSlot newfd table fd minus_one = (i : ℕ) → i < fd.fd_max → get_or table i 0 ≢ 0
TakesSlot newfd table fd enomem = ⊥
TakesSlot newfd table fd ebadf = ⊥
TakesSlot newfd table fd fault = ⊥

find_slot-at :
    (n : ℕ) (table : List Ptr) (start i : ℕ)
    → find_slot n table start ≡ at i
    → (k : ℕ) × (i ≡ start + k) × (k < length table) × (get_or table k 1 ≡ 0)
unfolding find_slot
find_slot-at zero table start i e = cc
find_slot-at (suc n) [] start i e = cc
find_slot-at (suc n) (t ∷ ts) start i e = elim (Bool-cases (t == 0)) [
  | inl z ↦ (0, ground arith, omega arith, ground arith)
  | inr nz ↦
      let (k, ei, lt, free) = find_slot-at n ts (start + 1) i (rw (nz, find_slot) at e) in
      (suc k, omega arith, omega arith, free)
]

find_slot-none :
    (n : ℕ) (table : List Ptr) (start k : ℕ)
    → find_slot n table start ≡ no_slot
    → k < n
    → get_or table k 0 ≢ 0
unfolding find_slot
find_slot-none zero table start k e lt = absurd (omega arith)
find_slot-none (suc n) [] start k e lt = cc
find_slot-none (suc n) (t ∷ ts) start zero e lt = ground arith
find_slot-none (suc n) (t ∷ ts) start (suc k) e lt =
    ground (arith, find_slot-none n ts (start + 1) k)

find_slot-inside :
    (n : ℕ) (table : List Ptr) (start : ℕ) → n ≤ length table → find_slot n table start ≢ outside
unfolding find_slot
find_slot-inside zero table start le e = cc
find_slot-inside (suc n) [] start le e = absurd (omega arith)
find_slot-inside (suc n) (t ∷ ts) start le e = ground (arith, find_slot-inside n ts (start + 1))

module _ (undef : ℕ) (newfd : Ptr) (fd : Fd) (v : IsValid fd) (table : List Ptr) where
  -- Every entry that is searched lies in the page.
  search_page-TakesSlot :
      fd.page ≡ some table → TakesSlot newfd table fd (search_page newfd table fd)
  unfolding search_page
  search_page-TakesSlot there = elim (slot-cases (find_slot fd.fd_max table 0)) [
    | is_outside e ↦
        absurd (find_slot-inside fd.fd_max table 0 (omega (arith, v.whole table there, v.top)) e)
    | is_none e ↦ rw (e, search_page) (λ i lt. find_slot-none fd.fd_max table 0 i e lt)
    | is_at i e ↦
        let (k, ei, lt, free) = find_slot-at fd.fd_max table 0 i e in
        let same : i ≡ k = omega arith in
        rw (e, search_page) (i, refl, omega (arith, v.whole table there), rw same free, refl)
  ]

  in_page-TakesSlot :
      max_def_fd < fd.fd_max
      → fd.page ≡ some table
      → fd.fd_hint < page_entries
      → TakesSlot newfd table fd (alloc_in_page newfd fd)
  unfolding alloc_in_page
  in_page-TakesSlot many there hint =
      let few : leb fd.fd_max max_def_fd ≡ false = ground arith in
      let read = get_elem?-eq-get_or table fd.fd_hint 1 (omega (arith, v.whole table there)) in
      rw (few, there, read, alloc_in_page)
        (elim (Bool-cases (get_or table fd.fd_hint 1 == 0)) [
          | inl z ↦ rw z (fd.fd_hint, refl, hint, ground arith, refl)
          | inr nz ↦ rw nz (search_page-TakesSlot there)
        ])

  -- Where the first 32 descriptors are taken and the process has a page for more, with a hint
  -- inside the page, `alloc_fdesc` takes an entry of the page that was 0 and changes no other,
  -- or returns -1 and every entry that it searches is taken; it never reads past the page. For
  -- this, `ffc` of a word without a clear bit must be at least 32, and `fd_max` at most 1024.
  pub alloc_fdesc-TakesSlot :
      max_def_fd ≤ undef
      → fd.bitmap ≡ max_int_val
      → max_def_fd < fd.fd_max
      → fd.page ≡ some table
      → fd.fd_hint < page_entries
      → TakesSlot newfd table fd (alloc_fdesc undef newfd fd)
  unfolding alloc_fdesc
  alloc_fdesc-TakesSlot big full many there hint =
      let e : ffc_or undef fd.bitmap ≡ undef = rw full (ffc_or-max undef) in
      let test : ltb undef max_def_fd ≡ false = ground arith in
      rw (e, test) (in_page-TakesSlot many there hint)
