-- ===== src/VmMap/Walks.antt =====
-- Walks over the ring of a map's entries: the lookup of an address, and the room that get_vaddr finds.
use manrix.Base.{
  ℕ, zero, suc, ◌+◌, ◌^◌, ◌≤◌, ◌<◌, ◌≡◌, refl, ◌⊎◌, inl, inr, true, false, not, ◌&&◌, Option, none,
  some, List, [], ◌∷◌, ltb, ◌==◌, if◌then◌else◌, length, Bool-cases, ◌∉◌, arith,
}
use manrix.Kernel.{Ptr}
use manrix.DList.{Links}
use manrix.VmMap.{
  VmState, add_word, inside, update_entry, FoundEntry, hit, absent, lookup_from,
  vm_map_lookup_entry,
}
use manrix.VmMap.Ranges.{Reserved, reserved, full, endless, get_vaddr_from, get_vaddr}

-- The `next` links lead from `p` through `xs` to `q`.
abbrev pub Leads : Links → Ptr → List Ptr → Ptr → Type 0
Leads l p [] q = l.next p ≡ q
Leads l p (x ∷ xs) q = (l.next p ≡ x) × Leads l x xs q

-- The map's entries: the one that it points to, and then `xs`; none is at NULL.
pub record HasEntries (xs : List Ptr) (s : VmState) : Type 0 where
  pub leads : Leads s.links s.vmap.vmentry xs s.vmap.vmentry
  pub once : s.vmap.vmentry ∉ xs
  pub nonnull : 0 ∉ s.vmap.vmentry ∷ xs

-- The first entry of a list that contains an address.
abbrev pub first_inside : ℕ → List Ptr → VmState → Option Ptr
first_inside address [] s = none
first_inside address (x ∷ xs) s =
    let rest = first_inside address xs s in if inside address (s.entry x) then some x else rest

abbrev pub found : Option Ptr → VmState → FoundEntry
found none s = absent
found (some p) s = hit p (record s { vmap = record s.vmap { hint = p } })

lookup_from-first :
    (n address : ℕ) (p : Ptr) (xs : List Ptr) (s : VmState)
    → length xs < n
    → Leads s.links p xs s.vmap.vmentry
    → s.vmap.vmentry ∉ xs
    → 0 ∉ p ∷ xs
    → lookup_from n address p s ≡ found (first_inside address (p ∷ xs) s) s
unfolding lookup_from
lookup_from-first zero address p xs s enough leads once nonnull = elim enough [ ]
lookup_from-first (suc n) address p [] s enough leads once nonnull = ground arith
lookup_from-first (suc n) address p (x ∷ xs) s enough leads once nonnull =
    rw leads.0 (ground (arith, lookup_from-first n address x xs s (omega arith) leads.1))

-- The lookup of an address in a map with any number of entries, given as many steps as there are
-- entries: the hinted entry, if it contains the address, and else the first entry that does, which
-- becomes the hint; NULL if there is none.
pub vm_map_lookup_entry-first :
    (n address : ℕ) (xs : List Ptr) (s : VmState)
    → HasEntries xs s
    → length xs < n
    → vm_map_lookup_entry n address s ≡ (
        if not (s.vmap.hint == 0) && inside address (s.entry s.vmap.hint)
        then hit s.vmap.hint s
        else found (first_inside address (s.vmap.vmentry ∷ xs) s) s)
unfolding vm_map_lookup_entry
vm_map_lookup_entry-first n address xs s h enough =
    let walk = lookup_from-first n address s.vmap.vmentry xs s enough h.leads h.once h.nonnull in
    let open_map : (s.vmap.vmentry == 0) ≡ false = ground (arith, h.nonnull) in
    rw (walk, open_map, vm_map_lookup_entry) refl

-- The entries of a list lie one after the other, from the address `low` on.
abbrev pub Ordered : ℕ → List Ptr → VmState → Type 0
Ordered low [] s = Unit {0}
Ordered low (x ∷ xs) s =
    (low ≤ (s.entry x).start) × ((s.entry x).start ≤ (s.entry x).end) × Ordered (s.entry x).end xs s

-- No entry of a list meets the addresses from `va` to `past`.
abbrev pub Apart : ℕ → ℕ → List Ptr → VmState → Type 0
Apart va past [] s = Unit {0}
Apart va past (x ∷ xs) s =
    (((s.entry x).end ≤ va) ⊎ (past ≤ (s.entry x).start)) × Apart va past xs s

-- No end grows beyond the 32-bit addresses.
abbrev pub NoWrap : ℕ → List Ptr → VmState → Type 0
NoWrap size [] s = Unit {0}
NoWrap size (x ∷ xs) s = ((s.entry x).end + size < 2 ^ 32) × NoWrap size xs s

-- What is said of the room that was found: it starts at `low` or later.
abbrev pub Room : ℕ → ℕ → List Ptr → VmState → Reserved → Type 0
Room low size xs s (reserved va s') =
    (low ≤ va) × (va + size ≤ s.vmap.end) × Apart va (va + size) xs s
Room low size xs s full = Unit {0}
Room low size xs s endless = ⊥

Ordered-Apart :
    (low va past : ℕ) (xs : List Ptr) (s : VmState)
    → Ordered low xs s
    → past ≤ low
    → Apart va past xs s
Ordered-Apart low va past [] s o h = tt
Ordered-Apart low va past (x ∷ xs) s o h =
    (inr (omega arith), Ordered-Apart (s.entry x).end va past xs s o.2 (omega arith))

-- The room behind the entry `p`, if no later entry meets it.
Room-here :
    (size low : ℕ) (p : Ptr) (xs : List Ptr) (s s' : VmState)
    → (past : ℕ) → past ≡ (s.entry p).end + size
    → low ≤ (s.entry p).end
    → Apart (s.entry p).end ((s.entry p).end + size) xs s
    → Room low size (p ∷ xs) s (if ltb s.vmap.end past then full else reserved (s.entry p).end s')
Room-here size low p xs s s' past sum above free = elim (Bool-cases (ltb s.vmap.end past)) [
  | inl over ↦ rw over tt
  | inr fits ↦ rw fits (above, ground arith, (inl (omega arith), free))
]

-- The room that is found behind an entry is room for the map with that entry.
Room-behind :
    (size low : ℕ) (p : Ptr) (xs : List Ptr) (s : VmState) (r : Reserved)
    → low ≤ (s.entry p).end
    → Room (s.entry p).end size xs s r
    → Room low size (p ∷ xs) s r
Room-behind size low p xs s (reserved va s') above room =
    (omega arith, room.1, (inl room.0, room.2))
Room-behind size low p xs s full above room = tt
Room-behind size low p xs s endless above room = room

get_vaddr_from-Room :
    (n size low : ℕ) (p : Ptr) (xs : List Ptr) (s : VmState)
    → length xs < n
    → Leads s.links p xs s.vmap.vmentry
    → s.vmap.vmentry ∉ xs
    → Ordered low (p ∷ xs) s
    → NoWrap size (p ∷ xs) s
    → Room low size (p ∷ xs) s (get_vaddr_from n size p s)
unfolding get_vaddr_from
get_vaddr_from-Room zero size low p xs s enough leads once o w = elim enough [ ]
get_vaddr_from-Room (suc n) size low p [] s enough leads once o w =
    let past = add_word (s.entry p).end size in
    let s' = update_entry p (λ y. record y { end = past }) s in
    let last : (s.links.next p == s.vmap.vmentry) ≡ true = ground arith in
    let here = Room-here size low p [] s s' past (omega arith) (omega arith) tt in
    elim (Bool-cases (ltb past (s.entry (s.links.next p)).start)) [
      | inl room ↦ rw room here
      | inr none_here ↦ rw (none_here, last) here
    ]
get_vaddr_from-Room (suc n) size low p (x ∷ xs) s enough leads once o w =
    let past = add_word (s.entry p).end size in
    let s' = update_entry p (λ y. record y { end = past }) s in
    let rest =
      get_vaddr_from-Room n size (s.entry p).end x xs s (omega arith) leads.1 (ground arith) o.2
        w.1 in
    let more : (x == s.vmap.vmentry) ≡ false = ground arith in
    rw leads.0 (elim (Bool-cases (ltb past (s.entry x).start)) [
      | inl room ↦
          let past = (s.entry p).end + size in
          let below : past ≤ (s.entry x).start = ground arith in
          let free =
            Ordered-Apart past (s.entry p).end past (x ∷ xs) s (below, o.2.1, o.2.2)
              (omega arith) in
          rw room (
            Room-here size low p (x ∷ xs) s s' (add_word (s.entry p).end size) (omega arith)
              (omega arith) free)
      | inr none_here ↦
          rw (none_here, more)
            (Room-behind size low p (x ∷ xs) s (get_vaddr_from n size x s) (omega arith) rest)
    ])

-- `get_vaddr` in a map whose entries lie in order, when no end can wrap around and with as many steps
-- as there are entries: it ends, and the addresses that it gives lie below the map's end and meet no
-- entry that the map had.
pub get_vaddr-Apart :
    (n size : ℕ) (xs : List Ptr) (s : VmState)
    → HasEntries xs s
    → Ordered 0 (s.vmap.vmentry ∷ xs) s
    → NoWrap size (s.vmap.vmentry ∷ xs) s
    → length xs < n
    → Room 0 size (s.vmap.vmentry ∷ xs) s (get_vaddr n size s)
unfolding get_vaddr
get_vaddr-Apart n size xs s h o w enough =
    get_vaddr_from-Room n size 0 s.vmap.vmentry xs s enough h.leads h.once o w
