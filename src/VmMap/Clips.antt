-- ===== src/VmMap/Clips.antt =====
-- What becomes of the ring of entries when an entry is cut in two.
use manrix.Base.{ℕ, zero, suc, ◌<◌, ◌≡◌, refl, ◌≢◌, true, false, ltb, ◌==◌, arith}
use manrix.Base.Int.{pos, ◌+ℤ◌}
use manrix.Kernel.{Ptr}
use manrix.DList.{Links, set_next, set_prev, list_add_next}
use manrix.VmMap.{
  VmState, create_vm_entry, inside, endless, lookup_from, entry_at, vm_map_entry_clip, update_entry,
  update_object,
}

-- An entry that is its own next one, and does not contain the address.
lookup_from_self :
    (n address : ℕ) (p : Ptr) (s : VmState)
    → s.links.next p ≡ p
    → p ≢ 0
    → p ≢ s.vmap.vmentry
    → inside address (s.entry p) ≡ false
    → lookup_from n address p s ≡ endless
unfolding lookup_from
lookup_from_self zero address p s own nonnull other out = refl
lookup_from_self (suc n) address p s own nonnull other out =
    let ih = lookup_from_self n address p s own nonnull other out in rw own (ground (arith, ih))

lookup_from-into :
    (n address : ℕ) (e p : Ptr) (s : VmState)
    → s.links.next e ≡ p
    → ((k : ℕ) → lookup_from k address p s ≡ endless)
    → e ≢ 0
    → p ≢ s.vmap.vmentry
    → inside address (s.entry e) ≡ false
    → lookup_from n address e s ≡ endless
unfolding lookup_from
lookup_from-into zero address e p s after loop nonnull other out = refl
lookup_from-into (suc n) address e p s after loop nonnull other out =
    rw after (ground (arith, loop n))

module _ (p e : Ptr) (start : ℕ) (s : VmState) (low : (s.entry e).start < start)
    (high : start < (s.entry e).end) (map_nonnull : s.vmap.vmentry ≢ 0) (e_nonnull : e ≢ 0)
    (p_nonnull : p ≢ 0) (fresh : p ≢ e) (not_first : p ≢ s.vmap.vmentry)
    (an_object : (s.entry e).object ≢ 0) where
  abbrev cut_links : Links
  cut_links = let l = list_add_next e p s.links in set_prev p (l.prev e) (set_next p (l.next e) l)

  abbrev cut : VmState
  cut =
      update_entry e (λ y. record y { end = start })
        (update_entry p (λ y. record (s.entry e) { start = start })
          (update_object (s.entry e).object (λ o. record o { ref_count = o.ref_count +ℤ pos 1 })
            (record s { links = cut_links })))

  clip-cut : vm_map_entry_clip p e start s ≡ entry_at p cut
  unfolding vm_map_entry_clip
  clip-cut =
      let whole : (start == (s.entry e).start) ≡ false = ground arith in
      let above : ltb (s.entry e).start start ≡ true = ground arith in
      let below : ltb start (s.entry e).end ≡ true = ground arith in
      let a_map : (s.vmap.vmentry == 0) ≡ false = ground arith in
      let an_entry : (e == 0) ≡ false = ground arith in
      let counted : ((s.entry e).object == 0) ≡ false = ground arith in
      rw (whole, above, below, counted, a_map, an_entry, create_vm_entry) refl

  cut-next : (cut_links.next p ≡ p) × (cut_links.next e ≡ p)
  unfolding list_add_next
  cut-next = (ground arith, ground arith)

  -- An entry with an object that is cut in two at an address inside it, with a new structure for the upper part: the
  -- two parts share out its addresses, but the upper part is its own next entry. A walk from either
  -- part, for an address that the entry did not contain, does not end, whatever its number of steps.
  pub vm_map_entry_clip-endless :
      (n address : ℕ)
      → inside address (s.entry e) ≡ false
      → (s' : VmState) × (vm_map_entry_clip p e start s ≡ entry_at p s')
        × ((s'.entry e).end ≡ start)
        × ((s'.entry p).start ≡ start)
        × ((s'.entry p).end ≡ (s.entry e).end)
        × (s'.links.next p ≡ p)
        × (lookup_from n address p s' ≡ endless)
        × (lookup_from n address e s' ≡ endless)
  vm_map_entry_clip-endless n address out =
      let (own, after) = cut-next in
      let upper_out : inside address (cut.entry p) ≡ false = ground arith in
      let lower_out : inside address (cut.entry e) ≡ false = ground arith in
      let loop = λ (k : ℕ). lookup_from_self k address p cut own p_nonnull not_first upper_out in
      (
        cut,
        clip-cut,
        ground arith,
        ground arith,
        ground arith,
        own,
        loop n,
        lookup_from-into n address e p cut after loop e_nonnull not_first lower_out,
      )
