-- ===== src/VmMap/Entering.antt =====
-- Where vm_map_enter puts a mapping.
use manrix.Base.{
  ℕ, suc, ◌+◌, ◌%◌, ◌^◌, ◌≤◌, ◌<◌, ◌≡◌, refl, ◌≢◌, inl, inr, true, false, some, ltb, Bool-cases,
  ◌==◌, if◌then◌else◌, arith,
}
use manrix.Kernel.{Ptr, test_mask}
use manrix.DList.{list_add, list_add_next}
use manrix.VmMap.{
  VmEntry, VmState, add_word, inside, create_vm_entry, update_entry, object_fixed, hit, lookup_from,
  vm_map_lookup_entry, room_from, confirm, entered, vm_map_enter,
}

-- A map with at least three entries, the first of which has the address: the room behind the first
-- entry is too small for the mapping, the one behind the second is too, and the mapping would only fit
-- between the first entry and the third if the second were not there.
pub record Crowded (address size : ℕ) (s : VmState) : Type 0 where
  pub nonnull : s.vmap.vmentry ≢ 0
  pub no_hint : s.vmap.hint ≡ 0
  pub two : s.links.next s.vmap.vmentry ≢ s.vmap.vmentry
  pub three : s.links.next (s.links.next s.vmap.vmentry) ≢ s.vmap.vmentry
  pub at_first : inside address (s.entry s.vmap.vmentry) ≡ true
  pub no_room_1 :
      (s.entry (s.links.next s.vmap.vmentry)).start ≤ (s.entry s.vmap.vmentry).end + size
  pub tempting :
      (s.entry s.vmap.vmentry).end + size
      < (s.entry (s.links.next (s.links.next s.vmap.vmentry))).start
  pub no_room_2 :
      (s.entry (s.links.next (s.links.next s.vmap.vmentry))).start
      < (s.entry (s.links.next s.vmap.vmentry)).end + size
  pub in_order :
      (s.entry (s.links.next s.vmap.vmentry)).end
      ≤ (s.entry (s.links.next (s.links.next s.vmap.vmentry))).start
  pub below_end : (s.entry (s.links.next s.vmap.vmentry)).end + size ≤ s.vmap.end
  pub bound : s.vmap.end < 2 ^ 32

module _ (p object : Ptr) (address size attribute : ℕ) (s : VmState)
    (crowded : Crowded address size s) (an_object : object ≢ 0)
    (anywhere : test_mask attribute object_fixed ≡ false)
    (fresh : p ≢ s.links.next (s.links.next s.vmap.vmentry)) where
  abbrev a : Ptr
  a = s.vmap.vmentry

  abbrev b : Ptr
  b = s.links.next a

  abbrev c : Ptr
  c = s.links.next b

  abbrev hinted : VmState
  hinted = record s { vmap = record s.vmap { hint = a } }

  at_a : (n : ℕ) → vm_map_lookup_entry (suc n) address s ≡ hit a hinted
  unfolding vm_map_lookup_entry lookup_from
  at_a n =
      let e : (s.vmap.vmentry == 0) ≡ false = ground (arith, crowded.nonnull) in
      rw (e, crowded.no_hint, crowded.at_first) refl

  room_b : (n : ℕ) → room_from (suc (suc n)) size (add_word (s.entry a).end size) a hinted ≡ some b
  unfolding room_from
  room_b n =
      let two : (b == a) ≡ false = ground (arith, crowded.two) in
      let three : (c == a) ≡ false = ground (arith, crowded.three) in
      let sum : add_word (s.entry a).end size ≡ (s.entry a).end + size = omega (
        arith, crowded.tempting, crowded.in_order, crowded.no_room_2, crowded.below_end,
        crowded.bound,
      ) in
      let small : ltb ((s.entry a).end + size) (s.entry b).start ≡ false =
        ground (arith, crowded.no_room_1) in
      let large : ltb ((s.entry a).end + size) (s.entry c).start ≡ true =
        ground (arith, crowded.tempting) in
      rw (two, three, sum, small, large) refl

  abbrev filled : VmEntry → VmEntry
  filled y = record y {
    object = object;
    start = (s.entry b).end;
    end = (s.entry b).end + size;
    kind = attribute % 2 ^ 16;
  }

  abbrev overlapped : VmState
  overlapped =
      update_entry p filled (record hinted {
        links = if b == 0 then list_add a p s.links else list_add_next b p s.links;
      })

  confirm-b : confirm p size object attribute b hinted ≡ entered (s.entry b).end overlapped
  unfolding confirm
  confirm-b =
      let kept : (object == 0) ≡ false = ground arith in
      let sum : add_word (s.entry b).end size ≡ (s.entry b).end + size =
        omega (arith, crowded.below_end, crowded.bound) in
      let room : ltb s.vmap.end ((s.entry b).end + size) ≡ false =
        ground (arith, crowded.below_end) in
      let a_map : (a == 0) ≡ false = ground (arith, crowded.nonnull) in
      rw (kept, sum, room, create_vm_entry, a_map)
        (elim (Bool-cases (b == 0)) [ inl null ↦ rw null refl | inr linked ↦ rw linked refl ])

  -- In a map that is crowded in this way, an object's mapping that may stand anywhere is entered behind
  -- the second entry all the same, and meets the third entry, which stays as it is.
  pub vm_map_enter-overlaps :
      (n : ℕ)
      → (s' : VmState) × (vm_map_enter (suc (suc n)) p address size object attribute s
          ≡ entered (s.entry b).end s')
        × (s'.entry c ≡ s.entry c)
        × ((s'.entry p).start ≤ (s'.entry c).start)
        × ((s'.entry c).start < (s'.entry p).end)
  unfolding vm_map_enter
  vm_map_enter-overlaps n =
      let a_map : (a == 0) ≡ false = ground (arith, crowded.nonnull) in
      (
        overlapped,
        rw (a_map, at_a (suc n), anywhere, room_b n) confirm-b,
        ground arith,
        ground (arith, crowded.in_order),
        ground (arith, crowded.no_room_2),
      )
