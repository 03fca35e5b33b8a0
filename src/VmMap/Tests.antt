-- ===== src/VmMap/Tests.antt =====
-- A map with the entries 10, 20 and 30: from 0x1000 to 0x2000, 0x3000 to 0x4000 and 0x5000 to 0x6000.
use manrix.Base.{ℕ, ◌+◌, ◌≡◌, refl, ◌≤◌, ◌<◌, some, [], ◌∷◌, ◌==◌, if◌then◌else◌, arith}
use manrix.Base.Int.{pos}
use manrix.VmMap.{VmEntry, VmObject, VmState, hit, vm_map_lookup_entry, entered, vm_map_enter}
use manrix.VmMap.Ranges.{reserved, get_vaddr}
use manrix.VmMap.Fork.{dup_all, vm_map_fork}
use manrix.VmMap.Walks.{
  HasEntries, first_inside, found, vm_map_lookup_entry-first, Room, get_vaddr-Apart,
}
use manrix.VmMap.Entering.{Crowded, vm_map_enter-overlaps}
use manrix.VmMap.Copies.{HaveObjects, Disjoint}
use manrix.VmMap.Forks.{Duplicated, vm_map_fork-Duplicated}

abbrev page_entry : ℕ → VmEntry
page_entry at = record { start = at; end = at + 0x1000; object = 7; kind = 2; attr = 3 }

abbrev object : VmObject
object = record { ref_count = pos 1; shadow = 0; attribute = 0 }

abbrev three_entries : VmState
three_entries = record {
  vmap = record {
    vmentry = 10;
    refs = pos 1;
    size = 0;
    start = 0;
    end = 0xE000_0000;
    hint = 0;
    attr = 0;
  };
  links = record {
    next = λ p. if p == 10 then 20 else if p == 20 then 30 else 10;
    prev = λ p. if p == 10 then 30 else if p == 20 then 10 else 20;
  };
  entry = λ p. page_entry (if p == 10 then 0x1000 else if p == 20 then 0x3000 else 0x5000);
  objects = λ o. object;
  freed = [];
}

three-HasEntries : HasEntries (20 ∷ 30 ∷ []) three_entries
three-HasEntries = record { leads = (refl, (refl, refl)); once = refl; nonnull = refl }

vm_map_lookup_entry-first_example :
    vm_map_lookup_entry 3 0x3800 three_entries
    ≡ found (first_inside 0x3800 (10 ∷ 20 ∷ 30 ∷ []) three_entries) three_entries
vm_map_lookup_entry-first_example =
    vm_map_lookup_entry-first 3 0x3800 (20 ∷ 30 ∷ []) three_entries three-HasEntries (omega arith)

lookup_second :
    vm_map_lookup_entry 3 0x3800 three_entries
    ≡ hit 20 (record three_entries { vmap = record three_entries.vmap { hint = 20 } })
unfolding vm_map_lookup_entry
lookup_second = refl

-- Room of 0x1000 bytes is found behind the last entry only: between two entries it would have to be
-- larger than the mapping.
get_vaddr_last :
    get_vaddr 3 0x1000 three_entries
    ≡ reserved 0x6000 (record three_entries {
      entry = λ q.
          if 30 == q then record (page_entry 0x5000) { end = 0x7000 } else three_entries.entry q;
    })
unfolding get_vaddr
get_vaddr_last = refl

get_vaddr-Apart_example :
    Room 0 0x800 (10 ∷ 20 ∷ 30 ∷ []) three_entries (get_vaddr 3 0x800 three_entries)
get_vaddr-Apart_example =
    get_vaddr-Apart 3 0x800 (20 ∷ 30 ∷ []) three_entries three-HasEntries (omega arith)
      (omega arith) (omega arith)

three-Crowded : Crowded 0x1800 0x1800 three_entries
three-Crowded = record {
  nonnull = ground arith;
  no_hint = refl;
  two = ground arith;
  three = ground arith;
  at_first = refl;
  no_room_1 = omega arith;
  tempting = omega arith;
  no_room_2 = omega arith;
  in_order = omega arith;
  below_end = omega arith;
  bound = omega arith;
}

vm_map_enter-overlaps_example :
    (s' : VmState) × (vm_map_enter 3 40 0x1800 0x1800 7 2 three_entries ≡ entered 0x4000 s')
    × (s'.entry 30 ≡ page_entry 0x5000)
    × ((s'.entry 40).start ≤ (s'.entry 30).start)
    × ((s'.entry 30).start < (s'.entry 40).end)
vm_map_enter-overlaps_example =
    vm_map_enter-overlaps 40 7 0x1800 0x1800 2 three_entries three-Crowded (ground arith) refl
      (ground arith) 1

copies-Disjoint : Disjoint (40 ∷ 50 ∷ 60 ∷ []) (10 ∷ 20 ∷ 30 ∷ [])
copies-Disjoint a i = ground arith

seven_objects : HaveObjects (10 ∷ 20 ∷ 30 ∷ []) three_entries
seven_objects a i = ground arith

vm_map_fork-Duplicated_example :
    (s' : VmState) × (vm_map_fork 3 1 (40 ∷ 50 ∷ 60 ∷ []) three_entries.vmap dup_all three_entries
      ≡ some s')
    × Duplicated 40 (50 ∷ 60 ∷ []) (20 ∷ 30 ∷ []) three_entries s'
vm_map_fork-Duplicated_example =
    vm_map_fork-Duplicated 3 0 40 (50 ∷ 60 ∷ []) (20 ∷ 30 ∷ []) three_entries.vmap three_entries
      three-HasEntries (omega arith) refl (refl, (refl, (refl, tt))) copies-Disjoint refl
      (λ o. refl) seven_objects
