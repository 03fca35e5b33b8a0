-- ===== src/VmMap/Ranges.antt =====
-- The operations of vm_map.c and vm.c on a range of a map: remove, lock, unlock, protect, and the
-- kernel's own addresses (get_vaddr, free_vaddr).
use Prim.Native.Nat.{bit_or}
use manrix.Base.{
  ℕ, zero, suc, ◌/◌, ◌*◌, Bool, not, Option, none, some, ◌∷◌, ltb, ◌==◌, if◌then◌else◌,
}
use manrix.Base.Int.{pos, negsuc, ◌-ℤ◌}
use manrix.Kernel.{Ptr, Errno, eperm, enomem, minus_one}
use manrix.DList.{list_del}
use manrix.VmMap.{
  VmEntry, VmState, entry_locked, zero_fill, add_word, clear_mask, update_entry, update_object,
  FoundEntry, hit, absent, vm_map_lookup_entry, Clip, null, entry_at, vm_map_entry_clip, Entered,
  vm_map_enter,
}

-- `delete_object`: the object is freed unless its count has come to 0. `none`: it is NULL.
unfoldable pub delete_object : Ptr → VmState → Option VmState
delete_object o s =
    let left = (s.objects o).ref_count -ℤ pos 1 in
    let s₁ = update_object o (λ x. record x { ref_count = left }) s in
    let s₂ : VmState = elim left [
      | pos zero ↦ s₁
      | pos (suc n) ↦ record s₁ { freed = o ∷ s.freed }
      | negsuc n ↦ record s₁ { freed = o ∷ s.freed }
    ] in
    if o == 0 then none else some s₂

-- `delete_vm_map_entry` with `dealloc_vm_map_entry`.
unfoldable pub delete_vm_map_entry : Ptr → VmState → Option VmState
unfolding delete_object list_del
delete_vm_map_entry e s = elim (delete_object (s.entry e).object s) [
  | none ↦ none
  | some s₁ ↦ some (record s₁ { links = list_del s.vmap.vmentry e s₁.links })
]

-- The entry that was found and the one that is cut from it at both ends of a range, with the
-- structures `p` and `q` for new entries. `fault` is a use of the NULL object of an entry.
pub data Clipped : Type 0 where
  missed : VmState → Clipped
  clipped : Ptr → Ptr → VmState → Clipped
  fault : Clipped
  endless : Clipped

unfoldable pub clip_range : ℕ → Ptr → Ptr → ℕ → ℕ → VmState → Clipped
unfolding vm_map_lookup_entry vm_map_entry_clip
clip_range fuel p q offset size s = elim (vm_map_lookup_entry fuel offset s) [
  | FoundEntry.endless ↦ endless
  | absent ↦ missed s
  | hit e s₁ ↦ elim (vm_map_entry_clip p e offset s₁) [
    | null ↦ missed s₁
    | Clip.fault ↦ Clipped.fault
    | entry_at n s₂ ↦ elim (vm_map_entry_clip q n (add_word offset size) s₂) [
      | null ↦ clipped e n s₂
      | Clip.fault ↦ Clipped.fault
      | entry_at r s₃ ↦ clipped e n s₃
    ]
  ]
]

-- How an operation on a range ends.
pub data Ranged : Type 0 where
  done : VmState → Ranged
  refused : Errno → VmState → Ranged
  fault : Ranged
  endless : Ranged

unfoldable pub vm_map_remove : ℕ → Ptr → Ptr → ℕ → ℕ → VmState → Ranged
unfolding clip_range delete_vm_map_entry
vm_map_remove fuel p q offset size s = elim (clip_range fuel p q offset size s) [
  | endless ↦ endless
  | missed s₁ ↦ refused minus_one s₁
  | Clipped.fault ↦ Ranged.fault
  | clipped e n s₁ ↦ elim (delete_vm_map_entry n s₁) [ none ↦ Ranged.fault | some s₂ ↦ done s₂ ]
]

-- `vm_deallocate`, on whole pages of 4096 bytes.
unfoldable pub vm_deallocate : ℕ → Ptr → Ptr → ℕ → ℕ → VmState → Ranged
unfolding vm_map_remove
vm_deallocate fuel p q offset size s =
    vm_map_remove fuel p q (offset / 4096 * 4096) (add_word size 4095 / 4096 * 4096) s

-- `vm_allocate`, whose result is always 0.
unfoldable pub vm_allocate : ℕ → Ptr → ℕ → VmState → Entered
unfolding vm_map_enter
vm_allocate fuel p size s =
    vm_map_enter fuel p s.vmap.start (add_word size 4095 / 4096 * 4096) 0 zero_fill s

-- The loop of `vm_lock_all` and `vm_unlock_all`, from the entry `e`, where `f` sets an entry's bits.
unfoldable pub each_entry : ℕ → (VmEntry → VmEntry) → Ptr → VmState → Option VmState
each_entry zero f e s = none
each_entry (suc n) f e s =
    let rest = each_entry n f (s.links.next e) (update_entry e f s) in
    if not (e == s.vmap.vmentry) then rest else some s

abbrev pub lock_entry : VmEntry → VmEntry
lock_entry y = record y { attr = bit_or y.attr entry_locked }

abbrev pub unlock_entry : VmEntry → VmEntry
unlock_entry y = record y { attr = clear_mask y.attr entry_locked }

unfoldable pub vm_lock_all : ℕ → VmState → Option VmState
unfolding each_entry
vm_lock_all fuel s = each_entry fuel lock_entry s.vmap.vmentry s

unfoldable pub vm_unlock_all : ℕ → VmState → Option VmState
unfolding each_entry
vm_unlock_all fuel s = each_entry fuel unlock_entry s.vmap.vmentry s

-- The part of `vm_lock`, `vm_unlock` and `vm_protect` that the three share; the pages' own marks are
-- left out.
unfoldable pub change_range : ℕ → Ptr → Ptr → ℕ → ℕ → (VmEntry → VmEntry) → VmState → Ranged
unfolding clip_range
change_range fuel p q offset size f s = elim (clip_range fuel p q offset size s) [
  | endless ↦ endless
  | missed s₁ ↦ refused enomem s₁
  | Clipped.fault ↦ Ranged.fault
  | clipped e n s₁ ↦ done (update_entry n f s₁)
]

abbrev pub all_done : Option VmState → Ranged
all_done none = endless
all_done (some s) = done s

unfoldable pub vm_lock : Bool → ℕ → Ptr → Ptr → ℕ → ℕ → ℕ → VmState → Ranged
unfolding vm_lock_all change_range
vm_lock superuser fuel p q offset size flag s =
    if not superuser
    then refused eperm s
    else if flag == 0
    then change_range fuel p q offset size lock_entry s
    else all_done (vm_lock_all fuel (record s { vmap = record s.vmap { attr = flag } }))

-- VM_LOCK is 3.
unfoldable pub vm_unlock : Bool → ℕ → Ptr → Ptr → ℕ → ℕ → ℕ → VmState → Ranged
unfolding vm_unlock_all change_range
vm_unlock superuser fuel p q offset size flag s =
    if not superuser
    then refused eperm s
    else if flag == 0
    then change_range fuel p q offset size unlock_entry s
    else all_done
        (vm_unlock_all fuel (record s { vmap = record s.vmap { attr = clear_mask s.vmap.attr 3 } }))

unfoldable pub vm_protect : ℕ → Ptr → Ptr → ℕ → ℕ → ℕ → VmState → Ranged
unfolding change_range
vm_protect fuel p q offset size prot s =
    change_range fuel p q offset size (λ y. record y { attr = bit_or y.attr prot }) s

-- `get_vaddr`, from the entry `e`: the address, and the map in which that entry has grown.
pub data Reserved : Type 0 where
  reserved : ℕ → VmState → Reserved
  full : Reserved
  endless : Reserved

unfoldable pub get_vaddr_from : ℕ → ℕ → Ptr → VmState → Reserved
get_vaddr_from zero size e s = endless
get_vaddr_from (suc n) size e s =
    let past = add_word (s.entry e).end size in
    let next = s.links.next e in
    let rest = get_vaddr_from n size next s in
    let here =
      if ltb s.vmap.end past
      then full
      else reserved (s.entry e).end (update_entry e (λ y. record y { end = past }) s) in
    if ltb past (s.entry next).start then here else if next == s.vmap.vmentry then here else rest

unfoldable pub get_vaddr : ℕ → ℕ → VmState → Reserved
unfolding get_vaddr_from
get_vaddr fuel size s = get_vaddr_from fuel size s.vmap.vmentry s

-- `free_vaddr`, which cuts the range off and removes nothing; its result is always 1.
unfoldable pub free_vaddr : ℕ → Ptr → Ptr → ℕ → ℕ → VmState → Ranged
unfolding clip_range
free_vaddr fuel p q va size s = elim (clip_range fuel p q va size s) [
  | endless ↦ endless
  | missed s₁ ↦ done s₁
  | Clipped.fault ↦ Ranged.fault
  | clipped e n s₁ ↦ done s₁
]
