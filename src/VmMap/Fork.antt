-- ===== src/VmMap/Fork.antt =====
-- The copy of a map at a fork, and its end (vm_entry_copy, vm_map_fork, vm_map_destroy, exit_vm_map).
use Prim.Native.Nat.{bit_or}
use manrix.Base.{
  ℕ, zero, suc, ◌-◌, Bool, true, false, Option, none, some, List, [], ◌∷◌, ◌==◌, if◌then◌else◌,
}
use manrix.Base.Int.{pos, negsuc, ◌+ℤ◌, ◌-ℤ◌, ltb_ℤ}
use manrix.Kernel.{Ptr, test_mask}
use manrix.DList.{list_del}
use manrix.VmMap.{
  VmMap, VmObject, VmState, kernel_base, clear_mask, update_entry, update_object, create_vm_entry,
  vm_map_create,
}

abbrev pub dup_all : ℕ
dup_all = 1

abbrev pub dup_none : ℕ
dup_none = 4

-- COW_IN_PROGRESS is 1 and COPY_ON_WRITE is 2.
abbrev pub shared_object : VmObject → VmObject
shared_object o = record o { attribute = bit_or o.attribute 3; ref_count = o.ref_count +ℤ pos 1 }

-- The first loop of `vm_entry_copy`, into the state's map, with the structures `ps` for the new
-- entries. `none`: the structures are used up, or an entry has no object, and it writes through NULL.
unfoldable pub copy_entries : List Ptr → Ptr → Ptr → Ptr → VmState → Option VmState
copy_entries [] old e last s = none
copy_entries (p ∷ ps) old e last s =
    let x = s.entry e in
    let s₁ =
      update_object x.object shared_object (update_entry p (λ y. x) (create_vm_entry p last s)) in
    let next = s₁.links.next e in
    let rest = copy_entries ps old next p s₁ in
    if x.object == 0 then none else if next == old then some s₁ else rest

-- The last object of a chain of shadows.
unfoldable pub last_shadow : ℕ → Ptr → VmState → Option Ptr
last_shadow zero o s = none
last_shadow (suc n) o s =
    let rest = last_shadow n (s.objects o).shadow s in
    if (s.objects o).shadow == 0 then some o else rest

-- The second loop, for at most `n` entries. `none` is also a read through the NULL of an entry without an
-- object.
unfoldable pub end_copy : ℕ → ℕ → Ptr → Ptr → VmState → Option VmState
unfolding last_shadow
end_copy zero fuel old e s = none
end_copy (suc n) fuel old e s =
    if (s.entry e).object == 0 then none else (elim (last_shadow fuel (s.entry e).object s) [
      | none ↦ none
      | some o ↦
          let s₁ = update_object o (λ x. record x { attribute = clear_mask x.attribute 1 }) s in
          let next = s.links.next e in
          elim (next == old) [ true ↦ some s₁ | false ↦ end_copy n fuel old next s₁ ]
    ])

unfoldable pub vm_entry_copy : ℕ → ℕ → List Ptr → VmMap → VmState → Option VmState
unfolding copy_entries end_copy
vm_entry_copy n fuel ps old s = elim (copy_entries ps old.vmentry old.vmentry 0 s) [
  | none ↦ none
  | some s₁ ↦ end_copy n fuel old.vmentry old.vmentry s₁
]

-- `vm_map_fork` of the state's map, with the structure `m` for the new map: the state's map is then
-- the new one. The page tables are left out.
unfoldable pub vm_map_fork : ℕ → ℕ → List Ptr → VmMap → ℕ → VmState → Option VmState
unfolding vm_map_create
vm_map_fork n fuel ps m flag s =
    let new = record (vm_map_create m) { start = 0x20_0000; end = kernel_base - 1; hint = 0 } in
    let empty_map = record new { vmentry = 0 } in
    if test_mask flag dup_all
    then vm_entry_copy n fuel ps s.vmap (record s { vmap = empty_map })
    else if test_mask flag dup_none
    then some (record s { vmap = record empty_map { size = kernel_base } })
    else some (record s { vmap = new })

-- Whether `vm_map_destroy` frees the map.
unfoldable pub vm_map_destroy : VmMap → Bool
vm_map_destroy m = elim m.refs [ pos zero ↦ true | pos (suc n) ↦ false | negsuc n ↦ false ]

-- The loop of `exit_vm_map`, from the entry `e`, which starts at the entry where it ends.
unfoldable pub exit_from : ℕ → Ptr → VmState → Option VmState
unfolding list_del
exit_from zero e s = none
exit_from (suc n) e s =
    let s₁ = record s { links = list_del s.vmap.vmentry e s.links } in
    let rest = exit_from n (s₁.links.next e) s₁ in if e == s.vmap.vmentry then some s else rest

unfoldable pub exit_vm_map : ℕ → VmState → Option VmState
unfolding exit_from
exit_vm_map fuel s =
    let left = s.vmap.refs -ℤ pos 1 in
    let s₁ = record s { vmap = record s.vmap { refs = left } } in
    if ltb_ℤ (pos 0) left
    then some s₁
    else if s.vmap.vmentry == 0
    then some s₁
    else exit_from fuel s.vmap.vmentry s₁
