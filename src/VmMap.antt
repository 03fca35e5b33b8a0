-- ===== src/VmMap.antt =====
-- The address map of a process (microkernel/mm/vm_map.c, vm.c, and the objects' counts of
-- vm_object.c). The entries of a map are a ring of links with no head of its own: the map points to
-- one of them. NULL is 0. The locks do nothing on one processor and are left out. The objects' pages
-- are those of Page.
pub mod Ranges
pub mod Fork
pub mod Clips
pub mod Entering
pub mod Copies
pub mod Forks
pub mod Walks
mod Tests
use Prim.Native.Nat.{bit_and, bit_or}
use manrix.Base.{
  ℕ, zero, suc, ◌+◌, ◌-◌, ◌*◌, ◌/◌, ◌%◌, ◌^◌, Bool, true, false, not, ◌||◌, ◌&&◌, Option, none,
  some, List, [], ◌∷◌, ltb, leb, ◌==◌, if◌then◌else◌,
}
use manrix.Base.Int.{ℤ, pos, ◌+ℤ◌, ◌-ℤ◌, ltb_ℤ}
use manrix.Kernel.{Ptr, Errno, eperm, enomem, einval, test_mask}
use manrix.DList.{Links, set_next, set_prev, list_init, list_add, list_add_next, list_del}

abbrev pub zero_fill : ℕ
zero_fill = 1

abbrev pub object_fixed : ℕ
object_fixed = 4

abbrev pub entry_locked : ℕ
entry_locked = 16

abbrev pub kernel_base : ℕ
kernel_base = 0xE000_0000

-- A 32-bit sum.
abbrev pub add_word : ℕ → ℕ → ℕ
add_word a b = (a + b) % 2 ^ 32

-- `x | m` and `x & ~m`
abbrev pub set_mask : ℕ → ℕ → ℕ
set_mask x m = bit_or x m

abbrev pub clear_mask : ℕ → ℕ → ℕ
clear_mask x m = x - bit_and x m

-- `struct vm_map_entry`, without its links.
pub record VmEntry : Type 0 where
  pub start : ℕ
  pub end : ℕ
  pub object : Ptr
  pub kind : ℕ
  pub attr : ℕ

-- `struct vm_object`, without its pages.
pub record VmObject : Type 0 where
  pub ref_count : ℤ
  pub shadow : Ptr
  pub attribute : ℕ

-- `struct vm_map`
pub record VmMap : Type 0 where
  pub vmentry : Ptr
  pub refs : ℤ
  pub size : ℕ
  pub start : ℕ
  pub end : ℕ
  pub hint : Ptr
  pub attr : ℕ

-- A map, the entries with their links, the objects, and the objects that were freed.
pub record VmState : Type 0 where
  pub vmap : VmMap
  pub links : Links
  pub entry : Ptr → VmEntry
  pub objects : Ptr → VmObject
  pub freed : List Ptr

abbrev pub update_entry : Ptr → (VmEntry → VmEntry) → VmState → VmState
update_entry p f s = record s { entry = λ q. if p == q then f (s.entry p) else s.entry q }

abbrev pub update_object : Ptr → (VmObject → VmObject) → VmState → VmState
update_object p f s = record s { objects = λ q. if p == q then f (s.objects p) else s.objects q }

-- `create_vm_entry`, with the structure `p` that was allocated.
unfoldable pub create_vm_entry : Ptr → Ptr → VmState → VmState
unfolding list_init list_add list_add_next
create_vm_entry p nextentry s =
    if s.vmap.vmentry == 0
    then record s { vmap = record s.vmap { vmentry = p }; links = list_init p s.links }
    else if nextentry == 0
    then record s { links = list_add s.vmap.vmentry p s.links }
    else record s { links = list_add_next nextentry p s.links }

-- The map that `vm_map_create` makes in the structure `m`.
unfoldable pub vm_map_create : VmMap → VmMap
vm_map_create m = record m { start = 0; end = kernel_base; refs = pos 1 }

abbrev pub inside : ℕ → VmEntry → Bool
inside address e = leb e.start address && leb address e.end

-- What `vm_map_lookup_entry` finds. With `endless`, the walk takes more steps than its fuel.
pub data FoundEntry : Type 0 where
  hit : Ptr → VmState → FoundEntry
  absent : FoundEntry
  endless : FoundEntry

unfoldable pub lookup_from : ℕ → ℕ → Ptr → VmState → FoundEntry
lookup_from zero address tmp s = endless
lookup_from (suc n) address tmp s =
    let rest = lookup_from n address (s.links.next tmp) s in
    if tmp == 0
    then absent
    else if inside address (s.entry tmp)
    then hit tmp (record s { vmap = record s.vmap { hint = tmp } })
    else if s.links.next tmp == s.vmap.vmentry
    then absent
    else rest

unfoldable pub vm_map_lookup_entry : ℕ → ℕ → VmState → FoundEntry
unfolding lookup_from
vm_map_lookup_entry fuel address s =
    if s.vmap.vmentry == 0
    then absent
    else if not (s.vmap.hint == 0) && inside address (s.entry s.vmap.hint)
    then hit s.vmap.hint s
    else lookup_from fuel address s.vmap.vmentry s

-- `vm_map_entry_clip`, with the structure `p` for a new entry. The assignment `*nextentry = *entry`
-- copies the links too; an entry without an object counts up through NULL.
pub data Clip : Type 0 where
  entry_at : Ptr → VmState → Clip
  null : Clip
  fault : Clip

unfoldable pub vm_map_entry_clip : Ptr → Ptr → ℕ → VmState → Clip
unfolding create_vm_entry
vm_map_entry_clip p e start s =
    let x = s.entry e in
    let s₁ = create_vm_entry p e s in
    let l = set_prev p (s₁.links.prev e) (set_next p (s₁.links.next e) s₁.links) in
    let s₂ =
      update_object x.object (λ o. record o { ref_count = o.ref_count +ℤ pos 1 })
        (record s₁ { links = l }) in
    if start == x.start
    then entry_at e s
    else if ltb x.start start && ltb start x.end
    then (if x.object == 0
        then fault
        else entry_at p (
            update_entry e (λ y. record y { end = start })
              (update_entry p (λ y. record x { start = start }) s₂)))
    else null

-- The look for room of `vm_map_enter`, from the entry `e`: the last entry before the room, or `none`
-- when the fuel is used up. `past` is the end that the new mapping would have.
unfoldable pub room_from : ℕ → ℕ → ℕ → Ptr → VmState → Option Ptr
room_from zero size past e s = none
room_from (suc n) size past e s =
    let next = s.links.next e in
    let rest = room_from n size (add_word (s.entry e).end size) next s in
    if next == s.vmap.vmentry
    then some e
    else if ltb past (s.entry next).start
    then some e
    else rest

-- How `vm_map_enter` ends: with the address of the mapping, or with an error.
pub data Entered : Type 0 where
  entered : ℕ → VmState → Entered
  failed : Errno → VmState → Entered
  endless : Entered

-- The label `createntry`: `newentry` is where the new entry goes.
unfoldable pub create_entry : Ptr → ℕ → ℕ → Ptr → Ptr → ℕ → VmState → Entered
unfolding create_vm_entry
create_entry p start past newentry object attribute s =
    let fill = λ (y : VmEntry). record y {
      object = object;
      start = start;
      end = past;
      kind = attribute % 2 ^ 16;
    } in
    if ltb s.vmap.end past
    then failed enomem s
    else entered start (update_entry p fill (create_vm_entry p newentry s))

-- The label `confirm`: an entry of the kind asked for grows, for a mapping that has no object.
unfoldable pub confirm : Ptr → ℕ → Ptr → ℕ → Ptr → VmState → Entered
unfolding create_entry
confirm p size object attribute e s =
    let start = (s.entry e).end in
    if (object == 0) && test_mask (s.entry e).kind attribute
    then entered start (update_entry e (λ y. record y { end = add_word start size }) s)
    else create_entry p start (add_word start size) e object attribute s

-- The loop at the label `handle_fixed`, from the entry `e`: `ok` has the entry where it stops.
pub data Fixed : Type 0 where
  at_entry : Ptr → Fixed
  taken : Fixed
  endless : Fixed

unfoldable pub fixed_from : ℕ → ℕ → ℕ → Ptr → VmState → Fixed
fixed_from zero start past e s = endless
fixed_from (suc n) start past e s =
    let x = s.entry e in
    let next = s.links.next e in
    let rest = fixed_from n start past next s in
    if ltb x.start past && ltb past x.end
    then taken
    else if ltb start x.start
    then (if ltb x.start past then taken else at_entry e)
    else if next == s.vmap.vmentry
    then at_entry next
    else rest

-- `vm_map_enter`, with the structure `p` for a new entry.
unfoldable pub vm_map_enter : ℕ → Ptr → ℕ → ℕ → Ptr → ℕ → VmState → Entered
unfolding create_entry
vm_map_enter fuel p address size object attribute s =
    let past = add_word address size in
    if s.vmap.vmentry == 0
    then create_entry p address past 0 object attribute s
    else (elim (vm_map_lookup_entry fuel address s) [
      | endless ↦ endless
      | hit e s₁ ↦
          if test_mask attribute object_fixed
          then failed einval s₁
          else (elim (room_from fuel size (add_word (s₁.entry e).end size) e s₁) [
            | none ↦ endless
            | some last ↦ confirm p size object attribute last s₁
          ])
      | absent ↦ elim (fixed_from fuel address past s.vmap.vmentry s) [
        | endless ↦ endless
        | taken ↦ failed enomem s
        | at_entry e ↦ create_entry p address past e object attribute s
      ]
    ])
