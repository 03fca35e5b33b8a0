-- ===== src/Page.antt =====
-- The pages of physical memory (microkernel/mm/vm_page.c, include/kernel/vm_page.h): the list of free
-- pages, the hash table of the pages by object and offset, and the pages of each object. The table's
-- chains are the pages' `next` links, and a walk along one runs on fuel. The other lists are lists,
-- front first. `none` is undefined behaviour: a read through NULL, a list head that is taken for a
-- page, or a page that is not in the list that it is taken out of.
pub mod Table
pub mod Cycle
mod Tests
use Prim.Native.Nat.{bit_and, bit_or, bit_xor}
use manrix.Base.{
  ℕ, zero, suc, ◌+◌, ◌-◌, ◌*◌, ◌/◌, ◌%◌, ◌^◌, Bool, true, false, ◌&&◌, Option, none, some, List, [],
  ◌∷◌, ltb, leb, ◌==◌, if◌then◌else◌, has,
}
use manrix.Kernel.{Ptr, ◌>>=◌}
use manrix.Sched.{erase, last, but_last}

abbrev pub page_size : ℕ
page_size = 4096

-- PAGE_ALLOC_KER and PAGE_ALLOC_OTH.
abbrev pub page_alloc_ker : ℕ
page_alloc_ker = 1

abbrev pub page_alloc_oth : ℕ
page_alloc_oth = 0

abbrev pub vm_page_free : ℕ
vm_page_free = 1

abbrev pub vm_page_wired : ℕ
vm_page_wired = 16

-- `struct vm_page`
pub record Page : Type 0 where
  pub base : ℕ
  pub object : Ptr
  pub offset : ℕ
  pub count : ℕ
  pub flags : ℕ
  pub next : Ptr

-- The pages, the table, the one free list that is used, the objects' lists, and the counters
-- `nfree_pages`, `sysinfo.total_mem` and `sysinfo.used_mem`.
pub record Memory : Type 0 where
  pub page : Ptr → Page
  pub pagehash : ℕ → Ptr
  pub free_list : List Ptr
  pub pages_of : Ptr → List Ptr
  pub nfree_pages : ℕ
  pub total_mem : ℕ
  pub used_mem : ℕ

abbrev pub update_page : Ptr → (Page → Page) → Memory → Memory
update_page p f m = record m { page = λ q. if p == q then f (m.page p) else m.page q }

abbrev pub set_pages : Ptr → List Ptr → Memory → Memory
set_pages o xs m = record m { pages_of = λ q. if o == q then xs else m.pages_of q }

-- Subtraction of 32-bit words.
abbrev pub sub_word : ℕ → ℕ → ℕ
sub_word x y = (x + 2 ^ 32 - y % 2 ^ 32) % 2 ^ 32

unfoldable pub page_base : ℕ → ℕ
page_base addr = addr - addr % page_size

unfoldable pub phash : ℕ → ℕ
phash x = bit_and (bit_xor (x / 256) x) 1023

unfoldable pub page_hash : Ptr → ℕ → ℕ
unfolding phash
page_hash object offset = phash ((object + offset / page_size) % 2 ^ 32)

unfoldable pub put_to_free_list : Ptr → Memory → Memory
put_to_free_list p m = record m { free_list = p ∷ m.free_list }

-- `vm_page_insert`
unfoldable pub vm_page_insert : Ptr → Ptr → ℕ → Memory → Memory
vm_page_insert p object offset m =
    let b = page_hash object offset in
    let m₁ =
      update_page p (λ x. record x { object = object; offset = offset; next = m.pagehash b }) m in
    record m₁ { pagehash = λ i. if b == i then p else m.pagehash i }

-- The loop of `vm_page_remove`: at the page itself, its link is assigned to itself.
unfoldable pub unlink_self : ℕ → Ptr → Ptr → Memory → Option Memory
unlink_self zero p new m = none
unlink_self (suc n) p new m =
    let rest = unlink_self n p (m.page new).next m in
    if new == 0
    then some m
    else if new == p
    then some (update_page new (λ x. record x { next = (m.page p).next }) m)
    else rest

unfoldable pub vm_page_remove : ℕ → Ptr → Memory → Option Memory
unfolding unlink_self
vm_page_remove fuel p m =
    let b = page_hash (m.page p).object (m.page p).offset in
    if m.pagehash b == p
    then some (record m { pagehash = λ i. if b == i then (m.page p).next else m.pagehash i })
    else unlink_self fuel p (m.pagehash b) m

pub data Looked : Type 0 where
  found : Ptr → Looked
  missing : Looked
  fault : Looked
  unfinished : Looked

abbrev pub holds : Ptr → ℕ → Page → Bool
holds object offset x = (x.object == object) && (x.offset == offset)

-- The loop of `vm_page_lookup`.
unfoldable pub look : ℕ → Ptr → ℕ → Ptr → Memory → Looked
look zero object offset new m = unfinished
look (suc n) object offset new m =
    let rest = look n object offset (m.page new).next m in
    if new == 0 then missing else if holds object offset (m.page new) then found new else rest

unfoldable pub vm_page_lookup : ℕ → Ptr → ℕ → Memory → Looked
unfolding look
vm_page_lookup fuel object offset m =
    let p = m.pagehash (page_hash object offset) in
    if p == 0
    then fault
    else if holds object offset (m.page p)
    then found p
    else look fuel object offset p m

-- `list_del(&object->page, page, …)`
unfoldable pub unlist : Ptr → Ptr → Memory → Option Memory
unlist object p m =
    if has p (m.pages_of object)
    then some (set_pages object (erase p (m.pages_of object)) m)
    else none

unfoldable pub put_page : Ptr → Memory → Memory
unfolding put_to_free_list
put_page p m =
    let m₁ = put_to_free_list p m in record m₁ { used_mem = sub_word m.used_mem page_size }

-- `page_dealloc`, once the page is found: whether the page was given back.
unfoldable pub dealloc_found : ℕ → Ptr → Ptr → Memory → Option Memory
unfolding vm_page_remove unlist put_page
dealloc_found fuel object p m =
    let left = sub_word (m.page p).count 1 in
    let m₁ = update_page p (λ x. record x { count = left }) m in
    if left == 0
    then (vm_page_remove fuel p m₁ >>= λ m₂. unlist object p m₂ >>= λ m₃. some (put_page p m₃))
    else some m₁

-- `page_dealloc`: the number that it returns, with `true` for 0 and `false` for -1.
unfoldable pub page_dealloc : ℕ → Ptr → ℕ → Memory → Option (Bool × Memory)
unfolding vm_page_lookup dealloc_found
page_dealloc fuel object offset m = elim (vm_page_lookup fuel object offset m) [
  | found p ↦ elim (dealloc_found fuel object p m) [ none ↦ none | some m₁ ↦ some (true, m₁) ]
  | missing ↦ some (false, m)
  | fault ↦ none
  | unfinished ↦ none
]

-- `remove_pages`, for `n` pages from `offset` on.
unfoldable pub remove_pages : ℕ → ℕ → Ptr → ℕ → Memory → Option Memory
remove_pages zero fuel object offset m = some m
remove_pages (suc n) fuel object offset m = elim (page_dealloc fuel object offset m) [
  | none ↦ none
  | some r ↦ remove_pages n fuel object (offset + page_size) r.1
]

-- `free_pages`, for the pages that the object's list still has. A page that is still counted ends it.
unfoldable pub free_pages : ℕ → Ptr → List Ptr → Memory → Option Memory
free_pages fuel object [] m = some m
free_pages fuel object (p ∷ ps) m =
    let left = sub_word (m.page p).count 1 in
    let m₁ = update_page p (λ x. record x { count = left }) (set_pages object ps m) in
    elim (left == 0) [
      | false ↦ some m₁
      | true ↦ elim (vm_page_remove fuel p m₁) [
        | none ↦ none
        | some m₂ ↦ free_pages fuel object ps (put_page p m₂)
      ]
    ]

-- `get_page`: the page, or NULL. An empty list gives its own head, which is noticed only when it is
-- the list of the flag.
unfoldable pub get_page : ℕ → Memory → Option (Option Ptr × Memory)
get_page flag m = elim (last m.free_list) [
  | none ↦ if flag == page_alloc_ker then some (none, m) else none
  | some p ↦
      let n = sub_word m.nfree_pages 1 in
      let m₁ = update_page p (λ x. record x { next = 0; flags = 0 }) m in
      some (
        some p,
        record m₁ {
          free_list = but_last m.free_list;
          nfree_pages = n;
          used_mem = sub_word m.total_mem (n * page_size);
        },
      )
]

-- A page joins an object.
unfoldable pub add_page : Ptr → Ptr → ℕ → Memory → Memory
unfolding vm_page_insert
add_page p object offset m =
    let m₁ = vm_page_insert p object offset m in set_pages object (p ∷ m₁.pages_of object) m₁

-- `page_alloc`, for an object that is there.
unfoldable pub page_alloc : Ptr → ℕ → Memory → Option (Ptr × Memory)
unfolding get_page add_page page_base
page_alloc object offset m = elim (get_page page_alloc_oth m) [
  | none ↦ none
  | some r ↦ elim r.0 [
    | none ↦ none
    | some p ↦
        some (
          p,
          add_page p object (page_base offset) (update_page p (λ x. record x { count = 1 }) r.1),
        )
  ]
]

-- `page_free`
unfoldable pub page_free : ℕ → Ptr → Memory → Option Memory
unfolding vm_page_remove unlist put_page
page_free fuel p m =
    vm_page_remove fuel p m >>= λ m₁. unlist (m.page p).object p m₁ >>= λ m₂. some (put_page p m₂)

-- The search of `kmem_dealloc` through an object and its shadows, which are given as a list.
unfoldable pub kmem_dealloc : ℕ → List Ptr → ℕ → Memory → Option Memory
kmem_dealloc fuel [] vaddr m = some m
kmem_dealloc fuel (object ∷ shadows) vaddr m = elim (vm_page_lookup fuel object vaddr m) [
  | found p ↦ page_free fuel p m
  | missing ↦ kmem_dealloc fuel shadows vaddr m
  | fault ↦ none
  | unfinished ↦ none
]

-- `kmem_alloc`, for `n` pages of the kernel's object: their addresses, the first one's first. The page
-- table entries are not modelled.
unfoldable pub kmem_alloc : ℕ → Ptr → Memory → Option (List ℕ × Memory)
kmem_alloc zero kernel_object m = some ([], m)
kmem_alloc (suc n) kernel_object m = elim (get_page page_alloc_ker m) [
  | none ↦ none
  | some r ↦ elim r.0 [
    | none ↦ none
    | some p ↦
        let base = (r.1.page p).base in
        elim (kmem_alloc n kernel_object (add_page p kernel_object base r.1)) [
          | none ↦ none
          | some rest ↦ some (base ∷ rest.0, rest.1)
        ]
  ]
]

-- The pages of an object between two offsets, both included, are wired or unwired.
unfoldable pub wire_pages : Bool → ℕ → ℕ → List Ptr → Memory → Memory
wire_pages wired start stop [] m = m
wire_pages wired start stop (p ∷ ps) m =
    let x = m.page p in
    let flags =
      if wired
      then bit_or x.flags vm_page_wired
      else bit_and x.flags (bit_xor vm_page_wired 0xffff) in
    let m₁ =
      if leb start x.offset && leb x.offset stop
      then update_page p (λ y. record y { flags = flags }) m
      else m in
    wire_pages wired start stop ps m₁

-- `vm_lock_object` and `vm_unlock_object`
unfoldable pub vm_lock_object : Bool → Ptr → ℕ → ℕ → Memory → Memory
unfolding wire_pages
vm_lock_object wired object start stop m = wire_pages wired start stop (m.pages_of object) m
