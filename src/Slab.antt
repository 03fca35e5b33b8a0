-- ===== src/Slab.antt =====
-- The slab allocator (microkernel/mm/vm_slab.c). One cache: its lists name the slabs, front first,
-- and a slab is the page that holds it. What `kmem_alloc` returns is an argument. The constructor
-- and the destructor of the objects write only into the objects, which have no contents here.
pub mod Alloc
pub mod Free
mod Tests
use manrix.Base.{
  ℕ, zero, suc, ◌+◌, ◌-◌, ◌*◌, ◌/◌, ◌%◌, ◌^◌, Bool, true, false, Option, none, some, List, [], ◌∷◌,
  ltb, ◌==◌, if◌then◌else◌, get_elem?, set, length,
}

abbrev pub Ptr : Type 0
Ptr = ℕ

abbrev pub bufctl_end : ℕ
bufctl_end = 0xffff

-- `struct kmem_slab`, and the array of `bufctl_t` behind it.
pub record Slab : Type 0 where
  pub objaddr : Ptr
  pub nentries : ℕ
  pub free : ℕ
  pub bufctl : List ℕ

-- `struct kmem_cache`
pub record Cache : Type 0 where
  pub partial : List Ptr
  pub full : List Ptr
  pub free : List Ptr
  pub object : ℕ
  pub waste : ℕ
  pub nobjects : ℕ
  pub slab : Ptr → Slab

abbrev pub update_slab : Ptr → Slab → Cache → Cache
update_slab p s c = record c { slab = λ q. if p == q then s else c.slab q }

-- `cache_calculate`: a page of 4096 bytes, less 16 for the slab, and 2 for the `bufctl_t` of each
-- object.
pub cache_calculate : ℕ → ℕ × ℕ
cache_calculate object = (4080 / (object + 2), 4080 % (object + 2))

-- The array that `slab_fill` writes: each entry names the next object, and the last ends the list.
pub fill_bufctl : ℕ → ℕ → List ℕ
fill_bufctl zero i = []
fill_bufctl (suc zero) i = bufctl_end ∷ []
fill_bufctl (suc (suc n)) i = (i + 1) ∷ fill_bufctl (suc n) (i + 1)

-- `slab_fill`
pub slab_fill : Ptr → Cache → Slab
unfolding fill_bufctl
slab_fill slab cache = record {
  objaddr = slab + 16 + cache.nobjects * 2;
  nentries = 0;
  free = 0;
  bufctl = fill_bufctl cache.nobjects 0;
}

-- `kmem_cache_grow`, where `kmem_alloc` gave `page`.
pub kmem_cache_grow : Ptr → Cache → Cache
kmem_cache_grow page cache =
    let c = update_slab page (slab_fill page cache) cache in record c { partial = page ∷ c.partial }

-- `kmem_cache_create`, as far as it sets up the cache; `none` is NULL.
pub kmem_cache_create : Bool → ℕ → (Ptr → Slab) → Option Cache
unfolding cache_calculate
kmem_cache_create named size slab =
    let (nobjects, waste) = cache_calculate size in
    if (if named then size == 0 else true)
    then none
    else if nobjects == 0
    then none
    else some (record {
      partial = [];
      full = [];
      free = [];
      object = size;
      waste = waste;
      nobjects = nobjects;
      slab = slab;
    })

-- How an allocation ends. `beyond`: the address that is returned, from a slab whose list of free
-- objects was at its end; the next link is then read outside the array, so the cache is unknown.
pub data Allocated : Type 0 where
  got : Ptr → Cache → Allocated
  beyond : Ptr → Allocated
  undefined : Allocated

-- The end of `kmem_cache_alloc`, on the first partial slab.
pub take_object : Cache → Allocated
take_object cache = elim cache.partial [
  | [] ↦ undefined
  | slab ∷ rest ↦
      let s = cache.slab slab in
      let objp : Ptr = s.objaddr + s.free * cache.object in
      elim (get_elem? s.bufctl s.free) [
        | none ↦ beyond objp
        | some next ↦
            got objp (update_slab slab (record s { free = next; nentries = s.nentries + 1 }) cache)
      ]
]

-- The first part of `kmem_cache_alloc`: a partial slab is provided.
pub provide_slab : Ptr → Cache → Cache
unfolding kmem_cache_grow
provide_slab page cache = elim cache.partial [
  | slab ∷ rest ↦ cache
  | [] ↦ elim cache.free [
    | [] ↦ kmem_cache_grow page cache
    | temp ∷ rest ↦ record cache { free = rest; partial = temp ∷ [] }
  ]
]

pub kmem_cache_alloc : Ptr → Cache → Allocated
kmem_cache_alloc page cache = take_object (provide_slab page cache)

-- The label `free`: the first partial slab goes to the list `full`.
pub retire : Cache → Option Cache
retire cache = elim cache.partial [
  | [] ↦ none
  | slab ∷ rest ↦ some (record cache { partial = rest; full = slab ∷ cache.full })
]

-- The index of an object, as a 16-bit number, after a subtraction of 32-bit addresses.
pub object_index : Ptr → Slab → ℕ → ℕ
object_index obj s object = (obj + 2 ^ 32 - s.objaddr) % 2 ^ 32 / object % 2 ^ 16

-- `kmem_cache_free`, on the first partial slab whatever the object. `none`: there is no such slab,
-- or the index is outside the array.
pub kmem_cache_free : Ptr → Cache → Option Cache
unfolding object_index
kmem_cache_free obj cache = elim cache.partial [
  | [] ↦ none
  | slab ∷ rest ↦
      let s = cache.slab slab in
      let nobj = object_index obj s cache.object in
      let c =
        update_slab slab
          (record s { bufctl = set s.bufctl nobj s.free; free = nobj; nentries = s.nentries - 1 })
          cache in
      if s.nentries == 0
      then retire cache
      else if ltb nobj (length s.bufctl)
      then (if s.nentries - 1 == 0 then retire c else some c)
      else none
]

-- `free_all`: the pages that go back to `page_dealloc`, and the cache.
pub free_all : Cache → List Ptr × Cache
free_all cache = (cache.free, record cache { free = [] })
