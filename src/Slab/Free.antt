-- ===== src/Slab/Free.antt =====
-- What becomes of a slab whose last object is given back.
use manrix.Base.{◌<◌, ◌≡◌, refl, some, [], ◌∷◌, arith, set, length}
use manrix.Slab.{
  Ptr, Cache, update_slab, provide_slab, kmem_cache_alloc, retire, object_index, kmem_cache_free,
  free_all, kmem_cache_grow, take_object,
}

-- A cache whose only slab has one object left, and no empty slabs.
pub record LastObject (page obj : Ptr) (c : Cache) : Type 0 where
  pub first : c.partial ≡ page ∷ []
  pub no_free : c.free ≡ []
  pub count : (c.slab page).nentries ≡ 1
  pub inside : object_index obj (c.slab page) c.object < length (c.slab page).bufctl

-- The cache after the object has come back: its slab is among the full ones.
abbrev pub retired : Ptr → Ptr → Cache → Cache
retired page obj c =
    let s = c.slab page in
    let i = object_index obj s c.object in
    record (update_slab page (record s { bufctl = set s.bufctl i s.free; free = i; nentries = 0 })
      c) { partial = []; full = page ∷ c.full }

free_last :
    (page obj : Ptr) (c : Cache)
    → LastObject page obj c
    → kmem_cache_free obj c ≡ some (retired page obj c)
unfolding kmem_cache_free retire object_index
free_last page obj c h = ground (arith, h.first, h.count, h.inside)

grows :
    (q : Ptr) (c : Cache)
    → c.partial ≡ []
    → c.free ≡ []
    → kmem_cache_alloc q c ≡ take_object (kmem_cache_grow q c)
unfolding kmem_cache_alloc provide_slab
grows q c p f = ground (arith, p, f)

-- When the last object of the only partial slab is given back, and no slab is free, the slab goes to
-- the list of full slabs: the allocator gives no page back, and the next allocation takes a new page.
pub kmem_cache_free-leaks :
    (page obj q : Ptr) (c : Cache)
    → LastObject page obj c
    → (d : Cache) × (kmem_cache_free obj c ≡ some d)
      × (d.full ≡ page ∷ c.full)
      × (free_all d ≡ ([], d))
      × (kmem_cache_alloc q d ≡ take_object (kmem_cache_grow q d))
unfolding free_all
kmem_cache_free-leaks page obj q c h = (
  retired page obj c,
  free_last page obj c h,
  refl,
  ground (arith, h.no_free),
  grows q (retired page obj c) refl h.no_free,
)
