-- ===== src/Slab/Tests.antt =====
-- A cache of objects of 2000 bytes, two to a page.
use manrix.Base.{ℕ, ◌+◌, ◌*◌, ◌≡◌, refl, ◌≤◌, true, some, [], ◌∷◌, arith}
use manrix.Slab.{
  Ptr, bufctl_end, Slab, Cache, update_slab, cache_calculate, fill_bufctl, kmem_cache_create, got,
  take_object, provide_slab, kmem_cache_alloc, object_index,
}
use manrix.Slab.Alloc.{HandedOut, allocate, objects, allocate-objects}
use manrix.Slab.Free.{LastObject}

abbrev no_slab : Ptr → Slab
no_slab p = record { objaddr = 0; nentries = 0; free = 0; bufctl = [] }

abbrev new_cache : Cache
new_cache = record {
  partial = [];
  full = [];
  free = [];
  object = 2000;
  waste = 76;
  nobjects = 2;
  slab = no_slab;
}

abbrev page_slab : ℕ → ℕ → Slab
page_slab n free = record { objaddr = 8212; nentries = n; free = free; bufctl = 1 ∷ 0xffff ∷ [] }

abbrev with_slab : ℕ → ℕ → Cache
with_slab n free = record new_cache { partial = 8192 ∷ []; slab = λ p. page_slab n free }

create_test : kmem_cache_create true 2000 no_slab ≡ some new_cache
unfolding kmem_cache_create cache_calculate
create_test = refl

-- The second allocation takes the last object.
alloc_test :
    kmem_cache_alloc 0 (with_slab 1 1)
    ≡ got 10212 (update_slab 8192 (page_slab 2 bufctl_end) (with_slab 1 1))
unfolding kmem_cache_alloc take_object provide_slab
alloc_test = refl

allocate-objects_example :
    (c' : Cache) × (allocate (8192 ∷ 0 ∷ []) new_cache
      ≡ some (objects 2 (8192 + 16 + 2 * 2) 2000 0, c'))
    × (8192 + 16 + 2 * 2 + 2 * 2000 ≤ 8192 + 4096)
allocate-objects_example =
    allocate-objects 8192 (0 ∷ []) 2000 no_slab new_cache create_test (omega arith)

all_out : HandedOut 8192 2 (with_slab 2 bufctl_end)
unfolding fill_bufctl
all_out = record { first = refl; array = refl; link = refl; count = refl; fits = omega arith }

last : LastObject 8192 8212 (with_slab 1 1)
unfolding object_index
last = record { first = refl; no_free = refl; count = refl; inside = omega arith }
