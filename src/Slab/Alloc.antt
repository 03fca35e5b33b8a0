-- ===== src/Slab/Alloc.antt =====
-- What a fresh slab hands out.
use manrix.Base.{
  ℕ, zero, suc, ◌+◌, ◌*◌, ◌/◌, ◌≤◌, ◌<◌, ◌≡◌, refl, true, Option, none, some, List, [], ◌∷◌, arith,
  ◌==◌, if◌then◌else◌, get_elem?, length, ◌∙◌, ap, sym,
}
use manrix.Slab.{
  Ptr, bufctl_end, Slab, Cache, update_slab, fill_bufctl, slab_fill, kmem_cache_grow,
  kmem_cache_create, got, beyond, undefined, take_object, provide_slab, kmem_cache_alloc,
}

length-fill_bufctl : (n i : ℕ) → length (fill_bufctl n i) ≡ n
unfolding fill_bufctl
length-fill_bufctl zero i = refl
length-fill_bufctl (suc zero) i = omega arith
length-fill_bufctl (suc (suc n)) i = omega (arith, length-fill_bufctl (suc n) (i + 1))

-- Entry `j` names object `j + 1`, but for the last.
get-fill_bufctl :
    (n i j : ℕ)
    → j < n
    → get_elem? (fill_bufctl n i) j ≡ some (if suc j == n then bufctl_end else i + j + 1)
unfolding fill_bufctl
get-fill_bufctl zero i j lt = absurd (omega arith)
get-fill_bufctl (suc zero) i zero lt = ground arith
get-fill_bufctl (suc zero) i (suc j) lt = absurd (omega arith)
get-fill_bufctl (suc (suc n)) i zero lt = ground arith
get-fill_bufctl (suc (suc n)) i (suc j) lt = ground (arith, get-fill_bufctl (suc n) (i + 1) j)

get_elem?-past {ℓ} : {A : Type ℓ} (xs : List A) (i : ℕ) → length xs ≤ i → get_elem? xs i ≡ none
get_elem?-past [] i le = refl
get_elem?-past (x ∷ xs) zero le = absurd (omega arith)
get_elem?-past (x ∷ xs) (suc i) le = get_elem?-past xs i (omega arith)

-- `n` allocations in a row, with pages for those that need one; `none` if one does not end in `got`.
pub allocate : List Ptr → Cache → Option (List Ptr × Cache)
allocate [] c = some ([], c)
allocate (page ∷ pages) c = elim (kmem_cache_alloc page c) [
  | beyond p ↦ none
  | undefined ↦ none
  | got p c' ↦ elim (allocate pages c') [ none ↦ none | some (ps, d) ↦ some (p ∷ ps, d) ]
]

-- The addresses of `n` objects in a row, from the one with index `i`.
pub objects : ℕ → ℕ → ℕ → ℕ → List Ptr
objects zero base size i = []
objects (suc n) base size i = (base + i * size) ∷ objects n base size (suc i)

-- The first slab of the cache has handed out its first `i` objects, and none has come back.
pub record HandedOut (page : Ptr) (i : ℕ) (c : Cache) : Type 0 where
  pub first : c.partial ≡ page ∷ []
  pub array : (c.slab page).bufctl ≡ fill_bufctl c.nobjects 0
  pub link : (c.slab page).free ≡ (if i == c.nobjects then bufctl_end else i)
  pub count : (c.slab page).nentries ≡ i
  pub fits : c.nobjects < bufctl_end

abbrev next_link : ℕ → ℕ → ℕ
next_link i n = if suc i == n then bufctl_end else i + 1

-- The cache after object `i` of its first slab was handed out.
abbrev pub taken : Ptr → ℕ → Cache → Cache
taken page i c =
    update_slab page (record (c.slab page) { free = next_link i c.nobjects; nentries = i + 1 }) c

take_object-got :
    (page : Ptr) (i next : ℕ) (c : Cache)
    → c.partial ≡ page ∷ []
    → (c.slab page).free ≡ i
    → (c.slab page).nentries ≡ i
    → get_elem? (c.slab page).bufctl i ≡ some next
    → take_object c
      ≡ got
          ((c.slab page).objaddr + i * c.object)
          (update_slab page (record (c.slab page) { free = next; nentries = i + 1 }) c)
unfolding take_object
take_object-got page i next c first link count read = ground (arith, first, link, count, read)

provide_slab-partial : (q page : Ptr) (c : Cache) → c.partial ≡ page ∷ [] → provide_slab q c ≡ c
unfolding provide_slab
provide_slab-partial q page c first = ground (arith, first)

module _ (page q : Ptr) (i : ℕ) (c : Cache) (h : HandedOut page i c) where
  alloc_inside :
      i < c.nobjects
      → (kmem_cache_alloc q c ≡ got ((c.slab page).objaddr + i * c.object) (taken page i c))
        × HandedOut page (suc i) (taken page i c)
  unfolding kmem_cache_alloc
  alloc_inside lt = (
    rw (provide_slab-partial q page c h.first) (
        take_object-got page i (next_link i c.nobjects) c h.first (ground (arith, h.link)) h.count
          (rw h.array (get-fill_bufctl c.nobjects 0 i lt ∙ ap (λ t. some t) (ground arith)))),
    record {
      first = h.first;
      array = ground (arith, h.array);
      link = ground arith;
      count = ground arith;
      fits = h.fits;
    },
  )

  -- A slab all of whose objects are handed out stays the first partial slab: the next allocation
  -- returns the address of an object 65535, far beyond the page, whatever the size of the objects.
  pub kmem_cache_alloc-beyond :
      i ≡ c.nobjects → kmem_cache_alloc q c ≡ beyond ((c.slab page).objaddr + bufctl_end * c.object)
  unfolding kmem_cache_alloc take_object
  kmem_cache_alloc-beyond e =
      let link : (c.slab page).free ≡ bufctl_end = ground (arith, h.link) in
      let past : get_elem? (c.slab page).bufctl bufctl_end ≡ none = rw h.array (
        get_elem?-past (fill_bufctl c.nobjects 0) bufctl_end
          (omega (arith, length-fill_bufctl c.nobjects 0, h.fits))) in
      rw (provide_slab-partial q page c h.first) (ground (arith, h.first, link, past))

allocate-step :
    (q p : Ptr) (pages ps : List Ptr) (c d e : Cache)
    → kmem_cache_alloc q c ≡ got p d
    → allocate pages d ≡ some (ps, e)
    → allocate (q ∷ pages) c ≡ some (p ∷ ps, e)
unfolding allocate
allocate-step q p pages ps c d e h k = rw (h, k, allocate) refl

-- A run of allocations from the first slab, as far as its objects go.
allocate-HandedOut :
    (pages : List Ptr) (page : Ptr) (i : ℕ) (c : Cache)
    → HandedOut page i c
    → i + length pages ≤ c.nobjects
    → (c' : Cache) × (allocate pages c
        ≡ some (objects (length pages) (c.slab page).objaddr c.object i, c'))
      × HandedOut page (i + length pages) c'
      × (c'.nobjects ≡ c.nobjects)
      × ((c'.slab page).objaddr ≡ (c.slab page).objaddr)
      × (c'.object ≡ c.object)
unfolding allocate objects
allocate-HandedOut [] page i c h le =
    let same : i ≡ i + 0 = omega arith in (c, refl, rw (← same) h, refl, refl, refl)
allocate-HandedOut (q ∷ pages) page i c h le =
    let (e, h') = alloc_inside page q i c h (omega arith) in
    let (c', e', h'', same, base, size) =
      allocate-HandedOut pages page (suc i) (taken page i c) h' (omega arith) in
    let base_same : ((taken page i c).slab page).objaddr ≡ (c.slab page).objaddr = ground arith in
    let moved : suc i + length pages ≡ i + suc (length pages) = omega arith in
    (
      c',
      allocate-step q _ pages _ c (taken page i c) c' e (rw base_same at e'),
      rw (← moved) h'',
      same,
      base ∙ ground arith,
      size,
    )

-- A new cache hands out its first object from the page that it is given.
grow-HandedOut :
    (page : Ptr) (c : Cache)
    → c.partial ≡ []
    → c.free ≡ []
    → c.nobjects < bufctl_end
    → 0 < c.nobjects
    → (provide_slab page c ≡ kmem_cache_grow page c) × HandedOut page 0 (kmem_cache_grow page c)
unfolding provide_slab kmem_cache_grow slab_fill
grow-HandedOut page c none_partial none_free fits some_objects = (
  ground (arith, none_partial, none_free),
  record {
    first = ground arith;
    array = ground arith;
    link = ground arith;
    count = ground arith;
    fits = fits;
  },
)

-- The objects that fit lie inside the page, behind the slab and its array.
fits_page : (object : ℕ) → 4080 / (object + 2) * (object + 2) ≤ 4080
fits_page object = grind arith

created :
    (size : ℕ) (slab : Ptr → Slab) (c : Cache)
    → kmem_cache_create true size slab ≡ some c
    → (c.partial ≡ [])
      × (c.free ≡ [])
      × (c.object ≡ size)
      × (c.nobjects ≡ 4080 / (size + 2))
      × (0 < c.nobjects)
unfolding kmem_cache_create
created size slab c e = ground arith

grown_fields :
    (page : Ptr) (c : Cache)
    → (((kmem_cache_grow page c).slab page).objaddr ≡ page + 16 + c.nobjects * 2)
      × ((kmem_cache_grow page c).object ≡ c.object)
      × ((kmem_cache_grow page c).nobjects ≡ c.nobjects)
unfolding kmem_cache_grow slab_fill
grown_fields page c = ground arith

-- Growing first makes no difference to an allocation.
grown_same :
    (page : Ptr) (c : Cache)
    → provide_slab page c ≡ kmem_cache_grow page c
    → (kmem_cache_grow page c).partial ≡ page ∷ []
    → kmem_cache_alloc page c ≡ kmem_cache_alloc page (kmem_cache_grow page c)
unfolding kmem_cache_alloc
grown_same page c e first =
    ap take_object (e ∙ sym (provide_slab-partial page page (kmem_cache_grow page c) first))

alloc_grown :
    (page : Ptr) (pages : List Ptr) (c : Cache)
    → provide_slab page c ≡ kmem_cache_grow page c
    → (kmem_cache_grow page c).partial ≡ page ∷ []
    → allocate (page ∷ pages) c ≡ allocate (page ∷ pages) (kmem_cache_grow page c)
unfolding allocate
alloc_grown page pages c e first = rw (grown_same page c e first, allocate) refl

objects_same :
    (n base base' size size' i : ℕ)
    → base ≡ base'
    → size ≡ size'
    → objects n base size i ≡ objects n base' size' i
objects_same n base base' size size' i b o = rw (b, o) refl

-- The array of links and the objects take at most what the page has behind the slab.
objects_fit : (page size n : ℕ) → n ≡ 4080 / (size + 2) → page + 16 + n * 2 + n * size ≤ page + 4096
objects_fit page size n is_n =
    let bound : n * (size + 2) ≤ 4080 = rw is_n (fits_page size) in
    let split : n * (size + 2) ≡ n * size + n * 2 = grind arith in omega (arith, bound, split)

-- A new cache for objects of some size, where its first page comes from `kmem_alloc`: as many
-- allocations in a row as a slab has objects succeed, and return the addresses of consecutive objects,
-- the first behind the slab's array. All of these objects lie inside the page.
pub allocate-objects :
    (page : Ptr) (pages : List Ptr) (size : ℕ) (slab : Ptr → Slab) (c : Cache)
    → kmem_cache_create true size slab ≡ some c
    → length (page ∷ pages) ≤ c.nobjects
    → (c' : Cache) × (allocate (page ∷ pages) c
        ≡ some (objects (length (page ∷ pages)) (page + 16 + c.nobjects * 2) size 0, c'))
      × (page + 16 + c.nobjects * 2 + c.nobjects * size ≤ page + 4096)
allocate-objects page pages size slab c e le =
    let (none_partial, none_free, is_size, is_n, some_objects) = created size slab c e in
    let small : c.nobjects < bufctl_end = omega (arith, fits_page size) in
    let (provided, h) = grow-HandedOut page c none_partial none_free small some_objects in
    let (base, object, n) = grown_fields page c in
    let (c', run, h', same, base_same, size_same) =
      allocate-HandedOut (page ∷ pages) page 0 (kmem_cache_grow page c) h (omega arith) in
    (
      c',
      alloc_grown page pages c provided h.first
          ∙ run
          ∙ ap (λ ps. some (ps, c'))
              (objects_same (length (page ∷ pages)) _ _ _ _ 0 base (object ∙ is_size)),
      objects_fit page size c.nobjects is_n,
    )
