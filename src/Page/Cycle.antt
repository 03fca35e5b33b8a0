-- ===== src/Page/Cycle.antt =====
-- A page that is allocated and given back.
use manrix.Base.{ℕ, ◌*◌, ◌≡◌, refl, ◌≢◌, true, some, ◌∷◌, ◌==◌, if◌then◌else◌, arith}
use manrix.Kernel.{Ptr}
use manrix.Sched.{erase, last, but_last}
use manrix.Page.{
  Memory, update_page, set_pages, sub_word, page_size, page_base, page_hash, vm_page_insert,
  vm_page_remove, unlist, put_page, put_to_free_list, page_dealloc, get_page, add_page, page_alloc,
  page_alloc_oth,
}
use manrix.Page.Table.{lookup-first, page_dealloc-last}

module _ (p object : Ptr) (offset : ℕ) (m : Memory) (np : p ≢ 0)
    (e : last m.free_list ≡ some p) where
  -- The memory after `get_page`.
  abbrev got : Memory
  got =
      let n = sub_word m.nfree_pages 1 in
      let m₁ = update_page p (λ x. record x { next = 0; flags = 0 }) m in
      record m₁ {
        free_list = but_last m.free_list;
        nfree_pages = n;
        used_mem = sub_word m.total_mem (n * page_size);
      }

  get_page-got : (flag : ℕ) → get_page flag m ≡ some (some p, got)
  unfolding get_page
  get_page-got flag = rw (e, get_page) refl

  abbrev counted : Memory
  counted = update_page p (λ x. record x { count = 1 }) got

  abbrev inserted : Memory
  inserted = add_page p object (page_base offset) counted

  page_alloc-got : page_alloc object offset m ≡ some (p, inserted)
  unfolding page_alloc
  page_alloc-got = rw (get_page-got page_alloc_oth, page_alloc) refl

  inserted-first : inserted.pagehash (page_hash object (page_base offset)) ≡ p
  unfolding add_page vm_page_insert
  inserted-first = ground arith

  inserted-page :
      ((inserted.page p).object ≡ object)
      × ((inserted.page p).offset ≡ page_base offset)
      × ((inserted.page p).count ≡ 1)
      × ((inserted.page p).next ≡ m.pagehash (page_hash object (page_base offset)))
  unfolding add_page vm_page_insert
  inserted-page = (ground arith, ground arith, ground arith, ground arith)

  inserted-lists :
      (inserted.pages_of object ≡ p ∷ m.pages_of object)
      × (inserted.free_list ≡ but_last m.free_list)
      × (inserted.nfree_pages ≡ sub_word m.nfree_pages 1)
  unfolding add_page vm_page_insert
  inserted-lists = (ground arith, refl, refl)

  inserted-others :
      (b : ℕ) → page_hash object (page_base offset) ≢ b → inserted.pagehash b ≡ m.pagehash b
  unfolding add_page vm_page_insert
  inserted-others b other = ground arith

  abbrev uncounted : Memory
  uncounted = update_page p (λ x. record x { count = 0 }) inserted

  abbrev unhashed : Memory
  unhashed =
      let b = page_hash (uncounted.page p).object (uncounted.page p).offset in
      record uncounted {
        pagehash = λ i. if b == i then (uncounted.page p).next else uncounted.pagehash i;
      }

  abbrev returned : Memory
  returned = put_page p (set_pages object (erase p (unhashed.pages_of object)) unhashed)

  unhash-first : (fuel : ℕ) → vm_page_remove fuel p uncounted ≡ some unhashed
  unfolding vm_page_remove
  unhash-first fuel =
      let (own, at, count, next) = inserted-page in
      let same : (uncounted.page p).object ≡ object = ground (arith, own) in
      let place : (uncounted.page p).offset ≡ page_base offset = ground (arith, at) in
      ground (arith, same, place, inserted-first)

  unlist-first :
      unlist object p unhashed
      ≡ some (set_pages object (erase p (unhashed.pages_of object)) unhashed)
  unfolding unlist
  unlist-first = let (pages, free, n) = inserted-lists in ground (arith, pages)

  page_dealloc-returned :
      (fuel : ℕ) → page_dealloc fuel object (page_base offset) inserted ≡ some (true, returned)
  page_dealloc-returned fuel =
      let (own, at, count, next) = inserted-page in
      page_dealloc-last fuel object p (page_base offset) inserted unhashed
        (set_pages object (erase p (unhashed.pages_of object)) unhashed)
        (lookup-first fuel object p (page_base offset) inserted inserted-first np own at)
        (rw count refl) (unhash-first fuel) unlist-first

  -- A page that is allocated for an object, and given back at once, is the last one of the free list; it
  -- comes back to its front. The hash table and the object's list are as they were, but the count of
  -- free pages, which the allocation lowers, stays one too low: it is never raised again.
  pub page_alloc-page_dealloc :
      (fuel : ℕ)
      → (m₁ : Memory) × (m₂ : Memory) × (page_alloc object offset m ≡ some (p, m₁))
        × (page_dealloc fuel object (page_base offset) m₁ ≡ some (true, m₂))
        × (m₂.free_list ≡ p ∷ but_last m.free_list)
        × (m₂.pages_of object ≡ m.pages_of object)
        × ((b : ℕ) → m₂.pagehash b ≡ m.pagehash b)
        × (m₂.nfree_pages ≡ sub_word m.nfree_pages 1)
  unfolding put_page put_to_free_list erase
  page_alloc-page_dealloc fuel =
      let (pages, free, n) = inserted-lists in
      let (own, at, count, next) = inserted-page in
      (
        inserted,
        returned,
        page_alloc-got,
        page_dealloc-returned fuel,
        ground (arith, free),
        ground (arith, pages),
        λ b. ground (arith, own, at, next, inserted-others b),
        n,
      )
