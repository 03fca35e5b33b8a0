-- ===== src/Page/Table.antt =====
-- The hash table of pages.
use manrix.Base.{ℕ, suc, ◌≡◌, refl, ◌≢◌, true, some, ◌∈◌, arith, ◌∙◌}
use manrix.Kernel.{Ptr}
use manrix.Sched.{erase}
use manrix.Page.{
  Memory, update_page, set_pages, sub_word, page_hash, vm_page_insert, unlink_self, vm_page_remove,
  found, look, vm_page_lookup, unlist, put_page, put_to_free_list, dealloc_found, page_dealloc,
}

pub lookup-first :
    (fuel : ℕ) (object p : Ptr) (offset : ℕ) (m : Memory)
    → m.pagehash (page_hash object offset) ≡ p
    → p ≢ 0
    → (m.page p).object ≡ object
    → (m.page p).offset ≡ offset
    → vm_page_lookup fuel object offset m ≡ found p
unfolding vm_page_lookup
lookup-first fuel object p offset m first np own at = ground (arith, first, own, at)

-- A page that has just been inserted for an object and an offset is what a lookup of them finds.
pub vm_page_insert-lookup :
    (fuel : ℕ) (p object : Ptr) (offset : ℕ) (m : Memory)
    → p ≢ 0
    → vm_page_lookup fuel object offset (vm_page_insert p object offset m) ≡ found p
unfolding vm_page_insert
vm_page_insert-lookup fuel p object offset m np =
    lookup-first fuel object p offset (vm_page_insert p object offset m) (ground arith) np
      (ground arith) (ground arith)

-- A page that is the second of its bucket, and the last reference to it.
pub record SecondInBucket (p q object : Ptr) (offset : ℕ) (m : Memory) : Type 0 where
  pub first : m.pagehash (page_hash object offset) ≡ p
  pub first_real : p ≢ 0
  pub first_other : (m.page p).object ≢ object
  pub second : (m.page p).next ≡ q
  pub second_real : q ≢ 0
  pub apart : p ≢ q
  pub own : (m.page q).object ≡ object
  pub at : (m.page q).offset ≡ offset
  pub last_reference : (m.page q).count ≡ 1
  pub listed : q ∈ m.pages_of object

look-here :
    (fuel : ℕ) (object q : Ptr) (offset : ℕ) (m : Memory)
    → q ≢ 0
    → (m.page q).object ≡ object
    → (m.page q).offset ≡ offset
    → look (suc fuel) object offset q m ≡ found q
unfolding look
look-here fuel object q offset m nq own at = ground (arith, own, at)

look-past :
    (fuel : ℕ) (object p : Ptr) (offset : ℕ) (m : Memory)
    → p ≢ 0
    → (m.page p).object ≢ object
    → look (suc fuel) object offset p m ≡ look fuel object offset (m.page p).next m
unfolding look
look-past fuel object p offset m np other = ground (arith, other)

lookup-past :
    (fuel : ℕ) (object p : Ptr) (offset : ℕ) (m : Memory)
    → m.pagehash (page_hash object offset) ≡ p
    → p ≢ 0
    → (m.page p).object ≢ object
    → vm_page_lookup fuel object offset m ≡ look fuel object offset p m
unfolding vm_page_lookup
lookup-past fuel object p offset m first np other = ground (arith, first, other)

lookup-second :
    (fuel : ℕ) (p q object : Ptr) (offset : ℕ) (m : Memory)
    → m.pagehash (page_hash object offset) ≡ p
    → p ≢ 0
    → (m.page p).object ≢ object
    → (m.page p).next ≡ q
    → q ≢ 0
    → (m.page q).object ≡ object
    → (m.page q).offset ≡ offset
    → vm_page_lookup (suc (suc fuel)) object offset m ≡ found q
lookup-second fuel p q object offset m first np other second nq own at =
    lookup-past (suc (suc fuel)) object p offset m first np other
    ∙ look-past (suc fuel) object p offset m np other
    ∙ rw second (look-here fuel object q offset m nq own at)

unlink_self-here :
    (fuel : ℕ) (q : Ptr) (m : Memory)
    → q ≢ 0
    → unlink_self (suc fuel) q q m
      ≡ some (update_page q (λ x. record x { next = (m.page q).next }) m)
unfolding unlink_self
unlink_self-here fuel q m nq = ground arith

unlink_self-past :
    (fuel : ℕ) (q p : Ptr) (m : Memory)
    → p ≢ 0
    → p ≢ q
    → unlink_self (suc fuel) q p m ≡ unlink_self fuel q (m.page p).next m
unfolding unlink_self
unlink_self-past fuel q p m np apart = ground arith

remove-past :
    (fuel : ℕ) (p q : Ptr) (m : Memory)
    → m.pagehash (page_hash (m.page q).object (m.page q).offset) ≡ p
    → p ≢ q
    → vm_page_remove fuel q m ≡ unlink_self fuel q p m
unfolding vm_page_remove
remove-past fuel p q m first apart = ground (arith, first)

unlist-there :
    (object p : Ptr) (m : Memory)
    → p ∈ m.pages_of object
    → unlist object p m ≡ some (set_pages object (erase p (m.pages_of object)) m)
unfolding unlist
unlist-there object p m there = rw there refl

dealloc_found-last :
    (fuel : ℕ) (object p : Ptr) (m m₂ m₃ : Memory)
    → sub_word (m.page p).count 1 ≡ 0
    → vm_page_remove fuel p (update_page p (λ x. record x { count = 0 }) m) ≡ some m₂
    → unlist object p m₂ ≡ some m₃
    → dealloc_found fuel object p m ≡ some (put_page p m₃)
unfolding dealloc_found
dealloc_found-last fuel object p m m₂ m₃ left e f = rw (left, e, f, dealloc_found) refl

pub page_dealloc-last :
    (fuel : ℕ) (object p : Ptr) (offset : ℕ) (m m₂ m₃ : Memory)
    → vm_page_lookup fuel object offset m ≡ found p
    → sub_word (m.page p).count 1 ≡ 0
    → vm_page_remove fuel p (update_page p (λ x. record x { count = 0 }) m) ≡ some m₂
    → unlist object p m₂ ≡ some m₃
    → page_dealloc fuel object offset m ≡ some (true, put_page p m₃)
unfolding page_dealloc
page_dealloc-last fuel object p offset m m₂ m₃ seen left e f =
    rw (seen, dealloc_found-last fuel object p m m₂ m₃ left e f, page_dealloc) refl

module _ (fuel : ℕ) (p q object : Ptr) (offset : ℕ) (m : Memory)
    (h : SecondInBucket p q object offset m) where
  abbrev counted : Memory
  counted = update_page q (λ x. record x { count = 0 }) m

  abbrev relinked : Memory
  relinked = update_page q (λ x. record x { next = (counted.page q).next }) counted

  abbrev given_back : Memory
  given_back = set_pages object (erase q (m.pages_of object)) relinked

  remove-second : vm_page_remove (suc (suc fuel)) q counted ≡ some relinked
  remove-second =
      let link : (counted.page p).next ≡ q = ground (arith, h.second, h.apart) in
      remove-past (suc (suc fuel)) p q counted (ground (arith, h.first, h.own, h.at)) h.apart
      ∙ unlink_self-past (suc fuel) q p counted h.first_real h.apart
      ∙ rw link (unlink_self-here fuel q counted h.second_real)

  -- A page that is not the first of its bucket stays in the table when its last reference is dropped: it
  -- goes to the free list, and a lookup of its object and offset still finds it.
  pub page_dealloc-stale :
      (m' : Memory) × (page_dealloc (suc (suc fuel)) object offset m ≡ some (true, m'))
      × (q ∈ m'.free_list)
      × (vm_page_lookup (suc (suc fuel)) object offset m' ≡ found q)
  unfolding put_page put_to_free_list
  page_dealloc-stale = (
    put_page q given_back,
    page_dealloc-last (suc (suc fuel)) object q offset m relinked given_back
        (lookup-second fuel p q object offset m h.first h.first_real h.first_other h.second
          h.second_real h.own h.at)
        (rw h.last_reference refl) remove-second (unlist-there object q relinked h.listed),
    ground arith,
    lookup-second fuel p q object offset (put_page q given_back) h.first h.first_real
        (ground (arith, h.first_other, h.apart)) (ground (arith, h.second, h.apart)) h.second_real
        (ground (arith, h.own)) (ground (arith, h.at)),
  )
