-- ===== src/Page/Tests.antt =====
-- Two pages, 100 and 200, and an object, 7000.
use manrix.Base.{ℕ, ◌≡◌, refl, ◌≢◌, true, none, some, [], ◌∷◌, arith, ◌==◌, if◌then◌else◌}
use manrix.Sched.{last, but_last}
use manrix.Page.{
  Page, Memory, page_base, page_dealloc, page_alloc, get_page, page_alloc_oth, sub_word,
}
use manrix.Page.Table.{SecondInBucket}
use manrix.Page.Cycle.{page_alloc-page_dealloc}

abbrev blank : Page
blank = record { base = 0; object = 0; offset = 0; count = 0; flags = 0; next = 0 }

abbrev two_free : Memory
two_free = record {
  page = λ p. blank;
  pagehash = λ b. 0;
  free_list = 200 ∷ 100 ∷ [];
  pages_of = λ o. [];
  nfree_pages = 2;
  total_mem = 65536;
  used_mem = 57344;
}

-- The page 100 of the object 1, and behind it the page 200 of the object 7000 at the offset 8192.
abbrev two_used : Memory
two_used = record two_free {
  page = λ p.
      if p == 100
      then record blank { object = 1; count = 1; next = 200 }
      else record blank { object = 7000; offset = 8192; count = 1 };
  pagehash = λ b. 100;
  free_list = [];
  pages_of = λ o. 200 ∷ [];
}

abbrev hundred : ℕ
hundred = 100

hundred_real : hundred ≢ 0
hundred_real = omega arith

abbrev two_hundred : ℕ
two_hundred = 200

-- With no free page, `page_alloc` takes the head of the list for a page.
empty_test : get_page page_alloc_oth two_used ≡ none
unfolding get_page last
empty_test = refl

second : SecondInBucket 100 200 7000 8192 two_used
second = record {
  first = refl;
  first_real = hundred_real;
  first_other = omega arith;
  second = refl;
  second_real = omega arith;
  apart = omega arith;
  own = refl;
  at = refl;
  last_reference = refl;
  listed = refl;
}

oldest : last two_free.free_list ≡ some 100
unfolding last
oldest = refl

page_alloc-page_dealloc_example :
    (m₁ : Memory) × (m₂ : Memory) × (page_alloc 7000 8195 two_free ≡ some (100, m₁))
    × (page_dealloc 5 7000 (page_base 8195) m₁ ≡ some (true, m₂))
    × (m₂.free_list ≡ 100 ∷ but_last (200 ∷ 100 ∷ []))
    × (m₂.pages_of 7000 ≡ [])
    × ((b : ℕ) → m₂.pagehash b ≡ 0)
    × (m₂.nfree_pages ≡ sub_word 2 1)
page_alloc-page_dealloc_example =
    page_alloc-page_dealloc 100 7000 8195 two_free hundred_real oldest 5
