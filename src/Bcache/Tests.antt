-- ===== src/Bcache/Tests.antt =====
-- Runs of the buffer cache on a device whose blocks hold their own number.
use manrix.Base.{◌+◌, ℕ, ◌*◌, ◌≤◌, ◌<◌, ◌^◌, ◌≡◌, refl, ◌≢◌, Option, some, arith}
use manrix.Base.Int.{pos, negsuc, sub_ℕ}
use manrix.Bcache.{Ptr, Buffer, Cache, halvings, find_bcache, list_index, bcache_init}
use manrix.Bcache.Misses.{Reach, Reach-find_bcache, starts}
use manrix.Bcache.Sizes.{list_index_bits}

abbrev read : ℕ → ℕ → ℕ → Option ℕ
read dev block size = some block

abbrev blank : Buffer
blank = record { b_status = 0; next = 0; b_devno = 0; b_blockno = 0; b_data = 0; b_datasz = 1024 }

abbrev cache : Cache
cache = bcache_init 100000 20000 (λ p. blank)

cache-Reach : Reach read cache
cache-Reach = starts 100000 20000 (λ p. blank) cache refl

list_index_test : list_index 4096 ≡ some (pos 3)
unfolding list_index halvings
list_index_test = refl

Reach-find_bcache_example : find_bcache 8 1 77 cache ≡ some 0
Reach-find_bcache_example = Reach-find_bcache read cache cache-Reach 7 1 77

room : cache.curbuffcache < cache.maxbuffcache
unfolding bcache_init
room = omega arith

-- Two pointers that `malloc` gives.
abbrev header : Ptr
header = 5

abbrev area : Ptr
area = 6

header_given : header ≢ 0
header_given = ground arith

area_given : area ≢ 0
area_given = ground arith

list_index_bits_example :
    (3000 < 2 ^ 31
      → (r : ℕ) × (list_index 3000 ≡ some (sub_ℕ r 10)) × (2 ^ r ≤ 2 * 3000 + 1) × (3000 < 2 ^ r))
    × (2 ^ 31 ≤ 3000 → list_index 3000 ≡ some (negsuc 9))
list_index_bits_example = list_index_bits 3000 (omega arith)

list_index_large : list_index 0x8000_0000 ≡ some (negsuc 9)
unfolding list_index halvings
list_index_large = refl
