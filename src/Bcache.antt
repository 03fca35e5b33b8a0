-- ===== src/Bcache.antt =====
-- The buffer cache of the file system server (servers/fs-io/fs/bcache.c). A buffer is named by its
-- pointer, 0 is NULL. `read` stands for `blk_read` of the block device, which gives the data of a
-- block or fails; what `malloc` returns is an argument.
pub mod Misses
pub mod Sizes
mod Tests
use Prim.Native.Nat.{bit_xor}
use manrix.Base.{
  ◌^◌, ℕ, zero, suc, ◌+◌, ◌-◌, ◌*◌, ◌/◌, ◌%◌, ◌<◌, Bool, true, false, ◌&&◌, Option, none, some,
  List, [], ◌∷◌, ltb, leb, ◌==◌, if◌then◌else◌,
}
use manrix.Base.Int.{ℤ, pos, sub_ℕ, negsuc}
use manrix.Sched.{last, but_last}

abbrev pub Ptr : Type 0
Ptr = ℕ

abbrev pub b_dirty : ℕ
b_dirty = 1

abbrev pub b_free : ℕ
b_free = 2

abbrev pub b_busy : ℕ
b_busy = 4

-- `struct bcache`, with `next` as the link of the hash chain.
pub record Buffer : Type 0 where
  pub b_status : ℕ
  pub next : Ptr
  pub b_devno : ℕ
  pub b_blockno : ℕ
  pub b_data : ℕ
  pub b_datasz : ℕ

-- The globals: the buffers, the heads of the hash chains, the free lists (front first, by index)
-- and the two sizes.
pub record Cache : Type 0 where
  pub buffer : Ptr → Buffer
  pub bhash_table : ℕ → Ptr
  pub freelist : ℕ → List Ptr
  pub maxbuffcache : ℕ
  pub curbuffcache : ℕ

abbrev pub update_buffer : Ptr → (Buffer → Buffer) → Cache → Cache
update_buffer p f c = record c { buffer = λ q. if p == q then f (c.buffer p) else c.buffer q }

-- `hash_fn`, with 4096 / 4 buckets.
unfoldable pub hash_fn : ℕ → ℕ → ℕ
hash_fn blockno devno = bit_xor blockno devno % 1024

-- `bhash_insert`: what it stores in the bucket is the link that it has just taken from it.
unfoldable pub bhash_insert : Ptr → Cache → Cache
bhash_insert bcache c =
    let bucket = hash_fn (c.buffer bcache).b_blockno (c.buffer bcache).b_devno in
    let c₁ = update_buffer bcache (λ b. record b { next = c.bhash_table bucket }) c in
    record c₁ {
      bhash_table = λ i. if bucket == i then (c₁.buffer bcache).next else c₁.bhash_table i;
    }

-- The walk along a chain; `none` where it takes more than `fuel` steps.
unfoldable pub find_in_chain : ℕ → (Ptr → Buffer) → ℕ → ℕ → Ptr → Option Ptr
find_in_chain zero buffer dev block p = none
find_in_chain (suc fuel) buffer dev block p =
    let rest = find_in_chain fuel buffer dev block (buffer p).next in
    if p == 0
    then some 0
    else if ((buffer p).b_devno == dev) && ((buffer p).b_blockno == block)
    then some p
    else rest

-- `find_bcache`: 0 is NULL.
unfoldable pub find_bcache : ℕ → ℕ → ℕ → Cache → Option Ptr
find_bcache fuel dev block c =
    find_in_chain fuel c.buffer dev block (c.bhash_table (hash_fn block dev))

-- The loop of `list_index`: how often the `int` can be halved while it is positive.
unfoldable pub halvings : ℕ → ℤ → ℕ → Option ℕ
halvings zero size bit = none
halvings (suc fuel) (negsuc n) bit = some bit
halvings (suc fuel) (pos size) bit =
    let rest = halvings fuel (pos (size / 2)) (bit + 1) in if leb 1 size then rest else some bit

-- A 32-bit word as an `int`.
abbrev pub to_int : ℕ → ℤ
to_int x = if ltb x (2 ^ 31) then pos x else negsuc (2 ^ 32 - 1 - x)

-- `list_index` of the word `size`, with MINSZ 10; an `int` is no longer positive after 31 halvings.
unfoldable pub list_index : ℕ → Option ℤ
list_index size = elim (halvings 33 (to_int size) 0) [
  | none ↦ none
  | some bit ↦ some (sub_ℕ bit 10)
]

-- How a call ends: with a buffer, with NULL, or in undefined behaviour.
pub data Got : Type 0 where
  got : Ptr → Cache → Got
  null : Cache → Got
  undefined : Got

-- The end of `bread` and of `bwrite`: the status of the buffer is set, if there is one.
pub marked : ℕ → Got → Got
marked status (got q c) = got q (update_buffer q (λ b. record b { b_status = status }) c)
marked status (null c) = null c
marked status undefined = undefined

module _ (read : ℕ → ℕ → ℕ → Option ℕ) where
  -- `alloc_bufcache`, where `malloc` gave `p` for the buffer and `buf` for its data. A failed read
  -- leaves the buffer filled in.
  unfoldable pub alloc_bufcache : Ptr → Ptr → ℕ → ℕ → ℕ → Cache → Got
  alloc_bufcache p buf dev block size c =
      let fresh : Buffer = record {
        b_status = b_free;
        next = 0;
        b_devno = dev;
        b_blockno = block;
        b_data = 0;
        b_datasz = size;
      } in
      if p == 0 then null c else if buf == 0 then null c else elim (read dev block size) [
        | none ↦ null (update_buffer p (λ b. fresh) c)
        | some contents ↦
            let c₁ = bhash_insert p (update_buffer p (λ b. record fresh { b_data = contents }) c) in
            got p (record c₁ { curbuffcache = c₁.curbuffcache + size })
      ]

  -- The branch of `getblk` for a full cache: the buffer at the back of the free list is taken. With
  -- an empty list the list head is taken for a buffer.
  unfoldable pub reuse : ℕ → ℕ → ℕ → ℕ → Cache → Got
  reuse index dev block size c = elim (last (c.freelist index)) [
    | none ↦ undefined
    | some p ↦
        let c₁ = record c {
          freelist = λ i. if index == i then but_last (c.freelist index) else c.freelist i;
        } in
        let contents : ℕ = elim (read dev block size) [ none ↦ (c.buffer p).b_data | some d ↦ d ] in
        got p (
          bhash_insert p (
            update_buffer p (λ b. record b { b_devno = dev; b_blockno = block; b_data = contents })
              c₁))
  ]

  -- `getblk`. An index of `list_index` outside the five free lists is undefined.
  unfoldable pub getblk : ℕ → Ptr → Ptr → ℕ → ℕ → ℕ → Cache → Got
  getblk fuel p buf dev block size c = elim (find_bcache fuel dev block c) [
    | none ↦ undefined
    | some found ↦
        if (if found == 0 then false else true)
        then got found c
        else if leb c.maxbuffcache c.curbuffcache
        then elim (list_index size) [
          | none ↦ undefined
          | some (negsuc n) ↦ undefined
          | some (pos index) ↦ if ltb index 5 then reuse index dev block size c else undefined
        ]
        else alloc_bufcache p buf dev block size c
  ]

  -- `bread`
  unfoldable pub bread : ℕ → Ptr → Ptr → ℕ → ℕ → ℕ → Cache → Got
  bread fuel p buf dev block size c = marked b_busy (getblk fuel p buf dev block size c)

  -- `bwrite`: the data goes to the device by `blk_write`, and not into the buffer.
  unfoldable pub bwrite : ℕ → Ptr → Ptr → ℕ → ℕ → ℕ → Cache → Got
  bwrite fuel p buf dev block size c = marked b_dirty (getblk fuel p buf dev block size c)

-- `brelse`: the buffer goes to the front of the free list of its size.
unfoldable pub brelse : Ptr → Cache → Option Cache
brelse bcache c = elim (list_index (c.buffer bcache).b_datasz) [
  | none ↦ none
  | some (negsuc n) ↦ none
  | some (pos index) ↦
      if ltb index 5
      then (let c₁ = update_buffer bcache (λ b. record b { b_status = b_free }) c in
          some (record c₁ {
            freelist = λ i. if index == i then bcache ∷ c.freelist index else c.freelist i;
          }))
      else none
]

-- `bcache_init`, with the memory that `syscall_sysinfo` reports.
unfoldable pub bcache_init : ℕ → ℕ → (Ptr → Buffer) → Cache
bcache_init total_mem used_mem buffer = record {
  buffer = buffer;
  bhash_table = λ i. 0;
  freelist = λ i. [];
  maxbuffcache = (total_mem - used_mem) / 100 * 50;
  curbuffcache = 0;
}
