-- ===== src/Bcache/Misses.antt =====
-- What the hash chains of the buffer cache hold in every state that it can reach.
use manrix.Base.{
  ℕ, suc, ◌+◌, ◌<◌, ◌≡◌, refl, ◌≢◌, false, some, none, Option, arith, leb, ◌==◌, if◌then◌else◌,
  Option-cases, Bool-cases, inl, inr, ltb,
}
use manrix.Base.Int.{ℤ, pos, negsuc}
use manrix.Sched.{last}
use manrix.Bcache.{
  Ptr, Buffer, Cache, b_busy, b_dirty, b_free, update_buffer, hash_fn, bhash_insert, find_in_chain,
  find_bcache, list_index, Got, got, null, undefined, marked, alloc_bufcache, reuse, getblk, bread,
  bwrite, brelse, bcache_init,
}

-- Every chain is empty.
abbrev pub NoChains : Cache → Type 0
NoChains c = (i : ℕ) → c.bhash_table i ≡ 0

-- A promise about a cache holds of the one that a call leaves.
abbrev pub Leaves : (Cache → Type 0) → Got → Type 0
Leaves P (got p c) = P c
Leaves P (null c) = P c
Leaves P undefined = Unit

bhash_insert-NoChains : (p : Ptr) (c : Cache) → NoChains c → NoChains (bhash_insert p c)
unfolding bhash_insert
bhash_insert-NoChains p c h i =
    let b = hash_fn (c.buffer p).b_blockno (c.buffer p).b_devno in ground (arith, h i, h b)

find_bcache-NoChains :
    (fuel dev block : ℕ) (c : Cache) → NoChains c → find_bcache (suc fuel) dev block c ≡ some 0
unfolding find_bcache find_in_chain
find_bcache-NoChains fuel dev block c h = rw (h (hash_fn block dev)) refl

module _ (read : ℕ → ℕ → ℕ → Option ℕ) where
  alloc_bufcache-NoChains :
      (p buf dev block size : ℕ) (c : Cache)
      → NoChains c
      → Leaves NoChains (alloc_bufcache read p buf dev block size c)
  unfolding alloc_bufcache
  alloc_bufcache-NoChains p buf dev block size c h = elim (Bool-cases (p == 0)) [
    | inl z ↦ rw z h
    | inr nz ↦ elim (Bool-cases (buf == 0)) [
      | inl z ↦ rw (nz, z) h
      | inr nz' ↦ elim (Option-cases (read dev block size)) [
        | inl e ↦ rw (nz, nz', e) h
        | inr (d, e) ↦ rw (nz, nz', e) (bhash_insert-NoChains p _ h)
      ]
    ]
  ]

  reuse-NoChains :
      (index dev block size : ℕ) (c : Cache)
      → NoChains c
      → Leaves NoChains (reuse read index dev block size c)
  unfolding reuse
  reuse-NoChains index dev block size c h = elim (Option-cases (last (c.freelist index))) [
    | inl e ↦ rw (e, Leaves) tt
    | inr (p, e) ↦ rw (e, Leaves) (bhash_insert-NoChains p _ h)
  ]

  getblk-NoChains :
      (fuel p buf dev block size : ℕ) (c : Cache)
      → NoChains c
      → Leaves NoChains (getblk read (suc fuel) p buf dev block size c)
  unfolding getblk
  getblk-NoChains fuel p buf dev block size c h =
      rw (find_bcache-NoChains fuel dev block c h, Leaves)
        (elim (Bool-cases (leb c.maxbuffcache c.curbuffcache)) [
          | inr room ↦ rw room (alloc_bufcache-NoChains p buf dev block size c h)
          | inl full ↦ rw full (by_index (list_index size))
        ])
    where
      by_index :
          (i : Option ℤ)
          → Leaves NoChains (elim i [
            | none ↦ undefined
            | some (negsuc n) ↦ undefined
            | some (pos index) ↦
                if ltb index 5 then reuse read index dev block size c else undefined
          ])
      by_index none = tt
      by_index (some (negsuc n)) = tt
      by_index (some (pos index)) = elim (Bool-cases (ltb index 5)) [
        | inl e ↦ rw (e, Leaves) (reuse-NoChains index dev block size c h)
        | inr e ↦ rw (e, Leaves) tt
      ]

  -- One call, as a client of the cache can make it. The device and `malloc` choose freely.
  pub data Step (c c' : Cache) : Type 0 where
    reads :
        (fuel p buf dev block size q : ℕ)
        → bread read (suc fuel) p buf dev block size c ≡ got q c'
        → Step c c'
    fails :
        (fuel p buf dev block size : ℕ)
        → bread read (suc fuel) p buf dev block size c ≡ null c'
        → Step c c'
    writes :
        (fuel p buf dev block size q : ℕ)
        → bwrite read (suc fuel) p buf dev block size c ≡ got q c'
        → Step c c'
    releases : (q : ℕ) → brelse q c ≡ some c' → Step c c'

  -- The states that the cache can reach from its initialisation.
  pub data Reach : Cache → Type 0 where
    starts :
        (total_mem used_mem : ℕ) (buffer : Ptr → Buffer) (c : Cache)
        → c ≡ bcache_init total_mem used_mem buffer
        → Reach c
    steps : {b c : Cache} → Reach b → Step b c → Reach c

  marked-NoChains :
      (g : Got) (status : ℕ) (c : Cache) (q : Ptr)
      → Leaves NoChains g
      → marked status g ≡ got q c
      → NoChains c
  unfolding marked
  marked-NoChains (got p d) status c q h e i = ground (arith, h i)
  marked-NoChains (null d) status c q h e i = cc
  marked-NoChains undefined status c q h e i = cc

  marked-NoChains_null :
      (g : Got) (status : ℕ) (c : Cache) → Leaves NoChains g → marked status g ≡ null c → NoChains c
  unfolding marked
  marked-NoChains_null (got p d) status c h e i = cc
  marked-NoChains_null (null d) status c h e i = ground (arith, h i)
  marked-NoChains_null undefined status c h e i = cc

  brelse-NoChains : (q : Ptr) (c c' : Cache) → brelse q c ≡ some c' → NoChains c → NoChains c'
  unfolding brelse
  brelse-NoChains q c c' e h i = ground (arith, h i)

  Step-NoChains : (c c' : Cache) → Step c c' → NoChains c → NoChains c'
  unfolding bread bwrite
  Step-NoChains c c' (reads fuel p buf dev block size q e) h =
      marked-NoChains _ b_busy c' q (getblk-NoChains fuel p buf dev block size c h) e
  Step-NoChains c c' (fails fuel p buf dev block size e) h =
      marked-NoChains_null _ b_busy c' (getblk-NoChains fuel p buf dev block size c h) e
  Step-NoChains c c' (writes fuel p buf dev block size q e) h =
      marked-NoChains _ b_dirty c' q (getblk-NoChains fuel p buf dev block size c h) e
  Step-NoChains c c' (releases q e) h = brelse-NoChains q c c' e h

  Reach-NoChains : (c : Cache) → Reach c → NoChains c
  unfolding bcache_init
  Reach-NoChains c (starts t u b _ e) i = rw e refl
  Reach-NoChains c (steps {b} r s) i = Step-NoChains b c s (Reach-NoChains b r) i

  -- In every state that the cache can reach by reads, writes and releases, a lookup finds no buffer,
  -- whatever the block: no block is ever cached. The walk along the chain ends at its first step.
  pub Reach-find_bcache :
      (c : Cache) → Reach c → (fuel dev block : ℕ) → find_bcache (suc fuel) dev block c ≡ some 0
  Reach-find_bcache c r fuel dev block = find_bcache-NoChains fuel dev block c (Reach-NoChains c r)

  -- The cache with a new buffer.
  abbrev filled : Ptr → ℕ → ℕ → ℕ → ℕ → Cache → Cache
  filled p dev block size contents c =
      let c₁ = bhash_insert p (
        update_buffer p
          (λ b. record {
            b_status = b_free;
            next = 0;
            b_devno = dev;
            b_blockno = block;
            b_data = contents;
            b_datasz = size;
          })
          c) in
      record c₁ { curbuffcache = c₁.curbuffcache + size }

  alloc_bufcache-filled :
      (p buf dev block size contents : ℕ) (c : Cache)
      → p ≢ 0
      → buf ≢ 0
      → read dev block size ≡ some contents
      → alloc_bufcache read p buf dev block size c ≡ got p (filled p dev block size contents c)
  unfolding alloc_bufcache
  alloc_bufcache-filled p buf dev block size contents c np nbuf e =
      let open_p : (p == 0) ≡ false = ground arith in
      let open_buf : (buf == 0) ≡ false = ground arith in rw (open_p, open_buf, e) refl

  -- So a block that is in a buffer already is read from the device again: below the limit, `getblk`
  -- in a reachable state fills the buffer that `malloc` has just given, and counts its size.
  pub Reach-getblk :
      (c : Cache) (fuel p buf dev block size contents : ℕ)
      → Reach c
      → c.curbuffcache < c.maxbuffcache
      → p ≢ 0
      → buf ≢ 0
      → read dev block size ≡ some contents
      → (c' : Cache) × (getblk read (suc fuel) p buf dev block size c ≡ got p c')
        × (c'.curbuffcache ≡ c.curbuffcache + size)
        × ((c'.buffer p).b_data ≡ contents)
  unfolding getblk bhash_insert
  Reach-getblk c fuel p buf dev block size contents r room np nbuf e =
      let miss = Reach-find_bcache c r fuel dev block in
      let small : leb c.maxbuffcache c.curbuffcache ≡ false = ground arith in
      (
        filled p dev block size contents c,
        rw (miss, getblk, small) (alloc_bufcache-filled p buf dev block size contents c np nbuf e),
        refl,
        ground arith,
      )
