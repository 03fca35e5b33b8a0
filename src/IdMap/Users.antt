-- ===== src/IdMap/Users.antt =====
-- The process ids (`alloc_pid`, `dealloc_pid`) on top of the allocator.
use manrix.Base.{
  ℕ, ◌/◌, ◌-◌, ◌≤◌, ◌<◌, ◌≡◌, ◌≢◌, some, arith, get_or, false, true, ltb, ◌==◌, if◌then◌else◌,
}
use manrix.Bits.{max_int_val}
use manrix.IdMap.{
  IdMap, page_words, hint_limit, AllocResult, got, exhausted, fault, alloc_id, is_used, alloc_pid,
  dealloc_pid, offset_id, first_user_pid,
}
use manrix.IdMap.Laws.{IsValid}
use manrix.IdMap.Alloc.{Fresh, alloc_id-Fresh, alloc_id-exhausted, dealloc_id-alloc_id}

-- An outcome of `offset_id` that is not below the first value comes from an id.
offset_id-got :
    (first : ℕ) (r : AllocResult) (m m' : IdMap) (n : ℕ)
    → 0 < first
    → offset_id first r m ≡ some (n, m')
    → first ≤ n
    → r ≡ got (n - first) m'
unfolding offset_id
offset_id-got first (got id m'') m m' n pos e le = ground arith
offset_id-got first exhausted m m' n pos e le = ground arith
offset_id-got first fault m m' n pos e le = ground arith

module _ (m : IdMap) (k : ℕ) (v : IsValid m) (lt : k < page_words)
    (ne : get_or m.bitmap k 0 ≢ max_int_val) where
  -- From a valid map with room somewhere in the page, a pid of 500 or more that `alloc_pid` returns
  -- was not in use, is in use afterwards, is below 4628, and no other pid changes.
  pub alloc_pid-Fresh :
      (pid : ℕ) (m' : IdMap)
      → alloc_pid m ≡ some (pid, m')
      → first_user_pid ≤ pid
      → (is_used m (pid - 500) ≡ false)
        × ((j : ℕ) → is_used m' j ≡ (if pid - 500 == j then true else is_used m j))
        × (pid < 4628)
        × IsValid m'
  unfolding alloc_pid
  alloc_pid-Fresh pid m' e le =
      let er = offset_id-got 500 (alloc_id m) m m' pid (omega arith) e le in
      let f : Fresh m (got (pid - 500) m') = rw er at (alloc_id-Fresh m k v lt ne) in
      (f.0, f.1, omega (arith, f.2), f.3)

  -- Where the first 129 words of the page of a valid map are full, `alloc_pid` returns 499, a
  -- reserved pid, and leaves the map as it was, although the page has room.
  pub alloc_pid-exhausted :
      ((h : ℕ) → h ≤ hint_limit → get_or m.bitmap h 0 ≡ max_int_val) → alloc_pid m ≡ some (499, m)
  unfolding alloc_pid
  alloc_pid-exhausted full = rw (alloc_id-exhausted m k v lt ne full)

  -- Giving a pid back directly after it was allocated restores the bitmap.
  pub dealloc_pid-alloc_pid :
      (pid : ℕ) (m' : IdMap)
      → alloc_pid m ≡ some (pid, m')
      → first_user_pid ≤ pid
      → dealloc_pid pid m' ≡ some (record m { hint = (pid - 500) / 32 })
  unfolding alloc_pid dealloc_pid
  dealloc_pid-alloc_pid pid m' e le =
      let er = offset_id-got 500 (alloc_id m) m m' pid (omega arith) e le in
      let low : ltb pid 500 ≡ false = ground arith in
      rw low (dealloc_id-alloc_id m k v lt ne (pid - 500) m' er)
