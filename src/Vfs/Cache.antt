-- ===== src/Vfs/Cache.antt =====
-- Getting and putting vnodes.
use Prim.Native.Nat.{bit_and}
use manrix.Base.{
  ℕ, ◌+◌, ◌-◌, ◌%◌, ◌^◌, ◌≡◌, refl, ◌≢◌, true, not, some, ◌∷◌, ◌==◌, if◌then◌else◌, ◌∈◌, ◌∉◌, arith,
  ◌∙◌, sym, ap,
}
use manrix.Kernel.{Ptr}
use manrix.Sched.{last, but_last}
use manrix.Bcache.{hash_fn}
use manrix.Vfs.{
  v_free, v_dirty, Vnodes, fs_ops, update_vnode, vnhash_insert, found, missing, find_vnode, got,
  vput, fill_vnode, take_vnode, vget,
}

find_vnode-first :
    (fuel dev inum : ℕ) (p : Ptr) (s : Vnodes)
    → s.vnhash (hash_fn inum dev) ≡ p
    → p ≢ 0
    → (s.vnode p).v_rdev ≡ dev
    → (s.vnode p).v_inum ≡ inum
    → find_vnode fuel dev inum s ≡ found p
unfolding find_vnode
find_vnode-first fuel dev inum p s first np device number = ground (arith, first, device, number)

module _ (read_inode : ℕ → ℕ → ℕ) (inum dev : ℕ) (p : Ptr) (np : p ≢ 0) where
  -- A vnode that was filled in is found.
  filled-found :
      (fuel : ℕ) (s : Vnodes)
      → find_vnode fuel dev inum (fill_vnode read_inode p inum dev s) ≡ found p
  unfolding fill_vnode vnhash_insert
  filled-found fuel s =
      find_vnode-first fuel dev inum p (fill_vnode read_inode p inum dev s) (ground arith) np
        (ground arith) (ground arith)

  filled-fields :
      (s : Vnodes)
      → (((fill_vnode read_inode p inum dev s).vnode p).v_count ≡ (s.vnode p).v_count)
        × ((fill_vnode read_inode p inum dev s).vnfreelist ≡ s.vnfreelist)
        × ((q : Ptr) → p ≢ q → (fill_vnode read_inode p inum dev s).vnode q ≡ s.vnode q)
  unfolding fill_vnode vnhash_insert
  filled-fields s = (ground arith, refl, λ q other. ground arith)

  vget-hit :
      (fuel : ℕ) (parent : Ptr) (s : Vnodes)
      → (s.vnode parent).ops ≡ fs_ops
      → find_vnode fuel dev inum s ≡ found p
      → vget read_inode fuel parent inum dev s
        ≡ got p (update_vnode p (λ v. record v { v_count = v.v_count + 1 }) s)
  unfolding vget
  vget-hit fuel parent s ops seen = rw (ops, seen, vget) refl

  vget-miss :
      (fuel : ℕ) (parent : Ptr) (s : Vnodes)
      → (s.vnode parent).ops ≡ fs_ops
      → find_vnode fuel dev inum s ≡ missing
      → last s.vnfreelist ≡ some p
      → vget read_inode fuel parent inum dev s
        ≡ take_vnode read_inode fuel (s.vnode parent).vfsp inum dev p s
  unfolding vget
  vget-miss fuel parent s ops seen free = rw (ops, seen, free, vget) refl

  abbrev taken : Ptr → Vnodes → Vnodes
  taken parent s = fill_vnode read_inode p inum dev (
      update_vnode p (λ v. record v { v_count = 1; vfsp = (s.vnode parent).vfsp })
        (record s { vnfreelist = but_last s.vnfreelist }))

  take_vnode-free :
      (fuel : ℕ) (parent : Ptr) (s : Vnodes)
      → not (bit_and (s.vnode p).v_flag v_free == 0) ≡ true
      → take_vnode read_inode fuel (s.vnode parent).vfsp inum dev p s ≡ got p (taken parent s)
  unfolding take_vnode
  take_vnode-free fuel parent s flag = rw (flag, take_vnode) refl

  -- The first `vget` of an inode that is not cached, for a parent with the operations of the file system,
  -- when the vnode at the back of the free list is not NULL and carries V_FREE, takes that vnode, with one
  -- user. A second `vget` of the same inode, for the same parent or another vnode with those operations,
  -- other than the vnode that was taken, gives the same vnode with two users, and takes nothing from the
  -- free list.
  pub vget-caches :
      (fuel : ℕ) (parent second : Ptr) (s : Vnodes)
      → second ≢ p
      → (s.vnode parent).ops ≡ fs_ops
      → (s.vnode second).ops ≡ fs_ops
      → find_vnode fuel dev inum s ≡ missing
      → last s.vnfreelist ≡ some p
      → not (bit_and (s.vnode p).v_flag v_free == 0) ≡ true
      → (s₁ : Vnodes) × (s₂ : Vnodes) × (vget read_inode fuel parent inum dev s ≡ got p s₁)
        × ((s₁.vnode p).v_count ≡ 1)
        × (s₁.vnfreelist ≡ but_last s.vnfreelist)
        × (vget read_inode fuel second inum dev s₁ ≡ got p s₂)
        × ((s₂.vnode p).v_count ≡ 2)
        × (s₂.vnfreelist ≡ but_last s.vnfreelist)
  vget-caches fuel parent second s apart ops ops' seen free flag =
      let start =
        update_vnode p (λ v. record v { v_count = 1; vfsp = (s.vnode parent).vfsp })
          (record s { vnfreelist = but_last s.vnfreelist }) in
      let (count, list, others) = filled-fields start in
      let same = others second (λ e. apart (sym e)) in
      let count_one : ((taken parent s).vnode p).v_count ≡ 1 = count ∙ ground arith in
      let second_ops : ((taken parent s).vnode second).ops ≡ fs_ops =
        ap (λ v. v.ops) same ∙ ground (arith, ops') in
      (
        taken parent s,
        update_vnode p (λ v. record v { v_count = v.v_count + 1 }) (taken parent s),
        vget-miss fuel parent s ops seen free ∙ take_vnode-free fuel parent s flag,
        count_one,
        list,
        vget-hit fuel second (taken parent s) second_ops (filled-found fuel start),
        ground (arith, count_one),
        list,
      )

  abbrev put_back : Vnodes → Vnodes
  put_back s =
      let s₁ = update_vnode p (λ v. record v { v_count = 0 }) s in
      let s₂ =
        if not (bit_and (s.vnode p).v_flag v_dirty == 0)
        then record s₁ { written = p ∷ s₁.written }
        else s₁ in
      let s₃ = update_vnode p (λ v. record v { v_flag = v_free }) s₂ in
      record s₃ { vnfreelist = p ∷ s₃.vnfreelist }

  vput-last :
      (s : Vnodes) → (s.vnode p).v_count ≡ 1 → p ∉ s.vnfreelist → vput p s ≡ some (put_back s)
  unfolding vput
  vput-last s one out =
      let nobody : ((s.vnode p).v_count + 2 ^ 32 - 1) % 2 ^ 32 ≡ 0 = omega (arith, one) in
      rw (nobody, out, vput) refl

  put_back-fields :
      (s : Vnodes)
      → ((put_back s).vnhash ≡ s.vnhash)
        × (((put_back s).vnode p).v_rdev ≡ (s.vnode p).v_rdev)
        × (((put_back s).vnode p).v_inum ≡ (s.vnode p).v_inum)
        × (((put_back s).vnode p).v_count ≡ 0)
        × ((put_back s).vnfreelist ≡ p ∷ s.vnfreelist)
        × ((q : Ptr) → p ≢ q → ((put_back s).vnode q).ops ≡ (s.vnode q).ops)
  put_back-fields s = (
    ground arith,
    ground arith,
    ground arith,
    ground arith,
    ground arith,
    λ q other. ground arith,
  )

  -- A vnode whose last user has put it back stays in the hash table and goes to the free list. The next
  -- `vget` of its inode finds it there and gives it out, and it stays in the free list, from which it
  -- can be given out for another inode.
  pub vput-vget :
      (fuel : ℕ) (parent : Ptr) (s : Vnodes)
      → parent ≢ p
      → (s.vnode parent).ops ≡ fs_ops
      → s.vnhash (hash_fn inum dev) ≡ p
      → (s.vnode p).v_rdev ≡ dev
      → (s.vnode p).v_inum ≡ inum
      → (s.vnode p).v_count ≡ 1
      → p ∉ s.vnfreelist
      → (s₁ : Vnodes) × (s₂ : Vnodes) × (vput p s ≡ some s₁)
        × (vget read_inode fuel parent inum dev s₁ ≡ got p s₂)
        × ((s₂.vnode p).v_count ≡ 1)
        × (p ∈ s₂.vnfreelist)
  vput-vget fuel parent s apart ops first device number one out =
      let (hash, rdev, ino, count, list, others) = put_back-fields s in
      let in_bucket : (put_back s).vnhash (hash_fn inum dev) ≡ p =
        ap (λ h. h (hash_fn inum dev)) hash ∙ first in
      let seen =
        find_vnode-first fuel dev inum p (put_back s) in_bucket np (rdev ∙ device) (ino ∙ number) in
      (
        put_back s,
        update_vnode p (λ v. record v { v_count = v.v_count + 1 }) (put_back s),
        vput-last s one out,
        vget-hit fuel parent (put_back s) (others parent (λ e. apart (sym e)) ∙ ops) seen,
        ground (arith, count),
        ground (arith, list),
      )
