-- ===== src/Vfs.antt =====
-- The file server's cache of vnodes (servers/fs-io/fs/vfs.c, include/vfs.h). The hash table's chains are
-- the vnodes' `v_next` links, and a walk along one runs on fuel; the free list is a list, front first.
-- What `vop_read_inode` stores as the type of an inode is a parameter, and locks are not modelled.
pub mod Cache
mod Tests
use Prim.Native.Nat.{bit_and}
use manrix.Base.{
  ℕ, zero, suc, ◌+◌, ◌-◌, ◌%◌, ◌^◌, Bool, true, false, not, ◌&&◌, Option, none, some, List, [], ◌∷◌,
  ◌==◌, if◌then◌else◌, has,
}
use manrix.Kernel.{Ptr}
use manrix.Sched.{last, but_last}
use manrix.Bcache.{hash_fn}

abbrev pub v_free : ℕ
v_free = 2

abbrev pub v_dirty : ℕ
v_dirty = 8

-- S_ISCHR and S_ISBLK.
abbrev pub is_chr : ℕ → Bool
is_chr m = bit_and m 0xf000 == 0x2000

abbrev pub is_blk : ℕ → Bool
is_blk m = bit_and m 0xf000 == 0x6000

-- Which operations a vnode has.
pub data Ops : Type 0 where
  no_ops : Ops
  fs_ops : Ops
  chr_ops : Ops
  blk_ops : Ops

-- `struct vnode`
pub record Vnode : Type 0 where
  pub v_flag : ℕ
  pub v_count : ℕ
  pub vfsp : Ptr
  pub v_inum : ℕ
  pub v_rdev : ℕ
  pub v_type : ℕ
  pub v_next : Ptr
  pub ops : Ops

-- The vnodes, the hash table, the free list, and the vnodes that were written back, the last first.
pub record Vnodes : Type 0 where
  pub vnode : Ptr → Vnode
  pub vnhash : ℕ → Ptr
  pub vnfreelist : List Ptr
  pub written : List Ptr

abbrev pub update_vnode : Ptr → (Vnode → Vnode) → Vnodes → Vnodes
update_vnode p f s = record s { vnode = λ q. if p == q then f (s.vnode p) else s.vnode q }

unfoldable pub vnhash_insert : Ptr → Vnodes → Vnodes
vnhash_insert p s =
    let b = hash_fn (s.vnode p).v_inum (s.vnode p).v_rdev in
    let s₁ = update_vnode p (λ v. record v { v_next = s.vnhash b }) s in
    record s₁ { vnhash = λ i. if b == i then p else s.vnhash i }

-- The loop of `vnhash_remove` stops only where the next vnode is both the sought one and NULL; before
-- that it reads through NULL, which is `none`.
unfoldable pub vnhash_walk : ℕ → Ptr → Ptr → Vnodes → Option Vnodes
vnhash_walk zero p link s = none
vnhash_walk (suc n) p link s =
    let next = (s.vnode link).v_next in
    let rest = vnhash_walk n p next s in
    if link == 0
    then none
    else if (if next == p then next == 0 else false)
    then some (update_vnode link (λ v. record v { v_next = (s.vnode p).v_next }) s)
    else rest

-- `vnhash_remove`: for the first vnode of a bucket only a local variable is assigned.
unfoldable pub vnhash_remove : ℕ → Ptr → Vnodes → Option Vnodes
unfolding vnhash_walk
vnhash_remove fuel p s =
    let first = s.vnhash (hash_fn (s.vnode p).v_inum (s.vnode p).v_rdev) in
    if first == 0 then some s else if first == p then some s else vnhash_walk fuel p first s

pub data FoundVnode : Type 0 where
  found : Ptr → FoundVnode
  missing : FoundVnode
  unfinished : FoundVnode

abbrev pub is_vnode : ℕ → ℕ → Vnode → Bool
is_vnode dev inum v = (v.v_rdev == dev) && (v.v_inum == inum)

-- The loop of `find_vnode`.
unfoldable pub find_from : ℕ → ℕ → ℕ → Ptr → Vnodes → FoundVnode
find_from zero dev inum link s = unfinished
find_from (suc n) dev inum link s =
    let rest = find_from n dev inum (s.vnode link).v_next s in
    if link == 0 then missing else if is_vnode dev inum (s.vnode link) then found link else rest

unfoldable pub find_vnode : ℕ → ℕ → ℕ → Vnodes → FoundVnode
unfolding find_from
find_vnode fuel dev inum s =
    let p = s.vnhash (hash_fn inum dev) in
    if p == 0
    then missing
    else if is_vnode dev inum (s.vnode p)
    then found p
    else find_from fuel dev inum (s.vnode p).v_next s

-- How a call ends: with a vnode, with NULL, or in a wait for the free list that does not end.
pub data VgetResult : Type 0 where
  got : Ptr → Vnodes → VgetResult
  null : VgetResult
  waits : VgetResult
  undefined : VgetResult

-- `vput`; the vnode is written back if it is dirty. `none`: it is in the free list already.
unfoldable pub vput : Ptr → Vnodes → Option Vnodes
vput p s =
    let v = s.vnode p in
    let left = (v.v_count + 2 ^ 32 - 1) % 2 ^ 32 in
    let s₁ = update_vnode p (λ v. record v { v_count = left }) s in
    let s₂ =
      if not (bit_and v.v_flag v_dirty == 0) then record s₁ { written = p ∷ s₁.written } else s₁ in
    let s₃ = update_vnode p (λ v. record v { v_flag = v_free }) s₂ in
    if not (left == 0)
    then some s₁
    else if has p s.vnfreelist
    then none
    else some (record s₃ { vnfreelist = p ∷ s₃.vnfreelist })

module _ (read_inode : ℕ → ℕ → ℕ) where
  -- The part of `vget` that fills a vnode from the free list in, and inserts it.
  unfoldable pub fill_vnode : Ptr → ℕ → ℕ → Vnodes → Vnodes
  unfolding vnhash_insert
  fill_vnode p inum dev s =
      let type = read_inode dev inum in
      let ops = if is_chr type then chr_ops else if is_blk type then blk_ops else fs_ops in
      vnhash_insert p
        (update_vnode p (λ v. record v { v_rdev = dev; v_inum = inum; v_type = type; ops = ops }) s)

  -- The vnode at the back of the free list is taken.
  unfoldable pub take_vnode : ℕ → Ptr → ℕ → ℕ → Ptr → Vnodes → VgetResult
  unfolding fill_vnode
  take_vnode fuel vfsp inum dev p s =
      let s₁ = record s { vnfreelist = but_last s.vnfreelist } in
      if not (bit_and (s.vnode p).v_flag v_free == 0)
      then got p
          (fill_vnode p inum dev (update_vnode p (λ v. record v { v_count = 1; vfsp = vfsp }) s₁))
      else (elim (vnhash_remove fuel p s₁) [
        | none ↦ undefined
        | some s₂ ↦
            got p (
              fill_vnode p inum dev (update_vnode p (λ v. record v { v_count = v.v_count + 1 }) s₂))
      ])

  -- `vget`, of an inode of the file system of the vnode `parent`.
  unfoldable pub vget : ℕ → Ptr → ℕ → ℕ → Vnodes → VgetResult
  unfolding take_vnode
  vget fuel parent inum dev s = elim (s.vnode parent).ops [
    | no_ops ↦ null
    | chr_ops ↦ null
    | blk_ops ↦ null
    | fs_ops ↦ elim (find_vnode fuel dev inum s) [
      | found p ↦ got p (update_vnode p (λ v. record v { v_count = v.v_count + 1 }) s)
      | unfinished ↦ undefined
      | missing ↦ elim (last s.vnfreelist) [
        | none ↦ waits
        | some p ↦ take_vnode fuel (s.vnode parent).vfsp inum dev p s
      ]
    ]
  ]
