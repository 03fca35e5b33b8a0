-- ===== src/Ext2/Walk.antt =====
-- The walk of a path through directories (ext2_readdir of servers/fs-io/fs/ext2fs/ext2dir.c). A path
-- and a name are lists of their characters, without the 0 at the end. What a directory's blocks hold
-- and the vnodes that `vget` gives are arguments; locks, and the permission whose answer
-- is not looked at, are left out.
use manrix.Base.{
  ℕ, zero, suc, ◌+◌, ◌*◌, ◌%◌, ◌^◌, Bool, true, false, not, Option, none, some, List, [], ◌∷◌, ltb,
  leb, ◌==◌, if◌then◌else◌, length, get_or,
}
use manrix.Kernel.{Ptr}
use manrix.Ext2.{Bytes, check_name}

abbrev pub ext2_name_len : ℕ
ext2_name_len = 255

-- `struct ext2dirent`
pub record Dirent : Type 0 where
  pub inum : ℕ
  pub rec_len : ℕ
  pub namelen : ℕ
  pub name : Bytes

-- A vnode as the walk sees it. `block i` has the entries of the block `i` by their offsets; `none`: the
-- block cannot be read.
pub record Dir : Type 0 where
  pub is_dir : Bool
  pub fsmounted : Ptr
  pub i_blocks : ℕ
  pub block : ℕ → Option (ℕ → Dirent)

-- `get_file_blk`
abbrev pub get_file_blk : Dir → ℕ
get_file_blk d = d.i_blocks * 512 % 2 ^ 32

pub data Scanned : Type 0 where
  at_inum : ℕ → Scanned
  exhausted : Scanned
  too_long : Scanned
  undefined : Scanned

abbrev pub characters : List ℕ → Bytes
characters name i = get_or name i 0

-- The loop over the entries of a block of `size` bytes, from an offset on.
unfoldable pub scan_block : ℕ → ℕ → List ℕ → (ℕ → Dirent) → ℕ → Scanned
scan_block zero size name entries off = undefined
scan_block (suc n) size name entries off =
    let dir = entries off in
    let rest = scan_block n size name entries (off + dir.rec_len) in
    if dir.rec_len == 0
    then exhausted
    else if ltb ext2_name_len dir.namelen
    then too_long
    else (elim (check_name dir.name dir.namelen (characters name) (length name)) [
      | none ↦ undefined
      | some true ↦ at_inum dir.inum
      | some false ↦ if leb size (off + dir.rec_len) then exhausted else rest
    ])

-- What the search of a directory for a name comes to.
pub data Searched : Type 0 where
  file : ℕ → Searched
  mounted : Ptr → Searched
  not_found : Searched
  einval : Searched
  eintr : Searched
  enametoolong : Searched
  undefined : Searched

-- The loop over the blocks of a directory, from the block `blkindex` on.
unfoldable pub search_blocks : ℕ → ℕ → List ℕ → Dir → ℕ → Searched
unfolding scan_block
search_blocks zero blk_size name d blkindex = undefined
search_blocks (suc n) blk_size name d blkindex =
    let rest = search_blocks n blk_size name d (suc blkindex) in
    if not d.is_dir
    then einval
    else if not (d.fsmounted == 0)
    then mounted d.fsmounted
    else (elim (d.block blkindex) [
      | none ↦ eintr
      | some entries ↦ elim (scan_block (suc blk_size) blk_size name entries 0) [
        | at_inum i ↦ file i
        | exhausted ↦
            if leb (get_file_blk d) (suc blkindex * blk_size % 2 ^ 32) then not_found else rest
        | too_long ↦ enametoolong
        | Scanned.undefined ↦ undefined
      ]
    ])

unfoldable pub skip_slashes : List ℕ → List ℕ
skip_slashes [] = []
skip_slashes (c ∷ cs) = if c == 47 then skip_slashes cs else c ∷ cs

-- The characters up to the next `/`, and what follows them.
unfoldable pub take_name : List ℕ → List ℕ × List ℕ
take_name [] = ([], [])
take_name (c ∷ cs) =
    let later = take_name cs in if c == 47 then ([], c ∷ cs) else (c ∷ later.0, later.1)

-- `comp`: no path is left, or one character, which is a `/`.
abbrev pub is_last : List ℕ → Bool
is_last [] = true
is_last (c ∷ []) = true
is_last (c ∷ d ∷ ds) = false

-- How `ext2_readdir` ends. `missing` has the directory in which the last name of the path is not found.
pub data Walked : Type 0 where
  resolved : ℕ → Walked
  on_mount : Ptr → Walked
  missing : Option ℕ → Walked
  failed : Searched → Walked
  undefined : Walked

-- The next name of a path, and the rest of the path.
unfoldable pub next_name : List ℕ → List ℕ × List ℕ
unfolding skip_slashes take_name
next_name path = take_name (skip_slashes path)

-- One round of `ext2_readdir`, for a name in the directory `d` with the inode `inum`; `go_on` is the
-- next round, from an inode.
unfoldable pub walk_name :
    (ℕ → List ℕ → Walked) → ℕ → ℕ → (ℕ → Option Dir) → ℕ → Dir → List ℕ × List ℕ → Walked
walk_name go_on blocks blk_size vget inum d (name, rest) =
    if not (ltb (length name) ext2_name_len)
    then undefined
    else (elim (search_blocks blocks blk_size name d 0) [
      | not_found ↦ missing (if is_last rest then some inum else none)
      | mounted vfs ↦ on_mount vfs
      | einval ↦ failed einval
      | eintr ↦ failed eintr
      | enametoolong ↦ failed enametoolong
      | Searched.undefined ↦ undefined
      | file i ↦ elim (vget i) [
        | none ↦ missing none
        | some e ↦ elim (is_last rest) [ true ↦ resolved i | false ↦ go_on i rest ]
      ]
    ])

-- `ext2_readdir` from the directory with the inode `inum`; `vget` gives a vnode by its inode.
unfoldable pub ext2_readdir : ℕ → ℕ → ℕ → (ℕ → Option Dir) → ℕ → List ℕ → Walked
ext2_readdir zero blocks blk_size vget inum path = undefined
ext2_readdir (suc n) blocks blk_size vget inum path = elim (vget inum) [
  | none ↦ undefined
  | some d ↦
      walk_name (ext2_readdir n blocks blk_size vget) blocks blk_size vget inum d (next_name path)
]
