-- ===== src/Ext2.antt =====
-- The ext2 file system of the file server (servers/fs-io/fs/ext2fs/ext2.c, ext2inode.c and the
-- comparison of names in ext2dir.c; include/ext2fs.h). Offsets in a file are below 2 ^ 31. What `bread` gives for a block, its bytes or
-- NULL, is a parameter.
pub mod Walk
pub mod Resolve
pub mod Reading
pub mod Blocks
pub mod Names
mod Tests
use manrix.Base.{
  ℕ, zero, suc, ◌+◌, ◌-◌, ◌*◌, ◌/◌, ◌%◌, ◌^◌, Bool, true, false, not, Option, none, some, List, [],
  ◌∷◌, ◌++◌, ltb, leb, ◌==◌, if◌then◌else◌, get_elem?, length,
}

-- `struct ext2inode`, as far as it is read.
pub record Inode : Type 0 where
  pub i_mode : ℕ
  pub i_links_count : ℕ
  pub i_uid : ℕ
  pub i_gid : ℕ
  pub i_size : ℕ
  pub i_atime : ℕ
  pub i_mtime : ℕ
  pub i_ctime : ℕ
  pub i_block : List ℕ

-- `struct vnode` of an ext2 file, with the block size of its file system.
pub record Vnode : Type 0 where
  pub v_inum : ℕ
  pub v_dirty : Bool
  pub blk_size : ℕ
  pub ext2inode : Inode

-- `struct vattr`
pub record Vattr : Type 0 where
  pub st_ino : ℕ
  pub st_mode : ℕ
  pub st_nlink : ℕ
  pub st_uid : ℕ
  pub st_gid : ℕ
  pub st_size : ℕ
  pub st_atime : ℕ
  pub st_mtime : ℕ
  pub st_ctime : ℕ
  pub st_blksize : ℕ

unfoldable pub ext2_get_attr : Vnode → Vattr
ext2_get_attr vn =
    let ino = vn.ext2inode in
    record {
      st_ino = vn.v_inum;
      st_mode = ino.i_mode;
      st_nlink = ino.i_links_count;
      st_uid = ino.i_uid;
      st_gid = ino.i_gid;
      st_size = ino.i_size;
      st_atime = ino.i_atime;
      st_mtime = ino.i_mtime;
      st_ctime = ino.i_ctime;
      st_blksize = vn.blk_size;
    }

-- The owner, the mode and the count of links have 16 bits on the disk.
unfoldable pub ext2_put_attr : Vattr → Vnode → Vnode
ext2_put_attr attr vn = record vn {
  v_inum = attr.st_ino;
  v_dirty = true;
  ext2inode = record vn.ext2inode {
    i_mode = attr.st_mode % 2 ^ 16;
    i_links_count = attr.st_nlink % 2 ^ 16;
    i_uid = attr.st_uid % 2 ^ 16;
    i_gid = attr.st_gid % 2 ^ 16;
    i_size = attr.st_size % 2 ^ 32;
    i_atime = attr.st_atime % 2 ^ 32;
    i_mtime = attr.st_mtime % 2 ^ 32;
    i_ctime = attr.st_ctime % 2 ^ 32;
  };
}

-- EXT2_IND_BLOCK and EXT2_DIND_BLOCK.
abbrev pub ext2_ind_block : ℕ
ext2_ind_block = 12

abbrev pub ext2_dind_block : ℕ
ext2_dind_block = 13

-- The bytes of a block, and the 32-bit word at an index.
abbrev pub Bytes : Type 0
Bytes = ℕ → ℕ

abbrev pub word_at : Bytes → ℕ → ℕ
word_at b i = b (4 * i) + 256 * b (4 * i + 1) + 65536 * b (4 * i + 2) + 16777216 * b (4 * i + 3)

-- `memcpy`: so many bytes from an index on.
unfoldable pub copy : Bytes → ℕ → ℕ → List ℕ
copy b start zero = []
copy b start (suc n) = b start ∷ copy b (suc start) n

-- The bytes that are copied in one round of `ext2_read`.
unfoldable pub round_size : Vnode → ℕ → ℕ → ℕ
round_size vn offset toread =
    let off = offset % vn.blk_size in
    let sz = if ltb toread (vn.blk_size - off) then toread else vn.blk_size - off in
    if ltb vn.ext2inode.i_size (offset + sz) then vn.ext2inode.i_size - offset else sz

-- How a read ends: with the count, the bytes and the offset in the file; with -EINVAL; or not.
pub data ReadResult : Type 0 where
  done : ℕ → List ℕ → ℕ → ReadResult
  einval : ReadResult
  undefined : ReadResult
  unfinished : ReadResult

-- The bytes of a round come before those of the later rounds.
unfoldable pub prepend : List ℕ → ReadResult → ReadResult
prepend part (done n rest offset) = done n (part ++ rest) offset
prepend part einval = einval
prepend part undefined = undefined
prepend part unfinished = unfinished

module _ (bread : ℕ → Option Bytes) where
  -- An entry of an indirect block. `none`: the block is not there, or the index is beyond it.
  unfoldable pub through : Vnode → ℕ → ℕ → Option ℕ
  through vn block index = elim (bread block) [
    | none ↦ none
    | some b ↦ if ltb index (vn.blk_size / 4) then some (word_at b index) else none
  ]

  -- `ext2_bmap`
  unfoldable pub ext2_bmap : Vnode → ℕ → Option ℕ
  unfolding through
  ext2_bmap vn offset =
      let i_block = vn.ext2inode.i_block in
      let tot = vn.blk_size / 4 + ext2_ind_block in
      let totalb = tot * tot in
      if ltb offset ext2_ind_block
      then get_elem? i_block offset
      else if ltb offset tot
      then (elim (get_elem? i_block ext2_ind_block) [
        | none ↦ none
        | some b ↦ through vn b (offset - ext2_ind_block)
      ])
      else if leb offset ((offset + tot) % 2 ^ 32)
      then (elim (get_elem? i_block ext2_dind_block) [
        | none ↦ none
        | some b ↦ elim (through vn b (offset - tot)) [
          | none ↦ none
          | some c ↦ through vn c (offset - tot)
        ]
      ])
      else (elim (get_elem? i_block 15) [
        | none ↦ none
        | some b ↦ elim (through vn b (offset - totalb)) [
          | none ↦ none
          | some c ↦ elim (through vn c (offset - totalb)) [
            | none ↦ none
            | some d ↦ through vn d (offset - totalb)
          ]
        ]
      ])

  -- The loop of `ext2_read`: `bread` may fail, and so may the mapping.
  unfoldable pub read_loop : ℕ → Vnode → ℕ → ℕ → ℕ → ℕ → ReadResult
  unfolding prepend
  read_loop zero vn offset toread count size = unfinished
  read_loop (suc n) vn offset toread count size =
      let sz = round_size vn offset toread in
      let rest = read_loop n vn (offset + sz) (toread - sz) (count + sz) size in
      elim (ext2_bmap vn (offset / vn.blk_size)) [
        | none ↦ undefined
        | some blkno ↦ elim (bread blkno) [
          | none ↦ einval
          | some bytes ↦
              let part = copy bytes (offset % vn.blk_size) sz in
              if leb vn.ext2inode.i_size (offset + sz)
              then done (count + sz) part (offset + sz)
              else if ltb (count + sz) size
              then prepend part rest
              else done (count + sz) part (offset + sz)
        ]
      ]

  -- `ext2_read`, of `size` bytes from the file's offset.
  unfoldable pub ext2_read : ℕ → Vnode → ℕ → ℕ → ReadResult
  unfolding read_loop
  ext2_read fuel vn offset size =
      if leb vn.ext2inode.i_size offset
      then done 0 [] offset
      else read_loop fuel vn offset size 0 size

-- How the loops of the wildcard `*` in `check_name` end: at the index of a `.`, or with the pattern, or
-- beyond the characters that `n` bounds.
pub data Skipped : Type 0 where
  at_dot : ℕ → Skipped
  at_end : Skipped
  beyond : Skipped

unfoldable pub skip_source : ℕ → Bytes → ℕ → Skipped
skip_source zero src i = beyond
skip_source (suc n) src i =
    let rest = skip_source n src (suc i) in
    if src i == 46 then at_dot i else if src i == 0 then at_end else rest

-- The second loop goes along the name, and looks for the end in the pattern.
unfoldable pub skip_name : ℕ → Bytes → Bytes → ℕ → Skipped
skip_name zero dest src j = beyond
skip_name (suc n) dest src j =
    let rest = skip_name n dest src (suc j) in
    if dest j == 46 then at_dot j else if src j == 0 then at_end else rest

-- The loop of `check_name`: `true` stands for its 0. `none`: a loop was not bounded by the pattern.
unfoldable pub check_from : ℕ → Bytes → ℕ → Bytes → ℕ → ℕ → ℕ → Option Bool
unfolding skip_source skip_name
check_from zero dest nlen src srclen i j = none
check_from (suc n) dest nlen src srclen i j =
    let next = check_from n dest nlen src srclen (suc i) (suc j) in
    if not (ltb i srclen)
    then some (i == nlen)
    else if src i == 63
    then next
    else if src i == 42
    then (elim (skip_source (suc srclen) src i) [
      | beyond ↦ none
      | at_end ↦ some true
      | at_dot i' ↦ elim (skip_name (suc srclen) dest src j) [
        | beyond ↦ none
        | at_end ↦ some true
        | at_dot j' ↦ check_from n dest nlen src srclen (suc i') (suc j')
      ]
    ])
    else if src i == dest j
    then next
    else some false

unfoldable pub check_name : Bytes → ℕ → Bytes → ℕ → Option Bool
unfolding check_from
check_name dest nlen src srclen = check_from (suc srclen) dest nlen src srclen 0 0
