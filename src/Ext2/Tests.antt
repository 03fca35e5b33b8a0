-- ===== src/Ext2/Tests.antt =====
-- A file of five bytes in blocks of four.
use manrix.Base.{
  ℕ, zero, suc, ◌+◌, ◌*◌, ◌<◌, ◌≡◌, ◌≢◌, refl, true, false, Option, some, [], ◌∷◌, arith, ◌==◌,
  if◌then◌else◌,
}
use manrix.Ext2.{
  Vnode, Bytes, copy, done, ext2_bmap, ext2_read, check_name, check_from, skip_source,
}
use manrix.Ext2.Reading.{IsReadable, file_bytes, ext2_read-bytes}
use manrix.Ext2.Blocks.{reference_bmap, ext2_bmap-reference}
use manrix.Ext2.Names.{IsLiteral}
use manrix.Ext2.Walk.{
  Dirent, Dir, characters, scan_block, file, not_found, search_blocks, resolved, ext2_readdir,
}
use manrix.Ext2.Resolve.{first_named, scan_block-first, IsName, ext2_readdir-resolved}

abbrev five : Vnode
five = record {
  v_inum = 12;
  v_dirty = false;
  blk_size = 4;
  ext2inode = record {
    i_mode = 0;
    i_links_count = 1;
    i_uid = 0;
    i_gid = 0;
    i_size = 5;
    i_atime = 0;
    i_mtime = 0;
    i_ctime = 0;
    i_block = 7 ∷ 8 ∷ 0 ∷ 0 ∷ 0 ∷ 0 ∷ 0 ∷ 0 ∷ 0 ∷ 0 ∷ 0 ∷ 0 ∷ 0 ∷ 0 ∷ 0 ∷ [];
  };
}

-- Block 7 holds 70, 71, 72, …, and block 8 holds 80, 81, 82, ….
abbrev block : ℕ → Bytes
block n i = 10 * n + i

abbrev disk : ℕ → Option Bytes
disk n = some (block n)

abbrev numbers : ℕ → ℕ
numbers k = if k == 0 then 7 else 8

mapped_at : (k : ℕ) → k * 4 < 5 → ext2_bmap disk five k ≡ some (numbers k)
unfolding ext2_bmap
mapped_at zero lt = refl
mapped_at (suc zero) lt = refl
mapped_at (suc (suc k)) lt = absurd (omega arith)

five-IsReadable : IsReadable disk five numbers (λ k. block (numbers k))
five-IsReadable = record {
  block_size = omega arith;
  mapped = λ k lt. mapped_at k lt;
  read = λ k lt. refl;
}

ext2_read-bytes_example :
    ext2_read disk 11 five 3 10 ≡ done 2 (copy (file_bytes (λ k. block (numbers k)) 4) 3 2) 5
ext2_read-bytes_example =
    ext2_read-bytes disk five numbers (λ k. block (numbers k)) five-IsReadable 11 3 10 (omega arith)

-- These are the last byte of the first block and the first one of the second.
bytes_test : copy (file_bytes (λ k. block (numbers k)) 4) 3 2 ≡ 73 ∷ 80 ∷ []
unfolding copy
bytes_test = refl

ext2_bmap-reference_example : ext2_bmap disk five 13 ≡ reference_bmap disk five 13
ext2_bmap-reference_example =
    ext2_bmap-reference disk five 13 (omega arith) (omega arith) (omega arith)

-- The names "ab" and "a?", and "ab" and "*".
abbrev ab : Bytes
ab i = if i == 0 then 97 else if i == 1 then 98 else 0

question_test : check_name ab 2 (λ i. if i == 0 then 97 else 63) 2 ≡ some true
unfolding check_name check_from
question_test = refl

star_test : check_name ab 2 (λ i. if i == 0 then 42 else 0) 1 ≡ some true
unfolding check_name check_from skip_source
star_test = refl

ab-IsLiteral : IsLiteral ab 2
ab-IsLiteral = record { no_question = λ i lt. ground arith; no_star = λ i lt. ground arith }

-- A directory with the entries "ab", of the inode 5, and "c", of the inode 6, in a block of 32 bytes.
abbrev entry_ab : Dirent
entry_ab = record { inum = 5; rec_len = 12; namelen = 2; name = ab }

abbrev entry_c : Dirent
entry_c = record { inum = 6; rec_len = 20; namelen = 1; name = λ i. if i == 0 then 99 else 0 }

abbrev folder : Dir
folder = record {
  is_dir = true;
  fsmounted = 0;
  i_blocks = 0;
  block = λ i. some (λ off. if off == 0 then entry_ab else entry_c);
}

c-IsLiteral : IsLiteral (characters (99 ∷ [])) 1
c-IsLiteral = record {
  no_question = λ i lt. c_at i lt 63 (ground arith);
  no_star = λ i lt. c_at i lt 42 (ground arith);
}
  where
    c_at : (i : ℕ) → i < 1 → (k : ℕ) → 99 ≢ k → characters (99 ∷ []) i ≢ k
    c_at zero lt k h = h
    c_at (suc i) lt k h = absurd (omega arith)

scan_block-first_example :
    scan_block 2 32 (99 ∷ []) (λ off. if off == 0 then entry_ab else entry_c) 0
    ≡ first_named (99 ∷ []) entry_ab (entry_c ∷ [])
scan_block-first_example =
    scan_block-first 2 32 (99 ∷ []) (λ off. if off == 0 then entry_ab else entry_c) 0 entry_ab
      (entry_c ∷ []) c-IsLiteral
      (refl, omega arith, omega arith, omega arith, (refl, omega arith, omega arith, omega arith))
      (omega arith)

-- The inodes 2, 5 and 6 are such directories.
found_ab : search_blocks 1 32 (97 ∷ 98 ∷ []) folder 0 ≡ file 5
unfolding search_blocks check_name check_from
found_ab = refl

found_c : search_blocks 1 32 (99 ∷ []) folder 0 ≡ file 6
unfolding search_blocks check_name check_from
found_c = refl

not_found_d : search_blocks 1 32 (100 ∷ []) folder 0 ≡ not_found
unfolding search_blocks check_name check_from
not_found_d = refl

ab-IsName : IsName (97 ∷ 98 ∷ [])
ab-IsName = record {
  nonempty = omega arith;
  short = omega arith;
  no_slash = (ground arith, (ground arith, tt));
}

c-IsName : IsName (99 ∷ [])
c-IsName = record { nonempty = omega arith; short = omega arith; no_slash = (ground arith, tt) }

-- The path "/ab/c".
ext2_readdir-resolved_example :
    ext2_readdir 2 1 32 (λ i. some folder) 2 (47 ∷ 97 ∷ 98 ∷ 47 ∷ 99 ∷ []) ≡ resolved 6
ext2_readdir-resolved_example =
    ext2_readdir-resolved 2 1 32 (λ i. some folder) 2 (97 ∷ 98 ∷ []) 5 ((99 ∷ [], 6) ∷ [])
      (
        ab-IsName,
        (folder, refl, found_ab),
        (folder, refl),
        (c-IsName, (folder, refl, found_c), (folder, refl), tt),
      )
      (omega arith)
