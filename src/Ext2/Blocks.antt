-- ===== src/Ext2/Blocks.antt =====
-- The mapping of a file's blocks.
use manrix.Base.{
  ℕ, ◌+◌, ◌-◌, ◌/◌, ◌%◌, ◌^◌, ◌≤◌, ◌<◌, ◌≡◌, refl, true, false, Option, none, some, ltb, leb,
  if◌then◌else◌, get_elem?, arith, Bool-cases, inl, inr,
}
use manrix.Ext2.{Vnode, Bytes, through, ext2_bmap}

module _ (bread : ℕ → Option Bytes) (vn : Vnode) where
  -- The words in a block.
  abbrev per_block : ℕ
  per_block = vn.blk_size / 4

  -- The layout of ext2: twelve blocks in the inode, then those of the indirect block, then those of
  -- the blocks that the double indirect block names.
  pub reference_bmap : ℕ → Option ℕ
  reference_bmap k =
      let tot = per_block + 12 in
      if ltb k 12
      then get_elem? vn.ext2inode.i_block k
      else if ltb k tot
      then (elim (get_elem? vn.ext2inode.i_block 12) [
        | none ↦ none
        | some b ↦ through bread vn b (k - 12)
      ])
      else (elim (get_elem? vn.ext2inode.i_block 13) [
        | none ↦ none
        | some b ↦ elim (through bread vn b ((k - tot) / per_block)) [
          | none ↦ none
          | some c ↦ through bread vn c ((k - tot) % per_block)
        ]
      ])

  through-outside : (b i : ℕ) → per_block ≤ i → through bread vn b i ≡ none
  unfolding through
  through-outside b i far = ground arith

  two_levels : Option ℕ → ℕ → ℕ → Option ℕ
  two_levels x i j = elim x [
    | none ↦ none
    | some b ↦ elim (through bread vn b i) [ none ↦ none | some c ↦ through bread vn c j ]
  ]

  outside_either : (x : Option ℕ) (i j : ℕ) → per_block ≤ i → two_levels x i j ≡ none
  unfolding two_levels
  outside_either none i j far = refl
  outside_either (some b) i j far = rw (through-outside b i far, two_levels) refl

  first_of_both :
      (x : Option ℕ) (d : ℕ)
      → d ≡ 0
      → 0 < per_block
      → two_levels x d d ≡ two_levels x (d / per_block) (d % per_block)
  first_of_both x d zero_d some_words =
      let block : 0 / per_block ≡ 0 = grind arith in
      let place : 0 % per_block ≡ 0 = grind arith in rw (zero_d, block, place) refl

  -- The mapping agrees with the layout for the blocks of the inode, those of the indirect block, and the
  -- first one behind them.
  pub ext2_bmap-reference :
      (k : ℕ)
      → k ≤ per_block + 12
      → 0 < per_block
      → per_block < 2 ^ 30
      → ext2_bmap bread vn k ≡ reference_bmap k
  unfolding ext2_bmap reference_bmap two_levels
  ext2_bmap-reference k small some_words words = elim (Bool-cases (ltb k 12)) [
    | inl direct ↦ rw (direct, ext2_bmap, reference_bmap) refl
    | inr late ↦ elim (Bool-cases (ltb k (per_block + 12))) [
      | inl single ↦ rw (late, single, ext2_bmap, reference_bmap) refl
      | inr later ↦
          (let none_over : k - (per_block + 12) ≡ 0 = ground arith in
            let no_wrap : leb k ((k + (per_block + 12)) % 2 ^ 32) ≡ true = ground arith in
            rw (late, later, no_wrap, ext2_bmap, reference_bmap)
              (first_of_both (get_elem? vn.ext2inode.i_block 13) (k - (per_block + 12)) none_over
                some_words))
    ]
  ]

  -- From the number of words in a block on, counted from the first block of the double indirect block,
  -- no block is mapped: the index of the block itself is used at both levels, and is outside.
  pub ext2_bmap-outside :
      (k : ℕ)
      → per_block + 12 + per_block ≤ k
      → k + (per_block + 12) < 2 ^ 32
      → ext2_bmap bread vn k ≡ none
  unfolding ext2_bmap two_levels
  ext2_bmap-outside k far small =
      let late : ltb k 12 ≡ false = ground arith in
      let later : ltb k (per_block + 12) ≡ false = ground arith in
      let no_wrap : leb k ((k + (per_block + 12)) % 2 ^ 32) ≡ true = ground arith in
      let far_off : per_block ≤ k - (per_block + 12) = omega arith in
      rw (late, later, no_wrap, ext2_bmap)
        (outside_either (get_elem? vn.ext2inode.i_block 13) (k - (per_block + 12))
          (k - (per_block + 12)) far_off)
