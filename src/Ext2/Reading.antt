-- ===== src/Ext2/Reading.antt =====
-- Reading a file gives its bytes.
use manrix.Base.{
  ℕ, zero, suc, ◌+◌, ◌-◌, ◌*◌, ◌/◌, ◌%◌, ◌≤◌, ◌<◌, ◌≡◌, refl, Option, some, ◌∷◌, ◌++◌, ltb, leb,
  if◌then◌else◌, arith, ◌∙◌, ap, Bool-cases, inl, inr,
}
use manrix.Ext2.{
  Vnode, Bytes, copy, round_size, ReadResult, done, prepend, ext2_bmap, read_loop, ext2_read,
}

copy-append : (b : Bytes) (s n m : ℕ) → copy b s n ++ copy b (s + n) m ≡ copy b s (n + m)
unfolding copy
copy-append b s zero m =
    let here : s + 0 ≡ s = omega arith in let all : 0 + m ≡ m = omega arith in rw (here, all) refl
copy-append b s (suc n) m =
    let moved : s + suc n ≡ suc s + n = omega arith in
    let longer : suc n + m ≡ suc (n + m) = omega arith in
    rw (moved, longer) (ap (λ xs. b s ∷ xs) (copy-append b (suc s) n m))

-- The bytes of a file whose blocks are given, one after the other.
abbrev pub file_bytes : (ℕ → Bytes) → ℕ → Bytes
file_bytes blocks size i = blocks (i / size) (i % size)

block-of : (k o size : ℕ) → o < size → ((k * size + o) / size ≡ k) × ((k * size + o) % size ≡ o)
block-of k o size lt = (grind arith, grind arith)

copy-inside :
    (blocks : ℕ → Bytes) (size k o n : ℕ)
    → o + n ≤ size
    → copy (blocks k) o n ≡ copy (file_bytes blocks size) (k * size + o) n
unfolding copy
copy-inside blocks size k o zero inside = refl
copy-inside blocks size k o (suc n) inside =
    let (block, place) = block-of k o size (omega arith) in
    let next : suc (k * size + o) ≡ k * size + suc o = omega arith in
    rw (block, place, next)
      (ap (λ xs. blocks k o ∷ xs) (copy-inside blocks size k (suc o) n (omega arith)))

-- Inside one block, the file's bytes are the block's.
copy-block :
    (blocks : ℕ → Bytes) (size off n : ℕ)
    → 0 < size
    → off % size + n ≤ size
    → copy (blocks (off / size)) (off % size) n ≡ copy (file_bytes blocks size) off n
copy-block blocks size off n pos inside =
    let whole : off / size * size + off % size ≡ off = grind arith in
    copy-inside blocks size (off / size) (off % size) n inside
    ∙ ap (λ o. copy (file_bytes blocks size) o n) whole

-- `b` is the smaller of the bytes that are asked for and those that the file has left.
abbrev pub left : Vnode → ℕ → ℕ → ℕ
left vn offset toread =
    if ltb toread (vn.ext2inode.i_size - offset) then toread else vn.ext2inode.i_size - offset

-- Every block of the file is mapped and can be read, and these are the blocks' bytes.
pub record IsReadable (bread : ℕ → Option Bytes) (vn : Vnode) (number : ℕ → ℕ) (blocks : ℕ → Bytes)
    : Type 0 where
  pub block_size : 0 < vn.blk_size
  pub mapped :
      (k : ℕ) → k * vn.blk_size < vn.ext2inode.i_size → ext2_bmap bread vn k ≡ some (number k)
  pub read : (k : ℕ) → k * vn.blk_size < vn.ext2inode.i_size → bread (number k) ≡ some (blocks k)

module _ (vn : Vnode) (pos : 0 < vn.blk_size) (offset toread : ℕ)
    (before : offset < vn.ext2inode.i_size) where
  in_block : offset % vn.blk_size < vn.blk_size
  in_block = grind arith

  -- A round stays inside its block, the file and the request.
  round-inside :
      (offset % vn.blk_size + round_size vn offset toread ≤ vn.blk_size)
      × (round_size vn offset toread ≤ vn.ext2inode.i_size - offset)
      × (round_size vn offset toread ≤ toread)
  unfolding round_size
  round-inside = (ground (arith, in_block), ground (arith, in_block), ground (arith, in_block))

  -- A round that ends before the file and the request has moved on.
  round-moves :
      offset + round_size vn offset toread < vn.ext2inode.i_size
      → round_size vn offset toread < toread
      → 0 < round_size vn offset toread
  unfolding round_size
  round-moves more wanted = ground (arith, in_block)

module _ (bread : ℕ → Option Bytes) (vn : Vnode) (number : ℕ → ℕ) (blocks : ℕ → Bytes)
    (h : IsReadable bread vn number blocks) where
  abbrev bytes : Bytes
  bytes = file_bytes blocks vn.blk_size

  -- One round, with what the later rounds give.
  after_round : ReadResult → ℕ → ℕ → ℕ → ℕ → ReadResult
  after_round rest offset toread count size =
      let sz = round_size vn offset toread in
      let part = copy bytes offset sz in
      if leb vn.ext2inode.i_size (offset + sz)
      then done (count + sz) part (offset + sz)
      else if ltb (count + sz) size
      then prepend part rest
      else done (count + sz) part (offset + sz)

  one_round :
      (n offset toread count size : ℕ)
      → offset < vn.ext2inode.i_size
      → let sz = round_size vn offset toread in
        read_loop bread (suc n) vn offset toread count size
        ≡ after_round
            (read_loop bread n vn (offset + sz) (toread - sz) (count + sz) size)
            offset
            toread
            count
            size
  unfolding after_round read_loop
  one_round n offset toread count size before =
      let k : ℕ = offset / vn.blk_size in
      let inside : k * vn.blk_size < vn.ext2inode.i_size = grind arith in
      let (fits, file, wanted) = round-inside vn h.block_size offset toread before in
      rw
        (
          h.mapped k inside,
          h.read k inside,
          copy-block blocks vn.blk_size offset (round_size vn offset toread) h.block_size fits,
          read_loop,
        )
        refl

  -- The rounds from an offset inside the file: with as much fuel as there are bytes to read, they give
  -- the bytes of the file.
  loop_reads :
      (n offset toread count size : ℕ)
      → offset < vn.ext2inode.i_size
      → count + toread ≡ size
      → toread < n
      → read_loop bread n vn offset toread count size
        ≡ done
            (count + left vn offset toread)
            (copy bytes offset (left vn offset toread))
            (offset + left vn offset toread)
  unfolding after_round prepend
  loop_reads zero offset toread count size before total fuel = absurd (omega arith)
  loop_reads (suc n) offset toread count size before total fuel =
      let sz : ℕ = round_size vn offset toread in
      let (fits, file, wanted) = round-inside vn h.block_size offset toread before in
      one_round n offset toread count size before
      ∙ (elim (Bool-cases (leb vn.ext2inode.i_size (offset + sz))) [
        | inl ended ↦
            (let all : left vn offset toread ≡ sz = ground arith in
              rw (ended, all, after_round) refl)
        | inr more ↦ elim (Bool-cases (ltb (count + sz) size)) [
          | inr enough ↦
              (let all : left vn offset toread ≡ sz = ground arith in
                rw (more, enough, all, after_round) refl)
          | inl again ↦
              (let moves =
                  round-moves vn h.block_size offset toread before (ground arith) (ground arith) in
                let rest : ℕ = left vn (offset + sz) (toread - sz) in
                let later =
                  loop_reads n (offset + sz) (toread - sz) (count + sz) size (ground arith)
                    (ground arith) (omega arith) in
                let all : left vn offset toread ≡ sz + rest = ground arith in
                let counted : count + (sz + rest) ≡ count + sz + rest = omega arith in
                let placed : offset + (sz + rest) ≡ offset + sz + rest = omega arith in
                rw (more, again, later, all, counted, placed, after_round, prepend)
                  (ap (λ part. done (count + sz + rest) part (offset + sz + rest))
                    (copy-append bytes offset sz rest)))
        ]
      ])

  -- If every block of the file is mapped and can be read, `ext2_read` gives exactly what is asked for: as
  -- many bytes as the request and the rest of the file allow, these are the bytes of the file from the
  -- offset on, and the offset moves by their number. More rounds than the size of the request are
  -- never needed, so the loop ends.
  pub ext2_read-bytes :
      (fuel offset size : ℕ)
      → size < fuel
      → ext2_read bread fuel vn offset size
        ≡ done
            (left vn offset size)
            (copy (file_bytes blocks vn.blk_size) offset (left vn offset size))
            (offset + left vn offset size)
  unfolding ext2_read copy
  ext2_read-bytes fuel offset size enough = elim (Bool-cases (leb vn.ext2inode.i_size offset)) [
    | inl past ↦
        (let nothing : left vn offset size ≡ 0 = ground arith in
          let same : offset + 0 ≡ offset = omega arith in
          rw (past, nothing, same, ext2_read, copy) refl)
    | inr inside ↦
        (let zeros : 0 + left vn offset size ≡ left vn offset size = omega arith in
          rw (inside, ext2_read)
            (loop_reads fuel offset size 0 size (ground arith) (omega arith) enough
              ∙ rw zeros refl))
  ]
