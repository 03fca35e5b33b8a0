-- ===== src/Ext2/Resolve.antt =====
-- What a path resolves to, and which entry of a block a name finds.
use manrix.Base.{
  ℕ, zero, suc, ◌+◌, ◌≤◌, ◌<◌, ◌≡◌, refl, ◌≢◌, ◌&&◌, Bool, true, false, Option, some, List, [], ◌∷◌,
  ◌++◌, ltb, leb, ◌==◌, if◌then◌else◌, length, Bool-cases, inl, inr, arith, ◌∙◌,
}
use manrix.Ext2.Names.{same_from, IsLiteral, check_name-literal}
use manrix.Ext2.Walk.{
  Dirent, Dir, Scanned, at_inum, exhausted, characters, scan_block, file, search_blocks,
  skip_slashes, take_name, next_name, walk_name, is_last, Walked, resolved, ext2_readdir,
  ext2_name_len,
}

-- Names of a path, each behind a `/`.
abbrev pub path_of : List (List ℕ × ℕ) → List ℕ
path_of [] = []
path_of ((name, i) ∷ r) = 47 ∷ name ++ path_of r

-- A name that can stand in a path.
abbrev pub NoSlash : List ℕ → Type 0
NoSlash [] = Unit {0}
NoSlash (c ∷ cs) = (c ≢ 47) × NoSlash cs

pub record IsName (name : List ℕ) : Type 0 where
  pub nonempty : 0 < length name
  pub short : length name < 255
  pub no_slash : NoSlash name

-- The inodes that the names lead to, one after the other, from the directory with the inode `i`.
abbrev pub Route : ℕ → ℕ → (ℕ → Option Dir) → ℕ → List (List ℕ × ℕ) → Type 0
Route blocks blk_size vget i [] = Unit {0}
Route blocks blk_size vget i ((name, j) ∷ r) =
    IsName name
    × ((d : Dir) × (vget i ≡ some d) × (search_blocks blocks blk_size name d 0 ≡ file j))
    × ((e : Dir) × (vget j ≡ some e))
    × Route blocks blk_size vget j r

abbrev pub last_inode : ℕ → List (List ℕ × ℕ) → ℕ
last_inode i [] = i
last_inode i ((name, j) ∷ r) = last_inode j r

take_name-path_of :
    (name : List ℕ) (r : List (List ℕ × ℕ))
    → NoSlash name
    → take_name (name ++ path_of r) ≡ (name, path_of r)
unfolding take_name
take_name-path_of [] [] h = refl
take_name-path_of [] ((n, i) ∷ r) h = refl
take_name-path_of (c ∷ cs) r h =
    let plain : (c == 47) ≡ false = ground arith in rw (take_name-path_of cs r h.1, plain) refl

next_name-path_of :
    (name : List ℕ) (i : ℕ) (r : List (List ℕ × ℕ))
    → IsName name
    → next_name (path_of ((name, i) ∷ r)) ≡ (name, path_of r)
unfolding next_name skip_slashes
next_name-path_of [] i r h = absurd (omega (arith, h.nonempty))
next_name-path_of (c ∷ cs) i r h =
    let plain : (c == 47) ≡ false = ground (arith, h.no_slash) in
    rw plain (take_name-path_of (c ∷ cs) r h.no_slash)

is_last-path_of :
    (name : List ℕ) (i : ℕ) (r : List (List ℕ × ℕ))
    → 0 < length name
    → is_last (path_of ((name, i) ∷ r)) ≡ false
is_last-path_of [] i r h = elim h [ ]
is_last-path_of (c ∷ cs) i r h = refl

walk_name-found :
    (go_on : ℕ → List ℕ → Walked) (blocks blk_size : ℕ) (vget : ℕ → Option Dir) (i : ℕ) (d e : Dir)
    (name rest : List ℕ) (j : ℕ)
    → length name < 255
    → search_blocks blocks blk_size name d 0 ≡ file j
    → vget j ≡ some e
    → walk_name go_on blocks blk_size vget i d (name, rest)
      ≡ (if is_last rest then resolved j else go_on j rest)
unfolding walk_name
walk_name-found go_on blocks blk_size vget i d e name rest j short found at_e =
    let fits : ltb (length name) ext2_name_len ≡ true = ground arith in
    elim (Bool-cases (is_last rest)) [
      | inl over ↦ rw (fits, found, at_e, over) refl
      | inr more ↦ rw (fits, found, at_e, more) refl
    ]

-- `ext2_readdir` on a path of any number of names, each of which is found in the directory that the
-- ones before lead to, with as many steps as there are names: it gives the inode that the last one
-- leads to.
pub ext2_readdir-resolved :
    (n blocks blk_size : ℕ) (vget : ℕ → Option Dir) (i : ℕ) (name : List ℕ) (j : ℕ)
    (r : List (List ℕ × ℕ))
    → Route blocks blk_size vget i ((name, j) ∷ r)
    → length r < n
    → ext2_readdir n blocks blk_size vget i (path_of ((name, j) ∷ r)) ≡ resolved (last_inode j r)
unfolding ext2_readdir
ext2_readdir-resolved zero blocks blk_size vget i name j r route enough = elim enough [ ]
ext2_readdir-resolved (suc n) blocks blk_size vget i name j [] route enough =
    let (its_name, (d, at_d, found), (e, at_e), more) = route in
    let go_on = ext2_readdir n blocks blk_size vget in
    rw (at_d, ext2_readdir, next_name-path_of name j [] its_name)
      (walk_name-found go_on blocks blk_size vget i d e name [] j its_name.short found at_e)
ext2_readdir-resolved (suc n) blocks blk_size vget i name j ((name', k) ∷ r) route enough =
    let (its_name, (d, at_d, found), (e, at_e), more) = route in
    let go_on = ext2_readdir n blocks blk_size vget in
    let tail = path_of ((name', k) ∷ r) in
    let step =
      walk_name-found go_on blocks blk_size vget i d e name tail j its_name.short found at_e in
    let rest = ext2_readdir-resolved n blocks blk_size vget j name' k r more (omega arith) in
    rw (at_d, ext2_readdir, next_name-path_of name j ((name', k) ∷ r) its_name)
      (step ∙ rw (is_last-path_of name' k r more.0.nonempty) rest)

-- The entries `e ∷ es` stand in a block of `size` bytes from the offset `off` on, the last one up to its
-- end.
abbrev pub Laid : ℕ → (ℕ → Dirent) → ℕ → Dirent → List Dirent → Type 0
Laid size entries off e [] =
    (entries off ≡ e) × (0 < e.rec_len) × (e.namelen ≤ 255) × (size ≤ off + e.rec_len)
Laid size entries off e (f ∷ r) =
    (entries off ≡ e)
    × (0 < e.rec_len)
    × (e.namelen ≤ 255)
    × (off + e.rec_len < size)
    × Laid size entries (off + e.rec_len) f r

abbrev pub bears : List ℕ → Dirent → Bool
bears name e = same_from e.name (characters name) (length name) 0 && (length name == e.namelen)

-- The first entry that has a name.
abbrev pub first_named : List ℕ → Dirent → List Dirent → Scanned
first_named name e [] = if bears name e then at_inum e.inum else exhausted
first_named name e (f ∷ r) =
    let rest = first_named name f r in if bears name e then at_inum e.inum else rest

-- A name without wildcards, looked for in a block that entries fill, with as many steps as there are
-- entries: the inode of the first entry with the same length and the same characters, and none if
-- there is no such entry.
pub scan_block-first :
    (n size : ℕ) (name : List ℕ) (entries : ℕ → Dirent) (off : ℕ) (e : Dirent) (es : List Dirent)
    → IsLiteral (characters name) (length name)
    → Laid size entries off e es
    → length es < n
    → scan_block n size name entries off ≡ first_named name e es
unfolding scan_block
scan_block-first zero size name entries off e es literal laid enough = elim enough [ ]
scan_block-first (suc n) size name entries off e [] literal laid enough =
    let (at_off, some_len, short, last) = laid in
    let dir = entries off in
    let same = check_name-literal dir.name dir.namelen (characters name) (length name) literal in
    let some_len' : (dir.rec_len == 0) ≡ false = ground arith in
    let short' : ltb ext2_name_len dir.namelen ≡ false = ground arith in
    let last' : leb size (off + dir.rec_len) ≡ true = ground arith in
    rw (← at_off) (elim (Bool-cases (bears name dir)) [
      | inl it ↦ rw (some_len', short', same, it, scan_block) refl
      | inr other ↦ rw (some_len', short', same, other, scan_block, last') refl
    ])
scan_block-first (suc n) size name entries off e (f ∷ r) literal laid enough =
    let (at_off, some_len, short, more, laid') = laid in
    let dir = entries off in
    let same = check_name-literal dir.name dir.namelen (characters name) (length name) literal in
    let some_len' : (dir.rec_len == 0) ≡ false = ground arith in
    let short' : ltb ext2_name_len dir.namelen ≡ false = ground arith in
    let more' : leb size (off + dir.rec_len) ≡ false = ground arith in
    let rest =
      scan_block-first n size name entries (off + dir.rec_len) f r literal (rw at_off laid')
        (omega arith) in
    rw (← at_off) (elim (Bool-cases (bears name dir)) [
      | inl it ↦ rw (some_len', short', same, it, scan_block) refl
      | inr other ↦ rw (some_len', short', same, other, scan_block, more') rest
    ])
