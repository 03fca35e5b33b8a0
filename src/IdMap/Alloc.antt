-- ===== src/IdMap/Alloc.antt =====
-- `alloc_id` and `dealloc_id` against the set of ids that are handed out.
use manrix.Base.{
  ℕ, zero, suc, ◌+◌, ◌*◌, ◌/◌, ◌%◌, ◌^◌, ◌≤◌, ◌<◌, ◌≡◌, refl, ◌≢◌, true, false, Option, none, some,
  arith, ◌∙◌, ap, ◌==◌, if◌then◌else◌, Bool-cases, Option-cases, List, [], ◌∷◌, get_or, set, length,
  length-set, get_or-set_self, get_elem?-eq-get_or, inl, inr, ltb, lt→ltb, sym, set-set, set-get_or,
}
use manrix.Bits.{check_set, set_bit, clear_bit, ffc, max_int_val}
use manrix.Bits.Laws.{
  check_set-set_bit, check_set-clear_bit, clear_bit-set_bit, ffc-some, set_bit-lt, clear_bit-le,
}
use manrix.IdMap.{
  IdMap, page_words, hint_limit, AllocResult, got, exhausted, fault, scan, take_bit, rescan,
  alloc_id, dealloc_id, is_used,
}
use manrix.IdMap.Laws.{IsValid, get_or-AllWords, is_used-set, is_used-word, IsValid-set}

-- What an allocation out of `m` promises of its outcome.
abbrev pub Fresh : IdMap → AllocResult → Type 0
Fresh m (got id m') =
    (is_used m id ≡ false)
    × ((j : ℕ) → is_used m' j ≡ (if id == j then true else is_used m j))
    × (id < (hint_limit + 1) * 32)
    × IsValid m'
Fresh m exhausted = (h : ℕ) → h ≤ hint_limit → get_or m.bitmap h 0 ≡ max_int_val
Fresh m fault = ⊥

take_bit-Fresh :
    (m : IdMap) (h : ℕ)
    → IsValid m
    → h ≤ hint_limit
    → get_or m.bitmap h 0 ≢ max_int_val
    → Fresh m (take_bit m h)
unfolding take_bit
take_bit-Fresh m h v lim ne =
    let w : ℕ = get_or m.bitmap h 0 in
    let word : w < 2 ^ 32 = get_or-AllWords m.bitmap h v.words in
    let inside : h < length m.bitmap = omega (arith, v.whole) in
    let (i, e, small, clear) = ffc-some w word ne in
    let at = λ (j : ℕ).
      is_used-set m h i j (set_bit w i) true inside small (λ k. check_set-set_bit w i k) in
    rw (e, Fresh)
      (
        is_used-word m h i small ∙ clear,
        at,
        omega arith,
        IsValid-set m h (set_bit w i) v lim (set_bit-lt 32 w i word small),
      )

scan_full :
    (w : ℕ) (ws : List ℕ) (k : ℕ)
    → (w == max_int_val) ≡ true
    → ((j : ℕ) → j < k → get_or ws j 0 ≡ max_int_val)
    → (j : ℕ) → j < suc k
    → get_or (w ∷ ws) j 0 ≡ max_int_val
scan_full w ws k full below zero lt = ground arith
scan_full w ws k full below (suc j) lt = below j (omega arith)

-- The scan stops at the first word that is not full.
scan-some :
    (ws : List ℕ) (start r : ℕ)
    → scan ws start ≡ some r
    → (k : ℕ) × (r ≡ start + k)
      × (k < length ws)
      × (get_or ws k 0 ≢ max_int_val)
      × ((j : ℕ) → j < k → get_or ws j 0 ≡ max_int_val)
unfolding scan
scan-some [] start r e = cc
scan-some (w ∷ ws) start r e = elim (Bool-cases (w == max_int_val)) [
  | inl full ↦
      let (k, er, lt, ne, below) = scan-some ws (start + 1) r (rw (full, scan) at e) in
      (suc k, omega arith, omega arith, ne, scan_full w ws k full below)
  | inr free ↦
      let e' = rw (free, scan) at e in
      (zero, ground arith, omega arith, ground arith, λ j. omega arith)
]

scan-none :
    (ws : List ℕ) (start k : ℕ) → scan ws start ≡ none → k < length ws → get_or ws k 0 ≡ max_int_val
unfolding scan
scan-none [] start k e lt = absurd (omega arith)
scan-none (w ∷ ws) start zero e lt = ground arith
scan-none (w ∷ ws) start (suc k) e lt = ground (arith, scan-none ws (start + 1) k)

take_bit-got :
    (m : IdMap) (h i : ℕ)
    → ffc (get_or m.bitmap h 0) ≡ some i
    → take_bit m h
      ≡ got
          (i + h * 32)
          (record { bitmap = set m.bitmap h (set_bit (get_or m.bitmap h 0) i); hint = h })
unfolding take_bit
take_bit-got m h i e = rw (e, take_bit)

got-injective : (a b : ℕ) (m n : IdMap) → got a m ≡ got b n → (a ≡ b) × (m ≡ n)
got-injective a b m n e = ground arith

dealloc_bit :
    (m : IdMap) (h i : ℕ)
    → h < length m.bitmap
    → i < 32
    → check_set (get_or m.bitmap h 0) i ≡ false
    → dealloc_id
        (i + h * 32)
        (record { bitmap = set m.bitmap h (set_bit (get_or m.bitmap h 0) i); hint = h })
      ≡ some (record m { hint = h })
unfolding dealloc_id
dealloc_bit m h i inside small clear =
    let eh : (i + h * 32) / 32 ≡ h = omega arith in
    let ei : (i + h * 32) % 32 ≡ i = omega arith in
    let w : ℕ = get_or m.bitmap h 0 in
    rw (
      eh,
      ei,
      length-set m.bitmap h (set_bit w i),
      lt→ltb h (length m.bitmap) inside,
      get_or-set_self m.bitmap h (set_bit w i) 0 inside,
      set-set m.bitmap h (set_bit w i) (clear_bit (set_bit w i) i),
      clear_bit-set_bit w i clear,
      set-get_or m.bitmap h 0,
    )

-- The two ways an allocation can end in a page with room somewhere.
data Choice (m : IdMap) (r : AllocResult) : Type 0 where
  none_low :
      r ≡ exhausted → ((h : ℕ) → h ≤ hint_limit → get_or m.bitmap h 0 ≡ max_int_val) → Choice m r
  from_word :
      (h : ℕ) → r ≡ take_bit m h → h ≤ hint_limit → get_or m.bitmap h 0 ≢ max_int_val → Choice m r

module _ (m : IdMap) (k : ℕ) (v : IsValid m) (lt : k < page_words)
    (ne : get_or m.bitmap k 0 ≢ max_int_val) where
  rescan-Choice : Choice m (rescan m)
  unfolding rescan
  rescan-Choice = elim (Option-cases (scan m.bitmap 0)) [
    | inl e ↦ absurd (ne (scan-none m.bitmap 0 k e (omega (arith, v.whole))))
    | inr (r, e) ↦
        let (k', er, inside, room, below) = scan-some m.bitmap 0 r e in
        let same : r ≡ k' = omega arith in
        elim (Bool-cases (ltb hint_limit r)) [
          | inl far ↦ none_low (rw (e, far, rescan)) (λ j le. below j (ground arith))
          | inr near ↦ from_word r (rw (e, near, rescan)) (ground arith) (rw same room)
        ]
  ]

  alloc_id-Choice : Choice m (alloc_id m)
  unfolding alloc_id
  alloc_id-Choice =
      rw (get_elem?-eq-get_or m.bitmap m.hint 0 (omega (arith, v.whole, v.hint_in)), alloc_id)
        (elim (Bool-cases (get_or m.bitmap m.hint 0 == max_int_val)) [
          | inl full ↦ rw full rescan-Choice
          | inr free ↦ rw free (from_word m.hint refl v.hint_in (ground arith))
        ])

  -- From a valid map with a word somewhere in the page that is not full, `alloc_id` never runs off
  -- the page. It hands out an id that was free, marks that id and no other, keeps the id below 4128
  -- and the map valid; or it reports exhaustion, and then the first 129 words are all full.
  pub alloc_id-Fresh : Fresh m (alloc_id m)
  alloc_id-Fresh = elim alloc_id-Choice [
    | none_low e full ↦ rw e full
    | from_word h e lim room ↦ rw e (take_bit-Fresh m h v lim room)
  ]

  -- Where the first 129 words are full, `alloc_id` reports exhaustion although the page has 1024.
  pub alloc_id-exhausted :
      ((h : ℕ) → h ≤ hint_limit → get_or m.bitmap h 0 ≡ max_int_val) → alloc_id m ≡ exhausted
  alloc_id-exhausted full = elim alloc_id-Choice [
    | none_low e _ ↦ e
    | from_word h e lim room ↦ absurd (room (full h lim))
  ]

  -- Giving back the id that `alloc_id` has just handed out restores the bitmap word for word, and
  -- leaves the hint at the id's word.
  pub dealloc_id-alloc_id :
      (id : ℕ) (m' : IdMap)
      → alloc_id m ≡ got id m'
      → dealloc_id id m' ≡ some (record m { hint = id / 32 })
  dealloc_id-alloc_id id m' e = elim alloc_id-Choice [
    | none_low e' _ ↦ cc
    | from_word h e' lim room ↦
        let inside : h < length m.bitmap = omega (arith, v.whole) in
        let (i, ef, small, clear) =
          ffc-some (get_or m.bitmap h 0) (get_or-AllWords m.bitmap h v.words) room in
        let (ei, em) = got-injective _ _ _ _ (sym (take_bit-got m h i ef) ∙ sym e' ∙ e) in
        let eh : h ≡ (i + h * 32) / 32 = omega arith in
        rw (← em, ← ei)
          (dealloc_bit m h i inside small clear ∙ ap (λ t. some (record m { hint = t })) eh)
  ]

-- What giving back `id` promises of its outcome.
abbrev pub Freed : IdMap → ℕ → Option IdMap → Type 0
Freed m id none = ⊥
Freed m id (some m') =
    ((j : ℕ) → is_used m' j ≡ (if id == j then false else is_used m j)) × IsValid m'

-- `dealloc_id` of an id that the allocator can have handed out frees that id and no other, and
-- keeps the map valid.
pub dealloc_id-Freed :
    (m : IdMap) (id : ℕ) → IsValid m → id < (hint_limit + 1) * 32 → Freed m id (dealloc_id id m)
unfolding dealloc_id
dealloc_id-Freed m id v lt =
    let inside : id / 32 < length m.bitmap = omega (arith, v.whole) in
    let w : ℕ = get_or m.bitmap (id / 32) 0 in
    let whole : id % 32 + id / 32 * 32 ≡ id = omega arith in
    rw (lt→ltb (id / 32) (length m.bitmap) inside, Freed)
      (
        λ j. rw whole at (
            is_used-set m (id / 32) (id % 32) j (clear_bit w (id % 32)) false inside (omega arith)
              (λ k. check_set-clear_bit w (id % 32) k)),
        IsValid-set m (id / 32) (clear_bit w (id % 32)) v (omega arith)
            (omega (arith, clear_bit-le w (id % 32), get_or-AllWords m.bitmap (id / 32) v.words)),
      )
