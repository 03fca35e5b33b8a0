-- ===== src/Process/Family.antt =====
-- The list of a process's children: what fork adds to it and what wait takes from it.
use manrix.Base.{
  ℕ, zero, suc, ◌+◌, ◌<◌, ◌%◌, ◌^◌, ◌≡◌, refl, ◌≢◌, ◌⊎◌, inl, inr, true, false, some, List, [], ◌∷◌,
  ◌++◌, ◌==◌, if◌then◌else◌, ◌∈◌, ◌∉◌, has-append, Distinct, length, arith, ◌∙◌, ap, sym,
}
use manrix.DList.Chain.{ne_of_mem}
use manrix.Kernel.{Ptr}
use manrix.Process.{
  Process, Addr, item, head, Processes, set_child_next, set_child_prev, is_head, write_prev,
  write_next, add_child, del_child, have_children,
}
use manrix.Process.Calls.{times_from, childs_time}

-- From the links at `cell` on stand the children `xs` of `p`, and back from `p` to `before`.
abbrev pub Descends : Processes → Ptr → Addr → Ptr → List Ptr → Type 0
Descends s p before cell [] = (s.child_next cell ≡ head p) × (s.child_prev p ≡ before)
Descends s p before cell (x ∷ xs) =
    (s.child_next cell ≡ item x) × (s.child_prev x ≡ before) × Descends s p (item x) x xs

-- The children of `p`, the youngest first.
pub record IsFamily (s : Processes) (p : Ptr) (xs : List Ptr) : Type 0 where
  pub children : Descends s p (head p) p xs
  pub distinct : Distinct (p ∷ xs)
  pub nonnull : 0 ∉ xs

pub Descends-frame :
    (s t : Processes) (p : Ptr) (before : Addr) (cell : Ptr) (xs : List Ptr)
    → Descends s p before cell xs
    → ((a : Ptr) → a ∈ cell ∷ xs → t.child_next a ≡ s.child_next a)
    → ((a : Ptr) → a ∈ p ∷ xs → t.child_prev a ≡ s.child_prev a)
    → Descends t p before cell xs
Descends-frame s t p before cell [] d n b = (n cell (ground arith) ∙ d.0, b p (ground arith) ∙ d.1)
Descends-frame s t p before cell (x ∷ xs) d n b = (
  n cell (ground arith) ∙ d.0,
  b x (ground arith) ∙ d.1,
  Descends-frame s t p (item x) x xs d.2 (λ a i. n a (ground arith)) (λ a i. b a (ground arith)),
)

-- The process at whose links an address points.
abbrev pub cell_of : Addr → Ptr
cell_of (item q) = q
cell_of (head q) = q

-- The links once the child `c` is taken out.
abbrev pub unlinked : Ptr → Processes → Processes
unlinked c s =
    set_child_prev (cell_of (s.child_next c)) (s.child_prev c)
      (set_child_next (cell_of (s.child_prev c)) (s.child_next c) s)

-- `list_add` puts a process that is not among them in front of the children.
pub add_child-IsFamily :
    (p c : Ptr) (xs : List Ptr) (s : Processes)
    → IsFamily s p xs
    → c ∉ p ∷ xs
    → c ≢ 0
    → (s' : Processes) × (add_child p c s ≡ some s')
      × IsFamily s' p (c ∷ xs)
      × (s'.proc ≡ s.proc)
      × (s'.phash ≡ s.phash)
unfolding add_child
add_child-IsFamily p c [] s f out nonnull =
    let (next, prev) = f.children in
    (
      set_child_prev p (item c)
          (set_child_next c (head p) (set_child_prev c (head p) (set_child_next p (item c) s))),
      (let own : (p == p) ≡ true = ground arith in rw (next, own) refl),
      record { children = ground arith; distinct = ground arith; nonnull = ground arith },
      refl,
      refl,
    )
add_child-IsFamily p c (x ∷ xs) s f out nonnull =
    let (next, prev, rest) = f.children in
    let s' =
      set_child_prev x (item c)
        (set_child_next c (item x) (set_child_prev c (head p) (set_child_next p (item c) s))) in
    let x_nonnull : (x == 0) ≡ false = ground (arith, f.nonnull) in
    (
      s',
      rw (next, x_nonnull) refl,
      record {
        children = (
          ground arith,
          ground arith,
          (
            ground arith,
            ground arith,
            Descends-frame s s' p (item x) x xs rest
                (λ a i. ground (arith, ne_of_mem c a (p ∷ x ∷ xs) out, f.distinct))
                (λ a i. ground (arith, ne_of_mem c a (p ∷ x ∷ xs) out, f.distinct)),
          ),
        );
        distinct = ground (arith, f.distinct);
        nonnull = ground (arith, f.nonnull);
      },
      refl,
      refl,
    )

prev-before :
    (s : Processes) (p : Ptr) (before : Addr) (cell c : Ptr) (ys zs : List Ptr)
    → Descends s p before cell (ys ++ c ∷ zs)
    → cell_of before ≡ cell
    → cell_of (s.child_prev c) ∈ cell ∷ ys
prev-before s p before cell c [] zs d e = rw d.1 (ground (arith, e))
prev-before s p before cell c (y ∷ ys) zs d e =
    let later = prev-before s p (item y) y c ys zs d.2 refl in ground arith

next-after :
    (s : Processes) (p : Ptr) (before : Addr) (cell c : Ptr) (ys zs : List Ptr)
    → Descends s p before cell (ys ++ c ∷ zs)
    → cell_of (s.child_next c) ∈ p ∷ zs
next-after s p before cell c [] [] d = rw d.2.0 (ground arith)
next-after s p before cell c [] (z ∷ zs) d = rw d.2.0 (ground arith)
next-after s p before cell c (y ∷ ys) zs d = next-after s p (item y) y c ys zs d.2

-- `list_del` takes a child out of the list and leaves the others in their order.
unlinked-Descends :
    (s : Processes) (p : Ptr) (before : Addr) (cell c : Ptr) (ys zs : List Ptr)
    → Descends s p before cell (ys ++ c ∷ zs)
    → cell_of before ≡ cell
    → Distinct (cell ∷ ys ++ c ∷ zs)
    → p ∉ ys ++ c ∷ zs
    → Descends (unlinked c s) p before cell (ys ++ zs)
unlinked-Descends s p before cell c [] [] d e u out =
    rw (d.1, d.2.0, e) (ground arith, ground arith)
unlinked-Descends s p before cell c [] (z ∷ zs) d e u out =
    let before_c : cell_of (s.child_prev c) ≡ cell = ap cell_of d.1 ∙ e in
    let after_c : cell_of (s.child_next c) ≡ z = ap cell_of d.2.0 in
    (
      ground (arith, before_c, d.2.0),
      ground (arith, after_c, d.1),
      Descends-frame s (unlinked c s) p (item z) z zs d.2.2
          (λ a i. ground (arith, before_c, ne_of_mem cell a (c ∷ z ∷ zs)))
          (λ a i. ground (arith, after_c)),
    )
unlinked-Descends s p before cell c (y ∷ ys) zs d e u out =
    let to_c = prev-before s p (item y) y c ys zs d.2 refl in
    let from_c = next-after s p (item y) y c ys zs d.2 in
    let apart = has-append cell (y ∷ ys) (c ∷ zs) in
    let apart' = has-append y ys (c ∷ zs) in
    (
      ground (arith, ne_of_mem cell (cell_of (s.child_prev c)) (y ∷ ys)),
      ground (arith, ne_of_mem y (cell_of (s.child_next c)) (p ∷ zs)),
      unlinked-Descends s p (item y) y c ys zs d.2 refl u.1 (ground arith),
    )

-- A link that may be written: the head of the list, or a process.
abbrev Usable : Ptr → Addr → Type 0
Usable p a = (a ≡ head p) ⊎ ((q : Ptr) × (a ≡ item q) × (q ≢ 0))

Usable-prev :
    (s : Processes) (p : Ptr) (before : Addr) (cell c : Ptr) (ys zs : List Ptr)
    → Descends s p before cell (ys ++ c ∷ zs)
    → Usable p before
    → 0 ∉ ys ++ c ∷ zs
    → Usable p (s.child_prev c)
Usable-prev s p before cell c [] zs d good n = rw d.1 good
Usable-prev s p before cell c (y ∷ ys) zs d good n =
    Usable-prev s p (item y) y c ys zs d.2 (inr (y, refl, ground arith)) (ground arith)

Usable-next :
    (s : Processes) (p : Ptr) (before : Addr) (cell c : Ptr) (ys zs : List Ptr)
    → Descends s p before cell (ys ++ c ∷ zs)
    → 0 ∉ ys ++ c ∷ zs
    → Usable p (s.child_next c)
Usable-next s p before cell c [] [] d n = inl d.2.0
Usable-next s p before cell c [] (z ∷ zs) d n = inr (z, d.2.0, ground arith)
Usable-next s p before cell c (y ∷ ys) zs d n =
    Usable-next s p (item y) y c ys zs d.2 (ground arith)

relink_next :
    (p : Ptr) (a b : Addr) (s : Processes)
    → Usable p a
    → (if is_head p a then some (set_child_next p b s) else write_next a b s)
      ≡ some (set_child_next (cell_of a) b s)
relink_next p a b s (inl e) = let own : (p == p) ≡ true = ground arith in rw (e, own) refl
relink_next p a b s (inr (q, e, nonnull)) =
    let other : (q == 0) ≡ false = ground arith in rw (e, other) refl

relink_prev :
    (p : Ptr) (a b : Addr) (s : Processes)
    → Usable p a
    → (if is_head p a then some (set_child_prev p b s) else write_prev a b s)
      ≡ some (set_child_prev (cell_of a) b s)
relink_prev p a b s (inl e) = let own : (p == p) ≡ true = ground arith in rw (e, own) refl
relink_prev p a b s (inr (q, e, nonnull)) =
    let other : (q == 0) ≡ false = ground arith in rw (e, other) refl

Distinct-drop :
    (ys : List Ptr) (c : Ptr) (zs : List Ptr) → Distinct (ys ++ c ∷ zs) → Distinct (ys ++ zs)
Distinct-drop [] c zs d = d.1
Distinct-drop (y ∷ ys) c zs d =
    let more = has-append y ys (c ∷ zs) in
    let fewer = has-append y ys zs in (ground arith, Distinct-drop ys c zs d.1)

-- A child is taken out of the list of the children, wherever it stands.
pub del_child-IsFamily :
    (p c : Ptr) (ys zs : List Ptr) (s : Processes)
    → IsFamily s p (ys ++ c ∷ zs)
    → (del_child p c s ≡ some (unlinked c s)) × IsFamily (unlinked c s) p (ys ++ zs)
unfolding del_child
del_child-IsFamily p c ys zs s f =
    let prev = Usable-prev s p (head p) p c ys zs f.children (inl refl) f.nonnull in
    let next = Usable-next s p (head p) p c ys zs f.children f.nonnull in
    let nexts = relink_next p (s.child_prev c) (s.child_next c) s prev in
    let prevs =
      relink_prev p (s.child_next c) (s.child_prev c)
        (set_child_next (cell_of (s.child_prev c)) (s.child_next c) s) next in
    let fewer = has-append 0 ys (c ∷ zs) in
    let fewer' = has-append 0 ys zs in
    (
      rw nexts prevs,
      record {
        children = unlinked-Descends s p (head p) p c ys zs f.children refl f.distinct f.distinct.0;
        distinct = Distinct-drop (p ∷ ys) c zs f.distinct;
        nonnull = ground (arith, f.nonnull);
      },
    )

-- The sum of a time over processes, in 32 bits, from `total` on.
abbrev pub sum_times : (Process → ℕ) → ℕ → List Ptr → Processes → ℕ
sum_times f total [] s = total
sum_times f total (x ∷ xs) s = sum_times f ((total + f (s.proc x)) % 2 ^ 32) xs s

times_from-sum :
    (n : ℕ) (f : Process → ℕ) (p : Ptr) (before : Addr) (cell : Ptr) (xs : List Ptr) (total : ℕ)
    (s : Processes)
    → length xs < n
    → Descends s p before cell xs
    → 0 ∉ xs
    → times_from n f p (s.child_next cell) total s ≡ some (sum_times f total xs s)
unfolding times_from
times_from-sum zero f p before cell xs total s enough d nonnull = elim enough [ ]
times_from-sum (suc n) f p before cell [] total s enough d nonnull =
    let own : (p == p) ≡ true = ground arith in rw (d.0, times_from, own) refl
times_from-sum (suc n) f p before cell (x ∷ xs) total s enough d nonnull =
    let other : (x == 0) ≡ false = ground arith in
    let rest =
      times_from-sum n f p (item x) x xs ((total + f (s.proc x)) % 2 ^ 32) s (omega arith) d.2
        (ground arith) in
    rw (d.0, times_from, other) rest

-- The time of the children of a process, given one more step than it has children, is the sum over
-- them, whatever the time (user or system).
pub childs_time-sum :
    (n : ℕ) (f : Process → ℕ) (p : Ptr) (xs : List Ptr) (s : Processes)
    → IsFamily s p xs
    → length xs < n
    → childs_time n f p s ≡ some (sum_times f 0 xs s)
unfolding childs_time have_children
childs_time-sum n f p [] s fam enough =
    let own : (p == p) ≡ true = ground arith in rw (fam.children.0, own) refl
childs_time-sum n f p (x ∷ xs) s fam enough = rw fam.children.0 (
    rw (sym fam.children.0)
      (times_from-sum n f p (head p) p (x ∷ xs) 0 s enough fam.children fam.nonnull))
