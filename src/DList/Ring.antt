-- ===== src/DList/Ring.antt =====
-- A list head and its items as a list: what each macro of list.h does to it.
use manrix.Base.{
  ◌≡◌, refl, ◌≢◌, true, false, some, List, [], ◌∷◌, ◌++◌, arith, ◌∈◌, ◌∉◌, has-append, Distinct,
}
use mathlib.Core.List.{append-nil}
use manrix.DList.{
  Ptr, Links, list_init, list_isempty, list_enqueue, list_dequeue, list_remove, list_del,
  list_add_next,
}
use manrix.DList.Chain.{
  Chain, Chain-append, Chain-frame, prev-next, ne_of_mem, next-mem, unlink, unlink-Chain,
}

-- From `head` round to `head` stand the items `xs`, front first, each once.
pub record IsRing (l : Links) (head : Ptr) (xs : List Ptr) : Type 0 where
  pub chain : Chain l head head xs
  pub distinct : Distinct (head ∷ xs)

-- The two stores agree at the head and the items of a list.
abbrev pub SameAt : Links → Links → List Ptr → Type 0
SameAt l g xs = (a : Ptr) → a ∈ xs → (g.next a ≡ l.next a) × (g.prev a ≡ l.prev a)

pub IsRing-frame :
    (l g : Links) (head : Ptr) (xs : List Ptr)
    → IsRing l head xs
    → SameAt l g (head ∷ xs)
    → IsRing g head xs
IsRing-frame l g head xs r same = record {
  chain = Chain-frame l g head head xs r.chain (λ a i. (same a i).0) (λ a i. (same a i).1);
  distinct = r.distinct;
}

-- `list_init` makes the empty list.
pub list_init-IsRing : (head : Ptr) (l : Links) → IsRing (list_init head l) head []
unfolding list_init
list_init-IsRing head l = record { chain = (ground arith, ground arith); distinct = (refl, tt) }

-- `list_isempty` holds of the empty list and of no other.
pub list_isempty-IsRing :
    (l : Links) (head : Ptr) (xs : List Ptr)
    → IsRing l head xs
    → list_isempty head l ≡ (elim xs [ [] ↦ true | x ∷ ys ↦ false ])
unfolding list_isempty
list_isempty-IsRing l head [] r = ground (arith, r.chain)
list_isempty-IsRing l head (x ∷ xs) r = ground (arith, r.chain, r.distinct)

-- `list_enqueue` and `list_add` put the item in front.
pub list_enqueue-IsRing :
    (l : Links) (head p : Ptr) (xs : List Ptr)
    → IsRing l head xs
    → p ∉ head ∷ xs
    → IsRing (list_enqueue head p l) head (p ∷ xs)
unfolding list_enqueue
list_enqueue-IsRing l head p [] r out = record {
  chain = ground (arith, r.chain);
  distinct = ground arith;
}
list_enqueue-IsRing l head p (x ∷ xs) r out = record {
  chain = (
    ground (arith, r.chain, r.distinct),
    ground (arith, r.chain, r.distinct),
    (
      ground (arith, r.chain, r.distinct),
      ground (arith, r.chain, r.distinct),
      Chain-frame l (list_enqueue head p l) x head xs r.chain.2
          (λ a i. ground (arith, r.chain, r.distinct)) (λ a i. ground (arith, r.chain, r.distinct)),
    ),
  );
  distinct = ground (arith, r.distinct);
}

list_del-unlink : (l : Links) (head x : Ptr) → list_del head x l ≡ unlink x l
unfolding list_del
list_del-unlink l head x = ground arith

Distinct-drop :
    (xs : List Ptr) (x : Ptr) (ys : List Ptr) → Distinct (xs ++ x ∷ ys) → Distinct (xs ++ ys)
Distinct-drop [] x ys d = d.1
Distinct-drop (z ∷ zs) x ys d =
    (ground (arith, has-append z zs (x ∷ ys), has-append z zs ys), Distinct-drop zs x ys d.1)

-- `list_del` takes the item out of the list, wherever it stands, and keeps the order of the others.
pub list_del-IsRing :
    (l : Links) (head x : Ptr) (xs ys : List Ptr)
    → IsRing l head (xs ++ x ∷ ys)
    → IsRing (list_del head x l) head (xs ++ ys)
list_del-IsRing l head x xs ys r = rw (list_del-unlink l head x) (
    let (a, b) = Chain-append l head head xs x ys r.chain in
    record {
      chain = unlink-Chain l head head x xs ys a b r.distinct r.distinct.0;
      distinct = Distinct-drop (head ∷ xs) x ys r.distinct;
    })

list_dequeue-list_del :
    (l : Links) (head x : Ptr)
    → l.prev head ≡ x
    → l.next x ≡ head
    → x ≢ head
    → list_dequeue head l ≡ some (x, list_del head x l)
unfolding list_dequeue list_del
list_dequeue-list_del l head x p n ne = ground arith

list_remove-list_del :
    (l : Links) (head x : Ptr)
    → l.next head ≡ x
    → l.prev x ≡ head
    → x ≢ head
    → list_remove head l ≡ some (x, list_del head x l)
unfolding list_remove list_del
list_remove-list_del l head x n p ne = ground arith

-- `list_dequeue` returns the last item and takes it out of the list.
pub list_dequeue-IsRing :
    (l : Links) (head x : Ptr) (xs : List Ptr)
    → IsRing l head (xs ++ x ∷ [])
    → (l' : Links) × (list_dequeue head l ≡ some (x, l')) × IsRing l' head xs
list_dequeue-IsRing l head x xs r =
    let (a, b) = Chain-append l head head xs x [] r.chain in
    let ne : x ≢ head = ground (arith, has-append head xs (x ∷ []), r.distinct) in
    (
      list_del head x l,
      list_dequeue-list_del l head x b.1 b.0 ne,
      rw (← append-nil xs) (list_del-IsRing l head x xs [] r),
    )

-- `list_remove` returns the first item and takes it out of the list.
pub list_remove-IsRing :
    (l : Links) (head x : Ptr) (xs : List Ptr)
    → IsRing l head (x ∷ xs)
    → (l' : Links) × (list_remove head l ≡ some (x, l')) × IsRing l' head xs
list_remove-IsRing l head x xs r = (
  list_del head x l,
  list_remove-list_del l head x r.chain.0 r.chain.1 (ground (arith, r.distinct)),
  list_del-IsRing l head x [] xs r,
)

-- `list_enqueue` and `list_del` leave every other list as it was: one that shares no address with
-- the list that is changed, nor with the item.
pub list_enqueue-frame :
    (l : Links) (head p other : Ptr) (xs ys : List Ptr)
    → IsRing l head xs
    → IsRing l other ys
    → ((a : Ptr) → a ∈ other ∷ ys → a ∉ p ∷ head ∷ xs)
    → IsRing (list_enqueue head p l) other ys
unfolding list_enqueue
list_enqueue-frame l head p other xs ys r o apart =
    IsRing-frame l (list_enqueue head p l) other ys o
      λ a i. (ground (arith, apart a i), ground (arith, apart a i, next-mem l head head xs r.chain))

-- `list_add_next` behind `prv` links the item forward, but leaves the `prev` of the item that
-- followed pointing past it: the result is no list any more.
pub list_add_next-not-IsRing :
    (l : Links) (head prv item : Ptr) (xs ys : List Ptr)
    → IsRing l head (xs ++ prv ∷ ys)
    → item ∉ head ∷ (xs ++ prv ∷ ys)
    → ¬ (IsRing (list_add_next prv item l) head (xs ++ prv ∷ item ∷ ys))
unfolding list_add_next
list_add_next-not-IsRing l head prv item xs ys r out bad =
    let g = list_add_next prv item l in
    let (before, after) = Chain-append l head head xs prv ys r.chain in
    let (before', after') = Chain-append g head head xs prv (item ∷ ys) bad.chain in
    let outside = has-append item xs (prv ∷ ys) in
    let follow = next-mem l prv head ys after in
    let there = prev-next l prv head ys after in
    let back = prev-next g item head ys after'.2 in
    let ne : item ≢ l.next prv = ground (arith, ne_of_mem item (l.next prv) (head ∷ ys)) in
    absurd (ground arith)
