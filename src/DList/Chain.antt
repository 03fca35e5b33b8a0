-- ===== src/DList/Chain.antt =====
-- Pieces of a doubly linked list, and what survives a change of the store.
use manrix.Base.{◌≡◌, ◌≢◌, List, [], ◌∷◌, ◌++◌, arith, ◌∈◌, ◌∉◌, has-append, Distinct, ◌∙◌}
use manrix.DList.{Ptr, Links, set_next, set_prev}

-- From `p` the `next` links lead through `xs` to `q`, and the `prev` links lead back.
abbrev pub Chain : Links → Ptr → Ptr → List Ptr → Type 0
Chain l p q [] = (l.next p ≡ q) × (l.prev q ≡ p)
Chain l p q (x ∷ xs) = (l.next p ≡ x) × (l.prev x ≡ p) × Chain l x q xs

pub Chain-append :
    (l : Links) (p q : Ptr) (xs : List Ptr) (x : Ptr) (ys : List Ptr)
    → Chain l p q (xs ++ x ∷ ys)
    → Chain l p x xs × Chain l x q ys
Chain-append l p q [] x ys c = ((c.0, c.1), c.2)
Chain-append l p q (z ∷ zs) x ys c =
    let (a, b) = Chain-append l z q zs x ys c.2 in ((c.0, c.1, a), b)

pub Chain-join :
    (l : Links) (p q : Ptr) (xs : List Ptr) (x : Ptr) (ys : List Ptr)
    → Chain l p x xs
    → Chain l x q ys
    → Chain l p q (xs ++ x ∷ ys)
Chain-join l p q [] x ys a b = (a.0, a.1, b)
Chain-join l p q (z ∷ zs) x ys a b = (a.0, a.1, Chain-join l z q zs x ys a.2 b)

-- A chain reads `next` at its start and its items, and `prev` at its items and its end.
pub Chain-frame :
    (l g : Links) (p q : Ptr) (xs : List Ptr)
    → Chain l p q xs
    → ((a : Ptr) → a ∈ p ∷ xs → g.next a ≡ l.next a)
    → ((a : Ptr) → a ∈ q ∷ xs → g.prev a ≡ l.prev a)
    → Chain g p q xs
Chain-frame l g p q [] c n b = (n p (ground arith) ∙ c.0, b q (ground arith) ∙ c.1)
Chain-frame l g p q (x ∷ xs) c n b = (
  n p (ground arith) ∙ c.0,
  b x (ground arith) ∙ c.1,
  Chain-frame l g x q xs c.2 (λ a i. n a (ground arith)) (λ a i. b a (ground arith)),
)

pub prev-mem : (l : Links) (p q : Ptr) (xs : List Ptr) → Chain l p q xs → l.prev q ∈ p ∷ xs
prev-mem l p q [] c = ground arith
prev-mem l p q (x ∷ xs) c = ground (arith, prev-mem l x q xs c.2)

pub next-mem : (l : Links) (p q : Ptr) (xs : List Ptr) → Chain l p q xs → l.next p ∈ q ∷ xs
next-mem l p q [] c = ground arith
next-mem l p q (x ∷ xs) c = ground arith

pub prev-next : (l : Links) (p q : Ptr) (xs : List Ptr) → Chain l p q xs → l.prev (l.next p) ≡ p
prev-next l p q [] c = rw c.0 c.1
prev-next l p q (x ∷ xs) c = rw c.0 c.1

pub ne_of_mem : (a b : Ptr) (xs : List Ptr) → a ∉ xs → b ∈ xs → a ≢ b
ne_of_mem a b [] out i e = cc
ne_of_mem a b (x ∷ xs) out i e = ground (arith, ne_of_mem a b xs)

-- The store after an item between `xs` and `ys` was unlinked.
abbrev pub unlink : Ptr → Links → Links
unlink x l = set_prev (l.next x) (l.prev x) (set_next (l.prev x) (l.next x) l)

pub unlink-Chain :
    (l : Links) (p q x : Ptr) (xs ys : List Ptr)
    → Chain l p x xs
    → Chain l x q ys
    → Distinct (p ∷ xs ++ x ∷ ys)
    → q ∉ xs ++ x ∷ ys
    → Chain (unlink x l) p q (xs ++ ys)
unlink-Chain l p q x [] [] a b d e = ground arith
unlink-Chain l p q x [] (y ∷ ys) a b d e = (
  ground arith,
  ground arith,
  Chain-frame l (unlink x l) y q ys b.2 (λ c i. ground arith) (λ c i. ground arith),
)
unlink-Chain l p q x (z ∷ zs) ys a b d e =
    let from_x = next-mem l x q ys b in
    let to_x = prev-mem l z x zs a.2 in
    let apart = has-append p (z ∷ zs) (x ∷ ys) in
    let apart' = has-append z zs (x ∷ ys) in
    (
      ground (arith, ne_of_mem p (l.prev x) (z ∷ zs)),
      ground (arith, ne_of_mem z (l.next x) (q ∷ ys)),
      unlink-Chain l z q x zs ys a.2 b d.1 (ground arith),
    )
