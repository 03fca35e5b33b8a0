-- ===== src/DList/Queue.antt =====
-- `list_enqueue` and `list_dequeue` together: the store behaves as a first-in first-out queue.
use manrix.Base.{◌≡◌, refl, Option, none, some, List, [], ◌∷◌, ◌++◌, arith, ◌∉◌, ap}
use manrix.DList.{Ptr, Links, list_enqueue, list_dequeue}
use manrix.DList.Ring.{IsRing, list_enqueue-IsRing, list_dequeue-IsRing}

-- What a client of a queue can do.
pub data Op : Type 0 where
  put : Ptr → Op
  get : Op

-- The last item of a list and those before it.
unfoldable pub split_last : Ptr → List Ptr → List Ptr × Ptr
split_last x [] = ([], x)
split_last x (y ∷ ys) = let (zs, z) = split_last y ys in (x ∷ zs, z)

split_last-append :
    (x : Ptr) (xs : List Ptr) → let (zs, z) = split_last x xs in zs ++ z ∷ [] ≡ x ∷ xs
unfolding split_last
split_last-append x [] = refl
split_last-append x (y ∷ ys) = ap (λ t. x ∷ t) (split_last-append y ys)

-- The specification: items leave in the order in which they came.
unfoldable pub run_fifo : List Ptr → List Op → List (Option Ptr)
run_fifo xs [] = []
run_fifo xs (put p ∷ ops) = run_fifo (p ∷ xs) ops
run_fifo [] (get ∷ ops) = none ∷ run_fifo [] ops
run_fifo (x ∷ xs) (get ∷ ops) = let (zs, z) = split_last x xs in some z ∷ run_fifo zs ops

-- What each `get` returns when the macros work on the store.
pub run_links : Ptr → Links → List Op → List (Option Ptr)
run_links head l [] = []
run_links head l (put p ∷ ops) = run_links head (list_enqueue head p l) ops
run_links head l (get ∷ ops) = elim (list_dequeue head l) [
  | none ↦ none ∷ run_links head l ops
  | some (p, l') ↦ some p ∷ run_links head l' ops
]

-- An item is enqueued only while it is in no queue.
abbrev pub Legal : Ptr → List Ptr → List Op → Type 0
Legal head xs [] = Unit
Legal head xs (put p ∷ ops) = (p ∉ head ∷ xs) × Legal head (p ∷ xs) ops
Legal head [] (get ∷ ops) = Legal head [] ops
Legal head (x ∷ xs) (get ∷ ops) = Legal head (split_last x xs).0 ops

dequeue-empty : (l : Links) (head : Ptr) → IsRing l head [] → list_dequeue head l ≡ none
unfolding list_dequeue
dequeue-empty l head r = ground (arith, r.chain)

-- Any sequence of enqueues and dequeues on a list in the store returns what a first-in first-out
-- queue of its items returns, provided that no item is enqueued while it is in the list.
pub run_links-run_fifo :
    (ops : List Op) (head : Ptr) (l : Links) (xs : List Ptr)
    → IsRing l head xs
    → Legal head xs ops
    → run_links head l ops ≡ run_fifo xs ops
unfolding run_links run_fifo
run_links-run_fifo [] head l xs r ok = refl
run_links-run_fifo (put p ∷ ops) head l xs r ok =
    run_links-run_fifo ops head (list_enqueue head p l) (p ∷ xs)
      (list_enqueue-IsRing l head p xs r ok.0) ok.1
run_links-run_fifo (get ∷ ops) head l [] r ok =
    rw (dequeue-empty l head r, run_links)
      (ap (λ t. none ∷ t) (run_links-run_fifo ops head l [] r ok))
run_links-run_fifo (get ∷ ops) head l (x ∷ xs) r ok =
    let zs = (split_last x xs).0 in
    let z = (split_last x xs).1 in
    let (l', e, r') = list_dequeue-IsRing l head z zs (rw (split_last-append x xs) r) in
    rw (e, run_links) (ap (λ t. some z ∷ t) (run_links-run_fifo ops head l' zs r' ok))
