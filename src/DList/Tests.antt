-- ===== src/DList/Tests.antt =====
-- Runs of the list theorems: a head at address 1 with the items 2 and 3, and a second list.
use manrix.Base.{◌≡◌, refl, none, some, List, [], ◌∷◌, arith, ◌∈◌, ◌∉◌}
use manrix.DList.{Ptr, Links, list_init, last_entry, first_entry, list_enqueue, list_add}
use manrix.DList.Ring.{IsRing, list_init-IsRing, list_enqueue-IsRing}
use manrix.DList.Queue.{split_last, Op, put, get, run_fifo, run_links, run_links-run_fifo}

abbrev blank : Links
blank = record { next = λ p. 0; prev = λ p. 0 }

abbrev two : Links
two = list_enqueue 1 2 (list_enqueue 1 3 (list_init 9 (list_init 1 blank)))

empty-IsRing : IsRing (list_init 9 (list_init 1 blank)) 1 []
unfolding list_init
empty-IsRing = record { chain = (refl, refl); distinct = (refl, tt) }

other-IsRing : IsRing (list_init 9 (list_init 1 blank)) 9 []
other-IsRing = list_init-IsRing 9 (list_init 1 blank)

two-IsRing : IsRing two 1 (2 ∷ 3 ∷ [])
two-IsRing =
    list_enqueue-IsRing _ 1 2 (3 ∷ []) (list_enqueue-IsRing _ 1 3 [] empty-IsRing refl) refl

last_entry-two : last_entry 1 two ≡ 3
unfolding last_entry list_enqueue list_init
last_entry-two = refl

first_entry-two : first_entry 1 two ≡ 2
unfolding first_entry list_enqueue list_init
first_entry-two = refl

list_add-two : list_add 1 2 (list_add 1 3 (list_init 9 (list_init 1 blank))) ≡ two
unfolding list_add list_enqueue
list_add-two = refl

apart : (a : Ptr) → a ∈ 9 ∷ [] → a ∉ 3 ∷ 1 ∷ []
apart a i = ground arith

abbrev ops : List Op
ops = get ∷ put 3 ∷ get ∷ get ∷ get ∷ []

fifo_test : run_fifo (2 ∷ 3 ∷ []) ops ≡ some 3 ∷ some 2 ∷ some 3 ∷ none ∷ []
unfolding run_fifo split_last
fifo_test = refl

run_links-run_fifo_example : run_links 1 two ops ≡ run_fifo (2 ∷ 3 ∷ []) ops
unfolding split_last
run_links-run_fifo_example = run_links-run_fifo ops 1 two (2 ∷ 3 ∷ []) two-IsRing (refl, tt)
