-- ===== src/IdMap/Tests.antt =====
-- Tests of the allocator and runs of its theorems on a fresh and on a crowded page.
use manrix.Base.{
  ℕ, zero, suc, ◌≤◌, ◌<◌, ◌^◌, ◌≡◌, refl, ◌≢◌, some, arith, List, [], ◌∷◌, ◌++◌, get_or, replicate,
}
use manrix.Bits.{max_int_val, set_bit, clear_bit, ffc, first_clear}
use manrix.IdMap.{
  IdMap, hint_limit, id_init, got, take_bit, alloc_id, dealloc_id, offset_id, alloc_pid, alloc_tid,
  alloc_timerid, dealloc_from, dealloc_tid, dealloc_timerid,
}
use manrix.IdMap.Laws.{IsValid, AllWords, id_init-IsValid}
use manrix.IdMap.Alloc.{Fresh, alloc_id-Fresh}

first_room : get_or id_init.bitmap 0 0 ≢ max_int_val
unfolding id_init
first_room = ground arith

alloc_tid-first : alloc_tid id_init ≡ some (500, record id_init { bitmap = 1 ∷ replicate 1023 0 })
unfolding alloc_tid id_init alloc_id offset_id take_bit ffc first_clear set_bit
alloc_tid-first = refl

alloc_timerid-first :
    alloc_timerid id_init ≡ some (1, record id_init { bitmap = 1 ∷ replicate 1023 0 })
unfolding alloc_timerid id_init alloc_id offset_id take_bit ffc first_clear set_bit
alloc_timerid-first = refl

dealloc_tid-first :
    dealloc_tid 500 (record id_init { bitmap = 1 ∷ replicate 1023 0 }) ≡ some id_init
unfolding dealloc_tid dealloc_from dealloc_id id_init clear_bit
dealloc_tid-first = refl

dealloc_timerid-first :
    dealloc_timerid 1 (record id_init { bitmap = 1 ∷ replicate 1023 0 }) ≡ some id_init
unfolding dealloc_timerid dealloc_from dealloc_id id_init clear_bit
dealloc_timerid-first = refl

abbrev one_used : IdMap
one_used = record id_init { bitmap = 1 ∷ replicate 1023 0 }

alloc_id-first : alloc_id id_init ≡ got 0 one_used
unfolding id_init alloc_id take_bit ffc first_clear set_bit
alloc_id-first = refl

alloc_pid-first : alloc_pid id_init ≡ some (500, one_used)
unfolding alloc_pid id_init alloc_id offset_id take_bit ffc first_clear set_bit
alloc_pid-first = refl

alloc_id-Fresh_example : Fresh id_init (alloc_id id_init)
alloc_id-Fresh_example = alloc_id-Fresh id_init 0 id_init-IsValid (omega arith) first_room

-- The first 129 words are full, the others free.
abbrev crowded : IdMap
crowded = record { bitmap = replicate 129 max_int_val ++ replicate 895 0; hint = 0 }

AllWords-replicate :
    (n w : ℕ) (ws : List ℕ) → w < 2 ^ 32 → AllWords ws → AllWords (replicate n w ++ ws)
AllWords-replicate zero w ws lt h = h
AllWords-replicate (suc n) w ws lt h = (lt, AllWords-replicate n w ws lt h)

get_or-replicate_front :
    (n w : ℕ) (ws : List ℕ) (i : ℕ) → i < n → get_or (replicate n w ++ ws) i 0 ≡ w
get_or-replicate_front zero w ws i lt = absurd (omega arith)
get_or-replicate_front (suc n) w ws zero lt = refl
get_or-replicate_front (suc n) w ws (suc i) lt = get_or-replicate_front n w ws i (omega arith)

crowded-IsValid : IsValid crowded
crowded-IsValid = record {
  whole = refl;
  words =
      AllWords-replicate 129 max_int_val (replicate 895 0) (omega arith)
        (AllWords-replicate 895 0 [] (omega arith) tt);
  hint_in = omega arith;
}

crowded_front : (h : ℕ) → h ≤ hint_limit → get_or crowded.bitmap h 0 ≡ max_int_val
crowded_front h le = get_or-replicate_front 129 max_int_val (replicate 895 0) h (omega arith)

crowded_room : get_or crowded.bitmap 129 0 ≢ max_int_val
crowded_room = ground arith
