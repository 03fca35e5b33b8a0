-- ===== src/IdMap.antt =====
-- The identifier allocator (microkernel/kernel/id.c): process, thread and timer ids out of three
-- bitmaps of one page each. A bitmap is the list of its 1024 words; an access outside the page is
-- a `fault`.
pub mod Laws
pub mod Alloc
pub mod Users
mod Tests
use manrix.Base.{
  ℕ, ◌+◌, ◌-◌, ◌*◌, ◌/◌, ◌%◌, Bool, Option, none, some, List, [], ◌∷◌, true, false, ltb, leb, ◌==◌,
  if◌then◌else◌, get_elem?, get_or, set, replicate, length,
}
use manrix.Bits.{check_set, set_bit, clear_bit, ffc, max_int_val, bits_per_int}

-- A bitmap and its hint (`pidbitmap` and `pidhint`, and so for tids and timer ids).
pub record IdMap : Type 0 where
  pub bitmap : List ℕ
  pub hint : ℕ

-- 4096 bytes of `unsigned int`.
abbrev pub page_words : ℕ
page_words = 1024

-- The limit that the code tests the hint against, 4096 / BITS_PER_INT.
abbrev pub hint_limit : ℕ
hint_limit = 128

-- `id_init`, for one of the three maps.
pub id_init : IdMap
id_init = record { bitmap = replicate page_words 0; hint = 0 }

pub data AllocResult : Type 0 where
  got : ℕ → IdMap → AllocResult
  exhausted : AllocResult
  fault : AllocResult

-- `while(bitmap[hint] == MAX_INT_VAL) hint++;`, from the words that are left.
pub scan : List ℕ → ℕ → Option ℕ
scan [] hint = none
scan (w ∷ ws) hint = elim (w == max_int_val) [ true ↦ scan ws (hint + 1) | false ↦ some hint ]

-- `index = ffc(...); set_bit(...); index += hint * BITS_PER_INT; *hintptr = hint;`
pub take_bit : IdMap → ℕ → AllocResult
take_bit m hint = elim (ffc (get_or m.bitmap hint 0)) [
  | none ↦ fault
  | some index ↦
      got (index + hint * bits_per_int) (record {
        bitmap = set m.bitmap hint (set_bit (get_or m.bitmap hint 0) index);
        hint = hint;
      })
]

-- The branch where the hint's word is full.
pub rescan : IdMap → AllocResult
unfolding scan
rescan m = elim (scan m.bitmap 0) [
  | none ↦ fault
  | some hint ↦ if ltb hint_limit hint then exhausted else take_bit m hint
]

pub alloc_id : IdMap → AllocResult
unfolding rescan take_bit
alloc_id m = elim (get_elem? m.bitmap m.hint) [
  | none ↦ fault
  | some w ↦ if w == max_int_val then rescan m else take_bit m m.hint
]

-- `none`: the word lies outside the page.
pub dealloc_id : ℕ → IdMap → Option IdMap
dealloc_id id m =
    let hint = id / bits_per_int in
    let index = id % bits_per_int in
    if ltb hint (length m.bitmap)
    then some (record {
      bitmap = set m.bitmap hint (clear_bit (get_or m.bitmap hint 0) index);
      hint = hint;
    })
    else none

-- `alloc_pid`, `alloc_tid` and `alloc_timerid` add a first value to what `alloc_id` returns, to its
-- -1 too.
pub offset_id : ℕ → AllocResult → IdMap → Option (ℕ × IdMap)
offset_id first (got id m') m = some (first + id, m')
offset_id first exhausted m = some (first - 1, m)
offset_id first fault m = none

abbrev pub first_user_pid : ℕ
first_user_pid = 500

abbrev pub first_user_tid : ℕ
first_user_tid = 500

pub alloc_pid : IdMap → Option (ℕ × IdMap)
unfolding alloc_id offset_id
alloc_pid m = offset_id first_user_pid (alloc_id m) m

pub alloc_tid : IdMap → Option (ℕ × IdMap)
unfolding alloc_id offset_id
alloc_tid m = offset_id first_user_tid (alloc_id m) m

pub alloc_timerid : IdMap → Option (ℕ × IdMap)
unfolding alloc_id offset_id
alloc_timerid m = offset_id 1 (alloc_id m) m

-- An id below the first value gives a negative index, which is outside the page.
pub dealloc_from : ℕ → ℕ → IdMap → Option IdMap
unfolding dealloc_id
dealloc_from first id m = if ltb id first then none else dealloc_id (id - first) m

pub dealloc_pid : ℕ → IdMap → Option IdMap
unfolding dealloc_from
dealloc_pid pid m = dealloc_from first_user_pid pid m

pub dealloc_tid : ℕ → IdMap → Option IdMap
unfolding dealloc_from
dealloc_tid tid m = dealloc_from first_user_tid tid m

pub dealloc_timerid : ℕ → IdMap → Option IdMap
unfolding dealloc_from
dealloc_timerid timer_id m = dealloc_from 1 timer_id m

-- The abstract view: which ids are handed out.
abbrev pub is_used : IdMap → ℕ → Bool
is_used m id = check_set (get_or m.bitmap (id / bits_per_int) 0) (id % bits_per_int)
