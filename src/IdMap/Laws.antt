-- ===== src/IdMap/Laws.antt =====
-- The invariant of an id map, and what one step of the allocator does to it.
use manrix.Base.{
  ℕ, zero, suc, ◌+◌, ◌*◌, ◌/◌, ◌%◌, ◌^◌, ◌≤◌, ◌<◌, ◌≡◌, Bool, arith, ◌∙◌, ◌==◌, if◌then◌else◌, List,
  [], ◌∷◌, get_or, set, length, length-set, get_or-set_self, get_or-set_ne, replicate,
  length-replicate,
}
use native.Mathlib.Decide.{ℕ_discrete}
use manrix.Bits.{check_set}
use manrix.IdMap.{IdMap, page_words, hint_limit, id_init, is_used}

abbrev pub AllWords : List ℕ → Type 0
AllWords [] = Unit
AllWords (w ∷ ws) = (w < 2 ^ 32) × AllWords ws

-- The page is whole, its words are words, and the hint is one that the code accepts.
pub record IsValid (m : IdMap) : Type 0 where
  pub whole : length m.bitmap ≡ page_words
  pub words : AllWords m.bitmap
  pub hint_in : m.hint ≤ hint_limit

pub get_or-AllWords : (ws : List ℕ) (i : ℕ) → AllWords ws → get_or ws i 0 < 2 ^ 32
get_or-AllWords [] i h = omega arith
get_or-AllWords (w ∷ ws) zero h = h.0
get_or-AllWords (w ∷ ws) (suc i) h = get_or-AllWords ws i h.1

pub AllWords-set : (ws : List ℕ) (i v : ℕ) → AllWords ws → v < 2 ^ 32 → AllWords (set ws i v)
AllWords-set [] i v h k = tt
AllWords-set (w ∷ ws) zero v h k = (k, h.1)
AllWords-set (w ∷ ws) (suc i) v h k = (h.0, AllWords-set ws i v h.1 k)

replicate-AllWords : (n : ℕ) → AllWords (replicate n 0)
replicate-AllWords zero = tt
replicate-AllWords (suc n) = (omega arith, replicate-AllWords n)

pub id_init-IsValid : IsValid id_init
unfolding id_init
id_init-IsValid = record {
  whole = length-replicate {A = ℕ} page_words 0;
  words = replicate-AllWords page_words;
  hint_in = omega arith;
}

-- Writing bit `i` of word `h` is writing the id `i + h * 32`.
pub is_used-set :
    (m : IdMap) (h i j w : ℕ) (b : Bool)
    → h < length m.bitmap
    → i < 32
    → ((k : ℕ) → check_set w k ≡ (if i == k then b else check_set (get_or m.bitmap h 0) k))
    → check_set (get_or (set m.bitmap h w) (j / 32) 0) (j % 32)
      ≡ (if i + h * 32 == j then b else is_used m j)
is_used-set m h i j w b lt k bits = elim (ℕ_discrete h (j / 32)) [
  | yes e ↦ rw (← e, get_or-set_self m.bitmap h w 0 lt, bits (j % 32)) (ground (arith, e))
  | no ne ↦ rw (get_or-set_ne m.bitmap h (j / 32) w 0 ne) (ground (arith, ne))
]

pub is_used-word :
    (m : IdMap) (h i : ℕ) → i < 32 → is_used m (i + h * 32) ≡ check_set (get_or m.bitmap h 0) i
is_used-word m h i k =
    let eh : (i + h * 32) / 32 ≡ h = omega arith in
    let ei : (i + h * 32) % 32 ≡ i = omega arith in rw (eh, ei)

pub IsValid-set :
    (m : IdMap) (h w : ℕ)
    → IsValid m
    → h ≤ hint_limit
    → w < 2 ^ 32
    → IsValid (record { bitmap = set m.bitmap h w; hint = h })
IsValid-set m h w v lim k = record {
  whole = length-set m.bitmap h w ∙ v.whole;
  words = AllWords-set m.bitmap h w v.words k;
  hint_in = lim;
}
