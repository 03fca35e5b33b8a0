-- ===== src/Sync/Lookup.antt =====
-- Which object a lookup finds.
use manrix.Base.{
  ℕ, suc, ◌+◌, ◌*◌, ◌≤◌, ◌<◌, ◌≡◌, refl, ◌≢◌, true, false, none, some, [], ◌∷◌, ltb, ◌==◌,
  if◌then◌else◌, arith, ◌∙◌,
}
use manrix.IdMap.{first_user_pid}
use manrix.Kernel.{Ptr}
use manrix.Sync.{
  Sync, State, update_sync, update_syncs, table_size, sync_fn, shash_insert, found, walk, find_sync,
  returned, undefined, current_pid, sync_create,
}

-- The state in which `syscall_sync_create` inserts its new object.
abbrev new_object : ℕ → State → Sync
new_object type s = record {
  sync_type = type;
  sync_id = s.ids (current_pid s);
  wq = [];
  owner = current_pid s;
  next = 0;
}

abbrev counted : Ptr → ℕ → State → State
counted p type s =
    update_sync p (λ x. new_object type s)
      (record s { ids = λ q. if current_pid s == q then s.ids (current_pid s) + 1 else s.ids q })

far : (a b : ℕ) → 500 ≤ a → 3 ≤ b → 1024 ≤ a * b
far a b ha hb = grind arith

shash_insert-far :
    (p : Ptr) (s : State)
    → table_size ≤ sync_fn (s.sync p).owner (s.sync p).sync_id
    → shash_insert p s ≡ none
unfolding shash_insert
shash_insert-far p s h = ground arith

-- An object that is inserted is the first of its bucket.
abbrev linked : Ptr → State → State
linked p s =
    let bucket = sync_fn (s.sync p).owner (s.sync p).sync_id in
    let s₁ = update_sync p (λ x. record x { next = s.shash bucket }) s in
    record s₁ { shash = λ b. if bucket == b then p else s.shash b }

shash_insert-near :
    (p : Ptr) (s : State)
    → sync_fn (s.sync p).owner (s.sync p).sync_id < table_size
    → shash_insert p s ≡ some (linked p s)
unfolding shash_insert
shash_insert-near p s h = ground arith

find_sync-first :
    (fuel pid id : ℕ) (p : Ptr) (s : State)
    → sync_fn pid id < table_size
    → s.shash (sync_fn pid id) ≡ p
    → p ≢ 0
    → (s.sync p).owner ≡ pid
    → (s.sync p).sync_id ≡ id
    → find_sync fuel pid id s ≡ found p
unfolding find_sync
find_sync-first fuel pid id p s near first np own num = ground (arith, first, own, num)

walk-here :
    (fuel pid id : ℕ) (q : Ptr) (s : State)
    → q ≢ 0
    → (s.sync q).sync_id ≡ id
    → walk (suc fuel) pid id q s ≡ found q
unfolding walk
walk-here fuel pid id q s nq num = ground (arith, num)

find_sync-next :
    (fuel pid id : ℕ) (p : Ptr) (s : State)
    → sync_fn pid id < table_size
    → s.shash (sync_fn pid id) ≡ p
    → p ≢ 0
    → (s.sync p).owner ≢ pid
    → find_sync fuel pid id s ≡ walk fuel pid id (s.sync p).next s
unfolding find_sync
find_sync-next fuel pid id p s near first np other = ground (arith, first, other)

module _ (p : Ptr) (type : ℕ) (s : State) (given : p ≢ 0) where
  fresh : (counted p type s).sync p ≡ new_object type s
  fresh = ground arith

  -- A process with a pid of the users' range has no fourth object: once its counter has reached 3, the
  -- index into the hash table is beyond its page, and `syscall_sync_create` writes outside.
  pub sync_create-outside :
      first_user_pid ≤ current_pid s → 3 ≤ s.ids (current_pid s) → sync_create p type s ≡ undefined
  unfolding sync_create
  sync_create-outside user many =
      let out : shash_insert p (counted p type s) ≡ none =
        shash_insert-far p (counted p type s)
          (rw fresh (far (current_pid s) (s.ids (current_pid s)) user many)) in
      let open_p : (p == 0) ≡ false = ground arith in rw (open_p, out) refl

  abbrev created : State
  created =
      let s₂ = linked p (counted p type s) in
      update_syncs (current_pid s) (p ∷ s₂.syncs (current_pid s)) s₂

  -- Where its bucket is inside the table, a new object gets the number of the process's counter, and
  -- from then on a lookup of that number for that process finds it at the first step.
  pub sync_create-find_sync :
      (fuel : ℕ)
      → sync_fn (current_pid s) (s.ids (current_pid s)) < table_size
      → (s' : State) × (sync_create p type s ≡ returned (s.ids (current_pid s)) s')
        × (find_sync fuel (current_pid s) (s.ids (current_pid s)) s' ≡ found p)
        × (s'.ids (current_pid s) ≡ s.ids (current_pid s) + 1)
  unfolding sync_create
  sync_create-find_sync fuel near =
      let open_p : (p == 0) ≡ false = ground arith in
      let inside : ltb (sync_fn (current_pid s) (s.ids (current_pid s))) table_size ≡ true =
        ground arith in
      let put = shash_insert-near p (counted p type s) (rw fresh near) in
      (
        created,
        rw (open_p, put) refl,
        find_sync-first fuel (current_pid s) (s.ids (current_pid s)) p created near (ground arith)
            given (ground arith) (ground arith),
        ground arith,
      )

-- In the bucket of the numbers 0, which all processes share, a lookup that does not find its own object
-- first takes the next one, whoever owns it: it returns an object of another process.
pub find_sync-stranger :
    (fuel pid : ℕ) (p q : Ptr) (s : State)
    → s.shash 0 ≡ p
    → p ≢ 0
    → (s.sync p).owner ≢ pid
    → (s.sync p).next ≡ q
    → q ≢ 0
    → (s.sync q).sync_id ≡ 0
    → find_sync (suc fuel) pid 0 s ≡ found q
find_sync-stranger fuel pid p q s first np other after nq id =
    let none_here : pid * 0 ≡ 0 = omega arith in
    find_sync-next (suc fuel) pid 0 p s (omega arith) (rw none_here first) np other
    ∙ rw after (walk-here fuel pid 0 q s nq id)
