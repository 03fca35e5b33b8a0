-- ===== src/VmMap/Copies.antt =====
-- The copy that a fork makes of the entries of a map.
use manrix.Base.{
  ◌≡◌, refl, ◌≢◌, true, false, some, List, [], ◌∷◌, ◌==◌, if◌then◌else◌, ◌∈◌, ◌∉◌, Distinct, length,
  arith, ◌∙◌,
}
use manrix.Kernel.{Ptr}
use manrix.DList.{Links, list_add_next}
use manrix.VmMap.{VmState, update_entry, update_object, create_vm_entry}
use manrix.DList.Chain.{ne_of_mem}
use manrix.VmMap.Walks.{Leads}
use manrix.VmMap.Fork.{shared_object, copy_entries}

-- The entries at the pointers `ps` hold what those at `es` did.
abbrev pub Copies : List Ptr → VmState → List Ptr → VmState → Type 0
Copies [] s' [] s = Unit {0}
Copies [] s' (e ∷ es) s = ⊥
Copies (p ∷ ps) s' [] s = ⊥
Copies (p ∷ ps) s' (e ∷ es) s = (s'.entry p ≡ s.entry e) × Copies ps s' es s

-- No item of the one list is in the other.
abbrev pub Disjoint : List Ptr → List Ptr → Type 0
Disjoint ps es = (a : Ptr) → a ∈ ps → a ∉ es

-- Each of the entries has an object.
abbrev pub HaveObjects : List Ptr → VmState → Type 0
HaveObjects es s = (a : Ptr) → a ∈ es → (s.entry a).object ≢ 0

-- What the loop has done from the state `s` to `s'`: after the entry `last` of the new map stand
-- copies of `es` at `ps`, and nothing else has changed.
pub record Copied (last : Ptr) (ps es : List Ptr) (s s' : VmState) : Type 0 where
  pub leads : Leads s'.links last ps s.vmap.vmentry
  pub copies : Copies ps s' es s
  pub same_map : s'.vmap ≡ s.vmap
  pub same_next : (a : Ptr) → a ∉ last ∷ ps → s'.links.next a ≡ s.links.next a
  pub same_entry : (a : Ptr) → a ∉ ps → s'.entry a ≡ s.entry a

pub Leads-frame :
    (l g : Links) (p q : Ptr) (xs : List Ptr)
    → Leads l p xs q
    → ((a : Ptr) → a ∈ p ∷ xs → g.next a ≡ l.next a)
    → Leads g p xs q
Leads-frame l g p q [] w same = same p (ground arith) ∙ w
Leads-frame l g p q (x ∷ xs) w same =
    (same p (ground arith) ∙ w.0, Leads-frame l g x q xs w.1 (λ a i. same a (ground arith)))

-- The state after one round.
abbrev round : Ptr → Ptr → Ptr → VmState → VmState
round p e last s =
    update_object (s.entry e).object shared_object
      (update_entry p (λ y. s.entry e) (record s { links = list_add_next last p s.links }))

create_vm_entry-later :
    (p last : Ptr) (s : VmState)
    → s.vmap.vmentry ≢ 0
    → last ≢ 0
    → create_vm_entry p last s ≡ record s { links = list_add_next last p s.links }
unfolding create_vm_entry
create_vm_entry-later p last s a_map an_entry =
    let map_test : (s.vmap.vmentry == 0) ≡ false = ground arith in
    let last_test : (last == 0) ≡ false = ground arith in rw (map_test, last_test) refl

copy_entries-round :
    (p : Ptr) (ps : List Ptr) (old e last : Ptr) (s : VmState)
    → s.vmap.vmentry ≢ 0
    → last ≢ 0
    → (s.entry e).object ≢ 0
    → copy_entries (p ∷ ps) old e last s ≡ (
        let next = (round p e last s).links.next e in
        if next == old
        then some (round p e last s)
        else copy_entries ps old next p (round p e last s))
unfolding copy_entries
copy_entries-round p ps old e last s a_map an_entry an_object =
    let counted : ((s.entry e).object == 0) ≡ false = ground arith in
    rw (create_vm_entry-later p last s a_map an_entry, counted) refl

pub Copies-frame :
    (ps es : List Ptr) (s' s t : VmState)
    → Copies ps s' es s
    → ((a : Ptr) → a ∈ es → s.entry a ≡ t.entry a)
    → Copies ps s' es t
Copies-frame [] [] s' s t c same = tt
Copies-frame [] (e ∷ es) s' s t c same = c
Copies-frame (p ∷ ps) [] s' s t c same = c
Copies-frame (p ∷ ps) (e ∷ es) s' s t c same =
    (c.0 ∙ same e (ground arith), Copies-frame ps es s' s t c.1 (λ a i. same a (ground arith)))

pub copy_entries-Copied :
    (p : Ptr) (ps : List Ptr) (old e : Ptr) (es : List Ptr) (last : Ptr) (s : VmState)
    → length ps ≡ length es
    → Leads s.links e es old
    → old ∉ es
    → Distinct (last ∷ p ∷ ps)
    → Disjoint (last ∷ p ∷ ps) (e ∷ es)
    → 0 ∉ last ∷ p ∷ ps
    → s.vmap.vmentry ≢ 0
    → s.links.next last ≡ s.vmap.vmentry
    → HaveObjects (e ∷ es) s
    → (s' : VmState) × (copy_entries (p ∷ ps) old e last s ≡ some s')
      × Copied last (p ∷ ps) (e ∷ es) s s'
unfolding list_add_next
copy_entries-Copied p [] old e [] last s len leads once d apart nonnull a_map closes objects =
    let step =
      copy_entries-round p [] old e last s a_map (ground arith) (objects e (ground arith)) in
    let e_other = apart last (ground arith) in
    let e_other' = apart p (ground arith) in
    let ends : (round p e last s).links.next e ≡ old = ground arith in
    let ends_test : (old == old) ≡ true = ground arith in
    (
      round p e last s,
      step ∙ rw (ends, ends_test) refl,
      record {
        leads = (ground arith, ground arith);
        copies = (ground arith, tt);
        same_map = refl;
        same_next = λ a i. ground arith;
        same_entry = λ a i. ground arith;
      },
    )
copy_entries-Copied p [] old e (x ∷ es) last s len leads once d apart nonnull a_map closes objects =
    absurd (omega (arith, len))
copy_entries-Copied p (q ∷ ps) old e [] last s len leads once d apart nonnull a_map closes objects =
    absurd (omega (arith, len))
copy_entries-Copied p (q ∷ ps) old e (x ∷ es) last s len leads once d apart nonnull a_map closes
      objects =
    let s₁ = round p e last s in
    let step =
      copy_entries-round p (q ∷ ps) old e last s a_map (ground arith) (objects e (ground arith)) in
    let e_other = apart last (ground arith) in
    let e_other' = apart p (ground arith) in
    let goes_on : s₁.links.next e ≡ x = ground arith in
    let more : (x == old) ≡ false = ground arith in
    let kept : (a : Ptr) → a ∈ x ∷ es → (last ≢ a) × (p ≢ a) = λ a i. (
      ne_of_mem last a (e ∷ x ∷ es) e_other (ground arith),
      ne_of_mem p a (e ∷ x ∷ es) e_other' (ground arith),
    ) in
    let leads' =
      Leads-frame s.links s₁.links x old es leads.1
        (λ a i. let (u, v) = kept a i in ground arith) in
    let apart' : Disjoint (p ∷ q ∷ ps) (x ∷ es) =
      λ a i. let out = apart a (ground arith) in ground arith in
    let (s', eq, c) =
      copy_entries-Copied q ps old x es p s₁ (omega (arith, len)) leads' (ground arith) d.1 apart'
        (ground arith) a_map (ground arith)
        (λ a i. let (u, v) = kept a i in let o = objects a (ground (arith, i)) in ground arith) in
    (
      s',
      step ∙ rw (goes_on, more) eq,
      record {
        leads = (c.same_next last d.0 ∙ ground arith, c.leads);
        copies = (
          c.same_entry p d.1.0 ∙ ground arith,
          Copies-frame (q ∷ ps) (x ∷ es) s' s₁ s c.copies
              (λ a i. let (u, v) = kept a i in ground arith),
        );
        same_map = c.same_map;
        same_next = λ a i. c.same_next a (ground arith) ∙ ground arith;
        same_entry = λ a i. c.same_entry a (ground arith) ∙ ground arith;
      },
    )
