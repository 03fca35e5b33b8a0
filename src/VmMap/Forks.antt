-- ===== src/VmMap/Forks.antt =====
-- A fork that duplicates everything: the new map against the old one.
use manrix.Base.{
  ℕ, zero, suc, ◌-◌, ◌<◌, ◌≡◌, refl, ◌≢◌, true, false, some, List, [], ◌∷◌, ◌==◌, if◌then◌else◌,
  ◌∈◌, ◌∉◌, Distinct, length, has, Bool-cases, inl, inr, arith, ◌∙◌, ap,
}
use manrix.Base.Int.{pos}
use manrix.Kernel.{Ptr}
use manrix.DList.{list_init}
use manrix.VmMap.{
  kernel_base, VmMap, VmState, clear_mask, update_entry, update_object, create_vm_entry,
}
use manrix.VmMap.Walks.{Leads, HasEntries}
use manrix.VmMap.Fork.{
  dup_all, shared_object, copy_entries, last_shadow, end_copy, vm_entry_copy, vm_map_fork,
}
use manrix.VmMap.Copies.{
  HaveObjects, Copies, Disjoint, Leads-frame, Copies-frame, copy_entries-Copied,
}

last_shadow-plain :
    (k : ℕ) (o : Ptr) (s : VmState) → (s.objects o).shadow ≡ 0 → last_shadow (suc k) o s ≡ some o
unfolding last_shadow
last_shadow-plain k o s plain =
    let none_test : ((s.objects o).shadow == 0) ≡ true = ground arith in rw none_test refl

-- The second loop ends when no object has a shadow, and leaves the entries as they are.
end_copy-keeps :
    (n k : ℕ) (e : Ptr) (es : List Ptr) (old : Ptr) (s : VmState)
    → length es < n
    → Leads s.links e es old
    → old ∉ es
    → ((o : Ptr) → (s.objects o).shadow ≡ 0)
    → HaveObjects (e ∷ es) s
    → (s' : VmState) × (end_copy n (suc k) old e s ≡ some s')
      × (s'.vmap ≡ s.vmap)
      × (s'.links ≡ s.links)
      × (s'.entry ≡ s.entry)
unfolding end_copy
end_copy-keeps zero k e es old s enough leads once plain objects = elim enough [ ]
end_copy-keeps (suc n) k e [] old s enough leads once plain objects =
    let an_object : ((s.entry e).object == 0) ≡ false = ground (arith, objects e (ground arith)) in
    let ends : (s.links.next e == old) ≡ true = ground arith in
    (
      update_object (s.entry e).object (λ x. record x { attribute = clear_mask x.attribute 1 }) s,
      rw
          (
            an_object,
            last_shadow-plain k (s.entry e).object s (plain (s.entry e).object),
            end_copy,
            ends,
          )
          refl,
      refl,
      refl,
      refl,
    )
end_copy-keeps (suc n) k e (x ∷ es) old s enough leads once plain objects =
    let an_object : ((s.entry e).object == 0) ≡ false = ground (arith, objects e (ground arith)) in
    let s₁ =
      update_object (s.entry e).object (λ x. record x { attribute = clear_mask x.attribute 1 }) s in
    let (s', eq, same_map, same_links, same_entry) =
      end_copy-keeps n k x es old s₁ (omega arith) leads.1 (ground arith)
        (λ o. ground (arith, plain o, plain (s.entry e).object))
        (λ a i. objects a (ground (arith, i))) in
    let more : (s.links.next e == old) ≡ false = ground arith in
    (
      s',
      rw
          (
            an_object,
            last_shadow-plain k (s.entry e).object s (plain (s.entry e).object),
            end_copy,
            more,
          )
          (rw leads.0 eq),
      same_map,
      same_links,
      same_entry,
    )

-- The first entry of the copy, in a map that has none.
abbrev first_round : Ptr → VmState → VmMap → VmState
first_round p s m = update_object (s.entry s.vmap.vmentry).object shared_object (
    update_entry p (λ y. s.entry s.vmap.vmentry)
      (record s { vmap = record m { vmentry = p }; links = list_init p s.links }))

copy_entries-first :
    (p : Ptr) (ps : List Ptr) (s : VmState) (m : VmMap)
    → (s.entry s.vmap.vmentry).object ≢ 0
    → copy_entries
        (p ∷ ps)
        s.vmap.vmentry
        s.vmap.vmentry
        0
        (record s { vmap = record m { vmentry = 0 } })
      ≡ (let next = (first_round p s m).links.next s.vmap.vmentry in
          if next == s.vmap.vmentry
          then some (first_round p s m)
          else copy_entries ps s.vmap.vmentry next p (first_round p s m))
unfolding copy_entries create_vm_entry
copy_entries-first p ps s m an_object =
    let counted : ((s.entry s.vmap.vmentry).object == 0) ≡ false = ground arith in rw counted refl

-- A map with the copies of the entries of the map of `s`.
pub record Duplicated (p : Ptr) (ps es : List Ptr) (s s' : VmState) : Type 0 where
  pub first : s'.vmap.vmentry ≡ p
  pub leads : Leads s'.links p ps p
  pub copies : Copies (p ∷ ps) s' (s.vmap.vmentry ∷ es) s
  pub old_leads : Leads s'.links s.vmap.vmentry es s.vmap.vmentry
  pub old_copies : Copies (s.vmap.vmentry ∷ es) s' (s.vmap.vmentry ∷ es) s

Copies-refl :
    (es : List Ptr) (s' s : VmState)
    → ((a : Ptr) → a ∈ es → s'.entry a ≡ s.entry a)
    → Copies es s' es s
Copies-refl [] s' s same = tt
Copies-refl (e ∷ es) s' s same =
    (same e (ground arith), Copies-refl es s' s (λ a i. same a (ground arith)))

Disjoint-sym : (ps es : List Ptr) → Disjoint ps es → Disjoint es ps
Disjoint-sym ps es apart a i = elim (Bool-cases (has a ps)) [
  | inl both ↦ let out = apart a both in cc
  | inr out ↦ out
]

module _ (p : Ptr) (s : VmState) (m : VmMap) where
  copy_entries-Duplicated :
      (ps es : List Ptr)
      → HasEntries es s
      → length ps ≡ length es
      → Distinct (p ∷ ps)
      → Disjoint (p ∷ ps) (s.vmap.vmentry ∷ es)
      → 0 ∉ p ∷ ps
      → HaveObjects (s.vmap.vmentry ∷ es) s
      → (s' : VmState) × (copy_entries
            (p ∷ ps)
            s.vmap.vmentry
            s.vmap.vmentry
            0
            (record s { vmap = record m { vmentry = 0 } })
          ≡ some s')
        × Duplicated p ps es s s'
  unfolding list_init
  copy_entries-Duplicated [] [] h len d apart nonnull objects =
      let out = apart p (ground arith) in
      let ends : (first_round p s m).links.next s.vmap.vmentry ≡ s.vmap.vmentry =
        ground (arith, h.leads) in
      let ends_test : (s.vmap.vmentry == s.vmap.vmentry) ≡ true = ground arith in
      (
        first_round p s m,
        copy_entries-first p [] s m (objects s.vmap.vmentry (ground arith))
            ∙ rw (ends, ends_test) refl,
        record {
          first = refl;
          leads = ground arith;
          copies = (ground arith, tt);
          old_leads = ground (arith, h.leads);
          old_copies = (ground arith, tt);
        },
      )
  copy_entries-Duplicated [] (e ∷ es) h len d apart nonnull objects = absurd (omega (arith, len))
  copy_entries-Duplicated (q ∷ ps) [] h len d apart nonnull objects = absurd (omega (arith, len))
  copy_entries-Duplicated (q ∷ ps) (e ∷ es) h len d apart nonnull objects =
      let s₁ = first_round p s m in
      let old = s.vmap.vmentry in
      let away = Disjoint-sym (p ∷ q ∷ ps) (old ∷ e ∷ es) apart in
      let kept : (a : Ptr) → a ∈ old ∷ e ∷ es → p ≢ a = λ a i. let out = away a i in ground arith in
      let goes_on : s₁.links.next old ≡ e =
        let other = kept old (ground arith) in ground (arith, h.leads) in
      let more : (e == old) ≡ false = ground (arith, h.once) in
      let leads' =
        Leads-frame s.links s₁.links e old es h.leads.1
          (λ a i. let other = kept a (ground arith) in ground arith) in
      let apart' : Disjoint (p ∷ q ∷ ps) (e ∷ es) = λ a i. let out = apart a i in ground arith in
      let (s', eq, c) =
        copy_entries-Copied q ps old e es p s₁ (omega (arith, len)) leads' (ground (arith, h.once))
          d apart' nonnull (ground arith) (ground arith)
          (λ a i.
            let other = kept a (ground (arith, i)) in
            let o = objects a (ground (arith, i)) in ground arith) in
      (
        s',
        copy_entries-first p (q ∷ ps) s m (objects old (ground arith)) ∙ rw (goes_on, more) eq,
        record {
          first = ap (λ v. v.vmentry) c.same_map;
          leads = c.leads;
          copies = (
            c.same_entry p d.0 ∙ ground arith,
            Copies-frame (q ∷ ps) (e ∷ es) s' s₁ s c.copies
                (λ a i. let other = kept a (ground arith) in ground arith),
          );
          old_leads =
              Leads-frame s.links s'.links old old (e ∷ es) h.leads
                (λ a i. let other = kept a i in c.same_next a (away a i) ∙ ground arith);
          old_copies = Copies-refl (old ∷ e ∷ es) s' s (λ a i.
              let other = kept a i in
              let out = away a i in c.same_entry a (ground arith) ∙ ground arith);
        },
      )

-- The shadows of the objects after the first loop are those before it.
abbrev Plain : VmState → Type 0
Plain s = (o : Ptr) → (s.objects o).shadow ≡ 0

create_vm_entry-objects :
    (p last : Ptr) (s : VmState) → (create_vm_entry p last s).objects ≡ s.objects
unfolding create_vm_entry
create_vm_entry-objects p last s = ground arith

copy_entries-Plain :
    (ps : List Ptr) (old e last : Ptr) (s s' : VmState)
    → Plain s
    → copy_entries ps old e last s ≡ some s'
    → Plain s'
unfolding copy_entries
copy_entries-Plain [] old e last s s' plain eq = cc
copy_entries-Plain (p ∷ ps) old e last s s' plain eq =
    let s₁ =
      update_object (s.entry e).object shared_object
        (update_entry p (λ y. s.entry e) (create_vm_entry p last s)) in
    let plain₁ : Plain s₁ =
      λ o. ground (arith, plain o, plain (s.entry e).object, create_vm_entry-objects p last s) in
    elim (Bool-cases ((s.entry e).object == 0)) [
      | inl null ↦ let stopped = rw null at eq in ground (arith, stopped)
      | inr counted ↦
          let eq' = rw counted at eq in
          elim (Bool-cases (s₁.links.next e == old)) [
            | inl ends ↦ let stopped = rw ends at eq' in λ o. ground (arith, stopped, plain₁ o)
            | inr more ↦ copy_entries-Plain ps old (s₁.links.next e) p s₁ s' plain₁ (rw more at eq')
          ]
    ]

Copies-after :
    (ps es : List Ptr) (s s₁ s₂ : VmState)
    → s₂.entry ≡ s₁.entry
    → Copies ps s₁ es s
    → Copies ps s₂ es s
Copies-after [] [] s s₁ s₂ same c = tt
Copies-after [] (e ∷ es) s s₁ s₂ same c = c
Copies-after (p ∷ ps) [] s s₁ s₂ same c = c
Copies-after (p ∷ ps) (e ∷ es) s s₁ s₂ same c =
    (ap (λ f. f p) same ∙ c.0, Copies-after ps es s s₁ s₂ same c.1)

Duplicated-after :
    (p : Ptr) (ps es : List Ptr) (s s₁ s₂ : VmState)
    → s₂.vmap ≡ s₁.vmap
    → s₂.links ≡ s₁.links
    → s₂.entry ≡ s₁.entry
    → Duplicated p ps es s s₁
    → Duplicated p ps es s s₂
Duplicated-after p ps es s s₁ s₂ same_map same_links same_entry dup = record {
  first = ap (λ v. v.vmentry) same_map ∙ dup.first;
  leads = Leads-frame s₁.links s₂.links p p ps dup.leads (λ a i. ap (λ l. l.next a) same_links);
  copies = Copies-after (p ∷ ps) (s.vmap.vmentry ∷ es) s s₁ s₂ same_entry dup.copies;
  old_leads =
      Leads-frame s₁.links s₂.links s.vmap.vmentry s.vmap.vmentry es dup.old_leads
        (λ a i. ap (λ l. l.next a) same_links);
  old_copies =
      Copies-after (s.vmap.vmentry ∷ es) (s.vmap.vmentry ∷ es) s s₁ s₂ same_entry dup.old_copies;
}

HaveObjects-after :
    (es : List Ptr) (s s' : VmState) → HaveObjects es s → Copies es s' es s → HaveObjects es s'
HaveObjects-after [] s s' objects c a i = absurd (ground (arith, i))
HaveObjects-after (e ∷ es) s s' objects c a i = elim (Bool-cases (e == a)) [
  | inl here ↦
      let same : a ≡ e = ground (arith, here) in
      rw (same, ap (λ x. x.object) c.0) (objects e (ground arith))
  | inr there ↦
      HaveObjects-after es s s' (λ b j. objects b (ground (arith, j))) c.1 a
        (ground (arith, i, there))
]

-- The new map, before it has entries.
abbrev new_map : VmMap → VmMap
new_map m = record m { start = 0x20_0000; end = kernel_base - 1; hint = 0; refs = pos 1 }

vm_map_fork-all :
    (n fuel : ℕ) (ps : List Ptr) (m : VmMap) (s : VmState)
    → vm_map_fork n fuel ps m dup_all s
      ≡ vm_entry_copy n fuel ps s.vmap (record s { vmap = record (new_map m) { vmentry = 0 } })
unfolding vm_map_fork
vm_map_fork-all n fuel ps m s = refl

-- A fork that duplicates everything, of a map with any number of entries, each of which has an object,
-- while no object has a shadow, when as many fresh structures are allocated and the loops have enough
-- steps: it succeeds; the new map has an entry for each of the old one, in the same order, with the same
-- addresses, object and attributes; and the old map's entries are what they were.
pub vm_map_fork-Duplicated :
    (n k : ℕ) (p : Ptr) (ps es : List Ptr) (m : VmMap) (s : VmState)
    → HasEntries es s
    → length es < n
    → length ps ≡ length es
    → Distinct (p ∷ ps)
    → Disjoint (p ∷ ps) (s.vmap.vmentry ∷ es)
    → 0 ∉ p ∷ ps
    → Plain s
    → HaveObjects (s.vmap.vmentry ∷ es) s
    → (s' : VmState) × (vm_map_fork n (suc k) (p ∷ ps) m dup_all s ≡ some s')
      × Duplicated p ps es s s'
unfolding vm_entry_copy
vm_map_fork-Duplicated n k p ps es m s h enough len d apart nonnull plain objects =
    let new = new_map m in
    let (s₁, copied, dup) = copy_entries-Duplicated p s new ps es h len d apart nonnull objects in
    let plain' =
      copy_entries-Plain (p ∷ ps) s.vmap.vmentry s.vmap.vmentry 0
        (record s { vmap = record new { vmentry = 0 } }) s₁ plain copied in
    let (s₂, ended, same_map, same_links, same_entry) =
      end_copy-keeps n k s.vmap.vmentry es s.vmap.vmentry s₁ enough dup.old_leads h.once plain'
        (HaveObjects-after (s.vmap.vmentry ∷ es) s s₁ objects dup.old_copies) in
    (
      s₂,
      vm_map_fork-all n (suc k) (p ∷ ps) m s ∙ rw (copied, vm_entry_copy) ended,
      Duplicated-after p ps es s s₁ s₂ same_map same_links same_entry dup,
    )
