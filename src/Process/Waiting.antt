-- ===== src/Process/Waiting.antt =====
-- What fork leaves for a wait: the new process, its family, and what a wait does with it.
use manrix.Base.{
  ℕ, zero, suc, ◌<◌, ◌≡◌, refl, ◌≢◌, true, false, List, [], ◌∷◌, ◌++◌, ◌==◌, ◌∉◌, has-append,
  length, arith,
}
use manrix.Kernel.{Ptr, test_mask}
use manrix.Process.{
  process_zombie, dup_share, Process, Addr, item, head, Processes, update_proc, init_children,
  have_children, copied,
}
use manrix.Process.Calls.{undefined, zombie_from, get_zombie_child}
use manrix.Process.Family.{Descends, IsFamily}

module _ (p pid map parent flag done : ℕ) (xs : List Ptr) (s : Processes)
    (family : IsFamily s parent xs) (fresh : p ∉ parent ∷ xs) (nonnull : p ≢ 0) (a_map : map ≢ 0)
    (own : test_mask flag dup_share ≡ false) where
  abbrev prepared : Processes
  prepared =
      init_children p
        (update_proc p (λ x. record (copied parent pid (s.proc parent)) { alarm = 0 }) s)

suffix :
    (s : Processes) (p : Ptr) (before : Addr) (cell c : Ptr) (ys zs : List Ptr)
    → Descends s p before cell (ys ++ c ∷ zs)
    → Descends s p (item c) c zs
suffix s p before cell c [] zs d = d.2
suffix s p before cell c (y ∷ ys) zs d = suffix s p (item y) y c ys zs d.2

-- None of the processes is a zombie.
abbrev pub NoZombie : List Ptr → Processes → Type 0
NoZombie [] s = Unit {0}
NoZombie (x ∷ xs) s = (test_mask (s.proc x).status process_zombie ≡ false) × NoZombie xs s

zombie_from-stranger :
    (n : ℕ) (c p : Ptr) (before : Addr) (cell : Ptr) (zs : List Ptr) (s : Processes)
    → length zs < n
    → Descends s p before cell zs
    → c ≢ p
    → 0 ∉ zs
    → NoZombie zs s
    → zombie_from n c (s.child_next cell) s ≡ undefined
unfolding zombie_from
zombie_from-stranger zero c p before cell zs s enough d other nonnull z = elim enough [ ]
zombie_from-stranger (suc n) c p before cell [] s enough d other nonnull z =
    let stranger : (c == p) ≡ false = ground arith in rw (d.0, zombie_from, stranger) refl
zombie_from-stranger (suc n) c p before cell (x ∷ xs) s enough d other nonnull z =
    let a_process : (x == 0) ≡ false = ground arith in
    let rest =
      zombie_from-stranger n c p (item x) x xs s (omega arith) d.2 other (ground arith) z.1 in
    rw (d.0, zombie_from, a_process, z.0) rest

have_children-stranger :
    (s : Processes) (p : Ptr) (before : Addr) (c : Ptr) (zs : List Ptr)
    → Descends s p before c zs
    → c ≢ p
    → have_children c s ≡ true
unfolding have_children
have_children-stranger s p before c [] d other =
    let stranger : (c == p) ≡ false = ground arith in rw (d.0, stranger) refl
have_children-stranger s p before c (z ∷ zs) d other = rw d.0 refl

-- A child `c` of a process `p`, somewhere in the list of its children, counts as having children of its
-- own, since its links are in that list; when none of its older siblings `zs` is a zombie, a search
-- for a zombie among its children goes through them and reads the field of `p` as a process.
pub get_zombie_child-stranger :
    (n : ℕ) (p c : Ptr) (ys zs : List Ptr) (s : Processes)
    → IsFamily s p (ys ++ c ∷ zs)
    → length zs < n
    → c ≢ p
    → NoZombie zs s
    → (have_children c s ≡ true) × (get_zombie_child n c s ≡ undefined)
unfolding get_zombie_child
get_zombie_child-stranger n p c ys zs s f enough other z =
    let parts = has-append 0 ys (c ∷ zs) in
    let tail = suffix s p (head p) p c ys zs f.children in
    (
      have_children-stranger s p (item c) c zs tail other,
      zombie_from-stranger n c p (item c) c zs s enough tail other (ground (arith, f.nonnull)) z,
    )
