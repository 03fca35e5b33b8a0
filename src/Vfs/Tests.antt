-- ===== src/Vfs/Tests.antt =====
-- The vnodes 8 and 9 are directories, and the vnodes 10 and 20 are free.

use manrix.Base.{ℕ, ◌≡◌, refl, ◌≢◌, some, [], ◌∷◌, ◌==◌, ◌||◌, if◌then◌else◌, arith}
use manrix.Sched.{last, but_last}
use manrix.Vfs.{Vnode, Vnodes, no_ops, fs_ops, missing, find_vnode, got, vget}
use manrix.Vfs.Cache.{vget-caches}

abbrev fresh : Vnode
fresh = record {
  v_flag = 18;
  v_count = 0;
  vfsp = 0;
  v_inum = 0;
  v_rdev = 0;
  v_type = 0;
  v_next = 0;
  ops = no_ops;
}

abbrev parent : Vnode
parent = record fresh { v_flag = 0; v_count = 1; v_inum = 2; v_rdev = 3; ops = fs_ops }

abbrev vnodes : Vnodes
vnodes = record {
  vnode = λ p. if (p == 9) || (p == 8) then parent else fresh;
  vnhash = λ b. 0;
  vnfreelist = 20 ∷ 10 ∷ [];
  written = [];
}

-- The vnode 10 is in use for the inode 5 of the device 3.
abbrev used : Vnodes
used = record vnodes {
  vnode = λ p. if p == 9 then parent else record fresh { v_count = 1; v_inum = 5; v_rdev = 3 };
  vnhash = λ b. 10;
  vnfreelist = 20 ∷ [];
}

abbrev regular : ℕ → ℕ → ℕ
regular dev inum = 0x8000

abbrev ten : ℕ
ten = 10

ten_real : ten ≢ 0
ten_real = omega arith

abbrev nine : ℕ
nine = 9

parent_other : nine ≢ ten
parent_other = omega arith

abbrev eight : ℕ
eight = 8

second_other : eight ≢ ten
second_other = omega arith

not_there : find_vnode 3 3 5 vnodes ≡ missing
unfolding find_vnode
not_there = refl

oldest : last vnodes.vnfreelist ≡ some 10
unfolding last
oldest = refl

vget-caches_example :
    (s₁ : Vnodes) × (s₂ : Vnodes) × (vget regular 3 9 5 3 vnodes ≡ got 10 s₁)
    × ((s₁.vnode 10).v_count ≡ 1)
    × (s₁.vnfreelist ≡ but_last (20 ∷ 10 ∷ []))
    × (vget regular 3 8 5 3 s₁ ≡ got 10 s₂)
    × ((s₂.vnode 10).v_count ≡ 2)
    × (s₂.vnfreelist ≡ but_last (20 ∷ 10 ∷ []))
vget-caches_example =
    vget-caches regular 5 3 10 ten_real 3 9 8 vnodes second_other refl refl not_there oldest refl
