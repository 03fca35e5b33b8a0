-- ===== src/Fd/Release.antt =====
-- What is given to `kmem_cache_free`, and how often.
use manrix.Base.{
  ℕ, zero, suc, ◌-◌, ◌≤◌, ◌<◌, ◌≡◌, refl, ◌≢◌, true, false, none, some, List, [], ◌∷◌, ◌++◌, arith,
  ltb, ◌==◌, get_or, ◌∈◌, has-append, Option-cases, inl, inr, ◌∙◌, sym,
}
use manrix.Base.Int.{pos}
use manrix.Bits.{check_set, clear_bit, max_int_val}
use manrix.Bits.Laws.{ffc-some}
use manrix.Kernel.{Ptr}
use manrix.Sched.Queues.{get_or-set}
use manrix.Fd.{
  Fd, ok, max_def_fd, ffc_or, free_fdesc, live, entries, fd_free, dup_source, syscall_dup,
}
use manrix.Fd.Laws.{IsValid, given, ffc_or-some}

live-mem : (p : Ptr) (i : ℕ) (ps : List Ptr) → get_or ps i 0 ≡ p → p ≢ 0 → p ∈ live ps
unfolding live
live-mem p i [] e ne = absurd (ne (sym e))
live-mem p zero (q ∷ ps) e ne = ground arith
live-mem p (suc i) (q ∷ ps) e ne = ground (arith, live-mem p i ps e ne)

fd_free-cong :
    (fd fd' : Fd)
    → fd'.low ≡ fd.low
    → fd'.page ≡ fd.page
    → fd'.fd_max ≡ fd.fd_max
    → fd_free fd' ≡ fd_free fd
unfolding fd_free
fd_free-cong fd fd' el ep em = rw (el, ep, em)

fd_free-low : (p : Ptr) (fd : Fd) (ps : List Ptr) → fd_free fd ≡ some ps → p ∈ live fd.low → p ∈ ps
unfolding fd_free
fd_free-low p fd ps e i =
    let table : List Ptr = elim fd.page [ none ↦ [] | some t ↦ t ] in
    elim (Option-cases (entries (fd.fd_max - max_def_fd) table)) [
      | inl out ↦ let e' = rw (out, fd_free) at e in cc
      | inr (upper, eu) ↦
          let e' : some (live fd.low ++ live upper) ≡ some ps = rw (eu, fd_free) at e in
          ground (arith, has-append p (live fd.low) (live upper))
    ]

-- The table after a descriptor below 32 was given back.
abbrev closed : ℕ → Fd → Fd
closed desc fd = record fd {
  fd_hint = desc;
  bitmap = clear_bit fd.bitmap desc;
  released = get_or fd.low desc 0 ∷ fd.released;
}

free-low :
    (desc : ℕ) (fd : Fd)
    → desc < max_def_fd
    → desc ≤ fd.fd_max
    → free_fdesc (pos desc) fd ≡ ok 0 (closed desc fd)
unfolding free_fdesc
free-low desc fd lt le =
    let inside : ltb fd.fd_max desc ≡ false = ground arith in
    let test : ltb desc max_def_fd ≡ true = ground arith in rw (inside, test)

dup-low :
    (undef fd1 fd2 i : ℕ) (p : Ptr) (fd : Fd)
    → fd1 ≤ fd.fd_max
    → fd2 ≤ fd.fd_max
    → fd1 < max_def_fd
    → get_or fd.low fd1 0 ≡ p
    → p ≢ 0
    → ffc_or undef fd.bitmap ≡ i
    → i < max_def_fd
    → syscall_dup undef fd1 fd2 fd ≡ ok i (given i p fd)
unfolding syscall_dup dup_source
dup-low undef fd1 fd2 i p fd le1 le2 small e ne ef lt =
    let in1 : ltb fd.fd_max fd1 ≡ false = ground arith in
    let in2 : ltb fd.fd_max fd2 ≡ false = ground arith in
    let low : ltb fd1 max_def_fd ≡ true = ground arith in
    let test : ltb i max_def_fd ≡ true = ground arith in
    let some_file : (p == 0) ≡ false = ground arith in rw (in1, in2, low, e, some_file, ef, test)

-- `free_fdesc` of a descriptor below 32 leaves its pointer in the table: where the process exits
-- afterwards, `fd_free` releases the same file again.
pub fd_free-again :
    (desc : ℕ) (p : Ptr) (fd : Fd) (ps : List Ptr)
    → desc < max_def_fd
    → desc ≤ fd.fd_max
    → get_or fd.low desc 0 ≡ p
    → p ≢ 0
    → fd_free fd ≡ some ps
    → (fd' : Fd) × (free_fdesc (pos desc) fd ≡ ok 0 fd')
      × (p ∈ fd'.released)
      × (fd_free fd' ≡ some ps)
      × (p ∈ ps)
fd_free-again desc p fd ps lt le e ne freed = (
  closed desc fd,
  free-low desc fd lt le,
  ground arith,
  fd_free-cong fd (closed desc fd) refl refl refl ∙ freed,
  fd_free-low p fd ps freed (live-mem p desc fd.low e ne),
)

-- `syscall_dup` of an open descriptor below 32, while another is free, makes that one a second name
-- of the same file; since it counts no reference, closing both releases the file twice.
pub syscall_dup-releases-twice :
    (undef fd1 fd2 : ℕ) (p : Ptr) (fd : Fd)
    → IsValid fd
    → max_def_fd ≤ fd.fd_max
    → fd1 < max_def_fd
    → fd2 ≤ fd.fd_max
    → get_or fd.low fd1 0 ≡ p
    → p ≢ 0
    → check_set fd.bitmap fd1 ≡ true
    → fd.bitmap ≢ max_int_val
    → (desc : ℕ) × (a b c : Fd) × (syscall_dup undef fd1 fd2 fd ≡ ok desc a)
      × (desc ≢ fd1)
      × (free_fdesc (pos fd1) a ≡ ok 0 b)
      × (free_fdesc (pos desc) b ≡ ok 0 c)
      × (c.released ≡ p ∷ p ∷ fd.released)
syscall_dup-releases-twice undef fd1 fd2 p fd v top small inside2 e ne taken room =
    let (i, ef, lt, clear) = ffc-some fd.bitmap v.word room in
    let other : i ≢ fd1 = ground arith in
    let a = given i p fd in
    let b = closed fd1 a in
    let c = closed i b in
    (
      i,
      a,
      b,
      c,
      dup-low undef fd1 fd2 i p fd (omega arith) inside2 small e ne
          (ffc_or-some undef fd.bitmap i ef) lt,
      other,
      free-low fd1 a small (omega arith),
      free-low i b lt (omega arith),
      ground (
        arith,
        get_or-set fd.low i i p 0 (omega (arith, v.entries_low)),
        get_or-set fd.low i fd1 p 0 (omega (arith, v.entries_low)),
      ),
    )
