-- ===== src/Files/Offsets.antt =====
-- What a read, an open and a close leave of the open files.
use manrix.Base.{
  ℕ, ◌≡◌, refl, Bool, true, false, Option, some, List, [], arith, ◌∙◌, ◌⊎◌, inl, inr, Option-cases,
}
use manrix.Base.Int.{ℤ, pos, negsuc}
use manrix.Kernel.{Ptr}
use manrix.Vfs.{FoundVnode, found, missing, find_vnode}
use manrix.Ext2.{ReadResult}
use manrix.Files.{
  OpenFile, Server, set_file, file_ptr, Allocated, allocated, store_file, syscall_fd_alloc,
  syscall_fd_free, get_openfile, result, after, answer, named, new_file, fdesc_create, vfs_open,
  vfs_close, vfs_read, vfs_write, returned,
}

-- A store leaves the tables, and the file of another pointer.
store_file-other :
    (desc d : ℕ) (x : OpenFile) (p : Ptr) (s s₁ : Server)
    → store_file desc x s ≡ allocated d s₁
    → ¬ (file_ptr desc s.fd ≡ some p)
    → (s₁.file p ≡ s.file p) × (s₁.fd ≡ s.fd) × (s₁.vnodes ≡ s.vnodes)
unfolding store_file
store_file-other desc d x p s s₁ stored other = ground (arith, stored, other)

store_file-here :
    (desc d : ℕ) (x : OpenFile) (s s₁ : Server)
    → store_file desc x s ≡ allocated d s₁
    → (desc ≡ d) × (get_openfile d s₁ ≡ some x)
unfolding store_file syscall_fd_free
store_file-here desc d x s s₁ stored = ground (arith, stored)

-- A close of any descriptor that comes to an end, with or without an error, leaves the descriptors and
-- the open files as they were.
vfs_close-keeps :
    (fuel fdesc : ℕ) (s s₁ : Server)
    → after (vfs_close fuel fdesc s) ≡ some s₁
    → (s₁.fd ≡ s.fd) × (s₁.file ≡ s.file)
unfolding vfs_close after
vfs_close-keeps fuel fdesc s s₁ ended = ground (arith, ended)

get_openfile-same :
    (desc : ℕ) (s t : Server)
    → t.fd ≡ s.fd
    → t.file ≡ s.file
    → get_openfile desc t ≡ get_openfile desc s
unfolding syscall_fd_free
get_openfile-same desc s t fds files = rw (fds, files) refl

alloc-get_openfile :
    (undef newfd d : ℕ) (x : OpenFile) (s s₁ : Server)
    → syscall_fd_alloc undef newfd (negsuc 0) x s ≡ allocated d s₁
    → get_openfile d s₁ ≡ some x
unfolding syscall_fd_alloc store_file syscall_fd_free
alloc-get_openfile undef newfd d x s s₁ done = ground (arith, done)

Allocated-cases :
    (a : Allocated) → (a ≡ Allocated.undefined) ⊎ ((d : ℕ) × (s : Server) × (a ≡ allocated d s))
Allocated-cases Allocated.undefined = inl refl
Allocated-cases (allocated d s) = inr (d, s, refl)

opened :
    (undef access server fdesc type : ℕ) (newfd p : Ptr) (s s₁ : Server)
    → vfs_open undef newfd access (named p (pos server)) s ≡ result (fdesc, type) s₁
    → (desc : ℕ) × (fdesc ≡ fdesc_create server desc)
      × (get_openfile desc s₁ ≡ some (new_file access (s.vnodes.vnode p)))
unfolding vfs_open
opened undef access server fdesc type newfd p s s₁ done =
    let x = new_file access (s.vnodes.vnode p) in
    elim (Allocated-cases (syscall_fd_alloc undef newfd (negsuc 0) x s)) [
      | inl nowhere ↦ ground (arith, done, nowhere)
      | inr (d, s₂, given) ↦
          let same : (s₂ ≡ s₁) × (fdesc ≡ fdesc_create server d) = ground (arith, done, given) in
          let (final, number) = same in
          (d, number, rw (← final) (alloc-get_openfile undef newfd d x s s₂ given))
    ]

-- The file that a successful open filled in is still the descriptor's after any close that comes to an
-- end: the descriptor that was opened, given to `get_openfile`, has the inode and the device of the
-- vnode, the access that was asked for, and offset 0.
pub vfs_close-vfs_open :
    (undef fuel access fdesc type closed : ℕ) (newfd p : Ptr) (e : ℤ) (s s₁ s₂ : Server)
    → vfs_open undef newfd access (named p e) s ≡ result (fdesc, type) s₁
    → after (vfs_close fuel closed s₁) ≡ some s₂
    → (server desc : ℕ) × (e ≡ pos server)
      × (fdesc ≡ fdesc_create server desc)
      × (get_openfile desc s₂ ≡ some (new_file access (s.vnodes.vnode p)))
unfolding vfs_open
vfs_close-vfs_open undef fuel access fdesc type closed newfd p (negsuc e) s s₁ s₂ done ended =
    ground (arith, done)
vfs_close-vfs_open undef fuel access fdesc type closed newfd p (pos e) s s₁ s₂ done ended =
    let (desc, number, file) = opened undef access e fdesc type newfd p s s₁ done in
    let (fds, files) = vfs_close-keeps fuel closed s₁ s₂ ended in
    (e, desc, refl, number, get_openfile-same desc s₁ s₂ fds files ∙ file)

get_openfile-at :
    (desc : ℕ) (p : Ptr) (s t : Server)
    → t.fd ≡ s.fd
    → file_ptr desc s.fd ≡ some p
    → t.file p ≡ s.file p
    → get_openfile desc t ≡ get_openfile desc s
unfolding syscall_fd_free
get_openfile-at desc p s t fds place file = rw (fds, place, syscall_fd_free) (ground (arith, file))

FoundVnode-cases :
    (f : FoundVnode) → (f ≡ missing) ⊎ ((f ≡ FoundVnode.unfinished) ⊎ ((v : Ptr) × (f ≡ found v)))
FoundVnode-cases missing = inl refl
FoundVnode-cases FoundVnode.unfinished = inr (inl refl)
FoundVnode-cases (found v) = inr (inr (v, refl))

-- Whether a read was done.
abbrev is_done : ReadResult → Bool
is_done (ReadResult.done n bytes offset) = true
is_done ReadResult.einval = false
is_done ReadResult.undefined = false
is_done ReadResult.unfinished = false

Read-cases :
    (f : ReadResult)
    → (is_done f ≡ false) ⊎ ((n : ℕ) × (bytes : List ℕ) × (o : ℕ) × (f ≡ ReadResult.done n bytes o))
Read-cases (ReadResult.done n bytes o) = inr (n, bytes, o, refl)
Read-cases ReadResult.einval = inl refl
Read-cases ReadResult.undefined = inl refl
Read-cases ReadResult.unfinished = inl refl

-- How a read of a descriptor with the file at `p` ends that gives `r`: no vnode is found, the answer is
-- the descriptor without bytes, and nothing changes; or the vnode's operation gives the answer and the new
-- offset, and the file with that offset is stored at the pointer of descriptor 0, and nothing else
-- changes.
abbrev pub Ended :
    (Ptr → ℕ → ℕ → ReadResult) → ℕ → ℕ → ℕ → Ptr → ℕ × List ℕ → Server → Server → Type 0
Ended vop_read fuel fdesc nsize p r s s₁ =
    let x = s.file p in
    ((find_vnode fuel x.dev x.inode s.vnodes ≡ missing) × (r ≡ (fdesc, [])) × (s₁ ≡ s))
    ⊎ ((v : Ptr) × (q : Ptr) × (o : ℕ) × (find_vnode fuel x.dev x.inode s.vnodes ≡ found v)
        × (vop_read v x.f_offset nsize ≡ ReadResult.done (r.0) (r.1) o)
        × (file_ptr 0 s.fd ≡ some q)
        × (s₁ ≡ set_file q (record x { f_offset = o }) s))

module _ (vop_read : Ptr → ℕ → ℕ → ReadResult) (vop_write : Ptr → Option (ℕ → List ℕ → ℤ × ℕ)) where
  -- A read leaves the tables, and the open file of a pointer that is not the descriptor 0's.
  vfs_read-other :
      (fuel fdesc nsize : ℕ) (p : Ptr) (r : ℕ × List ℕ) (s s₁ : Server)
      → vfs_read vop_read vop_write fuel fdesc nsize s ≡ result r s₁
      → ¬ (file_ptr 0 s.fd ≡ some p)
      → (s₁.file p ≡ s.file p) × (s₁.fd ≡ s.fd) × (s₁.vnodes ≡ s.vnodes)
  unfolding vfs_read syscall_fd_alloc store_file
  vfs_read-other fuel fdesc nsize p r s s₁ ended other = ground (arith, ended, other)

  vfs_read-same :
      (fuel fdesc nsize : ℕ) (p : Ptr) (r : ℕ × List ℕ) (s s₁ t : Server)
      → vfs_read vop_read vop_write fuel fdesc nsize s ≡ result r s₁
      → file_ptr fdesc s.fd ≡ some p
      → (t.file p ≡ s.file p) × (t.fd ≡ s.fd) × (t.vnodes ≡ s.vnodes)
      → answer (vfs_read vop_read vop_write fuel fdesc nsize t) ≡ some r
  unfolding vfs_read syscall_fd_alloc syscall_fd_free store_file answer
  vfs_read-same fuel fdesc nsize p r s s₁ t ended place (file, fds, vns) =
      rw (fds, vns) (ground (arith, ended, place, file, fds, vns))

  -- A write that comes to an end leaves the tables, and the open file of a pointer that is not the
  -- descriptor 0's.
  vfs_write-other :
      (fuel fdesc : ℕ) (bytes : List ℕ) (p : Ptr) (s s₁ : Server)
      → after (vfs_write vop_read vop_write fuel fdesc bytes s) ≡ some s₁
      → ¬ (file_ptr 0 s.fd ≡ some p)
      → (s₁.file p ≡ s.file p) × (s₁.fd ≡ s.fd) × (s₁.vnodes ≡ s.vnodes)
  unfolding vfs_write syscall_fd_alloc syscall_fd_free store_file after returned
  vfs_write-other fuel fdesc bytes p s s₁ ended other = ground (arith, ended, other)

  -- Where a read that succeeds leaves the state.
  vfs_read-stores :
      (fuel fdesc nsize : ℕ) (p : Ptr) (r : ℕ × List ℕ) (s s₁ : Server)
      → vfs_read vop_read vop_write fuel fdesc nsize s ≡ result r s₁
      → file_ptr fdesc s.fd ≡ some p
      → Ended vop_read fuel fdesc nsize p r s s₁
  unfolding vfs_read syscall_fd_alloc syscall_fd_free store_file
  vfs_read-stores fuel fdesc nsize p r s s₁ ended place =
      let x = s.file p in
      elim (FoundVnode-cases (find_vnode fuel x.dev x.inode s.vnodes)) [
        | inl gone ↦
            inl (gone, ground (arith, ended, place, gone), ground (arith, ended, place, gone))
        | inr (inl endless) ↦ ground (arith, ended, place, endless)
        | inr (inr (v, seen)) ↦ elim (Read-cases (vop_read v x.f_offset nsize)) [
          | inl failure ↦ ground (arith, ended, place, seen, failure)
          | inr (n, bytes, o, got) ↦ elim (Option-cases (file_ptr 0 s.fd)) [
            | inl nowhere ↦ ground (arith, ended, place, seen, got, nowhere)
            | inr (q, there) ↦ inr (
              v,
              q,
              o,
              seen,
              ground (arith, ended, place, seen, got, there),
              there,
              ground (arith, ended, place, seen, got, there),
            )
          ]
        ]
      ]

  -- A read that succeeds, of a descriptor whose file is not the one that descriptor 0 has, leaves the
  -- descriptor's own file as it was, and the next read of the same size gives the same count and the same
  -- bytes. Either no vnode was found, the answer was the descriptor without bytes, and nothing changed; or
  -- the answer and the new offset are those of the vnode's operation, and the one change is that
  -- descriptor 0's file is overwritten with the descriptor's file at the new offset.
  pub vfs_read-repeats :
      (fuel fdesc nsize : ℕ) (p : Ptr) (r : ℕ × List ℕ) (s s₁ : Server)
      → vfs_read vop_read vop_write fuel fdesc nsize s ≡ result r s₁
      → file_ptr fdesc s.fd ≡ some p
      → ¬ (file_ptr 0 s.fd ≡ some p)
      → (answer (vfs_read vop_read vop_write fuel fdesc nsize s₁) ≡ some r)
        × (get_openfile fdesc s₁ ≡ get_openfile fdesc s)
        × Ended vop_read fuel fdesc nsize p r s s₁
  vfs_read-repeats fuel fdesc nsize p r s s₁ ended place other =
      let (file, fds, vns) = vfs_read-other fuel fdesc nsize p r s s₁ ended other in
      (
        vfs_read-same fuel fdesc nsize p r s s₁ s₁ ended place (file, fds, vns),
        get_openfile-at fdesc p s s₁ fds place file,
        vfs_read-stores fuel fdesc nsize p r s s₁ ended place,
      )
