-- ===== src/Files.antt =====
-- Open files, from the file server's calls (servers/fs-io/fs/file.c) through the C library
-- (soft/libc/kernel/fd.c, include/mrx/fd.h) to the kernel's table (the system calls of
-- microkernel/arch/i386/syscall.c, over Fd). The server may make these calls, and the client's thread is
-- known, so that the tables are those of one process. A file operation of a vnode is a parameter.
-- The locks of vnodes are left out: the library's mutexes do nothing (see Mutex).
pub mod Offsets
mod Tests
use Prim.Native.Nat.{bit_and, bit_or}
use manrix.Base.{
  ℕ, zero, suc, ◌+◌, ◌-◌, ◌*◌, ◌%◌, ◌^◌, Bool, true, false, not, Option, none, some, List, [], ◌∷◌,
  ltb, ◌==◌, if◌then◌else◌, get_or, get_elem?,
}
use manrix.Base.Int.{ℤ, pos, negsuc}
use manrix.Kernel.{Ptr, test_mask}
use manrix.Fd.{Fd, FdResult, ok, minus_one, enomem, ebadf, fault, max_def_fd, alloc_fdesc}
use manrix.Vfs.{Vnode, Vnodes, no_ops, FoundVnode, found, missing, find_vnode, vput}
use manrix.Ext2.{ReadResult}

abbrev pub o_wronly : ℕ
o_wronly = 0x800

-- `struct file`
pub record OpenFile : Type 0 where
  pub f_access : ℕ
  pub f_offset : ℕ
  pub f_ref : ℕ
  pub inode : ℕ
  pub dev : ℕ

-- The vnodes of the server, the client's table of descriptors, and the kernel's open files.
pub record Server : Type 0 where
  pub vnodes : Vnodes
  pub fd : Fd
  pub file : Ptr → OpenFile

abbrev pub set_file : Ptr → OpenFile → Server → Server
set_file p x s = record s { file = λ q. if p == q then x else s.file q }

-- `fileptr[desc]`, or its place in the page; NULL, and what is no place, is `none`.
unfoldable pub file_ptr : ℕ → Fd → Option Ptr
file_ptr desc fd =
    let at = λ (p : Ptr). if p == 0 then none else some p in
    if ltb desc max_def_fd then at (get_or fd.low desc 0) else (elim fd.page [
      | none ↦ none
      | some table ↦ elim (get_elem? table (desc - max_def_fd)) [ none ↦ none | some p ↦ at p ]
    ])

-- `undefined` is a read or write through a pointer that is none.
pub data Allocated : Type 0 where
  allocated : ℕ → Server → Allocated
  undefined : Allocated

-- The file is copied to the descriptor `desc`.
unfoldable pub store_file : ℕ → OpenFile → Server → Allocated
unfolding file_ptr
store_file desc x s = elim (file_ptr desc s.fd) [
  | none ↦ undefined
  | some p ↦ allocated desc (set_file p x s)
]

-- `syscall_fd_alloc` with a file, where `newfd` is what the kernel allocates. A flag that is not negative
-- means the descriptor 0.
unfoldable pub syscall_fd_alloc : ℕ → Ptr → ℤ → OpenFile → Server → Allocated
unfolding store_file
syscall_fd_alloc undef newfd (pos flag) x s = store_file 0 x s
syscall_fd_alloc undef newfd (negsuc flag) x s = elim (alloc_fdesc undef newfd s.fd) [
  | ok desc fd' ↦ store_file desc x (record s { fd = fd' })
  | minus_one ↦ undefined
  | enomem ↦ undefined
  | ebadf ↦ undefined
  | fault ↦ undefined
]

-- `syscall_fd_free` with room for the file: it copies the file and frees nothing. A negative descriptor
-- is an index out of the table.
unfoldable pub syscall_fd_free : ℤ → Server → Option OpenFile
unfolding file_ptr
syscall_fd_free (negsuc n) s = none
syscall_fd_free (pos desc) s = elim (file_ptr desc s.fd) [ none ↦ none | some p ↦ some (s.file p) ]

-- The library's `get_openfile` and `put_openfile`.
abbrev pub get_openfile : ℕ → Server → Option OpenFile
get_openfile desc s = syscall_fd_free (pos desc) s

abbrev pub put_openfile : ℕ → OpenFile → Server → Allocated
put_openfile desc x s = syscall_fd_alloc 0 0 (pos desc) x s

-- `FDESC_CREATE`
abbrev pub fdesc_create : ℕ → ℕ → ℕ
fdesc_create svr fd = bit_or (svr * 2 ^ 16 % 2 ^ 32) fd

-- How a call ends: with a result, with an error, in undefined behaviour, or in a walk that takes more
-- steps than its fuel.
pub data Called (A : Type 0) : Type 0 where
  result : A → Server → Called A
  failed : ℤ → Server → Called A
  undefined : Called A
  endless : Called A

-- A call that returns a number: negative for an error.
unfoldable pub returned : ℤ → Server → Called ℕ
returned (pos n) s = result n s
returned (negsuc n) s = failed (negsuc n) s

-- The state a call ends in.
unfoldable pub after : {A : Type 0} → Called A → Option Server
after (result a s) = some s
after (failed e s) = some s
after undefined = none
after endless = none

-- What a call that succeeds gives.
unfoldable pub answer : {A : Type 0} → Called A → Option A
answer (result a s) = some a
answer (failed e s) = none
answer undefined = none
answer endless = none

-- What `vfs_namev` gives, and `vop_open` after it: the vnode and the value of `eaccess`.
pub data Named : Type 0 where
  named : Ptr → ℤ → Named
  no_vnode : ℤ → Named

-- The file that `vfs_open` fills in for a vnode.
abbrev pub new_file : ℕ → Vnode → OpenFile
new_file access v = record {
  f_ref = 0;
  f_access = access;
  f_offset = 0;
  inode = v.v_inum;
  dev = v.v_rdev;
}

-- `vfs_open`; its result is the descriptor, and `*access` once it is the type of the vnode.
unfoldable pub vfs_open : ℕ → Ptr → ℕ → Named → Server → Called (ℕ × ℕ)
unfolding syscall_fd_alloc
vfs_open undef newfd access (no_vnode e) s = failed e s
vfs_open undef newfd access (named p (negsuc e)) s = failed (negsuc e) s
vfs_open undef newfd access (named p (pos e)) s =
    let v = s.vnodes.vnode p in
    elim (syscall_fd_alloc undef newfd (negsuc 0) (new_file access v) s) [
      | undefined ↦ Called.undefined
      | allocated desc s₁ ↦ result (fdesc_create e desc, v.v_type) s₁
    ]

-- -EINVAL and -EPERM.
abbrev pub einval_code : ℤ
einval_code = negsuc 0x1c

abbrev pub eperm_code : ℤ
eperm_code = negsuc 0x40

-- `vfs_close`: `find_vnode` is given the inode and then the device.
unfoldable pub vfs_close : ℕ → ℕ → Server → Called ℕ
unfolding syscall_fd_free
vfs_close fuel fdesc s =
    let desc = fdesc % 2 ^ 16 in
    elim (syscall_fd_free (pos desc) s) [
      | none ↦ undefined
      | some x ↦ elim (find_vnode fuel x.inode x.dev s.vnodes) [
        | FoundVnode.unfinished ↦ endless
        | missing ↦ failed einval_code s
        | found p ↦ elim (vput p s.vnodes) [
          | none ↦ undefined
          | some vs ↦ result desc (record s { vnodes = vs })
        ]
      ]
    ]

-- The two file operations, of a vnode, an offset and what is to be read or written. A write gives its
-- result and the new offset, and is missing where the vnode has no such operation.
module _ (vop_read : Ptr → ℕ → ℕ → ReadResult) (vop_write : Ptr → Option (ℕ → List ℕ → ℤ × ℕ)) where
  -- `vfs_read`; a vnode that is not found gives what `get_openfile` did, the descriptor. Its result is
  -- the number of the bytes and the bytes.
  unfoldable pub vfs_read : ℕ → ℕ → ℕ → Server → Called (ℕ × List ℕ)
  unfolding syscall_fd_free syscall_fd_alloc
  vfs_read fuel fdesc nsize s = elim (get_openfile fdesc s) [
    | none ↦ undefined
    | some x ↦ elim (find_vnode fuel x.dev x.inode s.vnodes) [
      | FoundVnode.unfinished ↦ endless
      | missing ↦ result (fdesc, []) s
      | found p ↦ elim (s.vnodes.vnode p).ops as (λ o. Called (ℕ × List ℕ)) [
        | no_ops ↦ undefined
        | _ ↦ elim (vop_read p x.f_offset nsize) [
          | ReadResult.einval ↦ failed einval_code s
          | ReadResult.undefined ↦ Called.undefined
          | ReadResult.unfinished ↦ endless
          | ReadResult.done n bytes offset ↦
              elim (put_openfile fdesc (record x { f_offset = offset }) s) [
                | undefined ↦ Called.undefined
                | allocated d s₁ ↦ result (n, bytes) s₁
              ]
        ]
      ]
    ]
  ]

  -- `vfs_write`: `find_vnode` is given the inode and then the device.
  unfoldable pub vfs_write : ℕ → ℕ → List ℕ → Server → Called ℕ
  unfolding syscall_fd_free syscall_fd_alloc returned
  vfs_write fuel fdesc bytes s = elim (get_openfile fdesc s) [
    | none ↦ undefined
    | some x ↦
        if not (test_mask x.f_access o_wronly)
        then failed eperm_code s
        else (elim (find_vnode fuel x.inode x.dev s.vnodes) [
          | FoundVnode.unfinished ↦ endless
          | missing ↦ result fdesc s
          | found p ↦
              let end : ℤ × ℕ = elim (vop_write p) [
                | none ↦ (pos fdesc, x.f_offset)
                | some write ↦ write x.f_offset bytes
              ] in
              elim (put_openfile fdesc (record x { f_offset = end.1 }) s) [
                | undefined ↦ Called.undefined
                | allocated d s₁ ↦ returned end.0 s₁
              ]
        ])
  ]
