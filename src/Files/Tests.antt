-- ===== src/Files/Tests.antt =====
-- A server with the vnode 10, of the inode 5 of the device 3, in use. The client's descriptor 0 has the
-- file 300; its descriptor 1 is opened, in the file 310, and read twice.
use manrix.Base.{ℕ, ◌+◌, ◌≡◌, refl, Option, none, some, List, [], ◌∷◌, ◌==◌, if◌then◌else◌, arith}
use manrix.Base.Int.{ℤ, pos}
use manrix.Kernel.{Ptr}
use manrix.Bits.{ffc, set_bit}
use manrix.Fd.{alloc_fdesc, ffc_or}
use manrix.Bcache.{hash_fn}
use manrix.Vfs.{no_ops, fs_ops, find_vnode}
use manrix.Ext2.{ReadResult}
use manrix.Files.{
  OpenFile, Server, file_ptr, get_openfile, result, failed, after, answer, named, new_file,
  fdesc_create, vfs_open, vfs_close, vfs_read, vfs_write, einval_code, eperm_code, syscall_fd_alloc,
  syscall_fd_free,
}
use manrix.Files.Offsets.{Ended, vfs_close-vfs_open, vfs_read-repeats}

abbrev no_file : OpenFile
no_file = record { f_ref = 0; f_access = 0; f_offset = 0; inode = 0; dev = 0 }

abbrev server : Server
server = record {
  vnodes = record {
    vnode = λ p. record {
      v_flag = 0;
      v_count = 1;
      vfsp = 0;
      v_inum = 5;
      v_rdev = 3;
      v_type = 0x8000;
      v_next = 0;
      ops = if p == 10 then fs_ops else no_ops;
    };
    vnhash = λ b. if b == hash_fn 5 3 then 10 else 0;
    vnfreelist = [];
    written = [];
  };
  fd = record {
    fd_max = 32;
    fd_hint = 0;
    bitmap = 1;
    low = 300 ∷ 0 ∷ 0 ∷ [];
    page = none;
    released = [];
  };
  file = λ p. no_file;
}

-- A file of bytes that are their own offsets.
abbrev numbers : Ptr → ℕ → ℕ → ReadResult
numbers p offset nsize = ReadResult.done 2 (offset ∷ (offset + 1) ∷ []) (offset + 2)

abbrev refuse : Ptr → Option (ℕ → List ℕ → ℤ × ℕ)
refuse p = none

-- The server once the file is open for reading.
abbrev open_server : Server
open_server = record server {
  fd = record {
    fd_max = 32;
    fd_hint = 0;
    bitmap = 3;
    low = 300 ∷ 310 ∷ 0 ∷ [];
    page = none;
    released = [];
  };
  file = λ q. if 310 == q then new_file 0x400 (server.vnodes.vnode 10) else no_file;
}

opens : vfs_open 0 310 0x400 (named 10 (pos 0)) server ≡ result (1, 0x8000) open_server
unfolding vfs_open syscall_fd_alloc alloc_fdesc ffc_or ffc set_bit
opens = refl

-- The reply to a close is an error, since the vnode is looked up by its device as its inode.
closes : vfs_close 5 1 open_server ≡ failed einval_code open_server
unfolding vfs_close syscall_fd_free hash_fn find_vnode
closes = refl

end_of_close : after (vfs_close 5 1 open_server) ≡ some open_server
unfolding after
end_of_close = rw closes refl

vfs_close-vfs_open_example :
    (svr desc : ℕ) × (pos 0 ≡ pos svr)
    × (1 ≡ fdesc_create svr desc)
    × (get_openfile desc open_server ≡ some (new_file 0x400 (server.vnodes.vnode 10)))
vfs_close-vfs_open_example =
    vfs_close-vfs_open 0 5 0x400 1 0x8000 1 310 10 (pos 0) server open_server open_server opens
      end_of_close

-- The first read stores the offset 2 in the file of descriptor 0.
abbrev read_once : Server
read_once = record open_server {
  file =
      λ q. if 300 == q then record (open_server.file 310) { f_offset = 2 } else open_server.file q;
}

reads : vfs_read numbers refuse 5 1 2 open_server ≡ result (2, 0 ∷ 1 ∷ []) read_once
unfolding vfs_read syscall_fd_alloc syscall_fd_free hash_fn find_vnode
reads = refl

descriptor_1 : file_ptr 1 open_server.fd ≡ some 310
unfolding file_ptr
descriptor_1 = refl

descriptor_0 : ¬ (file_ptr 0 open_server.fd ≡ some 310)
unfolding file_ptr
descriptor_0 = ground arith

vfs_read-repeats_example :
    (answer (vfs_read numbers refuse 5 1 2 read_once) ≡ some (2, 0 ∷ 1 ∷ []))
    × (get_openfile 1 read_once ≡ get_openfile 1 open_server)
    × Ended numbers 5 1 2 310 (2, 0 ∷ 1 ∷ []) open_server read_once
vfs_read-repeats_example =
    vfs_read-repeats numbers refuse 5 1 2 310 (2, 0 ∷ 1 ∷ []) open_server read_once reads
      descriptor_1 descriptor_0

-- A file that was not opened for writing is not written to.
no_write : vfs_write numbers refuse 5 1 (7 ∷ []) open_server ≡ failed eperm_code open_server
unfolding vfs_write syscall_fd_free
no_write = refl
