-- ===== src/File/Tests.antt =====
-- xv6/file.c at concrete inputs, and its theorems there.
use operation_system.Base.{ℕ, ◌≡◌, refl, Bool, true, false, some, [], ◌∷◌, ltb, ◌==◌, if◌then◌else◌}
use operation_system.Fs.{Dinode}
use operation_system.Fs.Icache.{Kern}
use operation_system.File.{fd_none, fd_inode, File, inode_ref, fileclose}

-- A file of 100 bytes in block 7, which is open; the blocks from 8 on are free.
abbrev file : Dinode
file = record {
  type = 2;
  major = 0;
  minor = 0;
  nlink = 1;
  size = 100;
  addrs = λ i. if i == 0 then 7 else 0;
}

abbrev kern : Kern
kern = record {
  fs = record {
    sb = record { size = 9; ninodes = 8; inodestart = 2; bmapstart = 3 };
    bits = λ b i. ltb i 8;
    inodes = λ b i. file;
    byte = λ b i. 0;
  };
  icache = record { dev = 1; inum = 4; ref = 1; locked = false; valid = true; d = file } ∷ [];
}

abbrev open_file : File
open_file = record { type = fd_inode 0; ref = 1; readable = true; writable = true; off = 100 }

no_driver : ℕ → Bool
no_driver m = false

-- The last reference to a file on an inode is given up.
closed :
    fileclose 0 (open_file ∷ [])
    ≡ some (record open_file { ref = 0; type = fd_none } ∷ [], inode_ref 0)
unfolding fileclose
closed = refl
