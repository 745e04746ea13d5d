-- ===== src/Fs/Content/Tests.antt =====
-- The content of a file (xv6/fs.c) at concrete inputs, and its theorems there.
use operation_system.Base.{ℕ, ◌+◌, ◌≡◌, refl, Bool, false, List, [], ◌∷◌, arith, ltb}
use operation_system.Fs.{Dinode, Fs}
use operation_system.Fs.Alloc.{balloc, scan_map, scan_bits}
use operation_system.Fs.Content.{
  ensure, ensure_entry, bmap, Io, done, read_loop, readi, write_loop, iupdate, writei,
}
use operation_system.Fs.Content.Owned.{blk, Owned}
use operation_system.Fs.Content.Map.{MapsOr, bmap-Maps}
use operation_system.Fs.Content.Calls.{WriteOk, writei-Ok, ReadOk, readi-Ok}
use operation_system.Fs.Alloc.Lowest.{Allocates, balloc-Allocates}
use operation_system.Fs.Content.Trip.{readi-writei}

-- An empty file.
abbrev empty : Dinode
empty = record { type = 2; major = 0; minor = 0; nlink = 1; size = 0; addrs = λ i. 0 }

-- A disk whose blocks from 5 on are free.
abbrev fresh_fs : Fs
fresh_fs = record {
  sb = record { size = 9; ninodes = 8; inodestart = 2; bmapstart = 3 };
  bits = λ b i. ltb i 5;
  inodes = λ b i. empty;
  byte = λ b i. 7;
}

no_driver : ℕ → Bool
no_driver m = false

abbrev abc : ℕ → ℕ
abc i = 97 + i

no_blocks : (k : ℕ) → blk fresh_fs empty k ≡ 0
no_blocks k = ground arith

empty-Owned : Owned fresh_fs empty
empty-Owned = record {
  apart = λ k j lk lj nz e. absurd (nz (no_blocks k));
  taken = λ k lk nz. absurd (nz (no_blocks k));
  boot = refl;
  small = omega arith;
}

bmap-Maps_example : MapsOr fresh_fs empty 20 (bmap fresh_fs empty 20)
bmap-Maps_example = bmap-Maps fresh_fs empty 20 empty-Owned (omega arith)

writei-Ok_example : WriteOk fresh_fs 1 empty abc 0 3 (writei no_driver fresh_fs 1 empty abc 0 3)
writei-Ok_example =
    writei-Ok no_driver fresh_fs 1 empty abc 0 3 empty-Owned (omega arith) (omega arith)
      (omega arith) (omega arith)

readi-Ok_example : ReadOk fresh_fs empty 0 3 (readi no_driver fresh_fs empty 0 3)
readi-Ok_example =
    readi-Ok no_driver fresh_fs empty 0 3 empty-Owned (omega arith) (omega arith) (omega arith)
      (omega arith)

abbrev fs_of : Io → Fs
fs_of (done fs ip out) = fs
fs_of _ = fresh_fs

abbrev ip_of : Io → Dinode
ip_of (done fs ip out) = ip
ip_of _ = empty

abbrev bytes_of : Io → List ℕ
bytes_of (done fs ip out) = out
bytes_of _ = []

written : Io
written = writei no_driver fresh_fs 1 empty abc 0 3

read_back : Io
unfolding written
read_back = readi no_driver (fs_of written) (ip_of written) 0 3

written_done : written ≡ done (fs_of written) (ip_of written) (bytes_of written)
unfolding written writei write_loop bmap ensure ensure_entry balloc scan_map scan_bits iupdate
    no_driver
written_done = refl

back_done : read_back ≡ done (fs_of read_back) (ip_of read_back) (bytes_of read_back)
unfolding read_back written readi read_loop writei write_loop bmap ensure ensure_entry balloc
    scan_map scan_bits iupdate no_driver
back_done = refl

back_abc : bytes_of read_back ≡ 97 ∷ 98 ∷ 99 ∷ []
unfolding read_back written readi read_loop writei write_loop bmap ensure ensure_entry balloc
    scan_map scan_bits iupdate no_driver
back_abc = refl

readi-writei_example : bytes_of read_back ≡ 97 ∷ 98 ∷ 99 ∷ []
unfolding written read_back
readi-writei_example =
    readi-writei no_driver fresh_fs 1 empty abc 0 3 (fs_of written) (ip_of written)
      (bytes_of written) (fs_of read_back) (ip_of read_back) (bytes_of read_back) empty-Owned
      (omega arith) (omega arith) (omega arith) (omega arith) written_done back_done

balloc-Allocates_example : Allocates fresh_fs (balloc fresh_fs)
balloc-Allocates_example = balloc-Allocates fresh_fs
