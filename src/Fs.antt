-- ===== src/Fs.antt =====
-- xv6/fs.c and xv6/fs.h: the file system above the log. Its calls run inside a transaction, and see each
-- block as `bread` returns it and `log_write` leaves it; `brelse` has nothing to do here. The blocks
-- of the bitmap, of the inodes and of the files are different blocks of the disk (xv6/mkfs.c), and
-- each kind has its own part of the state.
pub mod Alloc
pub mod Content
pub mod Trunc
pub mod Path
pub mod Icache
pub mod Tests
use operation_system.Base.{ℕ, ◌+◌, ◌-◌, ◌*◌, ◌/◌, ◌%◌, ◌^◌, Bool, ◌&&◌, [], ◌==◌, if◌then◌else◌}

-- The fields of `struct superblock` that fs.c computes with.
pub record Superblock : Type 0 where
  pub size : ℕ
  pub ninodes : ℕ
  pub inodestart : ℕ
  pub bmapstart : ℕ

-- `struct dinode`; `addrs` has the indices 0 to NDIRECT.
pub record Dinode : Type 0 where
  pub type : ℕ
  pub major : ℕ
  pub minor : ℕ
  pub nlink : ℕ
  pub size : ℕ
  pub addrs : ℕ → ℕ

-- `bits b i` is bit `i % 8` of byte `i / 8` of the bitmap block `b`, `inodes b i` the structure
-- number `i` of the inode block `b`, and `byte b i` byte `i` of the data block `b`.
pub record Fs : Type 0 where
  pub sb : Superblock
  pub bits : ℕ → ℕ → Bool
  pub inodes : ℕ → ℕ → Dinode
  pub byte : ℕ → ℕ → ℕ

-- BSIZE, BPB, NDIRECT, NINDIRECT and IPB.
abbrev pub bsize : ℕ
bsize = 512

abbrev pub bpb : ℕ
bpb = 4096

abbrev pub ndirect : ℕ
ndirect = 12

abbrev pub nindirect : ℕ
nindirect = 128

abbrev pub ipb : ℕ
ipb = 8

abbrev pub bblock : ℕ → Superblock → ℕ
bblock b sb = b / bpb + sb.bmapstart

abbrev pub iblock : ℕ → Superblock → ℕ
iblock i sb = i / ipb + sb.inodestart

abbrev pub put2 {ℓ} : {A : Type ℓ} → (ℕ → ℕ → A) → ℕ → ℕ → A → (ℕ → ℕ → A)
put2 f b i v c j = if (b == c) && (i == j) then v else f c j

-- `((uint*)bp->data)[i]`, which the processor stores with the low byte first.
abbrev pub word : (ℕ → ℕ) → ℕ → ℕ
word f i = f (4 * i) + f (4 * i + 1) * 2 ^ 8 + f (4 * i + 2) * 2 ^ 16 + f (4 * i + 3) * 2 ^ 24

abbrev pub put_word : (ℕ → ℕ) → ℕ → ℕ → (ℕ → ℕ)
put_word f i w a =
    if a / 4 == i
    then if a % 4 == 0
      then w % 2 ^ 8
      else if a % 4 == 1
      then w / 2 ^ 8 % 2 ^ 8
      else if a % 4 == 2
      then w / 2 ^ 16 % 2 ^ 8
      else w / 2 ^ 24 % 2 ^ 8
    else f a
