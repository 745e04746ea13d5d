-- ===== src/Fs/Tests.antt =====
-- xv6/fs.c at concrete inputs, and its theorems there.
use operation_system.Base.{
  ℕ, zero, suc, ◌≡◌, refl, sym, ap, ◌∙◌, ◌≢◌, ◌||◌, Option, none, some, List, [], ◌∷◌, arith, ltb,
  ◌==◌, if◌then◌else◌, get_elem?, some_inj,
}
use operation_system.Fs.{Dinode, Fs}
use operation_system.Fs.Content.{iupdate}
use operation_system.Fs.Content.Owned.{blk, Owned}
use operation_system.Fs.Trunc.{emptied, itrunc}
use operation_system.Fs.Trunc.Frees.{Frees, itrunc-Frees}
use operation_system.Fs.Path.{skip_slashes, element, skipelem, names}
use operation_system.Fs.Path.Elements.{split, elements, names-elements}
use operation_system.Fs.Icache.{Inode, no_inode, iget}
use operation_system.Fs.Icache.Unique.{Caches, GetsOr, iget-Gets}

-- A file of one block, number 7, on a disk whose other blocks from 5 on are free.
abbrev file : Dinode
file = record {
  type = 2;
  major = 0;
  minor = 0;
  nlink = 1;
  size = 100;
  addrs = λ i. if i == 0 then 7 else 0;
}

abbrev fs : Fs
fs = record {
  sb = record { size = 9; ninodes = 8; inodestart = 2; bmapstart = 3 };
  bits = λ b i. ltb i 5 || (i == 7);
  inodes = λ b i. file;
  byte = λ b i. 0;
}

file_block : (k : ℕ) → blk fs file k ≢ 0 → k ≡ 0
file_block k nz = ground (arith, nz)

file-Owned : Owned fs file
file-Owned = record {
  apart = λ k j lk lj nz e. file_block k nz ∙ sym (file_block j (λ z. nz (e ∙ z)));
  taken = λ k lk nz. rw (file_block k nz) refl;
  boot = refl;
  small = omega arith;
}

itrunc-Frees_example :
    (fs' : Fs) × (itrunc fs 1 file ≡ some (iupdate fs' 1 (emptied file), emptied file))
    × Frees fs file fs'
itrunc-Frees_example = itrunc-Frees fs file file-Owned 1

-- "//a/bb/"
abbrev path : List ℕ
path = 47 ∷ 47 ∷ 97 ∷ 47 ∷ 98 ∷ 98 ∷ 47 ∷ []

two_names : names 8 path ≡ (97 ∷ []) ∷ (98 ∷ 98 ∷ []) ∷ []
unfolding names skipelem skip_slashes element
two_names = refl

names-elements_example : names 8 path ≡ elements (split path)
names-elements_example = names-elements 8 path (omega arith)

-- A cache whose first entry is in use for inode 4.
abbrev cache : List Inode
cache = record no_inode { dev = 1; inum = 4; ref = 1 } ∷ no_inode ∷ []

only : (i : ℕ) (ip : Inode) → get_elem? cache i ≡ some ip → ip.ref ≢ 0 → i ≡ 0
only zero ip at live = refl
only (suc zero) ip at live =
    absurd (live (let e : no_inode ≡ ip = some_inj at in ap (λ (x : Inode). x.ref) (sym e)))
only (suc (suc i)) ip at live = absurd (let x : ◌≡◌ {A = Option Inode} none (some ip) = at in cc)

first_only : (dev inum i : ℕ) → Caches cache dev inum i → i ≡ 0
first_only dev inum i c = only i c.ip c.at c.live

iget-Gets_example : GetsOr cache 1 5 (iget 1 5 cache)
iget-Gets_example =
    iget-Gets cache 1 5
      (λ dev inum i j ci cj. first_only dev inum i ci ∙ sym (first_only dev inum j cj))
