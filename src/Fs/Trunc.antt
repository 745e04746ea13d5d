-- ===== src/Fs/Trunc.antt =====
-- `itrunc` and `stati` of xv6/fs.c.
pub mod Range
pub mod Frees
use operation_system.Base.{
  ℕ, zero, suc, ◌+◌, ◌-◌, ◌/◌, Option, none, some, [], ◌++◌, leb, ◌==◌, if◌then◌else◌, All,
}
use operation_system.Fs.{Dinode, Fs, ndirect, nindirect, word}
use operation_system.Fs.Alloc.{bfree}
use operation_system.Fs.Content.{iupdate}

-- `for(; n > 0; i++, n--) if(a[i]) bfree(ip->dev, a[i]);`
pub free_range : (ℕ → ℕ) → ℕ → ℕ → Fs → Option Fs
free_range a i zero fs = some fs
free_range a i (suc n) fs =
    if a i == 0
    then free_range a (i + 1) n fs
    else elim (bfree (a i) fs) [ none ↦ none | some fs' ↦ free_range a (i + 1) n fs' ]

abbrev pub then_top : ℕ → Option Fs → Option Fs
then_top addr none = none
then_top addr (some fs) = bfree addr fs

-- The indirect block, if there is one: its entries, then the block itself.
abbrev pub then_indirect : Dinode → Option Fs → Option Fs
then_indirect ip none = none
then_indirect ip (some fs) =
    let addr = ip.addrs ndirect in
    if addr == 0 then some fs else then_top addr (free_range (word (fs.byte addr)) 0 nindirect fs)

-- All of `ip->addrs` is 0 in the end: a block that is freed, or was 0 before.
abbrev pub emptied : Dinode → Dinode
emptied ip = record ip { addrs = λ i. if leb i ndirect then 0 else ip.addrs i; size = 0 }

abbrev pub trunc_end : ℕ → Dinode → Option Fs → Option (Fs × Dinode)
trunc_end inum ip none = none
trunc_end inum ip (some fs) = some (iupdate fs inum (emptied ip), emptied ip)

-- `none` is a panic of `bfree`.
pub itrunc : Fs → ℕ → Dinode → Option (Fs × Dinode)
itrunc fs inum ip = trunc_end inum ip (then_indirect ip (free_range ip.addrs 0 ndirect fs))

-- `struct stat`.
pub record Stat : Type 0 where
  pub dev : ℕ
  pub ino : ℕ
  pub type : ℕ
  pub nlink : ℕ
  pub size : ℕ

pub stati : ℕ → ℕ → Dinode → Stat
stati dev inum ip = record {
  dev = dev;
  ino = inum;
  type = ip.type;
  nlink = ip.nlink;
  size = ip.size;
}
