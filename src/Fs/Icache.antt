-- ===== src/Fs/Icache.antt =====
-- The inode cache of xv6/fs.c. `icache.lock` makes each step atomic; an inode is named by its index in
-- `icache.inode`.
pub mod Dir
pub mod Scan
pub mod Unique
use operation_system.Base.{
  ℕ, zero, suc, ◌+◌, ◌-◌, ◌/◌, ◌%◌, Bool, true, false, not, ◌&&◌, ◌||◌, Option, none, some, List,
  [], ◌∷◌, ltb, ◌==◌, if◌then◌else◌, get_or, set,
}
use operation_system.Fs.{Dinode, Fs, ipb, iblock}
use operation_system.Fs.Content.{iupdate}
use operation_system.Fs.Trunc.{itrunc}

-- `struct inode`; `d` has the fields that are read from the disk.
pub record Inode : Type 0 where
  pub dev : ℕ
  pub inum : ℕ
  pub ref : ℕ
  pub locked : Bool
  pub valid : Bool
  pub d : Dinode

pub record Kern : Type 0 where
  pub fs : Fs
  pub icache : List Inode

abbrev pub no_dinode : Dinode
no_dinode = record { type = 0; major = 0; minor = 0; nlink = 0; size = 0; addrs = λ i. 0 }

abbrev pub no_inode : Inode
no_inode = record { dev = 0; inum = 0; ref = 0; locked = false; valid = false; d = no_dinode }

abbrev pub inode : Kern → ℕ → Inode
inode k i = get_or k.icache i no_inode

abbrev pub put_inode : Kern → ℕ → Inode → Kern
put_inode k i ip = record k { icache = set k.icache i ip }

-- A call panics, waits for an inode that another process has locked, or returns.
pub data Result {ℓ} (A : Type ℓ) : Type ℓ where
  ok : A → Result A
  panics waits : Result A

infixl 5 ◌>>=◌
abbrev pub ◌>>=◌ {ℓ κ} : {A : Type ℓ} {B : Type κ} → Result A → (A → Result B) → Result B
ok a >>= f = f a
panics >>= f = panics
waits >>= f = waits

-- What the loop of `iget` ends with: a cached inode, or the entry to recycle, if there is one.
pub data Slot : Type 0 where
  hit empty : ℕ → Slot
  no_slot : Slot

abbrev pub is_cached : ℕ → ℕ → Inode → Bool
is_cached dev inum ip = ltb 0 ip.ref && (ip.dev == dev) && (ip.inum == inum)

-- `if(empty == 0 && ip->ref == 0) empty = ip;`
abbrev pub remember : Option ℕ → Inode → ℕ → Option ℕ
remember (some e) ip i = some e
remember none ip i = if ip.ref == 0 then some i else none

unfoldable pub scan_icache : ℕ → ℕ → List Inode → ℕ → Option ℕ → Slot
scan_icache dev inum [] i none = no_slot
scan_icache dev inum [] i (some e) = empty e
scan_icache dev inum (ip ∷ ips) i e =
    let rest = scan_icache dev inum ips (i + 1) (remember e ip i) in
    if is_cached dev inum ip then hit i else rest

abbrev pub iget_slot : ℕ → ℕ → List Inode → Slot → Option (List Inode × ℕ)
iget_slot dev inum l (hit i) =
    let ip = get_or l i no_inode in some (set l i (record ip { ref = ip.ref + 1 }), i)
iget_slot dev inum l (empty i) =
    let ip = get_or l i no_inode in
    some (set l i (record ip { dev = dev; inum = inum; ref = 1; valid = false }), i)
iget_slot dev inum l no_slot = none

-- `none` is the panic.
unfoldable pub iget : ℕ → ℕ → List Inode → Option (List Inode × ℕ)
iget dev inum l = iget_slot dev inum l (scan_icache dev inum l 0 none)

unfoldable pub iget_in : ℕ → ℕ → Kern → Result (Kern × ℕ)
iget_in dev inum k = elim (iget dev inum k.icache) [
  | none ↦ panics
  | some (l, i) ↦ ok (record k { icache = l }, i)
]

pub idup : ℕ → Kern → Kern
idup i k = let ip = inode k i in put_inode k i (record ip { ref = ip.ref + 1 })

unfoldable pub ilock : ℕ → Kern → Result Kern
ilock i k =
    let ip = inode k i in
    let dip = k.fs.inodes (iblock ip.inum k.fs.sb) (ip.inum % ipb) in
    if ltb ip.ref 1
    then panics
    else if ip.locked
    then waits
    else if ip.valid
    then ok (put_inode k i (record ip { locked = true }))
    else if dip.type == 0
    then panics
    else ok (put_inode k i (record ip { locked = true; valid = true; d = dip }))

unfoldable pub iunlock : ℕ → Kern → Result Kern
iunlock i k =
    let ip = inode k i in
    if not ip.locked || ltb ip.ref 1
    then panics
    else ok (put_inode k i (record ip { locked = false }))

-- The inode has no links and no other references.
abbrev pub destroyed : ℕ → Kern → Option (Fs × Dinode) → Result Kern
destroyed i k none = panics
destroyed i k (some (fs, d)) =
    let ip = inode k i in
    let d' = record d { type = 0 } in
    ok (record k {
      fs = iupdate fs ip.inum d';
      icache = set k.icache i (record ip { d = d'; valid = false; ref = ip.ref - 1 });
    })

pub iput : ℕ → Kern → Result Kern
iput i k =
    let ip = inode k i in
    if ip.locked
    then waits
    else if ip.valid && (ip.d.nlink == 0) && (ip.ref == 1)
    then destroyed i k (itrunc k.fs ip.inum ip.d)
    else ok (put_inode k i (record ip { ref = ip.ref - 1 }))

pub iunlockput : ℕ → Kern → Result Kern
iunlockput i k = iunlock i k >>= iput i

-- The loop of `ialloc` from `inum` on, with `n` inodes left.
pub find_inum : Fs → ℕ → ℕ → Option ℕ
find_inum fs inum zero = none
find_inum fs inum (suc n) =
    let rest = find_inum fs (inum + 1) n in
    if (fs.inodes (iblock inum fs.sb) (inum % ipb)).type == 0 then some inum else rest

abbrev pub alloc_inum : ℕ → ℕ → Kern → Option ℕ → Result (Kern × ℕ)
alloc_inum dev type k none = panics
alloc_inum dev type k (some inum) =
    iget_in dev inum (record k { fs = iupdate k.fs inum (record no_dinode { type = type }) })

pub ialloc : ℕ → ℕ → Kern → Result (Kern × ℕ)
ialloc dev type k = alloc_inum dev type k (find_inum k.fs 1 (k.fs.sb.ninodes - 1))
