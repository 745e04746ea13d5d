-- ===== src/Fs/Content.antt =====
-- The content of a file: `bmap`, `readi`, `writei`, `stati` and `iupdate` of xv6/fs.c. The
-- inode is locked and valid, so that its fields are the cached copy `ip` of the structure on disk.
pub mod Words
pub mod Owned
pub mod Grant
pub mod Map
pub mod Round
pub mod Write
pub mod Read
pub mod Calls
pub mod Trip
pub mod Tests
use operation_system.Base.{
  ℕ, zero, suc, ◌+◌, ◌-◌, ◌*◌, ◌/◌, ◌%◌, ◌^◌, min, Bool, true, false, not, ◌&&◌, ◌||◌, Option, none,
  some, List, [], ◌∷◌, ◌++◌, ltb, leb, ◌==◌, if◌then◌else◌,
}
use operation_system.Fs.{Dinode, Fs, bsize, ndirect, nindirect, ipb, iblock, put2, word, put_word}
use operation_system.Fs.Alloc.{balloc}

-- The file system, the cached inode and a block number; `none` is a panic.
abbrev pub Mapped : Type 0
Mapped = Option (Fs × Dinode × ℕ)

abbrev pub set_addr : Dinode → ℕ → ℕ → Dinode
set_addr ip i b = record ip { addrs = λ j. if i == j then b else ip.addrs j }

abbrev pub got_addr : Dinode → ℕ → Option (Fs × ℕ) → Mapped
got_addr ip i none = none
got_addr ip i (some (fs, b)) = some (fs, set_addr ip i b, b)

-- `if((addr = ip->addrs[i]) == 0) ip->addrs[i] = addr = balloc(ip->dev);`
pub ensure : Fs → Dinode → ℕ → Mapped
ensure fs ip i = if ip.addrs i == 0 then got_addr ip i (balloc fs) else some (fs, ip, ip.addrs i)

abbrev pub got_entry : Dinode → ℕ → ℕ → Option (Fs × ℕ) → Mapped
got_entry ip addr i none = none
got_entry ip addr i (some (fs, b)) =
    some
      (record fs { byte = λ c. if addr == c then put_word (fs.byte c) i b else fs.byte c }, ip, b)

-- Entry `i` of the indirect block `addr`.
pub ensure_entry : Fs → Dinode → ℕ → ℕ → Mapped
ensure_entry fs ip addr i =
    let a = word (fs.byte addr) i in
    if a == 0 then got_entry ip addr i (balloc fs) else some (fs, ip, a)

abbrev pub then_entry : ℕ → Mapped → Mapped
then_entry i none = none
then_entry i (some (fs, ip, addr)) = ensure_entry fs ip addr i

pub bmap : Fs → Dinode → ℕ → Mapped
bmap fs ip bn =
    if ltb bn ndirect
    then ensure fs ip bn
    else if ltb (bn - ndirect) nindirect
    then then_entry (bn - ndirect) (ensure fs ip ndirect)
    else none

-- What a read or a write comes to. `device` is a call of the driver with this major number.
pub data Io : Type 0 where
  failed panicked : Io
  device : ℕ → Io
  done : Fs → Dinode → List ℕ → Io

abbrev pub slice : (ℕ → ℕ) → ℕ → ℕ → List ℕ
slice f i zero = []
slice f i (suc m) = f i ∷ slice f (i + 1) m

-- `m = min(n - tot, BSIZE - off%BSIZE)`, where `n` bytes are left.
abbrev pub chunk : ℕ → ℕ → ℕ
chunk off n = min n (bsize - off % bsize)

-- The loop of `readi` at `off` with `n` bytes left; `k` rounds at most.
pub read_loop : Fs → Dinode → ℕ → ℕ → ℕ → Option (Fs × Dinode × List ℕ)
read_loop fs ip off n zero = if n == 0 then some (fs, ip, []) else none
read_loop fs ip off n (suc k) = elim (n == 0) [
  | true ↦ some (fs, ip, [])
  | false ↦ elim (bmap fs ip (off / bsize)) [
    | none ↦ none
    | some (fs1, ip1, a) ↦ elim (read_loop fs1 ip1 (off + chunk off n) (n - chunk off n) k) [
      | none ↦ none
      | some (fs2, ip2, bytes) ↦
          some (fs2, ip2, slice (fs1.byte a) (off % bsize) (chunk off n) ++ bytes)
    ]
  ]
]

abbrev pub read_end : Option (Fs × Dinode × List ℕ) → Io
read_end none = panicked
read_end (some (fs, ip, bytes)) = done fs ip bytes

-- `has_read` tells which drivers `devsw` has. A negative `major` is one above NDEV here.
pub readi : (ℕ → Bool) → Fs → Dinode → ℕ → ℕ → Io
readi has_read fs ip off n =
    let end = (off + n) % 2 ^ 32 in
    let n' = if ltb ip.size end then ip.size - off else n in
    if ip.type == 3
    then if leb 10 ip.major || not (has_read ip.major) then failed else device ip.major
    else if ltb ip.size off || ltb end off
    then failed
    else read_end (read_loop fs ip off n' n')

abbrev pub put_bytes : (ℕ → ℕ) → ℕ → ℕ → (ℕ → ℕ) → (ℕ → ℕ)
put_bytes f i m src a = if leb i a && ltb a (i + m) then src (a - i) else f a

abbrev pub write_block : Fs → ℕ → ℕ → ℕ → (ℕ → ℕ) → Fs
write_block fs b i m src = record fs {
  byte = λ c. if b == c then put_bytes (fs.byte c) i m src else fs.byte c;
}

-- The loop of `writei`; `src` is the rest of the bytes to write.
pub write_loop : Fs → Dinode → (ℕ → ℕ) → ℕ → ℕ → ℕ → Option (Fs × Dinode)
write_loop fs ip src off n zero = if n == 0 then some (fs, ip) else none
write_loop fs ip src off n (suc k) = elim (n == 0) [
  | true ↦ some (fs, ip)
  | false ↦ elim (bmap fs ip (off / bsize)) [
    | none ↦ none
    | some (fs1, ip1, a) ↦
        write_loop (write_block fs1 a (off % bsize) (chunk off n) src) ip1
          (λ i. src (i + chunk off n)) (off + chunk off n) (n - chunk off n) k
  ]
]

pub iupdate : Fs → ℕ → Dinode → Fs
iupdate fs inum ip = record fs { inodes = put2 fs.inodes (iblock inum fs.sb) (inum % ipb) ip }

-- `end` is `off` after the loop.
abbrev pub write_end : ℕ → ℕ → ℕ → Option (Fs × Dinode) → Io
write_end inum n end none = panicked
write_end inum n end (some (fs, ip)) =
    if ltb 0 n && ltb ip.size end
    then (let ip' = record ip { size = end } in done (iupdate fs inum ip') ip' [])
    else done fs ip []

pub writei : (ℕ → Bool) → Fs → ℕ → Dinode → (ℕ → ℕ) → ℕ → ℕ → Io
writei has_write fs inum ip src off n =
    let end = (off + n) % 2 ^ 32 in
    if ip.type == 3
    then if leb 10 ip.major || not (has_write ip.major) then failed else device ip.major
    else if ltb ip.size off || ltb end off
    then failed
    else if ltb ((ndirect + nindirect) * bsize) end
    then failed
    else write_end inum n end (write_loop fs ip src off n n)
