-- ===== src/File.antt =====
-- xv6/file.c: open files. `ftable.lock` makes each change of the table atomic; a file is named by its
-- index. What a file reads and writes is a pipe or an inode of the cache.
pub mod Write
pub mod Turns
pub mod Tests
use operation_system.Base.{
  ℕ, zero, suc, ◌+◌, ◌-◌, ◌*◌, ◌/◌, min, Bool, true, false, Option, none, some, List, [], ◌∷◌, ltb,
  ◌==◌, if◌then◌else◌, length, get_or, set,
}
use operation_system.Fs.Content.{Io, failed, panicked, device, done, readi, writei}
use operation_system.Fs.Trunc.{Stat, stati}
use operation_system.Fs.Icache.{Kern, inode, Result, ok, panics, waits, ◌>>=◌, ilock, iunlock}

pub data FileType : Type 0 where
  fd_none : FileType
  fd_pipe fd_inode : ℕ → FileType

pub record File : Type 0 where
  pub type : FileType
  pub ref : ℕ
  pub readable : Bool
  pub writable : Bool
  pub off : ℕ

abbrev pub no_file : File
no_file = record { type = fd_none; ref = 0; readable = false; writable = false; off = 0 }

-- The loop of `filealloc`: the first file from `i` on that nobody refers to.
unfoldable pub find_file : List File → ℕ → Option ℕ
find_file [] i = none
find_file (f ∷ fs) i = let rest = find_file fs (i + 1) in if f.ref == 0 then some i else rest

abbrev pub alloc_file : List File → Option ℕ → List File × Option ℕ
alloc_file t none = (t, none)
alloc_file t (some i) = (set t i (record (get_or t i no_file) { ref = 1 }), some i)

unfoldable pub filealloc : List File → List File × Option ℕ
filealloc t = alloc_file t (find_file t 0)

-- `none` is the panic.
unfoldable pub filedup : ℕ → List File → Option (List File)
filedup i t =
    let f = get_or t i no_file in
    if ltb f.ref 1 then none else some (set t i (record f { ref = f.ref + 1 }))

-- What `fileclose` goes on to close: nothing, a pipe's end, or an inode, with `iput` in a transaction.
pub data Closing : Type 0 where
  nothing : Closing
  pipe_end : ℕ → Bool → Closing
  inode_ref : ℕ → Closing

abbrev pub last_close : FileType → Bool → Closing
last_close fd_none w = nothing
last_close (fd_pipe p) w = pipe_end p w
last_close (fd_inode i) w = inode_ref i

-- `none` is the panic.
unfoldable pub fileclose : ℕ → List File → Option (List File × Closing)
fileclose i t =
    let f = get_or t i no_file in
    let n = f.ref - 1 in
    if ltb f.ref 1
    then none
    else if ltb 0 n
    then some (set t i (record f { ref = n }), nothing)
    else some (set t i (record f { ref = 0; type = fd_none }), last_close f.type f.writable)

-- What a call on a file comes to. `to_pipe` goes on in xv6/pipe.c, `to_device` in a driver. `moved` has
-- the new offset and the bytes read, `wrote` the number of bytes written, and `cut` what earlier turns have
-- left of a write that returns -1.
pub data FileIo : Type 0 where
  refused panic wait to_device : FileIo
  to_pipe : ℕ → FileIo
  moved : Kern → ℕ → List ℕ → FileIo
  wrote : Kern → ℕ → ℕ → FileIo
  cut : Kern → ℕ → FileIo

abbrev pub read_ended : ℕ → ℕ → Kern → Io → FileIo
read_ended i off k failed = refused
read_ended i off k panicked = panic
read_ended i off k (device major) = to_device
read_ended i off k (done fs d bytes) =
    elim (iunlock i (record { fs = fs; icache = set k.icache i (record (inode k i) { d = d }) })) [
      | ok k' ↦ moved k' (off + length bytes) bytes
      | panics ↦ panic
      | waits ↦ wait
    ]

abbrev pub read_inode : (ℕ → Bool) → ℕ → ℕ → ℕ → Result Kern → FileIo
read_inode handled i off n panics = panic
read_inode handled i off n waits = wait
read_inode handled i off n (ok k) = read_ended i off k (readi handled k.fs (inode k i).d off n)

abbrev pub read_from : (ℕ → Bool) → FileType → ℕ → ℕ → Kern → FileIo
read_from handled fd_none off n k = panic
read_from handled (fd_pipe p) off n k = to_pipe p
read_from handled (fd_inode i) off n k = read_inode handled i off n (ilock i k)

pub fileread : (ℕ → Bool) → File → ℕ → Kern → FileIo
fileread handled f n k = if f.readable then read_from handled f.type f.off n k else refused

-- `int max = ((MAXOPBLOCKS-1-1-2) / 2) * 512;`
abbrev pub max_write : ℕ
max_write = (10 - 1 - 1 - 2) / 2 * 512

-- One transaction of `filewrite`: `writei` between `ilock` and `iunlock`.
pub data Turn : Type 0 where
  turn_panic turn_wait turn_device : Turn
  turn_failed turn_done : Kern → Turn

abbrev pub turn_unlocked : (Kern → Turn) → Result Kern → Turn
turn_unlocked end (ok k) = end k
turn_unlocked end panics = turn_panic
turn_unlocked end waits = turn_wait

abbrev pub turn_end : ℕ → Kern → Io → Turn
turn_end i k failed = turn_unlocked turn_failed (iunlock i k)
turn_end i k panicked = turn_panic
turn_end i k (device major) = turn_device
turn_end i k (done fs d out) =
    turn_unlocked turn_done
      (iunlock i (record { fs = fs; icache = set k.icache i (record (inode k i) { d = d }) }))

abbrev pub turn_write : (ℕ → Bool) → ℕ → (ℕ → ℕ) → ℕ → ℕ → Result Kern → Turn
turn_write handled i src off n panics = turn_panic
turn_write handled i src off n waits = turn_wait
turn_write handled i src off n (ok k) =
    let ip = inode k i in turn_end i k (writei handled k.fs ip.inum ip.d src off n)

pub turn : (ℕ → Bool) → ℕ → (ℕ → ℕ) → ℕ → ℕ → Kern → Turn
turn handled i src off n k = turn_write handled i src off n (ilock i k)

-- What the loop does after a turn at `off`: it goes on, by `next`, only if the turn has written.
abbrev pub after : ℕ → Turn → (Kern → FileIo) → FileIo
after off (turn_failed k) next = cut k off
after off turn_panic next = panic
after off turn_wait next = wait
after off turn_device next = to_device
after off (turn_done k) next = next k

-- The loop of `filewrite` with `n` bytes left of `src`, of which `i` have been written; at most
-- `rounds` rounds. A write that fails half way has written its first part. `n` is not negative, which
-- `argptr` of xv6/syscall.c sees to.
pub write_turns : (ℕ → Bool) → ℕ → (ℕ → ℕ) → ℕ → ℕ → ℕ → ℕ → Kern → FileIo
write_turns handled ino src off n i zero k = if n == 0 then wrote k off i else panic
write_turns handled ino src off n i (suc rounds) k = elim (n == 0) [
  | true ↦ wrote k off i
  | false ↦ after off (turn handled ino src off (min n max_write) k) (
      write_turns handled ino (λ j. src (j + min n max_write)) (off + min n max_write)
        (n - min n max_write) (i + min n max_write) rounds)
]

abbrev pub write_to : (ℕ → Bool) → FileType → (ℕ → ℕ) → ℕ → ℕ → Kern → FileIo
write_to handled fd_none src off n k = panic
write_to handled (fd_pipe p) src off n k = to_pipe p
write_to handled (fd_inode i) src off n k = write_turns handled i src off n 0 n k

pub filewrite : (ℕ → Bool) → File → (ℕ → ℕ) → ℕ → Kern → FileIo
filewrite handled f src n k = if f.writable then write_to handled f.type src f.off n k else refused

pub filestat : File → Kern → Result (Kern × Option Stat)
filestat f k = elim f.type [
  | fd_inode i ↦ ilock i k >>= λ k1.
      let ip = inode k1 i in iunlock i k1 >>= λ k2. ok (k2, some (stati ip.dev ip.inum ip.d))
  | _ ↦ ok (k, none)
]
