-- ===== src/Sysfile.antt =====
-- xv6/sysfile.c: the system calls on files, after `argint`, `argptr` and `argstr` have got their
-- arguments. Each that changes the disk stands between `begin_op` and `end_op` of xv6/log.c.
pub mod Descriptors
pub mod Counted
pub mod Names
pub mod Open
pub mod Opens
pub mod Pipe
pub mod Exit
pub mod Tests
use operation_system.Base.{
  ℕ, ◌+◌, ◌-◌, ◌/◌, Bool, true, false, not, Option, none, some, List, [], ◌∷◌, if◌then◌else◌,
  length, get_or, set,
}
use operation_system.Fs.Icache.{Kern, inode, Result, ok, panics, ◌>>=◌, iput}
use operation_system.Fs.Trunc.{Stat}
use operation_system.File.{
  File, no_file, filedup, Closing, nothing, inode_ref, fileclose, FileIo, moved, wrote, cut,
  fileread, after, filewrite, filestat,
}

-- What the calls of a process work on: the kernel's inodes, the table of files, and the process's
-- descriptors and current directory.
pub record Process : Type 0 where
  pub kern : Kern
  pub files : List File
  pub ofile : List (Option ℕ)
  pub cwd : ℕ

-- `argfd`: the file of a descriptor. NOFILE is the length of `ofile`.
pub argfd : ℕ → Process → Option ℕ
argfd fd p = get_or p.ofile fd none

abbrev pub is_none {ℓ} : {A : Type ℓ} → Option A → Bool
is_none none = true
is_none (some x) = false

-- The loop of `fdalloc` from descriptor `i` on.
pub find_fd : List (Option ℕ) → ℕ → Option ℕ
find_fd [] i = none
find_fd (f ∷ fs) i = let rest = find_fd fs (i + 1) in if is_none f then some i else rest

abbrev pub put_fd : ℕ → List (Option ℕ) → Option ℕ → Option (List (Option ℕ) × ℕ)
put_fd f fds none = none
put_fd f fds (some fd) = some (set fds fd (some f), fd)

-- `none` is -1.
pub fdalloc : ℕ → List (Option ℕ) → Option (List (Option ℕ) × ℕ)
fdalloc f fds = put_fd f fds (find_fd fds 0)

-- A call panics, or returns its result, where `none` is -1.
abbrev pub dup_end :
    Process → List (Option ℕ) × ℕ → Option (List File) → Result (Process × Option ℕ)
dup_end p r none = panics
dup_end p r (some files) = ok (record p { files = files; ofile = r.0 }, some r.1)

abbrev pub dup_file : Process → ℕ → Option (List (Option ℕ) × ℕ) → Result (Process × Option ℕ)
dup_file p f none = ok (p, none)
dup_file p f (some r) = dup_end p r (filedup f p.files)

abbrev pub dup_fd : Process → Option ℕ → Result (Process × Option ℕ)
dup_fd p none = ok (p, none)
dup_fd p (some f) = dup_file p f (fdalloc f p.ofile)

pub sys_dup : ℕ → Process → Result (Process × Option ℕ)
sys_dup fd p = dup_fd p (argfd fd p)

-- What `fileclose` leaves to close of an inode is done here, and of a pipe in xv6/pipe.c.
abbrev pub close_end : Process → Option (List File × Closing) → Result (Process × Closing)
close_end p none = panics
close_end p (some (files, inode_ref i)) =
    iput i p.kern >>= λ k. ok (record p { files = files; kern = k }, nothing)
close_end p (some (files, c)) = ok (record p { files = files }, c)

abbrev pub close_fd : ℕ → Process → Option ℕ → Result (Process × Option Closing)
close_fd fd p none = ok (p, none)
close_fd fd p (some f) =
    close_end (record p { ofile = set p.ofile fd none }) (fileclose f p.files) >>= λ r.
    ok (r.0, some r.1)

pub sys_close : ℕ → Process → Result (Process × Option Closing)
sys_close fd p = close_fd fd p (argfd fd p)

-- `sys_read` and `sys_write` return `none` for a descriptor that is not open, and a file's offset moves
-- with what is read or written.
abbrev pub moved_to : Process → ℕ → FileIo → Process × FileIo
moved_to p f (moved k off bytes) = (
  record p { kern = k; files = set p.files f (record (get_or p.files f no_file) { off = off }) },
  moved k off bytes,
)
moved_to p f (wrote k off n) = (
  record p { kern = k; files = set p.files f (record (get_or p.files f no_file) { off = off }) },
  wrote k off n,
)
moved_to p f (cut k off) = (
  record p { kern = k; files = set p.files f (record (get_or p.files f no_file) { off = off }) },
  cut k off,
)
moved_to p f io = (p, io)

abbrev pub read_fd : (ℕ → Bool) → ℕ → Process → Option ℕ → Option (Process × FileIo)
read_fd handled n p none = none
read_fd handled n p (some f) =
    some (moved_to p f (fileread handled (get_or p.files f no_file) n p.kern))

pub sys_read : (ℕ → Bool) → ℕ → ℕ → Process → Option (Process × FileIo)
sys_read handled fd n p = read_fd handled n p (argfd fd p)

abbrev pub write_fd : (ℕ → Bool) → (ℕ → ℕ) → ℕ → Process → Option ℕ → Option (Process × FileIo)
write_fd handled src n p none = none
write_fd handled src n p (some f) =
    some (moved_to p f (filewrite handled (get_or p.files f no_file) src n p.kern))

pub sys_write : (ℕ → Bool) → ℕ → (ℕ → ℕ) → ℕ → Process → Option (Process × FileIo)
sys_write handled fd src n p = write_fd handled src n p (argfd fd p)

abbrev pub stat_fd : Process → Option ℕ → Result (Kern × Option Stat)
stat_fd p none = ok (p.kern, none)
stat_fd p (some f) = filestat (get_or p.files f no_file) p.kern

pub sys_fstat : ℕ → Process → Result (Kern × Option Stat)
sys_fstat fd p = stat_fd p (argfd fd p)
