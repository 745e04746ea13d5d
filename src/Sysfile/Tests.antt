-- ===== src/Sysfile/Tests.antt =====
-- xv6/sysfile.c at concrete inputs, and its theorems there.
use operation_system.Base.{
  ℕ, zero, suc, ◌≡◌, refl, true, false, Option, none, some, [], ◌∷◌, arith, ltb, ◌==◌,
  if◌then◌else◌,
}
use operation_system.Fs.{Dinode}
use operation_system.Fs.Path.{skip_slashes, skipelem}
use operation_system.Fs.Icache.Dir.{walk, namex}
use operation_system.Fs.Icache.{
  Kern, no_inode, Result, ok, panics, waits, scan_icache, iget, iget_in, ilock, iunlock,
}
use operation_system.Kalloc.{Kmem}
use operation_system.Sysfile.Pipe.{sys_pipe}
use operation_system.Sysfile.Pipe.Fds.{PipeEnds}
use operation_system.Sysfile.Pipe.Counts.{sys_pipe-PipeEnds}
use operation_system.File.{fd_pipe, fd_inode, no_file, find_file, filealloc, filedup}
use operation_system.Sysfile.{Process, argfd, find_fd, fdalloc, sys_dup, sys_close}
use operation_system.Sysfile.Counted.{Counted, CloseEnds, sys_close-CloseEnds}
use operation_system.Sysfile.Open.{open_inode, sys_open}
use operation_system.Sysfile.Opens.{OpenEnds, IsClean}
use operation_system.Sysfile.Opens.Found.{sys_open-OpenEnds}

-- A root directory with nothing in it.
abbrev root : Dinode
root = record { type = 1; major = 0; minor = 0; nlink = 1; size = 0; addrs = λ i. 0 }

abbrev kern : Kern
kern = record {
  fs = record {
    sb = record { size = 9; ninodes = 8; inodestart = 2; bmapstart = 3 };
    bits = λ b i. ltb i 8;
    inodes = λ b i. root;
    byte = λ b i. 0;
  };
  icache =
      record { dev = 1; inum = 1; ref = 1; locked = false; valid = true; d = root } ∷ no_inode ∷ [];
}

-- The first file has two descriptors, the second one, and one in another process.
abbrev pub proc : Process
proc = record {
  kern = kern;
  files =
      record { type = fd_inode 0; ref = 2; readable = true; writable = false; off = 0 }
      ∷ record { type = fd_pipe 0; ref = 2; readable = true; writable = false; off = 0 }
      ∷ no_file
      ∷ no_file
      ∷ [];
  ofile = some 0 ∷ none ∷ some 1 ∷ some 0 ∷ none ∷ [];
  cwd = 0;
}

abbrev elsewhere : ℕ → ℕ
elsewhere f = if f == 1 then 1 else 0

proc-Counted : Counted elsewhere proc
proc-Counted zero = refl
proc-Counted (suc zero) = refl
proc-Counted (suc (suc zero)) = refl
proc-Counted (suc (suc (suc zero))) = refl
proc-Counted (suc (suc (suc (suc f)))) = grind arith

proc-IsClean : IsClean proc.files
proc-IsClean zero z = absurd (omega (arith, z))
proc-IsClean (suc zero) z = absurd (omega (arith, z))
proc-IsClean (suc (suc zero)) z = refl
proc-IsClean (suc (suc (suc zero))) z = refl
proc-IsClean (suc (suc (suc (suc f)))) z = refl

sys_close-CloseEnds_example : CloseEnds elsewhere 3 proc (sys_close 3 proc)
sys_close-CloseEnds_example = sys_close-CloseEnds elsewhere 3 proc proc-Counted

sys_open-OpenEnds_example :
    OpenEnds elsewhere
      (open_inode proc.cwd (b'/' ∷ []) 0 proc.kern)
      0
      proc
      (sys_open (b'/' ∷ []) 0 proc)
sys_open-OpenEnds_example = sys_open-OpenEnds elsewhere 0 proc proc-Counted proc-IsClean (b'/' ∷ [])

abbrev result : {A : Type 0} → Result (Process × Option A) → Option A
result (ok r) = r.1
result panics = none
result waits = none

dup_runs : result (sys_dup 2 proc) ≡ some 1
unfolding sys_dup argfd fdalloc find_fd filedup
dup_runs = refl

open_runs : result (sys_open (b'/' ∷ []) 0 proc) ≡ some 1
unfolding sys_open open_inode fdalloc find_fd filealloc find_file namex walk iget_in iget
    scan_icache skipelem skip_slashes ilock iunlock
open_runs = refl

-- One free page.
abbrev memory : Kmem
memory = record { use_lock = true; freelist = 0x80400000; word = λ a. 0 }

sys_pipe-PipeEnds_example : PipeEnds elsewhere memory proc (sys_pipe memory proc)
sys_pipe-PipeEnds_example = sys_pipe-PipeEnds elsewhere memory proc proc-Counted proc-IsClean
