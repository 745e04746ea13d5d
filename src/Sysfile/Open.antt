-- ===== src/Sysfile/Open.antt =====
-- `sys_open`, `sys_mkdir`, `sys_mknod` and `sys_chdir` of xv6/sysfile.c.
use operation_system.Base.{
  ℕ, ◌/◌, ◌%◌, ◌^◌, Bool, true, false, not, ◌&&◌, ◌||◌, Option, none, some, List, ◌==◌,
  if◌then◌else◌, get_or, set,
}
use operation_system.Fs.Icache.{Kern, inode, Result, ok, ◌>>=◌, ilock, iunlock, iput, iunlockput}
use operation_system.Fs.Icache.Dir.{namex}
use operation_system.File.{fd_inode, File, no_file, filealloc, fileclose}
use operation_system.Sysfile.{Process, fdalloc, close_end}
use operation_system.Sysfile.Names.{create}

-- `omode & O_WRONLY`, `omode & O_RDWR` and `omode & O_CREATE`.
abbrev pub o_wronly : ℕ → Bool
o_wronly omode = omode % 2 == 1

abbrev pub o_rdwr : ℕ → Bool
o_rdwr omode = omode / 2 % 2 == 1

abbrev pub o_create : ℕ → Bool
o_create omode = omode / 2 ^ 9 % 2 == 1

abbrev pub open_old : ℕ → Kern × Option (ℕ × List ℕ) → Result (Kern × Option ℕ)
open_old omode (k, none) = ok (k, none)
open_old omode (k, some (i, _)) = ilock i k >>= λ k1.
    if ((inode k1 i).d.type == 1) && not (omode == 0)
    then (iunlockput i k1 >>= λ k2. ok (k2, none))
    else ok (k1, some i)

-- The locked inode to open.
unfoldable pub open_inode : ℕ → List ℕ → ℕ → Kern → Result (Kern × Option ℕ)
open_inode cwd path omode k =
    if o_create omode then create cwd path 2 0 0 k else namex false cwd path k >>= open_old omode

abbrev pub give_up : ℕ → Process → Result (Process × Option ℕ)
give_up i p = iunlockput i p.kern >>= λ k. ok (record p { kern = k }, none)

abbrev pub opened : ℕ → ℕ → File → File
opened omode i f = record f {
  type = fd_inode i;
  off = 0;
  readable = not (o_wronly omode);
  writable = o_wronly omode || o_rdwr omode;
}

abbrev pub open_fd :
    ℕ → ℕ → ℕ → Process → Option (List (Option ℕ) × ℕ) → Result (Process × Option ℕ)
open_fd omode i f p none = close_end p (fileclose f p.files) >>= λ r. give_up i r.0
open_fd omode i f p (some (ofile, fd)) = iunlock i p.kern >>= λ k. ok (
  record p {
    kern = k;
    ofile = ofile;
    files = set p.files f (opened omode i (get_or p.files f no_file));
  },
  some fd,
)

abbrev pub open_file : ℕ → ℕ → Process → List File × Option ℕ → Result (Process × Option ℕ)
open_file omode i p (files, none) = give_up i (record p { files = files })
open_file omode i p (files, some f) =
    open_fd omode i f (record p { files = files }) (fdalloc f p.ofile)

abbrev pub open_with : ℕ → Process → Kern × Option ℕ → Result (Process × Option ℕ)
open_with omode p (k, none) = ok (record p { kern = k }, none)
open_with omode p (k, some i) = open_file omode i (record p { kern = k }) (filealloc p.files)

-- The descriptor; `none` is -1.
unfoldable pub sys_open : List ℕ → ℕ → Process → Result (Process × Option ℕ)
sys_open path omode p = open_inode p.cwd path omode p.kern >>= open_with omode p

-- The end of `sys_mkdir` and `sys_mknod`: whether the call returned 0.
abbrev pub made : Kern × Option ℕ → Result (Kern × Bool)
made (k, none) = ok (k, false)
made (k, some i) = iunlockput i k >>= λ k1. ok (k1, true)

pub sys_mkdir : List ℕ → Process → Result (Kern × Bool)
sys_mkdir path p = create p.cwd path 1 0 0 p.kern >>= made

-- `create` takes the numbers as `short`.
pub sys_mknod : List ℕ → ℕ → ℕ → Process → Result (Kern × Bool)
sys_mknod path major minor p = create p.cwd path 3 (major % 2 ^ 16) (minor % 2 ^ 16) p.kern >>= made

abbrev pub chdir_to : Process → Kern × Option (ℕ × List ℕ) → Result (Process × Bool)
chdir_to p (k, none) = ok (record p { kern = k }, false)
chdir_to p (k, some (i, _)) = ilock i k >>= λ k1.
    if not ((inode k1 i).d.type == 1)
    then (iunlockput i k1 >>= λ k2. ok (record p { kern = k2 }, false))
    else iunlock i k1 >>= λ k2. iput p.cwd k2 >>= λ k3. ok (record p { kern = k3; cwd = i }, true)

pub sys_chdir : List ℕ → Process → Result (Process × Bool)
sys_chdir path p = namex false p.cwd path p.kern >>= chdir_to p
