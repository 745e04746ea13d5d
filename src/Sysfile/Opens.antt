-- ===== src/Sysfile/Opens.antt =====
-- `sys_open` of xv6/sysfile.c, and the reference counts of the files: what it comes to, and the calls
-- that fail.
pub mod Found
use Prim.Native.Nat.{zero}
use operation_system.Base.{
  sym, get_or-set_ne, set-set, ap, set, get_or-set_self, ℕ, suc, ◌+◌, ◌<◌, ◌≡◌, refl, ◌≢◌, ◌⊎◌, ◌∙◌,
  inl, inr, true, false, not, ◌||◌, Option, none, some, List, [], ◌∷◌, arith, ◌==◌, ℕ_eq, length,
  get_or,
}
use operation_system.Fs.Icache.{
  iunlock, ◌>>=◌, Kern, Result, ok, panics, waits, ◌>>=◌, iput, iunlockput,
}
use operation_system.File.{
  alloc_file, filealloc, last_close, fd_none, fd_inode, File, no_file, find_file, Closing, nothing,
  pipe_end, inode_ref,
}
use operation_system.Sysfile.{find_fd, fdalloc, put_fd, Process, argfd, close_end}
use operation_system.Sysfile.Descriptors.{
  find_fd-FreeFd, FreeFd, ref_of-set, Counts-open, ref_of, Counts,
}
use operation_system.Sysfile.Counted.{fileclose-last, Counted, SameBut}
use operation_system.Sysfile.Open.{
  open_with, open_inode, open_file, sys_open, opened, open_fd, o_wronly, o_rdwr, give_up,
}

-- What the loop of `filealloc` ends with from `i` on.
abbrev pub FreeFile : List File → ℕ → Option ℕ → Type 0
FreeFile fs i none = (k : ℕ) → k < length fs → ref_of fs k ≢ 0
FreeFile fs i (some f) = (k : ℕ) × (f ≡ i + k) × (k < length fs) × (ref_of fs k ≡ 0)

all_held :
    (x : File) (fs : List File)
    → x.ref ≢ 0
    → ((k : ℕ) → k < length fs → ref_of fs k ≢ 0)
    → (k : ℕ) → k < length (x ∷ fs)
    → ref_of (x ∷ fs) k ≢ 0
all_held x fs nz h zero lt = nz
all_held x fs nz h (suc k) lt = h k (omega (arith, lt))

more_files :
    (x : File) (fs : List File) (i : ℕ) (r : Option ℕ)
    → x.ref ≢ 0
    → FreeFile fs (i + 1) r
    → FreeFile (x ∷ fs) i r
more_files x fs i none nz h = all_held x fs nz h
more_files x fs i (some f) nz (k, e, lt, z) = (suc k, omega arith, omega arith, z)

pub find_file-FreeFile : (fs : List File) (i : ℕ) → FreeFile fs i (find_file fs i)
unfolding find_file
find_file-FreeFile [] i = λ k lt e. omega (arith, lt)
find_file-FreeFile (x ∷ fs) i = elim (ℕ_eq x.ref 0) [
  | inl z ↦
      (let b : (x.ref == 0) ≡ true = ground (arith, z) in rw b (0, omega arith, omega arith, z))
  | inr nz ↦
      (let b : (x.ref == 0) ≡ false = ground (arith, nz) in
        rw b (more_files x fs i (find_file fs (i + 1)) nz (find_file-FreeFile fs (i + 1))))
]

-- A file that nobody refers to is of no type.
abbrev pub IsClean : List File → Type 0
IsClean files = (f : ℕ) → ref_of files f ≡ 0 → (get_or files f no_file).type ≡ fd_none

pub IsClean-set :
    (files : List File) (f : ℕ) (x : File)
    → IsClean files
    → f < length files
    → (x.ref ≡ 0 → x.type ≡ fd_none)
    → IsClean (set files f x)
IsClean-set files f x clean lt h g z = elim (ℕ_eq f g) [
  | inl e ↦
      let at : get_or (set files f x) g no_file ≡ x =
        ap (λ i. get_or (set files f x) i no_file) (sym e) ∙ get_or-set_self files f x no_file lt in
      ap (λ (y : File). y.type) at ∙ h (sym (ap (λ (y : File). y.ref) at) ∙ z)
  | inr ne ↦
      let at = get_or-set_ne files f g x no_file ne in
      ap (λ (y : File). y.type) at ∙ clean g (sym (ap (λ (y : File). y.ref) at) ∙ z)
]

-- All files of the table, or all descriptors of the process, are in use.
abbrev pub NoRoom : Process → Type 0
NoRoom p =
    ((f : ℕ) → f < length p.files → ref_of p.files f ≢ 0)
    ⊎ ((n : ℕ) → n < length p.ofile → argfd n p ≢ none)

-- What `sys_open` may stop with, `s` being what the search for the inode comes to: the search stops, or the
-- unlock of the inode that it has found does.
abbrev pub OpenStops : Result (Kern × Option ℕ) → Process → Result Kern → Type 0
OpenStops panics p r = panics ≡ r
OpenStops waits p r = waits ≡ r
OpenStops (ok (k, none)) p r = ⊥
OpenStops (ok (k, some i)) p r = (NoRoom p × (iunlockput i k ≡ r)) ⊎ (iunlock i k ≡ r)

-- It returns -1 if there is nothing to open, or no room.
abbrev pub OpenFails : Result (Kern × Option ℕ) → Process → Type 0
OpenFails panics p = ⊥
OpenFails waits p = ⊥
OpenFails (ok (k, none)) p = Unit
OpenFails (ok (k, some i)) p = NoRoom p

-- The new file of descriptor `n`.
pub record Opens (s : Result (Kern × Option ℕ)) (omode n : ℕ) (p p' : Process) : Type 0 where
  pub file : ℕ
  pub ino : ℕ
  pub before : Kern
  pub found : s ≡ ok (before, some ino)
  pub unlocked : iunlock ino before ≡ ok p'.kern
  pub fresh : ref_of p.files file ≡ 0
  pub at : argfd n p' ≡ some file
  pub type : (get_or p'.files file no_file).type ≡ fd_inode ino
  pub start : (get_or p'.files file no_file).off ≡ 0
  pub reads : (get_or p'.files file no_file).readable ≡ not (o_wronly omode)
  pub writes : (get_or p'.files file no_file).writable ≡ (o_wronly omode || o_rdwr omode)
  pub others : (g : ℕ) → g ≢ file → get_or p'.files g no_file ≡ get_or p.files g no_file

abbrev pub OpenEnds :
    (ℕ → ℕ) → Result (Kern × Option ℕ) → ℕ → Process → Result (Process × Option ℕ) → Type 0
OpenEnds o s omode p panics = OpenStops s p panics
OpenEnds o s omode p waits = OpenStops s p waits
OpenEnds o s omode p (ok (p', none)) =
    Counted o p' × (p'.ofile ≡ p.ofile) × OpenFails s p × IsClean p'.files
OpenEnds o s omode p (ok (p', some n)) =
    Counted o p' × (argfd n p ≡ none) × Opens s omode n p p' × SameBut n p p' × IsClean p'.files

-- A call without room, which has the counts as they were.
pub give_up-OpenEnds :
    (o : ℕ → ℕ) (omode : ℕ) (p : Process) (i : ℕ) (q : Process)
    → Counted o q
    → IsClean q.files
    → q.ofile ≡ p.ofile
    → NoRoom p
    → OpenEnds o (ok (q.kern, some i)) omode p (give_up i q)
give_up-OpenEnds o omode p i q counts clean same full = after_put (iunlockput i q.kern) refl
  where
    after_put :
        (r : Result Kern)
        → iunlockput i q.kern ≡ r
        → OpenEnds o (ok (q.kern, some i)) omode p (r >>= λ k. ok (record q { kern = k }, none))
    after_put panics e = inl (full, e)
    after_put waits e = inl (full, e)
    after_put (ok k) e = (counts, same, full, clean)
