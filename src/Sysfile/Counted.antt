-- ===== src/Sysfile/Counted.antt =====
-- `sys_dup` and `sys_close` of xv6/sysfile.c, and the reference counts of the files.
use operation_system.Base.{
  ℕ_eq, Bool, List, ℕ, ◌+◌, ◌-◌, ◌<◌, ◌≡◌, refl, sym, ◌∙◌, ◌≢◌, ◌⊎◌, inl, inr, Option, none, some,
  arith, length, get_or, set, get_or-set_self, get_or-set_ne,
}
use operation_system.Fs.Icache.{iput, ◌>>=◌, Kern, Result, ok, panics, waits}
use operation_system.File.{
  pipe_end, fd_pipe, fd_none, last_close, inode_ref, File, fileclose, FileType, fd_inode, no_file,
  filedup, Closing, nothing,
}
use operation_system.Sysfile.{
  sys_close, close_fd, close_end, Process, argfd, find_fd, put_fd, fdalloc, dup_end, dup_file,
  dup_fd, sys_dup,
}
use operation_system.Sysfile.Descriptors.{
  get_or-some-lt, Counts-close, ref_of, Counts, ref_of-lt, FreeFd, find_fd-FreeFd, Counts-open,
  held_file,
}

abbrev pub Counted : (ℕ → ℕ) → Process → Type 0
Counted o p = Counts o p.files p.ofile

-- `p'` differs from `p` in the descriptor `n` at most.
abbrev pub SameBut : ℕ → Process → Process → Type 0
SameBut n p p' = (m : ℕ) → m ≢ n → argfd m p' ≡ argfd m p

abbrev DupEnds : (ℕ → ℕ) → ℕ → Process → Result (Process × Option ℕ) → Type 0
DupEnds o fd p panics = ⊥
DupEnds o fd p waits = ⊥
DupEnds o fd p (ok (p', none)) =
    (p' ≡ p) × ((argfd fd p ≡ none) ⊎ ((n : ℕ) → n < length p.ofile → argfd n p ≢ none))
DupEnds o fd p (ok (p', some n)) =
    Counted o p'
    × (argfd n p ≡ none)
    × (argfd n p' ≡ argfd fd p)
    × (argfd fd p ≢ none)
    × ((m : ℕ) → m < n → argfd m p ≢ none)
    × SameBut n p p'

module _ (o : ℕ → ℕ) (fd : ℕ) (p : Process) (cs : Counted o p) where
  filedup-some :
      (f : ℕ)
      → ref_of p.files f ≢ 0
      → filedup f p.files
        ≡ some (set p.files f (record (get_or p.files f no_file) { ref = ref_of p.files f + 1 }))
  unfolding filedup
  filedup-some f h = ground (arith, h)

  dup_to-DupEnds :
      (f n : ℕ)
      → argfd fd p ≡ some f
      → FreeFd p.ofile 0 (some n)
      → DupEnds o fd p (dup_end p (set p.ofile n (some f), n) (filedup f p.files))
  unfolding argfd
  dup_to-DupEnds f n at (k, e, lt, free, first) =
      let q : n ≡ k = omega (arith, e) in
      let held = held_file o p.files p.ofile cs f fd at in
      rw (filedup-some f held, q)
        (
          Counts-open o p.files p.ofile cs f k
              (record (get_or p.files f no_file) { ref = ref_of p.files f + 1 })
              (ref_of-lt p.files f held) lt free refl,
          free,
          get_or-set_self p.ofile k (some f) none lt ∙ sym at,
          (λ z. let y : ◌≡◌ {A = Option ℕ} none (some f) = sym z ∙ at in cc),
          first,
          (λ m ne. get_or-set_ne p.ofile k m (some f) none (λ y. ne (sym y))),
        )

  dup_file-DupEnds :
      (f : ℕ) (r : Option ℕ)
      → argfd fd p ≡ some f
      → FreeFd p.ofile 0 r
      → DupEnds o fd p (dup_file p f (put_fd f p.ofile r))
  unfolding argfd
  dup_file-DupEnds f none at full = (refl, inr full)
  dup_file-DupEnds f (some n) at h = dup_to-DupEnds f n at h

  dup_fd-DupEnds : (r : Option ℕ) → argfd fd p ≡ r → DupEnds o fd p (dup_fd p r)
  unfolding fdalloc
  dup_fd-DupEnds none at = (refl, inl at)
  dup_fd-DupEnds (some f) at = dup_file-DupEnds f (find_fd p.ofile 0) at (find_fd-FreeFd p.ofile 0)

  -- If each file's reference count is the number of the process's descriptors of it and of the
  -- references from elsewhere, then `sys_dup` does not panic. It returns -1, with nothing changed, only
  -- for a descriptor that is not open or if all descriptors are in use. Else it returns the first
  -- free descriptor, which is then one of the same file; the others stay as they are, and the
  -- counts are right again.
  sys_dup-DupEnds : DupEnds o fd p (sys_dup fd p)
  unfolding sys_dup
  sys_dup-DupEnds = dup_fd-DupEnds (argfd fd p) refl

-- `sys_close` stops only in the `iput` after the last reference of an inode's file.
abbrev pub LastInode : ℕ → Process → Type 0
LastInode fd p =
    (f : ℕ) × (i : ℕ) × (argfd fd p ≡ some f)
    × (ref_of p.files f ≡ 1)
    × ((get_or p.files f no_file).type ≡ fd_inode i)

abbrev pub CloseEnds : (ℕ → ℕ) → ℕ → Process → Result (Process × Option Closing) → Type 0
CloseEnds o fd p panics = LastInode fd p
CloseEnds o fd p waits = LastInode fd p
CloseEnds o fd p (ok (p', none)) = (p' ≡ p) × (argfd fd p ≡ none)
CloseEnds o fd p (ok (p', some c)) =
    Counted o p' × (argfd fd p ≢ none) × (argfd fd p' ≡ none) × SameBut fd p p'

-- A close that has gone as far as the table of files.
abbrev pub Closed :
    (ℕ → ℕ) → List (Option ℕ) → List File → ℕ → Option (List File × Closing) → Type 0
Closed o fds files f none = ⊥
Closed o fds files f (some (files', c)) =
    Counts o files' fds
    × ((i : ℕ)
        → c ≡ inode_ref i
        → (ref_of files f ≡ 1) × ((get_or files f no_file).type ≡ fd_inode i))

pub last_close-inode :
    (t : FileType) (w : Bool) (i : ℕ) → last_close t w ≡ inode_ref i → t ≡ fd_inode i
last_close-inode fd_none w i e = cc
last_close-inode (fd_pipe q) w i e = cc
last_close-inode (fd_inode j) w i e = let y : inode_ref j ≡ inode_ref i = e in cc

pub fileclose-last :
    (files : List File) (f : ℕ)
    → ref_of files f ≡ 1
    → fileclose f files
      ≡ some (
        set files f (record (get_or files f no_file) { ref = 0; type = fd_none }),
        last_close (get_or files f no_file).type (get_or files f no_file).writable,
      )
unfolding fileclose
fileclose-last files f h = ground (arith, h)

pub fileclose-more :
    (files : List File) (f : ℕ)
    → ref_of files f ≢ 0
    → ref_of files f ≢ 1
    → fileclose f files
      ≡ some (set files f (record (get_or files f no_file) { ref = ref_of files f - 1 }), nothing)
unfolding fileclose
fileclose-more files f h h1 = ground (arith, h, h1)

pub fileclose-Closed :
    (o : ℕ → ℕ) (files : List File) (fds : List (Option ℕ)) (cs : Counts o files fds) (f fd : ℕ)
    → get_or fds fd none ≡ some f
    → Closed o (set fds fd none) files f (fileclose f files)
fileclose-Closed o files fds cs f fd at =
    let file = get_or files f no_file in
    elim (ℕ_eq file.ref 1) [
      | inl one ↦ rw (fileclose-last files f one) (
        Counts-close o files fds cs f fd (record file { ref = 0; type = fd_none }) at
            (omega (arith, one)),
        (λ i e. (one, last_close-inode file.type file.writable i e)),
      )
      | inr more ↦ rw (fileclose-more files f (held_file o files fds cs f fd at) more) (
        Counts-close o files fds cs f fd (record file { ref = file.ref - 1 }) at refl,
        (λ i e. let y : nothing ≡ inode_ref i = e in cc),
      )
    ]

module _ (o : ℕ → ℕ) (fd : ℕ) (p : Process) (cs : Counted o p) (f : ℕ)
    (at : argfd fd p ≡ some f) where
  unfoldable shut : List File → Kern → Process
  shut files k = record p { kern = k; files = files; ofile = set p.ofile fd none }

  shut-CloseEnds :
      (files : List File) (k : Kern) (c : Closing)
      → Counts o files (set p.ofile fd none)
      → CloseEnds o fd p (ok (shut files k, some c))
  unfolding argfd shut
  shut-CloseEnds files k c counts = (
    counts,
    (λ z. let y : ◌≡◌ {A = Option ℕ} none (some f) = sym z ∙ at in cc),
    get_or-set_self p.ofile fd none none (get_or-some-lt p.ofile fd at),
    (λ m ne. get_or-set_ne p.ofile fd m none none (λ y. ne (sym y))),
  )

  put-CloseEnds :
      (files : List File)
      → Counts o files (set p.ofile fd none)
      → LastInode fd p
      → (r : Result Kern)
      → CloseEnds o fd p (
          r >>= (λ k. ok (shut files k, nothing)) >>= λ (q : Process × Closing). ok (q.0, some q.1))
  put-CloseEnds files counts stop panics = stop
  put-CloseEnds files counts stop waits = stop
  put-CloseEnds files counts stop (ok k) = shut-CloseEnds files k nothing counts

  close_end-CloseEnds :
      (r : Option (List File × Closing))
      → Closed o (set p.ofile fd none) p.files f r
      → CloseEnds o fd p
          (close_end (record p { ofile = set p.ofile fd none }) r >>= λ q. ok (q.0, some q.1))
  unfolding shut
  close_end-CloseEnds none h = absurd h
  close_end-CloseEnds (some (files, nothing)) h = shut-CloseEnds files p.kern nothing h.0
  close_end-CloseEnds (some (files, pipe_end i w)) h =
      shut-CloseEnds files p.kern (pipe_end i w) h.0
  close_end-CloseEnds (some (files, inode_ref i)) h =
      put-CloseEnds files h.0 (f, i, at, (h.1 i refl).0, (h.1 i refl).1) (iput i p.kern)

module _ (o : ℕ → ℕ) (fd : ℕ) (p : Process) (cs : Counted o p) where
  close_fd-CloseEnds : (r : Option ℕ) → argfd fd p ≡ r → CloseEnds o fd p (close_fd fd p r)
  unfolding argfd
  close_fd-CloseEnds none at = (refl, at)
  close_fd-CloseEnds (some f) at =
      close_end-CloseEnds o fd p cs f at (fileclose f p.files)
        (fileclose-Closed o p.files p.ofile cs f fd at)

  -- If each file's reference count is the number of the process's descriptors of it and of the
  -- references from elsewhere, then `sys_close` returns -1, with nothing changed, only for a
  -- descriptor that is not open. Else it frees that descriptor and no other, and the counts are right
  -- again. It can panic or wait only in the `iput` that follows the last reference to an inode's file.
  pub sys_close-CloseEnds : CloseEnds o fd p (sys_close fd p)
  unfolding sys_close
  sys_close-CloseEnds = close_fd-CloseEnds (argfd fd p) refl
