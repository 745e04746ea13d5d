-- ===== src/Sysfile/Opens/Found.antt =====
-- The descriptor and the file that `sys_open` of xv6/sysfile.c returns.
use operation_system.Base.{
  ◌∙◌, ℕ, ◌<◌, ◌≡◌, refl, sym, ap, inl, inr, Option, none, some, List, arith, ℕ_eq, length, get_or,
  set, set-set, get_or-set_self, get_or-set_ne,
}
use operation_system.Fs.Icache.{Kern, Result, ok, panics, waits, ◌>>=◌, iunlock}
use operation_system.File.{
  nothing, fd_none, File, no_file, find_file, alloc_file, filealloc, last_close,
}
use operation_system.Sysfile.{Process, argfd, find_fd, put_fd, fdalloc}
use operation_system.Sysfile.Descriptors.{
  ref_of, Counts, ref_of-set, FreeFd, find_fd-FreeFd, Counts-open,
}
use operation_system.Sysfile.Counted.{Counted, fileclose-last}
use operation_system.Sysfile.Open.{open_file, open_fd, open_inode, opened, open_with, sys_open}
use operation_system.Sysfile.Opens.{
  FreeFile, find_file-FreeFile, OpenEnds, give_up-OpenEnds, IsClean, IsClean-set, NoRoom,
}

module _ (o : ℕ → ℕ) (omode : ℕ) (p : Process) (cs : Counted o p) (clean : IsClean p.files) (f : ℕ)
    (lf : f < length p.files) (z : ref_of p.files f ≡ 0) where
  -- The file that `filealloc` returns.
  unfoldable new_file : File
  new_file = record (get_or p.files f no_file) { ref = 1 }

  unfoldable taken : List File
  taken = set p.files f new_file

  got_new : get_or taken f no_file ≡ new_file
  unfolding taken
  got_new = get_or-set_self p.files f new_file no_file lf

  got_one : ref_of taken f ≡ 1
  unfolding new_file
  got_one = ap (λ (x : File). x.ref) got_new

  Counts-dropped : (y : File) → y.ref ≡ 0 → Counts o (set taken f y) p.ofile
  unfolding taken
  Counts-dropped y e g =
      let s = set-set p.files f new_file y in
      let r = ref_of-set p.files f g y lf in
      let c = cs g in
      rw s (elim (ℕ_eq f g) [
        | inl same ↦ (let c' = cs f in ground (arith, r, c, c', same, e, z))
        | inr ne ↦ ground (arith, r, c, ne, e, z)
      ])

  IsClean-dropped : (y : File) → (y.ref ≡ 0 → y.type ≡ fd_none) → IsClean (set taken f y)
  unfolding taken
  IsClean-dropped y h =
      let e = set-set p.files f new_file y in rw e (IsClean-set p.files f y clean lf h)

  -- The file was of no type, so that there is nothing to close but itself.
  nothing_to_close :
      last_close (get_or taken f no_file).type (get_or taken f no_file).writable ≡ nothing
  unfolding new_file
  nothing_to_close =
      let t : (get_or taken f no_file).type ≡ fd_none =
        ap (λ (x : File). x.type) got_new ∙ clean f z in
      ap (λ t. last_close t (get_or taken f no_file).writable) t

  full-OpenEnds :
      (i : ℕ) (k : Kern)
      → NoRoom p
      → OpenEnds o
          (ok (k, some i))
          omode
          p
          (open_fd omode i f (record p { kern = k; files = taken }) none)
  full-OpenEnds i k full =
      let one : ref_of taken f ≡ 1 = got_one in
      let file = get_or taken f no_file in
      let y : File = record file { ref = 0; type = fd_none } in
      rw (fileclose-last taken f one, nothing_to_close)
        (give_up-OpenEnds o omode p i (record p { kern = k; files = set taken f y })
          (Counts-dropped y refl) (IsClean-dropped y (λ e. refl)) refl full)

  unfoldable now : ℕ → Kern → ℕ → Process
  now i k n = record p {
    kern = k;
    ofile = set p.ofile n (some f);
    files = set taken f (opened omode i (get_or taken f no_file));
  }

  found-Opens :
      (i : ℕ) (k : Kern) (n : ℕ)
      → n < length p.ofile
      → get_or p.ofile n none ≡ none
      → (k0 : Kern) → iunlock i k0 ≡ ok k
      → OpenEnds o (ok (k0, some i)) omode p (ok (now i k n, some n))
  unfolding argfd now taken
  found-Opens i k n lt free k0 u =
      let y = opened omode i (get_or taken f no_file) in
      let files : set taken f y ≡ set p.files f y = set-set p.files f new_file y in
      let at : get_or (set p.files f y) f no_file ≡ y = get_or-set_self p.files f y no_file lf in
      let gone = got_one in
      (
        rw files (Counts-open o p.files p.ofile cs f n y lf lt free (omega (arith, gone, z))),
        free,
        record {
          file = f;
          ino = i;
          before = k0;
          found = refl;
          unlocked = u;
          fresh = z;
          at = get_or-set_self p.ofile n (some f) none lt;
          type = rw (files, at) refl;
          start = rw (files, at) refl;
          reads = rw (files, at) refl;
          writes = rw (files, at) refl;
          others = λ g ne. rw files (get_or-set_ne p.files f g y no_file (λ e. ne (sym e)));
        },
        (λ m ne. get_or-set_ne p.ofile n m (some f) none (λ e. ne (sym e))),
        IsClean-dropped y (λ e. absurd (omega (arith, gone, e))),
      )

  found-OpenEnds :
      (i : ℕ) (k : Kern) (n : ℕ)
      → n < length p.ofile
      → get_or p.ofile n none ≡ none
      → OpenEnds o (ok (k, some i)) omode p (
          open_fd omode i f
            (record p { kern = k; files = taken })
            (some (set p.ofile n (some f), n)))
  unfolding now
  found-OpenEnds i k n lt free = after_unlock (iunlock i k) refl
    where
      after_unlock :
          (r : Result Kern)
          → iunlock i k ≡ r
          → OpenEnds o (ok (k, some i)) omode p (
              r >>= λ k'. ok (
                record p {
                  kern = k';
                  ofile = set p.ofile n (some f);
                  files = set taken f (opened omode i (get_or taken f no_file));
                },
                some n,
              ))
      after_unlock panics e = inr e
      after_unlock waits e = inr e
      after_unlock (ok k') e = found-Opens i k' n lt free k e

module _ (o : ℕ → ℕ) (omode : ℕ) (p : Process) (cs : Counted o p) (clean : IsClean p.files) where
  fd-OpenEnds :
      (i f : ℕ) (k : Kern) (r : Option ℕ) (lf : f < length p.files) (z : ref_of p.files f ≡ 0)
      → FreeFd p.ofile 0 r
      → OpenEnds o (ok (k, some i)) omode p (
          open_fd omode i f
            (record p { kern = k; files = taken o omode p cs clean f lf z })
            (put_fd f p.ofile r))
  unfolding argfd
  fd-OpenEnds i f k none lf z h = full-OpenEnds o omode p cs clean f lf z i k (inr h)
  fd-OpenEnds i f k (some n) lf z (j, e, lt, free, first) =
      let q : n ≡ j = omega (arith, e) in
      rw q (found-OpenEnds o omode p cs clean f lf z i k j lt free)

  file-OpenEnds :
      (i : ℕ) (k : Kern) (r : Option ℕ)
      → FreeFile p.files 0 r
      → OpenEnds o
          (ok (k, some i))
          omode
          p
          (open_file omode i (record p { kern = k }) (alloc_file p.files r))
  unfolding fdalloc taken new_file
  file-OpenEnds i k none h =
      give_up-OpenEnds o omode p i (record p { kern = k }) cs clean refl (inl h)
  file-OpenEnds i k (some f) (j, e, lf, z) =
      let q : f ≡ j = omega (arith, e) in
      rw q (fd-OpenEnds i j k (find_fd p.ofile 0) lf z (find_fd-FreeFd p.ofile 0))

  with-OpenEnds : (r : Result (Kern × Option ℕ)) → OpenEnds o r omode p (r >>= open_with omode p)
  unfolding filealloc
  with-OpenEnds panics = refl
  with-OpenEnds waits = refl
  with-OpenEnds (ok (k, none)) = (cs, refl, tt, clean)
  with-OpenEnds (ok (k, some i)) =
      file-OpenEnds i k (find_file p.files 0) (find_file-FreeFile p.files 0)

  -- Let each file's reference count be the number of the process's descriptors of it and of the
  -- references from elsewhere, and a file without references be of no type. Then `sys_open` panics or
  -- waits only where the search for the inode, by `create` or `namex`, does, or the unlock of the inode
  -- that it finds. It returns -1, with the descriptors as they were, only if there is nothing to open or
  -- all files or all descriptors are in use. Else it returns a descriptor that was free, of a file that
  -- had no reference, which is now that of the inode found, at its start, readable and writable as the
  -- mode says; all other descriptors and files are as they were. Whenever it returns, the counts and types
  -- are right again.
  pub sys_open-OpenEnds :
      (path : List ℕ)
      → OpenEnds o (open_inode p.cwd path omode p.kern) omode p (sys_open path omode p)
  unfolding sys_open
  sys_open-OpenEnds path = with-OpenEnds (open_inode p.cwd path omode p.kern)
