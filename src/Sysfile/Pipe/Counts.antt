-- ===== src/Sysfile/Pipe/Counts.antt =====
-- `sys_pipe` of xv6/sysfile.c, and the reference counts of the files.
use operation_system.Sysfile.Pipe.Fds.{first-PipeEnds, then-PipeEnds, PipeEnds, IsPipe}
use operation_system.Sysfile.Opens.{IsClean-set, IsClean, find_file-FreeFile, FreeFile}
use operation_system.Base.{
  length-set, true, ℕ_eq, inr, inl, false, ◌==◌, Bool-cases, get_or-set_ne, refl, arith, ◌∙◌, sym,
  ap, get_or-set_self, ◌∷◌, ℕ, ◌<◌, ◌≡◌, ◌≢◌, Option, none, some, List, [], length, get_or, set,
}
use operation_system.Kalloc.{kalloc, Kmem}
use operation_system.Fs.Icache.{◌>>=◌}
use operation_system.File.{fd_none, fd_inode, no_file, find_file, alloc_file, filealloc, File}
use operation_system.Sysfile.{find_fd, fdalloc, Process}
use operation_system.Sysfile.Descriptors.{ref_of-lt, ref_of, find_fd-FreeFd, Counts}
use operation_system.Sysfile.Counted.{Counted}
use operation_system.Sysfile.Pipe.{
  pipe_file, with_read_end, with_write_end, pipealloc, sys_pipe, set_ends, with_page, with_fds,
  close_files,
}
use operation_system.Sysfile.Pipe.Pending.{
  NoInode-set, pending_held, NoInode, Counts-alloc, Counts-fields, close_files-BadEnds, plus,
}

module _ (o : ℕ → ℕ) (km : Kmem) (p : Process) where
  -- Both files are taken, and of no type yet.
  module _ (f0 f1 : ℕ) (files : List File) (cs : Counts (plus f0 (plus f1 o)) files p.ofile)
      (clean : IsClean files) (apart : f0 ≢ f1) where
    page : ℕ
    page = (kalloc km).0

    held0 : ref_of files f0 ≢ 0
    held0 e = let c = cs f0 in ground (arith, c, e)

    held1 : ref_of files f1 ≢ 0
    held1 e = let c = cs f1 in ground (arith, c, e)

    l0 : f0 < length files
    l0 = ref_of-lt files f0 held0

    l1 : f1 < length files
    l1 = ref_of-lt files f1 held1

    r0 : File
    r0 = pipe_file page false (get_or files f0 no_file)

    half : List File
    half = set files f0 r0

    half-other : get_or half f1 no_file ≡ get_or files f1 no_file
    unfolding half
    half-other = get_or-set_ne files f0 f1 r0 no_file apart

    l1_half : f1 < length half
    unfolding half
    l1_half = omega (arith, length-set files f0 r0, l1)

    r1 : File
    r1 = pipe_file page true (get_or half f1 no_file)

    held1_half : ref_of half f1 ≢ 0
    held1_half e = held1 (sym (ap (λ (x : File). x.ref) half-other) ∙ e)

    ends : List File
    ends = set half f1 r1

    ends-set : ends ≡ set_ends page f0 f1 files
    unfolding ends half r1 r0
    ends-set = refl

    ends-Counts : Counts (plus f0 (plus f1 o)) ends p.ofile
    unfolding ends half r1 r0
    ends-Counts =
        Counts-fields (plus f0 (plus f1 o)) half p.ofile f1 r1
          (Counts-fields (plus f0 (plus f1 o)) files p.ofile f0 r0 cs l0 refl) l1_half refl

    ends-IsClean : IsClean ends
    unfolding ends half r1 r0
    ends-IsClean =
        IsClean-set half f1 r1 (IsClean-set files f0 r0 clean l0 (λ e. absurd (held0 e))) l1_half
          (λ e. absurd (held1_half e))

    at1 : get_or ends f1 no_file ≡ r1
    unfolding ends
    at1 = get_or-set_self half f1 r1 no_file l1_half

    at0 : get_or ends f0 no_file ≡ r0
    unfolding ends half
    at0 =
        get_or-set_ne half f1 f0 r1 no_file (λ e. apart (sym e))
        ∙ get_or-set_self files f0 r0 no_file l0

    ends-IsPipe : IsPipe page f0 f1 ends
    unfolding r0 r1
    ends-IsPipe = record {
      read_type = ap (λ (x : File). x.type) at0;
      read_reads = ap (λ (x : File). x.readable) at0;
      read_writes = ap (λ (x : File). x.writable) at0;
      write_type = ap (λ (x : File). x.type) at1;
      write_reads = ap (λ (x : File). x.readable) at1;
      write_writes = ap (λ (x : File). x.writable) at1;
    }

    page-PipeEnds :
        NoInode files f0
        → NoInode files f1
        → PipeEnds o km p (with_page (record p { files = files }) f0 f1 (kalloc km) >>= with_fds)
    unfolding fdalloc page
    page-PipeEnds n0 n1 = elim (Bool-cases ((kalloc km).0 == 0)) [
      | inl z ↦ rw z (
          then-PipeEnds o km p (kalloc km).1
            (close_files (f0 ∷ f1 ∷ []) (record p { files = files }))
            (close_files-BadEnds o (f0 ∷ f1 ∷ []) (record p { files = files }) cs clean
              (n0, (n1, tt)))
            (inr (inl (ground (arith, z)))))
      | inr nz ↦
          rw (nz, sym ends-set)
            (first-PipeEnds o km p (kalloc km).1 f0 f1 ends ends-Counts ends-IsClean ends-IsPipe
              (find_fd p.ofile 0) (find_fd-FreeFd p.ofile 0))
    ]

  taken-NoInode :
      (files : List File) (k : ℕ)
      → IsClean files
      → k < length files
      → ref_of files k ≡ 0
      → NoInode (set files k (record (get_or files k no_file) { ref = 1 })) k
  taken-NoInode files k clean lt z i e =
      let x : File = record (get_or files k no_file) { ref = 1 } in
      let at = ap (λ (y : File). y.type) (get_or-set_self files k x no_file lt) in
      let y : fd_none ≡ fd_inode i = sym (clean k z) ∙ sym at ∙ e in cc

  write-PipeEnds :
      (f0 : ℕ) (files : List File) (r : Option ℕ)
      → Counts (plus f0 o) files p.ofile
      → IsClean files
      → NoInode files f0
      → ((a : ℕ) → a ≢ f0 → ref_of p.files a ≡ ref_of files a)
      → (length files ≡ length p.files)
      → FreeFile files 0 r
      → PipeEnds o km p
          (with_write_end km (record p { files = files }) f0 (alloc_file files r) >>= with_fds)
  write-PipeEnds f0 files none cs clean n0 same len h =
      then-PipeEnds o km p km (close_files (f0 ∷ []) (record p { files = files }))
        (close_files-BadEnds o (f0 ∷ []) (record p { files = files }) cs clean (n0, tt))
        (inl one_free)
    where
      used : (a : ℕ) → a ≢ f0 → a < length p.files → ref_of p.files a ≢ 0
      used a ne la z = h a (omega (arith, la, len)) (sym (same a ne) ∙ z)

      one_free :
          (a b : ℕ)
          → a ≢ b
          → a < length p.files
          → b < length p.files
          → ref_of p.files a ≡ 0
          → ref_of p.files b ≢ 0
      one_free a b ne la lb za zb = elim (ℕ_eq a f0) [
        | inl e ↦ used b (λ q. ne (e ∙ sym q)) lb zb
        | inr n ↦ used a n la za
      ]
  write-PipeEnds f0 files (some f1) cs clean n0 same len (k, e, l1, z) =
      let q : f1 ≡ k = omega (arith, e) in
      let x : File = record (get_or files k no_file) { ref = 1 } in
      let c = Counts-alloc (plus f0 o) files p.ofile k x cs l1 (omega (arith, z)) in
      let held = pending_held o files p.ofile f0 cs in
      let apart : f0 ≢ k = λ y. held (ap (ref_of files) y ∙ z) in
      let clean1 = IsClean-set files k x clean l1 (λ y. absurd (omega (arith, y))) in
      let kept =
        NoInode-set files k x l1 (λ i y. (let w : fd_none ≡ fd_inode i = sym (clean k z) ∙ y in cc))
          f0 n0 in
      rw q (
        page-PipeEnds f0 k (set files k x) (λ g. (let h = c g in omega (arith, h))) clean1 apart
          kept (taken-NoInode files k clean l1 z))

  read-PipeEnds :
      (r : Option ℕ)
      → Counted o p
      → IsClean p.files
      → FreeFile p.files 0 r
      → PipeEnds o km p (with_read_end km p (alloc_file p.files r) >>= with_fds)
  unfolding filealloc
  read-PipeEnds none cs clean h = (cs, refl, clean, inl (λ a b ne la lb za zb. h b lb zb))
  read-PipeEnds (some f0) cs clean (k, e, l0, z) =
      let q : f0 ≡ k = omega (arith, e) in
      let x : File = record (get_or p.files k no_file) { ref = 1 } in
      let files = set p.files k x in
      rw q (
        write-PipeEnds k files (find_file files 0)
          (Counts-alloc o p.files p.ofile k x cs l0 (omega (arith, z)))
          (IsClean-set p.files k x clean l0 (λ y. absurd (omega (arith, y))))
          (taken-NoInode p.files k clean l0 z)
          (λ a ne.
            sym (ap (λ (y : File). y.ref) (get_or-set_ne p.files k a x no_file (λ y. ne (sym y)))))
          (length-set p.files k x) (find_file-FreeFile files 0))

  -- Let each file's reference count be the number of the process's descriptors of it and of the
  -- references from elsewhere, and a file without references be of no type. Then `sys_pipe` returns: it
  -- neither panics nor waits. It returns -1, with the descriptors as they were, only if no two files are
  -- free, no page is, or no two descriptors are. Else it returns two descriptors that were free, which are
  -- now the read end and the write end of the pipe in the page that `kalloc` gives; all other descriptors
  -- are as they were. In each case the counts and types are right again, also half way.
  pub sys_pipe-PipeEnds : Counted o p → IsClean p.files → PipeEnds o km p (sys_pipe km p)
  unfolding sys_pipe pipealloc filealloc
  sys_pipe-PipeEnds cs clean =
      read-PipeEnds (find_file p.files 0) cs clean (find_file-FreeFile p.files 0)
