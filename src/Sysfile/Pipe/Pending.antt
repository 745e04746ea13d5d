-- ===== src/Sysfile/Pipe/Pending.antt =====
-- References that a call of xv6/sysfile.c holds itself, between `filealloc` and a descriptor or a close.
use operation_system.Base.{
  get_or-set_ne, get_or-set_self, ◌∙◌, sym, All-weaken, All, ℕ, ◌+◌, ◌-◌, ◌<◌, ◌≡◌, refl, ap, ◌≢◌,
  inl, inr, Option, none, some, List, [], ◌∷◌, arith, ◌==◌, if◌then◌else◌, ℕ_eq, length, get_or,
  set,
}
use operation_system.Fs.Icache.{Result, ok, panics, waits, ◌>>=◌}
use operation_system.File.{
  last_close, fd_inode, fd_none, File, no_file, Closing, nothing, pipe_end, inode_ref, fileclose,
}
use operation_system.Sysfile.{Process, close_end}
use operation_system.Sysfile.Descriptors.{is_file, ref_of, Counts, refs-set, ref_of-lt, ref_of-set}
use operation_system.Sysfile.Counted.{last_close-inode, Counted, fileclose-last, fileclose-more}
use operation_system.Sysfile.Opens.{IsClean-set, IsClean}
use operation_system.Sysfile.Pipe.{close_files}

-- One reference to `f` more from elsewhere.
abbrev pub plus : ℕ → (ℕ → ℕ) → ℕ → ℕ
plus f o g = o g + (if f == g then 1 else 0)

abbrev pub plus_all : List ℕ → (ℕ → ℕ) → (ℕ → ℕ)
plus_all [] o = o
plus_all (f ∷ fs) o = plus f (plus_all fs o)

abbrev pub NoInode : List File → ℕ → Type 0
NoInode files f = (i : ℕ) → (get_or files f no_file).type ≢ fd_inode i

pub NoInode-set :
    (files : List File) (f : ℕ) (x : File)
    → f < length files
    → ((i : ℕ) → x.type ≢ fd_inode i)
    → (g : ℕ) → NoInode files g
    → NoInode (set files f x) g
NoInode-set files f x lt h g ni i e = elim (ℕ_eq f g) [
  | inl same ↦ h i (
      sym (
        ap (λ (y : File). y.type)
          (ap (λ j. get_or (set files f x) j no_file) (sym same)
            ∙ get_or-set_self files f x no_file lt))
      ∙ e)
  | inr ne ↦ ni i (sym (ap (λ (y : File). y.type) (get_or-set_ne files f g x no_file ne)) ∙ e)
]

module _ (o : ℕ → ℕ) (files : List File) (fds : List (Option ℕ)) where
  pub Counts-alloc :
      (f : ℕ) (x : File)
      → Counts o files fds
      → f < length files
      → x.ref ≡ ref_of files f + 1
      → Counts (plus f o) (set files f x) fds
  Counts-alloc f x cs lf e g =
      let r = ref_of-set files f g x lf in
      let c = cs g in
      elim (ℕ_eq f g) [
        | inl same ↦ let c' = cs f in ground (arith, r, c, c', same, e)
        | inr ne ↦ ground (arith, r, c, ne, e)
      ]

  -- Fields other than the count.
  pub Counts-fields :
      (f : ℕ) (x : File)
      → Counts o files fds
      → f < length files
      → x.ref ≡ ref_of files f
      → Counts o (set files f x) fds
  Counts-fields f x cs lf e g =
      let r = ref_of-set files f g x lf in
      let c = cs g in
      elim (ℕ_eq f g) [
        | inl same ↦ let c' = cs f in ground (arith, r, c, c', same, e)
        | inr ne ↦ ground (arith, r, c, ne, e)
      ]

  pub Counts-place :
      (f n : ℕ)
      → Counts (plus f o) files fds
      → n < length fds
      → get_or fds n none ≡ none
      → Counts o files (set fds n (some f))
  Counts-place f n cs ln free g =
      let s = refs-set g fds n (some f) ln in
      let z : is_file g (get_or fds n none) ≡ 0 = ap (is_file g) free in
      let c = cs g in ground (arith, s, z, c)

  pub pending_held : (f : ℕ) → Counts (plus f o) files fds → ref_of files f ≢ 0
  pending_held f cs q = let c = cs f in ground (arith, c, q)

  pub Counts-release :
      (f : ℕ) (x : File)
      → Counts (plus f o) files fds
      → x.ref ≡ ref_of files f - 1
      → Counts o (set files f x) fds
  Counts-release f x cs e g =
      let r = ref_of-set files f g x (ref_of-lt files f (pending_held f cs)) in
      let c = cs g in
      elim (ℕ_eq f g) [
        | inl same ↦ let c' = cs f in ground (arith, r, c, c', same, e)
        | inr ne ↦ ground (arith, r, c, ne, e)
      ]

  -- A close of a reference that the call holds, to a file that is no inode's.
  pub record Shut (f : ℕ) : Type 0 where
    pub left : List File
    pub closing : Closing
    pub closed : fileclose f files ≡ some (left, closing)
    pub counts : Counts o left fds
    pub clean : IsClean left
    pub no_inode : (i : ℕ) → closing ≢ inode_ref i
    pub others : (g : ℕ) → NoInode files g → NoInode left g

  pub fileclose-Shut :
      (f : ℕ) → Counts (plus f o) files fds → IsClean files → NoInode files f → Shut f
  fileclose-Shut f cs clean ni =
      let file = get_or files f no_file in
      let lf = ref_of-lt files f (pending_held f cs) in
      elim (ℕ_eq file.ref 1) [
        | inl one ↦
            let x : File = record file { ref = 0; type = fd_none } in
            record {
              left = set files f x;
              closing = last_close file.type file.writable;
              closed = fileclose-last files f one;
              counts = Counts-release f x cs (omega (arith, one));
              clean = IsClean-set files f x clean lf (λ e. refl);
              no_inode = λ i e. ni i (last_close-inode file.type file.writable i e);
              others = NoInode-set files f x lf (λ i e. cc);
            }
        | inr more ↦
            let x : File = record file { ref = file.ref - 1 } in
            let held = pending_held f cs in
            record {
              left = set files f x;
              closing = nothing;
              closed = fileclose-more files f held more;
              counts = Counts-release f x cs refl;
              clean = IsClean-set files f x clean lf (λ e. absurd (omega (arith, e, held, more)));
              no_inode = λ i e. cc;
              others = NoInode-set files f x lf ni;
            }
      ]

-- The closes return, with the counts and types right and the descriptors as they were.
abbrev pub BadEnds : (ℕ → ℕ) → List (Option ℕ) → Result (Process × List Closing) → Type 0
BadEnds o fds panics = ⊥
BadEnds o fds waits = ⊥
BadEnds o fds (ok (p, cs)) = Counted o p × (p.ofile ≡ fds) × IsClean p.files

rest-BadEnds :
    (o : ℕ → ℕ) (fds : List (Option ℕ)) (c : Closing) (s : Result (Process × List Closing))
    → BadEnds o fds s
    → BadEnds o fds (s >>= λ (t : Process × List Closing). ok (t.0, c ∷ t.1))
rest-BadEnds o fds c panics h = h
rest-BadEnds o fds c waits h = h
rest-BadEnds o fds c (ok t) h = h

first-BadEnds :
    (o : ℕ → ℕ) (fs : List ℕ) (q : Process) (files : List File) (c : Closing)
    → ((i : ℕ) → c ≢ inode_ref i)
    → BadEnds o q.ofile (close_files fs (record q { files = files }))
    → BadEnds o q.ofile (
        close_end q (some (files, c)) >>= λ (a : Process × Closing).
        close_files fs a.0 >>= λ (t : Process × List Closing). ok (t.0, a.1 ∷ t.1))
first-BadEnds o fs q files nothing ni h =
    rest-BadEnds o q.ofile nothing (close_files fs (record q { files = files })) h
first-BadEnds o fs q files (pipe_end j w) ni h =
    rest-BadEnds o q.ofile (pipe_end j w) (close_files fs (record q { files = files })) h
first-BadEnds o fs q files (inode_ref j) ni h = absurd (ni j refl)

pub close_files-BadEnds :
    (o : ℕ → ℕ) (fs : List ℕ) (q : Process)
    → Counted (plus_all fs o) q
    → IsClean q.files
    → All (NoInode q.files) fs
    → BadEnds o q.ofile (close_files fs q)
close_files-BadEnds o [] q cs clean ni = (cs, refl, clean)
close_files-BadEnds o (f ∷ fs) q cs clean ni =
    let s = fileclose-Shut (plus_all fs o) q.files q.ofile f cs clean ni.0 in
    rw (s.closed) (
      first-BadEnds o fs q s.left s.closing s.no_inode (
        close_files-BadEnds o fs (record q { files = s.left }) s.counts s.clean
          (All-weaken (NoInode q.files) (NoInode s.left) fs ni.1 s.others)))
