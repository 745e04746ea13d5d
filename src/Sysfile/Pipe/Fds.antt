-- ===== src/Sysfile/Pipe/Fds.antt =====
-- What `sys_pipe` of xv6/sysfile.c comes to, and its descriptors, once the two ends are there.
use operation_system.Sysfile.Opens.{IsClean}
use Prim.Native.Nat.{zero}
use operation_system.Base.{
  length-set, true, ◌⊎◌, All, ℕ_eq, inr, inl, false, get_or-set_ne, refl, arith, ◌∙◌, suc, sym, ap,
  get_or-set_self, ◌∷◌, ℕ, ◌<◌, ◌≡◌, ◌≢◌, Option, none, some, List, [], length, get_or, set,
}
use operation_system.Kalloc.{kalloc, Kmem}
use operation_system.Fs.Icache.{Result, ok, panics, waits, ◌>>=◌}
use operation_system.File.{fd_inode, fd_pipe, no_file, File, Closing}
use operation_system.Sysfile.{find_fd, fdalloc, Process, argfd, put_fd}
use operation_system.Sysfile.Descriptors.{ref_of, find_fd-FreeFd, Counts, FreeFd}
use operation_system.Sysfile.Counted.{Counted}
use operation_system.Sysfile.Pipe.{first_fd, with_fds, close_files, Piped, second_fd}
use operation_system.Sysfile.Pipe.Pending.{
  NoInode, Counts-place, close_files-BadEnds, plus, BadEnds,
}

-- The two ends of the pipe at `page`.
pub record IsPipe (page rf wf : ℕ) (files : List File) : Type 0 where
  pub read_type : (get_or files rf no_file).type ≡ fd_pipe page
  pub read_reads : (get_or files rf no_file).readable ≡ true
  pub read_writes : (get_or files rf no_file).writable ≡ false
  pub write_type : (get_or files wf no_file).type ≡ fd_pipe page
  pub write_reads : (get_or files wf no_file).readable ≡ false
  pub write_writes : (get_or files wf no_file).writable ≡ true

-- Two descriptors `m` and `n` that were free are now the read end and the write end of the pipe that is in
-- the page that `kalloc` gives.
pub record TwoFiles (km : Kmem) (m n : ℕ) (p p' : Process) : Type 0 where
  pub m_free : argfd m p ≡ none
  pub n_free : argfd n p ≡ none
  pub apart : m ≢ n
  pub read_end : ℕ
  pub write_end : ℕ
  pub reads : argfd m p' ≡ some read_end
  pub writes : argfd n p' ≡ some write_end
  pub pipe : IsPipe (kalloc km).0 read_end write_end p'.files
  pub others : (d : ℕ) → d ≢ m → d ≢ n → argfd d p' ≡ argfd d p

-- No two files are free, there is no page, or no two descriptors are free.
abbrev pub PipeFails : Kmem → Process → Type 0
PipeFails km p =
    ((a b : ℕ)
      → a ≢ b
      → a < length p.files
      → b < length p.files
      → ref_of p.files a ≡ 0
      → ref_of p.files b ≢ 0)
    ⊎ ((kalloc km).0 ≡ 0)
    ⊎ ((a b : ℕ)
        → a ≢ b
        → a < length p.ofile
        → b < length p.ofile
        → get_or p.ofile a none ≡ none
        → get_or p.ofile b none ≢ none)

abbrev pub PipeEnds : (ℕ → ℕ) → Kmem → Process → Piped → Type 0
PipeEnds o km p panics = ⊥
PipeEnds o km p waits = ⊥
PipeEnds o km p (ok (p', km', cs, none)) =
    Counted o p' × (p'.ofile ≡ p.ofile) × IsClean p'.files × PipeFails km p
PipeEnds o km p (ok (p', km', cs, some (m, n))) =
    Counted o p' × TwoFiles km m n p p' × IsClean p'.files

bad-PipeEnds :
    (o : ℕ → ℕ) (km : Kmem) (p : Process) (km' : Kmem) (r : Result (Process × List Closing))
    → BadEnds o p.ofile r
    → PipeFails km p
    → PipeEnds o km p (r >>= λ (a : Process × List Closing). ok (a.0, km', a.1, none))
bad-PipeEnds o km p km' panics h f = h
bad-PipeEnds o km p km' waits h f = h
bad-PipeEnds o km p km' (ok r) h f = (h.0, h.1, h.2, f)

pub then-PipeEnds :
    (o : ℕ → ℕ) (km : Kmem) (p : Process) (km' : Kmem) (r : Result (Process × List Closing))
    → BadEnds o p.ofile r
    → PipeFails km p
    → PipeEnds o km p
        ((r >>= λ (a : Process × List Closing). ok (a.0, km', a.1, none)) >>= with_fds)
then-PipeEnds o km p km' panics h f = h
then-PipeEnds o km p km' waits h f = h
then-PipeEnds o km p km' (ok r) h f = (h.0, h.1, h.2, f)

set-none :
    (l : List (Option ℕ)) (k : ℕ) (x : Option ℕ)
    → get_or l k none ≡ none
    → set (set l k x) k none ≡ l
set-none [] k x e = refl
set-none (y ∷ ys) zero x e = ap (λ z. z ∷ ys) (sym e)
set-none (y ∷ ys) (suc k) x e = ap (λ r. y ∷ r) (set-none ys k x e)

module _ (o : ℕ → ℕ) (km : Kmem) (p : Process) (km' : Kmem) (rf wf : ℕ) (files : List File)
    (cs : Counts (plus rf (plus wf o)) files p.ofile) (clean : IsClean files)
    (pipe : IsPipe (kalloc km).0 rf wf files) where
  ends-NoInode : All (NoInode files) (rf ∷ wf ∷ [])
  ends-NoInode = (
    (λ i e. let y : fd_pipe (kalloc km).0 ≡ fd_inode i = sym pipe.read_type ∙ e in cc),
    ((λ i e. let y : fd_pipe (kalloc km).0 ≡ fd_inode i = sym pipe.write_type ∙ e in cc), tt),
  )

  good-TwoFiles :
      (k j : ℕ)
      → k < length p.ofile
      → get_or p.ofile k none ≡ none
      → j < length (set p.ofile k (some rf))
      → get_or (set p.ofile k (some rf)) j none ≡ none
      → PipeEnds o km p (
          ok (
            record p { files = files; ofile = set (set p.ofile k (some rf)) j (some wf) },
            km',
            [],
            some (k, j),
          ))
  unfolding argfd
  good-TwoFiles k j lt free lj fj =
      let own : get_or (set p.ofile k (some rf)) k none ≡ some rf =
        get_or-set_self p.ofile k (some rf) none lt in
      let apart : k ≢ j = λ e.
        let y : ◌≡◌ {A = Option ℕ} none (some rf) =
          sym fj ∙ ap (λ i. get_or (set p.ofile k (some rf)) i none) (sym e) ∙ own in
        cc in
      (
        Counts-place o files (set p.ofile k (some rf)) wf j
            (Counts-place (plus wf o) files p.ofile rf k cs lt free) lj fj,
        record {
          m_free = free;
          n_free = sym (get_or-set_ne p.ofile k j (some rf) none apart) ∙ fj;
          apart = apart;
          read_end = rf;
          write_end = wf;
          reads =
              get_or-set_ne (set p.ofile k (some rf)) j k (some wf) none (λ e. apart (sym e)) ∙ own;
          pipe = pipe;
          writes = get_or-set_self (set p.ofile k (some rf)) j (some wf) none lj;
          others = λ d nk nj.
              get_or-set_ne (set p.ofile k (some rf)) j d (some wf) none (λ e. nj (sym e))
              ∙ get_or-set_ne p.ofile k d (some rf) none (λ e. nk (sym e));
        },
        clean,
      )

  second-PipeEnds :
      (k : ℕ) (r : Option ℕ)
      → k < length p.ofile
      → get_or p.ofile k none ≡ none
      → FreeFd (set p.ofile k (some rf)) 0 r
      → PipeEnds o km p (
          second_fd km'
            (record p { files = files; ofile = set p.ofile k (some rf) })
            rf
            wf
            k
            (put_fd wf (set p.ofile k (some rf)) r))
  second-PipeEnds k none lt free h = rw (set-none p.ofile k (some rf) free) (
      bad-PipeEnds o km p km' (close_files (rf ∷ wf ∷ []) (record p { files = files }))
        (close_files-BadEnds o (rf ∷ wf ∷ []) (record p { files = files }) cs clean ends-NoInode)
        (inr (inr one_free)))
    where
      used : (a : ℕ) → a ≢ k → a < length p.ofile → get_or p.ofile a none ≢ none
      used a ne la e =
          h a (omega (arith, la, length-set p.ofile k (some rf)))
            (get_or-set_ne p.ofile k a (some rf) none (λ q. ne (sym q)) ∙ e)

      one_free :
          (a b : ℕ)
          → a ≢ b
          → a < length p.ofile
          → b < length p.ofile
          → get_or p.ofile a none ≡ none
          → get_or p.ofile b none ≢ none
      one_free a b ne la lb za zb = elim (ℕ_eq a k) [
        | inl e ↦ used b (λ q. ne (e ∙ sym q)) lb zb
        | inr n ↦ used a n la za
      ]
  second-PipeEnds k (some n) lt free (j, e, lj, fj, first) =
      let q : n ≡ j = omega (arith, e) in rw q (good-TwoFiles k j lt free lj fj)

  pub first-PipeEnds :
      (r : Option ℕ)
      → FreeFd p.ofile 0 r
      → PipeEnds o km p (first_fd km' (record p { files = files }) rf wf (put_fd rf p.ofile r))
  unfolding fdalloc
  first-PipeEnds none h =
      bad-PipeEnds o km p km' (close_files (rf ∷ wf ∷ []) (record p { files = files }))
        (close_files-BadEnds o (rf ∷ wf ∷ []) (record p { files = files }) cs clean ends-NoInode)
        (inr (inr (λ a b ne la lb za zb. h b lb zb)))
  first-PipeEnds (some n) (k, e, lt, free, first) =
      let q : n ≡ k = omega (arith, e) in
      rw q (
        second-PipeEnds k (find_fd (set p.ofile k (some rf)) 0) lt free
          (find_fd-FreeFd (set p.ofile k (some rf)) 0))
