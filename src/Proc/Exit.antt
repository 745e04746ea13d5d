-- ===== src/Proc/Exit.antt =====
-- `exit` of xv6/proc.c.
pub mod Change
use operation_system.Proc.Exit.Change.{
  Waiting-sleeping, zombie_child-at, at-map, passes-NoChild, asleep_on, change-Changed, wake_one,
  rouse-awake, wake_parent-at, NoChild, SameFields, new_parent, wake_one-Changed, change,
  passes-ParentAwake, All-any, ParentAwake, Awake, Changed, SameOrWoken, at, passes,
}
use operation_system.Fs.Icache.{waits, panics}
use Prim.Native.Nat.{zero}
use operation_system.Base.{
  length-set, inr, ℕ_eq, subst, get_or-set_ne, get_or-set_self, ◌<◌, inl, Bool-cases, length, ap,
  suc, ◌⊎◌, sym, true, if◌then◌else◌, refl, All-get, ◌∙◌, All-map, none, All-set, if_intro, set,
  get_or, ◌≢◌, some, Option, ◌∷◌, ℕ, ◌≡◌, Bool, false, ◌&&◌, List, [], map, arith, ◌==◌, All,
}
use operation_system.Proc.{
  ok, ◌>>=◌, Closing, exit_files, Process, Result, exit_table, runnable, is_zombie, zombie_child,
  zombie, unused, embryo, sleeping, runnable, running, ProcState, nobody, proc_addr, wakeup_parent,
  exit, wakeup1, Table, Chan, Proc, is_sleeping, same_chan, is_parent, rouse, adopt,
}

-- The process `cur` of the table is a zombie. Its children are init's, and nobody else's parent has
-- changed. Nobody sleeps in the `wait` of its parent, nor, where a child of it is a zombie, in that of
-- init. All else is as it was, but that processes that slept in one of these two `wait`s are runnable.
pub record Exited (t : Table) (cur : ℕ) (t' : Table) : Type 0 where
  pub dead : (at t'.procs cur).state ≡ zombie
  pub parents :
      (i : ℕ)
      → (at t'.procs i).parent
        ≡ (if is_parent cur (at t.procs i).parent then some t.initproc else (at t.procs i).parent)
  pub states :
      (i : ℕ)
      → i ≢ cur
      → SameOrWoken (at t.procs cur).parent t.initproc (at t.procs i) (at t'.procs i)
  pub same : (i : ℕ) → SameFields (at t.procs i) (at t'.procs i)
  pub told : ParentAwake (at t.procs cur).parent t'.procs
  pub told_init :
      (j : ℕ)
      → is_parent cur (at t.procs j).parent ≡ true
      → is_zombie (at t.procs j).state ≡ true
      → All (λ p. asleep_on (proc_addr t.initproc) p ≡ false) t'.procs
  pub no_orphans : All (λ p. is_parent cur p.parent ≡ false) t'.procs
  pub length_same : length t'.procs ≡ length t.procs
  pub same_init : t'.initproc ≡ t.initproc
  pub same_pids : t'.nextpid ≡ t.nextpid

set-ParentAwake :
    (parent : Option ℕ) (ps : List Proc) (i : ℕ) (p : Proc)
    → is_sleeping p.state ≡ false
    → ParentAwake parent ps
    → ParentAwake parent (set ps i p)
set-ParentAwake none ps i p s h = tt
set-ParentAwake (some q) ps i p s h = All-set (Awake (proc_addr q)) ps i p h (ground (arith, s))

length-map : (f : Proc → Proc) (ps : List Proc) → length (map f ps) ≡ length ps
length-map f [] = refl
length-map f (p ∷ ps) = ap suc (length-map f ps)

length_woken : (q : Option ℕ) (ps : List Proc) → length (wakeup_parent q ps) ≡ length ps
unfolding wakeup1
length_woken none ps = refl
length_woken (some q) ps = length-map (rouse (proc_addr q)) ps

zombie-awake : (s : ProcState) → is_zombie s ≡ true → is_sleeping s ≡ true → ⊥
zombie-awake unused e h = cc
zombie-awake embryo e h = cc
zombie-awake sleeping e h = cc
zombie-awake runnable e h = cc
zombie-awake running e h = cc
zombie-awake zombie e h = cc

module _ (t : Table) (cur : ℕ) (ne : (cur == t.initproc) ≡ false) (lt : cur < length t.procs) where
  abbrev its_parent : Option ℕ
  its_parent = (at t.procs cur).parent

  abbrev woken : List Proc
  woken = wakeup_parent its_parent t.procs

  abbrev passed : List Proc
  passed = passes cur t.initproc ne its_parent t.procs

  passed-at :
      (i : ℕ)
      → at passed i ≡ change cur t.initproc (zombie_child cur woken) its_parent (at t.procs i)
  unfolding wakeup1
  passed-at i =
      let init = t.initproc in
      let a : at (map (adopt cur init) woken) i
          ≡ adopt cur init (wake_one its_parent (at t.procs i)) =
        at-map (adopt cur init) woken i refl
        ∙ ap (adopt cur init) (wake_parent-at its_parent t.procs i) in
      elim (Bool-cases (zombie_child cur woken)) [
        | inl holds ↦ rw holds (
            at-map (rouse (proc_addr init)) (map (adopt cur init) woken) i refl
            ∙ ap (rouse (proc_addr init)) a)
        | inr fails ↦ rw fails a
      ]

  passed-Changed :
      (i : ℕ)
      → Changed its_parent t.initproc
          (new_parent cur t.initproc (at t.procs i))
          (at t.procs i)
          (at passed i)
  passed-Changed i =
      subst
        (Changed its_parent t.initproc (new_parent cur t.initproc (at t.procs i)) (at t.procs i))
        (sym (passed-at i))
        (change-Changed cur t.initproc (zombie_child cur woken) its_parent (at t.procs i))

  length-passed : length passed ≡ length t.procs
  unfolding wakeup1
  length-passed =
      let init = t.initproc in
      let adopted : length (map (adopt cur init) woken) ≡ length t.procs =
        length-map (adopt cur init) woken ∙ length_woken its_parent t.procs in
      elim (Bool-cases (zombie_child cur woken)) [
        | inl holds ↦
            rw holds (length-map (rouse (proc_addr init)) (map (adopt cur init) woken) ∙ adopted)
        | inr fails ↦ rw fails adopted
      ]

  last : Proc
  last = record (at passed cur) { state = zombie }

  after : List Proc
  after = set passed cur last

  after_self : at after cur ≡ last
  unfolding after
  after_self = get_or-set_self passed cur last nobody (omega (arith, length-passed, lt))

  after_other : (i : ℕ) → i ≢ cur → at after i ≡ at passed i
  unfolding after
  after_other i n = get_or-set_ne passed cur i last nobody (λ e. n (sym e))

  -- A field that the last step leaves.
  after_field :
      {A : Type 0} (f : Proc → A)
      → f last ≡ f (at passed cur)
      → (i : ℕ) → f (at after i) ≡ f (at passed i)
  after_field f e i = elim (ℕ_eq i cur) [
    | inl q ↦ ap (λ j. f (at after j)) q ∙ ap f after_self ∙ e ∙ ap (λ j. f (at passed j)) (sym q)
    | inr n ↦ ap f (after_other i n)
  ]

  told-All : zombie_child cur woken ≡ true → All (Awake (proc_addr t.initproc)) passed
  unfolding wakeup1
  told-All found =
      let c = proc_addr t.initproc in
      rw found (All-any (Awake c) (rouse c) (map (adopt cur t.initproc) woken) (rouse-awake c))

  init-All :
      (j : ℕ)
      → is_parent cur (at t.procs j).parent ≡ true
      → is_zombie (at t.procs j).state ≡ true
      → All (Awake (proc_addr t.initproc)) after
  unfolding after last
  init-All j h z =
      let c = proc_addr t.initproc in
      let w = wake_one-Changed its_parent t.initproc (at t.procs j) in
      let e = wake_parent-at its_parent t.procs j in
      let child : is_parent cur (at woken j).parent ≡ true =
        ap (λ (p : Proc). is_parent cur p.parent) e ∙ ap (is_parent cur) w.parent ∙ h in
      let dead : is_zombie (at woken j).state ≡ true =
        ap (λ (p : Proc). is_zombie p.state) e ∙ elim w.state [
          | inl same ↦ ap is_zombie same ∙ z
          | inr q ↦ absurd (
              zombie-awake (at t.procs j).state z
                (Waiting-sleeping its_parent t.initproc (at t.procs j) q.0))
        ] in
      let found : zombie_child cur woken ≡ true = zombie_child-at cur woken j child dead in
      All-set (Awake c) passed cur last (told-All found) refl

  exit_table-Exited : Exited t cur (exit_table t cur)
  unfolding exit_table last after
  exit_table-Exited = record {
    dead = ap (λ (p : Proc). p.state) after_self;
    parents = λ i. after_field (λ p. p.parent) refl i ∙ (passed-Changed i).parent;
    states = λ i n.
        subst (SameOrWoken its_parent t.initproc (at t.procs i)) (sym (after_other i n))
          (passed-Changed i).state;
    same = λ i.
        let s = (passed-Changed i).same in
        (
          after_field (λ p. p.pid) refl i ∙ s.0,
          after_field (λ p. p.chan) refl i ∙ s.1,
          after_field (λ p. p.killed) refl i ∙ s.2,
          after_field (λ p. p.kstack) refl i ∙ s.3,
          after_field (λ p. p.pgdir) refl i ∙ s.4,
        );
    told =
        set-ParentAwake its_parent passed cur last refl
          (passes-ParentAwake cur t.initproc ne its_parent t.procs);
    told_init = init-All;
    no_orphans =
        All-set (NoChild cur) passed cur last (passes-NoChild cur t.initproc ne its_parent t.procs)
          (All-get (NoChild cur) passed cur nobody
            (passes-NoChild cur t.initproc ne its_parent t.procs) refl);
    length_same = length-set passed cur last ∙ length-passed;
    same_init = refl;
    same_pids = refl;
  }

-- What the whole call comes to, where closing the files comes to `r`.
abbrev pub ExitEnds :
    Table → ℕ → Result (Process × List Closing) → Result (Table × Process × List Closing) → Type 0
ExitEnds t cur r panics = r ≡ panics
ExitEnds t cur r waits = r ≡ waits
ExitEnds t cur r (ok (t', p', cs)) = (r ≡ ok (p', cs)) × Exited t cur t'

-- `exit` of a process of the table other than init panics or waits only where the closes of its files or the
-- `iput` of its directory do. Otherwise it is a zombie afterwards, its children are init's, and nobody else
-- has a new parent; its parent, if it had one, does not sleep in `wait`, nor does init if a child that it
-- gets is a zombie; and all else in the table is as it was, but that processes in one of these two
-- `wait`s may be runnable.
pub exit-ExitEnds :
    (t : Table) (cur : ℕ) (p : Process)
    → cur ≢ t.initproc
    → cur < length t.procs
    → ExitEnds t cur (exit_files p) (exit t cur p)
unfolding exit
exit-ExitEnds t cur p other lt =
    let ne : (cur == t.initproc) ≡ false = ground (arith, other) in rw ne (ends (exit_files p))
  where
    ends :
        (r : Result (Process × List Closing))
        → ExitEnds t cur r (r >>= λ (a : Process × List Closing). ok (exit_table t cur, a.0, a.1))
    ends panics = refl
    ends waits = refl
    ends (ok a) =
        let ne : (cur == t.initproc) ≡ false = ground (arith, other) in
        (refl, exit_table-Exited t cur ne lt)
