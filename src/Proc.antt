-- ===== src/Proc.antt =====
-- xv6/proc.c: the process table. `ptable.lock` makes each operation atomic between two switches; a
-- process is named by its slot, `&ptable.proc[i]`.
pub mod Exit
pub mod Kill
pub mod Wait
pub mod Tests
use operation_system.Fs.Icache.{Result, panics, ok, ◌>>=◌}
use operation_system.File.{Closing}
use operation_system.Sysfile.{Process}
use operation_system.Sysfile.Exit.{exit_files}
use operation_system.Base.{
  ℕ, ◌+◌, ◌-◌, ◌/◌, Bool, true, false, not, ◌&&◌, ◌||◌, Option, none, some, List, [], ◌∷◌, map,
  ◌==◌, if◌then◌else◌, get_or, set,
}

pub data ProcState : Type 0 where
  unused embryo sleeping runnable running zombie : ProcState

-- What a process sleeps on: the address of a process, or another address.
pub data Chan : Type 0 where
  proc_addr other : ℕ → Chan

-- The fields of `struct proc` that scheduling uses; 0 is `none`.
pub record Proc : Type 0 where
  pub state : ProcState
  pub pid : ℕ
  pub parent : Option ℕ
  pub chan : Option Chan
  pub killed : Bool
  pub kstack : ℕ
  pub pgdir : ℕ

pub record Table : Type 0 where
  pub procs : List Proc
  pub nextpid : ℕ
  pub initproc : ℕ

abbrev pub is_unused : ProcState → Bool
is_unused unused = true
is_unused _ = false

abbrev pub is_zombie : ProcState → Bool
is_zombie zombie = true
is_zombie _ = false

abbrev pub is_sleeping : ProcState → Bool
is_sleeping sleeping = true
is_sleeping _ = false

abbrev pub same_chan : Option Chan → Chan → Bool
same_chan (some (proc_addr i)) (proc_addr j) = i == j
same_chan (some (other i)) (other j) = i == j
same_chan _ _ = false

abbrev pub is_parent : ℕ → Option ℕ → Bool
is_parent i none = false
is_parent i (some q) = i == q

abbrev pub nobody : Proc
nobody = record {
  state = unused;
  pid = 0;
  parent = none;
  chan = none;
  killed = false;
  kstack = 0;
  pgdir = 0;
}

-- The loop of `allocproc`: the first UNUSED slot from `i` on.
pub find_unused : List Proc → ℕ → Option ℕ
find_unused [] i = none
find_unused (p ∷ ps) i = if is_unused p.state then some i else find_unused ps (i + 1)

abbrev pub alloc_at : Table → ℕ → Option ℕ → Table × Option ℕ
alloc_at t kstack none = (t, none)
alloc_at t kstack (some i) =
    let p = get_or t.procs i nobody in
    if kstack == 0
    then (
      record t {
        procs = set t.procs i (record p { state = unused; pid = t.nextpid; kstack = 0 });
        nextpid = t.nextpid + 1;
      },
      none,
    )
    else (
      record t {
        procs = set t.procs i (record p { state = embryo; pid = t.nextpid; kstack = kstack });
        nextpid = t.nextpid + 1;
      },
      some i,
    )

-- `kstack` is what `kalloc` returns.
pub allocproc : Table → ℕ → Table × Option ℕ
unfolding find_unused
allocproc t kstack = alloc_at t kstack (find_unused t.procs 0)

abbrev pub fork_at : ℕ → ℕ → Table × Option ℕ → Table × Option ℕ
fork_at cur pgdir (t, none) = (t, none)
fork_at cur pgdir (t, some i) =
    let p = get_or t.procs i nobody in
    if pgdir == 0
    then (
      record t { procs = set t.procs i (record p { state = unused; kstack = 0; pgdir = 0 }) },
      none,
    )
    else (
      record t {
        procs = set t.procs i (record p { state = runnable; parent = some cur; pgdir = pgdir });
      },
      some p.pid,
    )

-- `fork` of process `cur`; `pgdir` is what `copyuvm` returns. The result is the pid, or -1.
pub fork : Table → ℕ → ℕ → ℕ → Table × Option ℕ
unfolding allocproc
fork t cur kstack pgdir = fork_at cur pgdir (allocproc t kstack)

abbrev pub rouse : Chan → Proc → Proc
rouse c p = if is_sleeping p.state && same_chan p.chan c then record p { state = runnable } else p

pub wakeup1 : Chan → List Proc → List Proc
wakeup1 c ps = map (rouse c) ps

abbrev pub wakeup_parent : Option ℕ → List Proc → List Proc
wakeup_parent none ps = ps
wakeup_parent (some q) ps = wakeup1 (proc_addr q) ps

abbrev pub adopt : ℕ → ℕ → Proc → Proc
adopt cur init p = if is_parent cur p.parent then record p { parent = some init } else p

-- Whether `exit` finds a child of `cur` that is a zombie.
abbrev pub zombie_child : ℕ → List Proc → Bool
zombie_child cur [] = false
zombie_child cur (p ∷ ps) = is_parent cur p.parent && is_zombie p.state || zombie_child cur ps

-- `exit` of process `cur` from the `acquire` on. A wakeup of init for each zombie child is one for any.
pub exit_table : Table → ℕ → Table
unfolding wakeup1
exit_table t cur =
    let ps1 = wakeup_parent ((get_or t.procs cur nobody).parent) t.procs in
    let ps2 = map (adopt cur t.initproc) ps1 in
    let ps3 = if zombie_child cur ps1 then wakeup1 (proc_addr t.initproc) ps2 else ps2 in
    record t { procs = set ps3 cur (record (get_or ps3 cur nobody) { state = zombie }) }

-- `exit` of process `cur`, whose files are those of `p`.
pub exit : Table → ℕ → Process → Result (Table × Process × List Closing)
exit t cur p =
    if cur == t.initproc
    then panics
    else exit_files p >>= λ (r : Process × List Closing). ok (exit_table t cur, r.0, r.1)

-- One scan of the loop of `wait`: a zombie child's slot and pid, no reason to wait, or a sleep.
pub data Waited : Type 0 where
  reaped : ℕ → ℕ → Waited
  failed : Waited
  waits : Waited

pub scan : ℕ → Bool → List Proc → ℕ → Bool → Waited
scan cur killed [] i havekids = if not havekids || killed then failed else waits
scan cur killed (p ∷ ps) i havekids =
    let rest = scan cur killed ps (i + 1) (havekids || is_parent cur p.parent) in
    if is_parent cur p.parent && is_zombie p.state then reaped i p.pid else rest

abbrev pub freed : Proc → Proc
freed p = record p { state = unused; pid = 0; parent = none; killed = false; kstack = 0 }

abbrev pub wait_end : Table → ℕ → Waited → Table × Waited
wait_end t cur (reaped i pid) =
    (record t { procs = set t.procs i (freed (get_or t.procs i nobody)) }, reaped i pid)
wait_end t cur failed = (t, failed)
wait_end t cur waits = (
  record t {
    procs =
        set t.procs cur
          (record (get_or t.procs cur nobody) { state = sleeping; chan = some (proc_addr cur) });
  },
  waits,
)

pub wait : Table → ℕ → Table × Waited
unfolding scan
wait t cur = wait_end t cur (scan cur ((get_or t.procs cur nobody).killed) t.procs 0 false)

-- `kill`: whether a process has the pid.
pub kill : ℕ → List Proc → List Proc × Bool
kill pid [] = ([], false)
kill pid (p ∷ ps) =
    let rest = kill pid ps in
    if p.pid == pid
    then (
      record p { killed = true; state = if is_sleeping p.state then runnable else p.state } ∷ ps,
      true,
    )
    else (p ∷ rest.0, rest.1)

pub yield_cpu : ℕ → List Proc → List Proc
yield_cpu cur ps = set ps cur (record (get_or ps cur nobody) { state = runnable })

-- One round of the loop of `scheduler`, at slot `i`.
pub schedule : ℕ → List Proc → List Proc
schedule i ps =
    let p = get_or ps i nobody in
    elim p.state [ runnable ↦ set ps i (record p { state = running }) | _ ↦ ps ]
