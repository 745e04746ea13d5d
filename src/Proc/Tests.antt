-- ===== src/Proc/Tests.antt =====
-- xv6/proc.c at concrete inputs, and its theorems there.
use operation_system.Sysfile.Tests.{proc}
use operation_system.Base.{
  map, ℕ, ◌*◌, ◌≡◌, refl, true, false, Option, none, some, List, [], ◌∷◌, ◌++◌, arith, length,
  get_or,
}
use operation_system.Proc.{
  exit, wakeup1, exit_table, exit_files, ProcState, sleeping, running, runnable, zombie, Chan,
  proc_addr, Proc, Table, nobody, allocproc, kill,
}
use operation_system.Proc.Kill.{kill-zero-poisons}
use operation_system.Proc.Exit.{ExitEnds, exit-ExitEnds}

abbrev process : ℕ → ProcState → Option ℕ → Option Chan → Proc
process pid state parent chan = record {
  state = state;
  pid = pid;
  parent = parent;
  chan = chan;
  killed = false;
  kstack = 4096 * pid;
  pgdir = 4096;
}

-- init, a shell that waits, its child, and a free slot.
abbrev front : List Proc
front =
    process 1 sleeping none (some (proc_addr 0))
    ∷ process 2 sleeping (some 0) (some (proc_addr 1))
    ∷ process 3 running (some 1) none
    ∷ []

abbrev table : Table
table = record { procs = front ++ (nobody ∷ []); nextpid = 4; initproc = 0 }

kill-zero-poisons_example :
    let killed = kill 0 table.procs in
    let made = allocproc (record table { procs = killed.0 }) 8192 in
    (killed.1 ≡ true)
    × (made.1 ≡ some (length front))
    × ((get_or made.0.procs (length front) nobody).killed ≡ true)
kill-zero-poisons_example =
    kill-zero-poisons table front [] nobody 8192 refl
      ((refl, omega arith), ((refl, omega arith), ((refl, omega arith), tt))) refl refl
      (omega arith)

-- The child of the shell has a child that is a zombie.
abbrev family : Table
family = record {
  procs = front ++ (process 4 zombie (some 2) none ∷ []);
  nextpid = 5;
  initproc = 0;
}

exit-ExitEnds_example : ExitEnds family 2 (exit_files proc) (exit family 2 proc)
exit-ExitEnds_example = exit-ExitEnds family 2 proc (omega arith) (omega arith)

-- Init is woken for it, and the shell for its child.
family_states :
    map (λ (p : Proc). p.state) (exit_table family 2).procs
    ≡ runnable ∷ runnable ∷ zombie ∷ zombie ∷ []
unfolding exit_table wakeup1
family_states = refl

family_parents :
    map (λ (p : Proc). p.parent) (exit_table family 2).procs ≡ none ∷ some 0 ∷ some 1 ∷ some 0 ∷ []
unfolding exit_table wakeup1
family_parents = refl
