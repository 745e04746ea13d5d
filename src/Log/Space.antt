-- ===== src/Log/Space.antt =====
-- The log never overflows: `begin_op` reserves room for what each file system call may write
-- (xv6/log.c).
pub mod Reserve
use operation_system.Base.{
  remove_at, sum, ℕ, zero, suc, ◌+◌, ◌≤◌, ◌<◌, ◌≡◌, Bool, true, Option, none, some, List, [], ◌∷◌,
  if◌then◌else◌, length, get_elem?, set, All,
}
use operation_system.Log.Disk.{Block, Store}
use operation_system.Log.{
  Log, maxopblocks, logsize, begin_op, end_op, end_op_commit, mem, log_write,
}

-- The calls that are active, with the number of further blocks that each may log. `begin` and
-- `end` stand for `begin_op` and `end_op`, `write` for `log_write`, `commit_done` for what the last
-- `end_op` does after its critical section.
pub record Calls : Type 0 where
  pub log : Log
  pub store : Store
  pub budgets : List ℕ

pub data Event : Type 0 where
  begin : Event
  write : ℕ → ℕ → Block → Event
  end : ℕ → Event
  commit_done : Event

-- `begin_op` that does not sleep.
abbrev pub begun : Calls → Option Log → Calls
begun c none = c
begun c (some l) = record c { log = l; budgets = maxopblocks ∷ c.budgets }

-- A block that is logged already costs nothing.
abbrev pub charge : Calls → ℕ → ℕ → ℕ → List ℕ
charge c i b r = if mem b c.log.lh then c.budgets else set c.budgets i r

abbrev pub written : Calls → List ℕ → Option (Log × Store) → Option Calls
written c budgets none = none
written c budgets (some (l, s)) = some (record { log = l; store = s; budgets = budgets })

-- A call logs a block only while its budget lasts.
abbrev pub write_step : Calls → ℕ → ℕ → Block → Option ℕ → Option Calls
write_step c i b v none = some c
write_step c i b v (some zero) = some c
write_step c i b v (some (suc r)) = written c (charge c i b r) (log_write c.log c.store b v)

abbrev pub ended : Calls → ℕ → Option (Log × Bool) → Option Calls
ended c i none = none
ended c i (some (l, do_commit)) = some (record c { log = l; budgets = remove_at i c.budgets })

abbrev pub end_step : Calls → ℕ → Option ℕ → Option Calls
end_step c i none = some c
end_step c i (some r) = ended c i (end_op c.log)

abbrev pub finish_commit : Calls → Log × Store → Calls
finish_commit c (l, s) = record c { log = l; store = s }

-- `none` is a panic.
pub step : Calls → Event → Option Calls
step c begin = some (begun c (begin_op c.log))
step c (write i b v) = write_step c i b v (get_elem? c.budgets i)
step c (end i) = end_step c i (get_elem? c.budgets i)
step c commit_done =
    if c.log.committing then some (finish_commit c (end_op_commit c.log c.store)) else some c

pub run : Calls → List Event → Option Calls
run c [] = some c
run c (e ∷ es) = elim (step c e) [ none ↦ none | some c' ↦ run c' es ]

pub record Reserved (c : Calls) : Type 0 where
  pub big : logsize < c.log.size
  pub counted : c.log.outstanding ≡ length c.budgets
  pub within : length c.log.lh + sum c.budgets ≤ logsize
  pub bounded : All (λ r. r ≤ maxopblocks) c.budgets
  -- A commit runs when no call is active.
  pub quiet : c.log.committing ≡ true → c.budgets ≡ []
