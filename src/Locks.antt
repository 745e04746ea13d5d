-- ===== src/Locks.antt =====
-- xv6/spinlock.c: spin locks, and the nesting of sections with interrupts off.
pub mod Nesting
pub mod Spin
pub mod Tests
use operation_system.Base.{
  ℕ, ◌+◌, ◌-◌, ◌/◌, Bool, true, false, ◌&&◌, Option, none, some, [], ◌==◌, if◌then◌else◌,
}

-- The fields of `struct cpu` that the locks use, and the CPU's interrupt flag.
pub record Cpu : Type 0 where
  pub ncli : ℕ
  pub intena : Bool
  pub flag : Bool

-- `cpu` is the number of the CPU that holds the lock; 0 is `none`.
pub record Spinlock : Type 0 where
  pub locked : Bool
  pub cpu : Option ℕ

pub pushcli : Cpu → Cpu
pushcli c = record {
  ncli = c.ncli + 1;
  intena = if c.ncli == 0 then c.flag else c.intena;
  flag = false;
}

-- `none` is a panic.
pub popcli : Cpu → Option Cpu
popcli c =
    if c.flag
    then none
    else if c.ncli == 0
    then none
    else some (record c {
      ncli = c.ncli - 1;
      flag = if c.ncli - 1 == 0 && c.intena then true else c.flag;
    })

abbrev pub holding : Spinlock → ℕ → Bool
holding lk me = lk.locked && elim lk.cpu [ none ↦ false | some c ↦ c == me ]

-- What `acquire` does up to the moment it has the lock or goes round its loop.
pub data Acquired : Type 0 where
  panics : Acquired
  spins : Cpu → Acquired
  holds : Spinlock → Cpu → Acquired

pub acquire : Spinlock → ℕ → Cpu → Acquired
unfolding pushcli
acquire lk me c =
    let c' = pushcli c in
    if holding lk me
    then panics
    else if lk.locked
    then spins c'
    else holds (record { locked = true; cpu = some me }) c'

-- `none` is a panic.
pub release : Spinlock → ℕ → Cpu → Option (Spinlock × Cpu)
unfolding popcli
release lk me c =
    if holding lk me
    then elim (popcli c) [
      | none ↦ none
      | some c' ↦ some (record { locked = false; cpu = none }, c')
    ]
    else none
