-- ===== src/Sleeplock.antt =====
-- xv6/sleeplock.c: locks that a process may hold for long. The spin lock `lk->lk` makes what happens
-- between two sleeps atomic.
pub mod System
pub mod Owner
mod Tests
use operation_system.Base.{ℕ, ◌-◌, ◌/◌, Bool, true, false, [], if◌then◌else◌, All}

pub record Sleeplock : Type 0 where
  pub locked : Bool
  pub pid : ℕ

abbrev pub initsleeplock : Sleeplock
initsleeplock = record { locked = false; pid = 0 }

-- A round of the loop of `acquiresleep` by the process `pid`: whether it is over, or the process sleeps.
abbrev pub acquiresleep : ℕ → Sleeplock → Sleeplock × Bool
acquiresleep pid lk = if lk.locked then (lk, false) else (record { locked = true; pid = pid }, true)

-- With whether all that sleep on the lock are woken.
abbrev pub releasesleep : Sleeplock → Sleeplock × Bool
releasesleep lk = (record { locked = false; pid = 0 }, true)

abbrev pub holdingsleep : Sleeplock → Bool
holdingsleep lk = lk.locked
