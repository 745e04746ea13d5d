-- ===== src/Locks/Spin.antt =====
-- `acquire` and `release` of xv6/spinlock.c.
use operation_system.Base.{ℕ, ◌≡◌, refl, ◌≢◌, true, false, none, some, arith, ◌==◌}
use operation_system.Locks.{Cpu, Spinlock, pushcli, panics, spins, holds, acquire, release}
use operation_system.Locks.Nesting.{Quiet, Restored, popcli-pushcli}

-- A CPU that finds the lock free, and has interrupts off if it is inside a section, takes it. Then
-- `acquire` on any other CPU spins, on the same CPU it panics, and `release` panics on any other CPU.
-- On the same CPU it frees the lock, and the depth and the interrupt flag are as they were before
-- `acquire`.
pub release-acquire :
    (lk : Spinlock) (me you : ℕ) (c d : Cpu)
    → lk.locked ≡ false
    → you ≢ me
    → Quiet c
    → (held : Spinlock) × (c1 : Cpu) × (c2 : Cpu) × (acquire lk me c ≡ holds held c1)
      × (acquire held you d ≡ spins (pushcli d))
      × (acquire held me c1 ≡ panics)
      × (release held you d ≡ none)
      × (release held me c1 ≡ some (record { locked = false; cpu = none }, c2))
      × Restored c c2
unfolding acquire release
release-acquire lk me you c d free other quiet =
    let (c2, e, r) =
      popcli-pushcli c (pushcli c) quiet
        (record { depth = refl; interrupts = refl; kept = λ h. refl }) in
    let mine : (me == me) ≡ true = ground arith in
    let yours : (me == you) ≡ false = ground (arith, other) in
    (
      record { locked = true; cpu = some me },
      pushcli c,
      c2,
      rw free refl,
      rw yours refl,
      rw mine refl,
      rw yours refl,
      rw (mine, e) refl,
      r,
    )
