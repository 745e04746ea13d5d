-- ===== src/Locks/Tests.antt =====
-- xv6/spinlock.c at concrete inputs, and its theorems there.
use operation_system.Base.{◌≡◌, refl, true, false, none, some, arith}
use operation_system.Locks.Spin.{release-acquire}
use operation_system.Locks.{Cpu, Spinlock, pushcli, panics, spins, holds, acquire, release}
use operation_system.Locks.Nesting.{done, nest, run, Restored, run-Restored}

abbrev running : Cpu
running = record { ncli = 0; intena = false; flag = true }

run-Restored_example :
    (c' : Cpu) × (run (nest (nest done done) (nest done done)) running ≡ some c')
    × Restored running c'
run-Restored_example =
    run-Restored (nest (nest done done) (nest done done)) running (λ h. absurd (h refl))

release-acquire_example :
    (held : Spinlock) × (c1 : Cpu) × (c2 : Cpu) × (acquire
        (record { locked = false; cpu = none })
        0
        running
      ≡ holds held c1)
    × (acquire held 1 running ≡ spins (pushcli running))
    × (acquire held 0 c1 ≡ panics)
    × (release held 1 running ≡ none)
    × (release held 0 c1 ≡ some (record { locked = false; cpu = none }, c2))
    × Restored running c2
release-acquire_example =
    release-acquire (record { locked = false; cpu = none }) 0 1 running running refl (omega arith)
      (λ h. absurd (h refl))
