-- ===== src/Proc/Wait.antt =====
-- `wait` of xv6/proc.c.
use operation_system.Base.{ℕ, ◌+◌, ◌≡◌, ◌⊎◌, Bool, true, false, some, List, get_elem?, All}
use operation_system.Proc.{Proc, is_zombie, is_parent, zombie_child, Waited, reaped, failed, waits}

-- What each result of the scan from slot `i` says of the processes scanned.
abbrev pub ScanOk : ℕ → Bool → List Proc → ℕ → Bool → Waited → Type 0
ScanOk cur killed ps i havekids (reaped j pid) =
    (k : ℕ) × (p : Proc) × (j ≡ i + k)
    × (get_elem? ps k ≡ some p)
    × (is_parent cur p.parent ≡ true)
    × (is_zombie p.state ≡ true)
    × (p.pid ≡ pid)
ScanOk cur killed ps i havekids failed =
    (zombie_child cur ps ≡ false)
    × ((killed ≡ true) ⊎ (havekids ≡ false) × All (λ p. is_parent cur p.parent ≡ false) ps)
ScanOk cur killed ps i havekids waits = (zombie_child cur ps ≡ false) × (killed ≡ false)
