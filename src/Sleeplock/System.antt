-- ===== src/Sleeplock/System.antt =====
-- Processes that contend for one lock of xv6/sleeplock.c, in any order, with `sleep` and `wakeup` of
-- xv6/proc.c. A process is named by its `pid`, and the scheduler runs none that sleeps.
use operation_system.Sleeplock.{releasesleep, initsleeplock, Sleeplock, acquiresleep}
use operation_system.Base.{ℕ, ◌≡◌, Bool, true, false, List, [], ◌∷◌, ◌==◌, if◌then◌else◌}

pub data Status : Type 0 where
  idle woken asleep holding : Status

pub record System : Type 0 where
  pub lk : Sleeplock
  pub status : ℕ → Status

abbrev pub start : System
start = record { lk = initsleeplock; status = λ p. idle }

abbrev pub update : (ℕ → Status) → ℕ → Status → ℕ → Status
update f p v q = if p == q then v else f q

-- `wakeup(lk)` for one process.
abbrev pub wake : Status → Status
wake asleep = woken
wake idle = idle
wake woken = woken
wake holding = holding

abbrev pub after_acquire : System → ℕ → Sleeplock × Bool → System
after_acquire s p (lk, true) = record { lk = lk; status = update s.status p holding }
after_acquire s p (lk, false) = record { lk = lk; status = update s.status p asleep }

abbrev pub after_release : System → ℕ → Sleeplock × Bool → System
after_release s p (lk, true) = record { lk = lk; status = λ q. wake (update s.status p idle q) }
after_release s p (lk, false) = record { lk = lk; status = update s.status p idle }

-- The process `p` runs until it sleeps or is done with its call: it acquires the lock and releases it in
-- turn.
abbrev pub turn : System → ℕ → Status → System
turn s p idle = after_acquire s p (acquiresleep p s.lk)
turn s p woken = after_acquire s p (acquiresleep p s.lk)
turn s p asleep = s
turn s p holding = after_release s p (releasesleep s.lk)

unfoldable pub run : List ℕ → System → System
run [] s = s
run (p ∷ ps) s = run ps (turn s p (s.status p))

-- Who holds the lock is the process in its `pid`, and nobody sleeps on a lock that is free.
pub record IsSound (s : System) : Type 0 where
  pub holder : s.lk.locked ≡ true → s.status s.lk.pid ≡ holding
  pub alone : (q : ℕ) → s.status q ≡ holding → (s.lk.locked ≡ true) × (q ≡ s.lk.pid)
  pub sleepers : (q : ℕ) → s.status q ≡ asleep → s.lk.locked ≡ true
