-- ===== src/Sleeplock/Tests.antt =====
-- xv6/sleeplock.c at concrete inputs, and its theorems there.
use operation_system.Sleeplock.Owner.{run-hand_over, run-IsSound, hand_over}
use operation_system.Sleeplock.System.{asleep, holding, start, run, IsSound}
use operation_system.Base.{ℕ, ◌≡◌, refl, sym, ◌∙◌, List, [], ◌∷◌}

-- Process 1 takes the lock, 2 and 3 sleep on it.
abbrev contended : List ℕ
contended = 1 ∷ 2 ∷ 3 ∷ 2 ∷ []

second_sleeps : (run contended start).status 2 ≡ asleep
unfolding run
second_sleeps = refl

run-IsSound_example : IsSound (run contended start)
run-IsSound_example = run-IsSound contended

run-hand_over_example :
    (run (hand_over (run contended start) 2) (run contended start)).status 2 ≡ holding
run-hand_over_example =
    run-hand_over contended 2 (λ e. let y : asleep ≡ holding = sym second_sleeps ∙ e in cc)
