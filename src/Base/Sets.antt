-- ===== src/Base/Sets.antt =====
-- Lists of distinct numbers.
use Prim.Native.Nat.{ℕ}
use mathlib.Core.Logic.{◌≢◌}
use mathlib.Core.List.{List, [], ◌∷◌}
use operation_system.Base.Lists.{All}

abbrev pub NotMem : ℕ → List ℕ → Type 0
NotMem x ys = All (λ y. y ≢ x) ys

abbrev pub Distinct : List ℕ → Type 0
Distinct [] = Unit
Distinct (x ∷ xs) = NotMem x xs × Distinct xs
