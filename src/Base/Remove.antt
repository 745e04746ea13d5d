-- ===== src/Base/Remove.antt =====
-- Taking one element out of a list, and sums of lists.
use Prim.Native.Nat.{◌≤◌, ◌*◌, ◌*◌, ℕ, zero, suc, ◌+◌, ◌≤◌}
use mathlib.Core.Path.{◌≡◌, refl, ap}
use mathlib.Core.List.{List, [], ◌∷◌}
use mathlib.Core.Option.{none, some}
use native.Mathlib.Omega.{arith}
use operation_system.Base.Lists.{length, get_elem?, set, All}

abbrev pub remove_at {ℓ} : {A : Type ℓ} → ℕ → List A → List A
remove_at i [] = []
remove_at zero (x ∷ xs) = xs
remove_at (suc i) (x ∷ xs) = x ∷ remove_at i xs

module _ {ℓ} {A : Type ℓ} where
  pub All-remove_at {κ} : (P : A → Type κ) (i : ℕ) (xs : List A) → All P xs → All P (remove_at i xs)
  All-remove_at P i [] h = tt
  All-remove_at P zero (x ∷ xs) h = h.1
  All-remove_at P (suc i) (x ∷ xs) h = (h.0, All-remove_at P i xs h.1)

  pub length-remove_at :
      (i : ℕ) (xs : List A) {v : A}
      → get_elem? xs i ≡ some v
      → length (remove_at i xs) + 1 ≡ length xs
  length-remove_at i [] e = cc
  length-remove_at zero (x ∷ xs) e = omega arith
  length-remove_at (suc i) (x ∷ xs) e = omega (arith, length-remove_at i xs e)

  pub remove_at-missing : (i : ℕ) (xs : List A) → get_elem? xs i ≡ none → remove_at i xs ≡ xs
  remove_at-missing i [] e = refl
  remove_at-missing zero (x ∷ xs) e = cc
  remove_at-missing (suc i) (x ∷ xs) e = ap (λ r. x ∷ r) (remove_at-missing i xs e)

pub All-get_elem? {ℓ} :
    (P : ℕ → Type ℓ) (i : ℕ) (xs : List ℕ) {v : ℕ} → All P xs → get_elem? xs i ≡ some v → P v
All-get_elem? P i [] h e = cc
All-get_elem? P zero (x ∷ xs) {v} h e = let same : x ≡ v = cc in rw same at (h.0)
All-get_elem? P (suc i) (x ∷ xs) h e = All-get_elem? P i xs h.1 e

abbrev pub sum : List ℕ → ℕ
sum [] = 0
sum (r ∷ rs) = r + sum rs

pub sum-set :
    (rs : List ℕ) (i r : ℕ) {q : ℕ} → get_elem? rs i ≡ some q → sum (set rs i r) + q ≡ sum rs + r
sum-set [] i r e = cc
sum-set (x ∷ rs) zero r {q} e = let same : x ≡ q = cc in omega (arith, same)
sum-set (x ∷ rs) (suc i) r e = omega (arith, sum-set rs i r e)

pub sum-remove_at : (i : ℕ) (rs : List ℕ) → sum (remove_at i rs) ≤ sum rs
sum-remove_at i [] = omega arith
sum-remove_at zero (x ∷ rs) = omega arith
sum-remove_at (suc i) (x ∷ rs) = omega (arith, sum-remove_at i rs)

pub get_elem?-sum : (rs : List ℕ) (i : ℕ) {q : ℕ} → get_elem? rs i ≡ some q → q ≤ sum rs
get_elem?-sum [] i e = cc
get_elem?-sum (x ∷ rs) zero {q} e = let same : x ≡ q = cc in omega (arith, same)
get_elem?-sum (x ∷ rs) (suc i) e = omega (arith, get_elem?-sum rs i e)

pub sum-le : (m : ℕ) (rs : List ℕ) → All (λ r. r ≤ m) rs → sum rs ≤ length rs * m
sum-le m [] h = omega arith
sum-le m (r ∷ rs) h = omega (arith, sum-le m rs h.1, h.0)
