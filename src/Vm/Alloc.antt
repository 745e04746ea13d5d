-- ===== src/Vm/Alloc.antt =====
-- `allocuvm` of xv6/vm.c: the memory that it adds to an address space.
pub mod Page
pub mod Map
pub mod Undo
pub mod Round
pub mod Loop
use operation_system.Vm.{is_present, pte_addr, p2v}
use operation_system.Vm.Space.{Keeps-trans, Spare, Keeps, Keeps-refl, lookup}
use operation_system.Vm.Owned.{frame, IsMapped, IsOwned}
use operation_system.Kalloc.{pgsize, kernbase, Kmem}
use operation_system.Base.{
  some, Option, false, ℕ, ◌-◌, ◌/◌, ◌%◌, ◌^◌, ◌≤◌, ◌<◌, ◌≡◌, refl, sym, ap, ◌∙◌, ◌≢◌, ◌⊎◌, inl, inr,
  none, List, [], arith, ltb, Bool-cases,
}

-- The page of `va` is there for the user to read and write, holds zeros only, and is none of the pages
-- that were in other hands.
abbrev pub IsFresh : ℕ → ℕ → Kmem → List ℕ → Kmem → ℕ → Type 0
IsFresh end pgdir k free k' va =
    (lookup k' pgdir va % 8 ≡ 7)
    × ((f : ℕ) → Spare end k free pgdir f → frame k' pgdir va ≢ f)
    × ((w : ℕ) → w / pgsize ≡ frame k' pgdir va / pgsize → k'.word w ≡ 0)

-- From `a` up to `b` there are fresh pages; all other addresses lead where they led, and the memory there
-- is as it was.
pub record Grows (end pgdir a b : ℕ) (k : Kmem) (free : List ℕ) (k' : Kmem) : Type 0 where
  pub free' : List ℕ
  pub owned : IsOwned end k' free' pgdir
  pub fresh : (va : ℕ) → a ≤ va → va < b → IsFresh end pgdir k free k' va
  pub others : (va : ℕ) → va < 2 ^ 32 → (va < a) ⊎ (b ≤ va) → lookup k' pgdir va ≡ lookup k pgdir va
  pub kept : Keeps end pgdir k free k' free'

-- From `a` up to `b` nothing is mapped; all other addresses lead where they led, and the memory there is as
-- it was.
pub record Back (end pgdir a b : ℕ) (k : Kmem) (free : List ℕ) (k' : Kmem) : Type 0 where
  pub free' : List ℕ
  pub owned : IsOwned end k' free' pgdir
  pub unmapped : (va : ℕ) → a ≤ va → va < b → is_present (lookup k' pgdir va) ≡ false
  pub others : (va : ℕ) → va < 2 ^ 32 → (va < a) ⊎ (b ≤ va) → lookup k' pgdir va ≡ lookup k pgdir va
  pub kept : Keeps end pgdir k free k' free'

-- A call that should grow the space from `a` up to `b`, to the size `newsz`.
abbrev pub AllocEnds : ℕ → ℕ → ℕ → ℕ → ℕ → Kmem → List ℕ → Option (Kmem × ℕ) → Type 0
AllocEnds end pgdir a b newsz k free none = ⊥
AllocEnds end pgdir a b newsz k free (some (k', sz)) =
    ((sz ≡ newsz) × Grows end pgdir a b k free k') ⊎ ((sz ≡ 0) × Back end pgdir a b k free k')

pub flags-IsMapped :
    (k : Kmem) (pgdir va : ℕ) → va < kernbase → lookup k pgdir va % 8 ≡ 7 → IsMapped k pgdir va
flags-IsMapped k pgdir va l e =
    let odd : lookup k pgdir va % 2 ≡ 1 = omega (arith, e) in (l, ground (arith, odd))

module _ (end pgdir : ℕ) where
  pub Grows-refl :
      (a : ℕ) (k : Kmem) (free : List ℕ) → IsOwned end k free pgdir → Grows end pgdir a a k free k
  Grows-refl a k free o = record {
    free' = free;
    owned = o;
    fresh = λ va lo hi. absurd (omega (arith, lo, hi));
    others = λ va l out. refl;
    kept = Keeps-refl end pgdir k free;
  }

  pub Grows-trans :
      (a b c : ℕ) (k k1 k2 : Kmem) (free : List ℕ)
      → a ≤ b
      → b ≤ c
      → c ≤ kernbase
      → (f : Grows end pgdir a b k free k1) → Grows end pgdir b c k1 f.free' k2
      → Grows end pgdir a c k free k2
  Grows-trans a b c k k1 k2 free ab bc top f g = record {
    free' = g.free';
    owned = g.owned;
    fresh = λ va lo hi. elim (Bool-cases (ltb va b)) [
      | inl first ↦
          let q : va < b = ground (arith, first) in
          let l : va < kernbase = omega (arith, hi, top) in
          let (flags, new, zeros) = f.fresh va lo q in
          let same = g.others va (omega (arith, l)) (inl q) in
          let frames : frame k2 pgdir va ≡ frame k1 pgdir va = ap (λ e. p2v (pte_addr e)) same in
          let own = f.owned.owns va (flags-IsMapped k1 pgdir va l flags) in
          (
            ap (λ e. e % 8) same ∙ flags,
            (λ x sp e. new x sp (sym frames ∙ e)),
            (λ w e.
                let e1 = e ∙ ap (λ y. y / pgsize) frames in
                (g.kept (frame k1 pgdir va) own).1 w e1 ∙ zeros w e1),
          )
      | inr more ↦
          let (flags, new, zeros) = g.fresh va (ground (arith, more)) hi in
          (flags, (λ x sp e. new x (f.kept x sp).0 e), zeros)
    ];
    others = λ va l out.
        g.others va l (elim out [ inl lo ↦ inl (omega (arith, lo, ab)) | inr hi ↦ inr hi ])
        ∙ f.others va l (elim out [ inl lo ↦ inl lo | inr hi ↦ inr (omega (arith, hi, bc)) ]);
    kept = Keeps-trans end pgdir k k1 k2 free f.free' g.free' f.kept g.kept;
  }
