-- ===== src/Vm/Dealloc/Join.antt =====
-- Freed intervals of an address space, one after the other.
use operation_system.Vm.Dealloc.{frame, lookup, FreesOr, Frees}
use operation_system.Vm.Owned.{IsOwned}
use operation_system.Vm.{pte_addr, p2v, pde_at, is_present, pdx}
use operation_system.Kalloc.{kernbase, Kmem}
use operation_system.Base.{
  ℕ, ◌+◌, ◌*◌, ◌^◌, ◌≤◌, ◌<◌, ◌≡◌, refl, sym, ap, ◌∙◌, subst, inl, inr, true, false, Option, none,
  some, List, arith, ltb, Bool-cases, NotMem,
}

abbrev pub next_table : ℕ → ℕ
next_table a = (pdx a + 1) * 2 ^ 22

module _ (end pgdir : ℕ) where
  -- An interval where nothing is mapped.
  unfoldable pub nothing-Frees :
      (a b : ℕ) (k : Kmem) (free : List ℕ)
      → IsOwned end k free pgdir
      → ((va : ℕ) → a ≤ va → va < b → is_present (lookup k pgdir va) ≡ false)
      → Frees end pgdir a b k free k
  nothing-Frees a b k free o clear = record {
    free' = free;
    owned = o;
    unmapped = clear;
    others = λ va l out. refl;
    returned = λ va lo hi m out. let y : true ≡ false = sym m.1 ∙ clear va lo hi in cc;
    still_free = λ f out. out;
    kept = λ x sp ne. (sp, λ w e. refl);
  }

  unfoldable pub no_table-Frees :
      (a b : ℕ) (k : Kmem) (free : List ℕ)
      → IsOwned end k free pgdir
      → a < kernbase
      → is_present (pde_at k pgdir (pdx a)) ≡ false
      → b ≤ next_table a
      → Frees end pgdir a b k free k
  unfolding nothing-Frees
  no_table-Frees a b k free o l gone hi = nothing-Frees a b k free o λ va lo up.
      let e : pdx va ≡ pdx a = omega (arith, lo, up, hi, l) in
      let g : is_present (pde_at k pgdir (pdx va)) ≡ false =
        ap (λ i. is_present (pde_at k pgdir i)) e ∙ gone in
      rw g refl

  Frees-trans :
      (a b c : ℕ) (k k1 k2 : Kmem) (free : List ℕ)
      → a ≤ b
      → b ≤ c
      → c ≤ 2 ^ 32
      → (f : Frees end pgdir a b k free k1) → Frees end pgdir b c k1 f.free' k2
      → Frees end pgdir a c k free k2
  Frees-trans a b c k k1 k2 free ab bc top f g = record {
    free' = g.free';
    owned = g.owned;
    unmapped = λ va lo hi. elim (Bool-cases (ltb va b)) [
      | inl first ↦
          let q : va < b = ground (arith, first) in
          ap is_present (g.others va (omega (arith, hi, top)) (inl q)) ∙ f.unmapped va lo q
      | inr more ↦ g.unmapped va (ground (arith, more)) hi
    ];
    others = λ va l out.
        g.others va l (elim out [ inl lo ↦ inl (omega (arith, lo, ab)) | inr hi ↦ inr hi ])
        ∙ f.others va l (elim out [ inl lo ↦ inl lo | inr hi ↦ inr (omega (arith, hi, bc)) ]);
    returned = λ va lo hi m out. elim (Bool-cases (ltb va b)) [
      | inl first ↦ f.returned va lo (ground (arith, first)) m (g.still_free (frame k pgdir va) out)
      | inr more ↦
          let past : b ≤ va = ground (arith, more) in
          let same = f.others va (omega (arith, hi, top)) (inr past) in
          g.returned va past hi (m.0, ap is_present same ∙ m.1)
            (subst (λ x. NotMem x g.free') (sym (ap (λ e. p2v (pte_addr e)) same)) out)
    ];
    still_free = λ x out. f.still_free x (g.still_free x out);
    kept = λ x sp ne.
        let (s1, w1) = f.kept x sp (λ va lo hi m. ne va lo (omega (arith, hi, bc)) m) in
        let (s2, w2) = g.kept x s1 (λ va lo hi m.
          let same = f.others va (omega (arith, hi, top)) (inr lo) in
          λ e.
            ne va (omega (arith, lo, ab)) hi (m.0, ap is_present (sym same) ∙ m.1)
              (ap (λ y. p2v (pte_addr y)) (sym same) ∙ e)) in
        (s2, λ w e. w2 w e ∙ w1 w e);
  }

  pub FreesOr-trans :
      (a b c : ℕ) (k k1 : Kmem) (free : List ℕ) (r : Option Kmem)
      → a ≤ b
      → b ≤ c
      → c ≤ 2 ^ 32
      → (f : Frees end pgdir a b k free k1) → FreesOr end pgdir b c k1 f.free' r
      → FreesOr end pgdir a c k free r
  FreesOr-trans a b c k k1 free none ab bc top f g = g
  FreesOr-trans a b c k k1 free (some k2) ab bc top f g =
      Frees-trans a b c k k1 k2 free ab bc top f g
