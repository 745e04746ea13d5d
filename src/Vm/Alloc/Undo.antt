-- ===== src/Vm/Alloc/Undo.antt =====
-- `allocuvm` of xv6/vm.c where the memory runs out.
use operation_system.Vm.Owned.{kfree-Gave, IsOwned-same, Gave}
use operation_system.Vm.Dealloc.{Frees}
use operation_system.Vm.Alloc.{
  pte_addr, p2v, Back, is_present, frame, Spare, Keeps, lookup, IsMapped, Grows,
}
use operation_system.Vm.Map.{Unmapped}
use operation_system.Kalloc.{kernbase, Kmem}
use operation_system.Base.{
  ℕ, ◌^◌, ◌≤◌, ◌<◌, ◌≡◌, sym, ap, ◌∙◌, ◌≢◌, ◌⊎◌, inl, inr, true, false, ◌&&◌, List, ◌∷◌, arith, ltb,
  leb, Bool-cases,
}

-- The pages from `a` up to `b` are to be fresh ones, and are so up to `c`.
module _ (end pgdir a b c : ℕ) (k ka : Kmem) (free : List ℕ) (ab : a ≤ c) (bc : c ≤ b)
    (top : b ≤ kernbase) (clear : Unmapped pgdir a b k) (g : Grows end pgdir a c k free ka) where
  not-Spare :
      (va : ℕ)
      → a ≤ va
      → va < b
      → IsMapped ka pgdir va
      → (f : ℕ) → Spare end k free pgdir f
      → frame ka pgdir va ≢ f
  not-Spare va lo hi m f sp = elim (Bool-cases (ltb va c)) [
    | inl first ↦ let q : va < c = ground (arith, first) in (g.fresh va lo q).1 f sp
    | inr more ↦
        let q : c ≤ va = ground (arith, more) in
        let y : true ≡ false =
          sym m.1 ∙ ap is_present (g.others va (omega (arith, hi, top)) (inr q)) ∙ clear va lo hi in
        λ e. absurd (cc)
  ]

  -- `k2` differs from `ka` in page tables and free pages only.
  module _ (k2 : Kmem) (free2 : List ℕ)
      (same : (va : ℕ) → va < 2 ^ 32 → lookup k2 pgdir va ≡ lookup ka pgdir va)
      (keeps : Keeps end pgdir k free k2 free2) (k3 : Kmem)
      (f : Frees end pgdir a b k2 free2 k3) where
    undo-Keeps : Keeps end pgdir k free k3 f.free'
    undo-Keeps x sp =
        let (s2, w2) = keeps x sp in
        let (s3, w3) = f.kept x s2 (λ va lo hi m e.
          let q = same va (omega (arith, hi, top)) in
          not-Spare va lo hi (m.0, ap is_present (sym q) ∙ m.1) x sp
            (ap (λ p. p2v (pte_addr p)) (sym q) ∙ e)) in
        (s3, λ w e. w3 w e ∙ w2 w e)

    undo-others :
        (va : ℕ) → va < 2 ^ 32 → (va < a) ⊎ (b ≤ va) → lookup k3 pgdir va ≡ lookup k pgdir va
    undo-others va l out =
        f.others va l out
        ∙ same va l
        ∙ g.others va l (elim out [ inl lo ↦ inl lo | inr hi ↦ inr (omega (arith, hi, bc)) ])

    pub undo-Back : Back end pgdir a b k free k3
    undo-Back = record {
      free' = f.free';
      owned = f.owned;
      unmapped = f.unmapped;
      others = undo-others;
      kept = undo-Keeps;
    }

    -- The page `x` was taken, and is given back.
    module _ (x : ℕ) (s2 : Spare end k2 free2 pgdir x)
        (alone : (va : ℕ) → IsMapped ka pgdir va → frame ka pgdir va ≢ x)
        (apart : (y : ℕ) → Spare end k free pgdir y → x ≢ y) where
      alone2 : (va : ℕ) → IsMapped k2 pgdir va → frame k2 pgdir va ≢ x
      alone2 va m e =
          let q = same va (omega (arith, m.0)) in
          alone va (m.0, ap is_present (sym q) ∙ m.1) (ap (λ p. p2v (pte_addr p)) (sym q) ∙ e)

      alone3 : (va : ℕ) → IsMapped k3 pgdir va → frame k3 pgdir va ≢ x
      alone3 va m e = elim (Bool-cases (leb a va && ltb va b)) [
        | inl within ↦
            let y : true ≡ false =
              sym m.1 ∙ f.unmapped va (ground (arith, within)) (ground (arith, within)) in
            cc
        | inr out ↦
            let q = f.others va (omega (arith, m.0)) (outside va out) in
            alone2 va (m.0, ap is_present (sym q) ∙ m.1) (ap (λ p. p2v (pte_addr p)) (sym q) ∙ e)
      ]
        where
          outside : (va : ℕ) → (leb a va && ltb va b) ≡ false → (va < a) ⊎ (b ≤ va)
          outside va out = elim (Bool-cases (ltb va a)) [
            | inl lo ↦ inl (ground (arith, lo))
            | inr hi ↦ inr (ground (arith, hi, out))
          ]

      pub still_taken : Spare end k3 f.free' pgdir x
      still_taken = (f.kept x s2 (λ va lo hi m. alone2 va m)).0

      pub returned : Gave end k3 f.free' pgdir x f.owned.space still_taken
      returned = kfree-Gave end k3 f.free' pgdir x f.owned.space still_taken

      pub returned-Back : Back end pgdir a b k free returned.left
      returned-Back = record {
        free' = x ∷ f.free';
        owned =
            IsOwned-same end pgdir k3 returned.left f.free' (x ∷ f.free') f.owned returned.space
              (λ va l. returned.same va)
              (λ va m.
                returned.spares (frame k3 pgdir va) (λ e. alone3 va m (sym e)) (f.owned.owns va m));
        unmapped = λ va lo hi. ap is_present (returned.same va) ∙ f.unmapped va lo hi;
        others = λ va l out. returned.same va ∙ undo-others va l out;
        kept = λ y sp.
            let ne = apart y sp in
            let (s3, w3) = undo-Keeps y sp in
            let al = s2.page.aligned in
            let yal = sp.page.aligned in
            (
              returned.spares y ne s3,
              λ w e. returned.word w (λ q. ne (omega (arith, al, yal, e, q))) ∙ w3 w e,
            );
      }
