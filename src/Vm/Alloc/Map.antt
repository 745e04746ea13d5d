-- ===== src/Vm/Alloc/Map.antt =====
-- One round of the loop of `allocuvm` of xv6/vm.c: `mappages` of a page that `kalloc` gave.
use operation_system.Vm.Alloc.Page.{
  blank-zero, user-flags, user-frame, blank, blank-Keeps, user_perm, blank-lookup, blank-Spare,
}
use operation_system.Vm.{pgrounddown, pte_addr, is_present}
use operation_system.Kalloc.FreeList.{IsPage}
use operation_system.Vm.Alloc.{Keeps-trans, p2v, Grows}
use operation_system.Vm.Map.{entry, MapEnds}
use operation_system.Vm.Space.{lookup, Spare}
use operation_system.Vm.Owned.{IsMapped, frame, IsOwned}
use operation_system.Kalloc.{v2p, kernbase, pgsize, Kmem}
use operation_system.Base.{
  ℕ, ◌+◌, ◌-◌, ◌/◌, ◌%◌, ◌^◌, ◌≤◌, ◌<◌, ◌≡◌, refl, sym, ap, ◌∙◌, subst, ◌≢◌, ◌⊎◌, inl, inr, Bool,
  true, false, ◌&&◌, some, List, ◌∷◌, arith, ltb, leb, Bool-cases, ℕ_eq,
}

module _ (end pgdir a : ℕ) (k : Kmem) (x : ℕ) (free : List ℕ) (o : IsOwned end k (x ∷ free) pgdir)
    (al : a % pgsize ≡ 0) (lt : a < kernbase) where
  page : IsPage end x
  page = (blank-Spare end pgdir k x free o).page

  abbrev pub Ends : Kmem → Bool → Type 0
  Ends k2 r =
      MapEnds end pgdir a (a + pgsize) (v2p x) user_perm (blank end pgdir k x free o) free
        (some (k2, r))

  module _ (k2 : Kmem) (m : Ends k2 true) where
    mapped_here : (va : ℕ) → a ≤ va → va < a + pgsize → lookup k2 pgdir va ≡ entry (v2p x) user_perm
    mapped_here va lo hi =
        let t : (leb a va && ltb va (a + pgsize)) ≡ true = ground (arith, lo, hi) in
        let q : (v2p x + (pgrounddown va - a)) % 2 ^ 32 ≡ v2p x = omega (arith, al, lo, hi) in
        m.2 va (omega (arith, lt, hi, al)) ∙ rw (t, q) refl

    as_before :
        (va : ℕ)
        → va < 2 ^ 32
        → (va < a) ⊎ (a + pgsize ≤ va)
        → lookup k2 pgdir va ≡ lookup k pgdir va
    as_before va l out =
        let t : (leb a va && ltb va (a + pgsize)) ≡ false = elim out [
          | inl lo ↦ ground (arith, lo)
          | inr hi ↦ ground (arith, hi)
        ] in
        m.2 va l ∙ rw t (blank-lookup end pgdir k x free o va)

    the_frame : (va : ℕ) → va / pgsize ≡ a / pgsize → frame k2 pgdir va ≡ x
    the_frame va e =
        ap (λ p. p2v (pte_addr p)) (mapped_here va (omega (arith, e, al)) (omega (arith, e, al)))
        ∙ user-frame end x page

    elsewhere :
        (va : ℕ) → va < kernbase → va / pgsize ≢ a / pgsize → lookup k2 pgdir va ≡ lookup k pgdir va
    elsewhere va l ne = as_before va (omega (arith, l)) (elim (Bool-cases (ltb va a)) [
      | inl lo ↦ inl (ground (arith, lo))
      | inr hi ↦ let h : a ≤ va = ground (arith, hi) in inr (omega (arith, h, ne, al))
    ])

    old :
        (va : ℕ)
        → va / pgsize ≢ a / pgsize
        → IsMapped k2 pgdir va
        → IsMapped k pgdir va × (frame k2 pgdir va ≡ frame k pgdir va)
    old va ne h =
        let e = elsewhere va h.0 ne in
        ((h.0, ap is_present (sym e) ∙ h.1), ap (λ p. p2v (pte_addr p)) e)

    taken_alone :
        (b c : ℕ)
        → b / pgsize ≡ a / pgsize
        → c / pgsize ≢ a / pgsize
        → IsMapped k2 pgdir c
        → frame k2 pgdir b ≢ frame k2 pgdir c
    taken_alone b c eb nc h e =
        let (h1, e1) = old c nc h in (o.owns c h1).used.0 (sym (the_frame b eb) ∙ e ∙ e1)

    mapped-IsOwned : IsOwned end k2 m.0 pgdir
    mapped-IsOwned = record {
      space = m.1;
      owns = λ va h. elim (ℕ_eq (va / pgsize) (a / pgsize)) [
        | inl e ↦
            subst (Spare end k2 m.0 pgdir) (sym (the_frame va e))
              (m.4 x (blank-Spare end pgdir k x free o)).0
        | inr ne ↦
            let (h1, e1) = old va ne h in
            subst (Spare end k2 m.0 pgdir) (sym e1)
              (m.4 (frame k pgdir va)
                (blank-Keeps end pgdir k x free o (frame k pgdir va) (o.owns va h1)).0).0
      ];
      alone = λ b c hb hc e. elim (ℕ_eq (b / pgsize) (a / pgsize)) [
        | inl eb ↦ elim (ℕ_eq (c / pgsize) (a / pgsize)) [
          | inl ec ↦ eb ∙ sym ec
          | inr nc ↦ absurd (taken_alone b c eb nc hc e)
        ]
        | inr nb ↦ elim (ℕ_eq (c / pgsize) (a / pgsize)) [
          | inl ec ↦ absurd (taken_alone c b ec nb hb (sym e))
          | inr nc ↦
              let (b1, eb) = old b nb hb in
              let (c1, ec) = old c nc hc in o.alone b c b1 c1 (sym eb ∙ e ∙ ec)
        ]
      ];
    }

    pub mapped-Grows : Grows end pgdir a (a + pgsize) k (x ∷ free) k2
    mapped-Grows =
        let sp = blank-Spare end pgdir k x free o in
        record {
          free' = m.0;
          owned = mapped-IsOwned;
          fresh = λ va lo hi.
              let f = the_frame va (omega (arith, lo, hi, al)) in
              (
                ap (λ e. e % 8) (mapped_here va lo hi) ∙ user-flags end x page,
                (λ y s e. s.used.0 (sym f ∙ e)),
                (λ w e.
                    let e1 = e ∙ ap (λ y. y / pgsize) f in
                    (m.4 x sp).1 w e1 ∙ blank-zero end pgdir k x free o w e1),
              );
          others = as_before;
          kept =
              Keeps-trans end pgdir k (blank end pgdir k x free o) k2 (x ∷ free) free m.0
                (blank-Keeps end pgdir k x free o) m.4;
        }
