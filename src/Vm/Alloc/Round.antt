-- ===== src/Vm/Alloc/Round.antt =====
-- The loop of `allocuvm` of xv6/vm.c, round by round.
use operation_system.Vm.Space.{Spare}
use operation_system.Vm.Owned.{IsOwned-same}
use operation_system.Vm.Alloc.Map.{mapped-Grows}
use operation_system.Vm.Alloc.Undo.{returned-Back, returned, undo-Back}
use operation_system.Vm.Dealloc.Size.{deallocuvm-Frees}
use operation_system.Vm.Alloc.Page.{
  blank-Keeps, blank-Spare, blank-IsOwned, blank-lookup, user_perm, blank,
}
use operation_system.Vm.Alloc.{
  Spare, IsMapped, Keeps-trans, frame, lookup, Grows-trans, Keeps, IsOwned, AllocEnds, Grows,
}
use operation_system.Vm.{is_present, mappages}
use operation_system.Vm.Map.{MapsTo, MapEnds, Unmapped}
use operation_system.Vm.User.{deallocuvm, zero_page, grow_back, free_after, grow_page, alloc_loop}
use operation_system.Kalloc.{kfree, v2p, pgroundup, kalloc, pgsize, kernbase, Kmem}
use operation_system.Base.{
  ◌&&◌, leb, ℕ, suc, ◌+◌, ◌%◌, ◌^◌, ◌≤◌, ◌<◌, ◌≡◌, refl, sym, ap, ◌∙◌, subst, ◌⊎◌, inl, inr, Bool,
  true, false, Option, none, some, List, [], ◌∷◌, arith, ltb, ◌==◌,
}

module _ (end pgdir oldsz newsz : ℕ) where
  -- What follows `mappages` of the page `x`.
  abbrev pub after_mappages : ℕ → Option (Kmem × Bool) → Kmem ⊎ Option (Kmem × ℕ)
  after_mappages x none = inr none
  after_mappages x (some (k2, true)) = inl k2
  after_mappages x (some (k2, false)) = inr (free_after end x (grow_back end pgdir newsz oldsz k2))

  pub grow_page-empty :
      (c : ℕ) (k : Kmem)
      → kalloc k ≡ (0, k)
      → grow_page end pgdir oldsz newsz c k ≡ inr (grow_back end pgdir newsz oldsz k)
  unfolding grow_page
  grow_page-empty c k e = rw e refl

  pub grow_page-taken :
      (c x : ℕ) (k left : Kmem) (r : Option (Kmem × Bool))
      → kalloc k ≡ (x, left)
      → (x == 0) ≡ false
      → mappages pgdir c pgsize (v2p x) user_perm (zero_page x left) ≡ r
      → grow_page end pgdir oldsz newsz c k ≡ after_mappages x r
  unfolding grow_page
  grow_page-taken c x k left none e t m = rw (e, t, m) refl
  grow_page-taken c x k left (some (k2, true)) e t m = rw (e, t, m) refl
  grow_page-taken c x k left (some (k2, false)) e t m =
      rw (e, t, m)
        (ap (λ (p : ℕ × Kmem). inr (free_after end p.0 (grow_back end pgdir newsz oldsz k2))) e)

  pub grow_back-some :
      (k k' : Kmem) (sz : ℕ)
      → deallocuvm end pgdir newsz oldsz k ≡ some (k', sz)
      → grow_back end pgdir newsz oldsz k ≡ some (k', 0)
  grow_back-some k k' sz e = rw (grow_back, e) refl

  gave_back :
      (x : ℕ) (k k3 left : Kmem) (sz : ℕ)
      → deallocuvm end pgdir newsz oldsz k ≡ some (k3, sz)
      → kfree end k3 x ≡ some left
      → free_after end x (grow_back end pgdir newsz oldsz k) ≡ some (left, 0)
  gave_back x k k3 left sz e f = rw (grow_back-some k k3 sz e, free_after, f) refl

  pub loop_done :
      (n c : ℕ) (k : Kmem)
      → ltb c newsz ≡ false
      → alloc_loop end pgdir oldsz newsz (suc n) c k ≡ some (k, newsz)
  unfolding alloc_loop
  loop_done n c k t = rw (t, alloc_loop) refl

  pub loop_goes_on :
      (n c : ℕ) (k k2 : Kmem)
      → ltb c newsz ≡ true
      → grow_page end pgdir oldsz newsz c k ≡ inl k2
      → alloc_loop end pgdir oldsz newsz (suc n) c k
        ≡ alloc_loop end pgdir oldsz newsz n ((c + pgsize) % 2 ^ 32) k2
  unfolding alloc_loop
  loop_goes_on n c k k2 t e = rw (t, alloc_loop, e) refl

  pub loop_ends :
      (n c : ℕ) (k : Kmem) (r : Option (Kmem × ℕ))
      → ltb c newsz ≡ true
      → grow_page end pgdir oldsz newsz c k ≡ inr r
      → alloc_loop end pgdir oldsz newsz (suc n) c k ≡ r
  unfolding alloc_loop
  loop_ends n c k r t e = rw (t, alloc_loop, e) refl

  module _ (above : kernbase < end) (old : oldsz ≤ newsz) (top : newsz < kernbase) (k : Kmem)
      (free : List ℕ) (clear : Unmapped pgdir (pgroundup oldsz) (pgroundup newsz) k) where
    abbrev pub IsDone : Option (Kmem × ℕ) → Type 0
    IsDone r = AllocEnds end pgdir (pgroundup oldsz) (pgroundup newsz) newsz k free r

    abbrev pub RoundEnds : ℕ → Kmem ⊎ Option (Kmem × ℕ) → Type 0
    RoundEnds c (inl k2) = Grows end pgdir (pgroundup oldsz) (c + pgsize) k free k2
    RoundEnds c (inr r) = IsDone r

    module _ (c : ℕ) (al : c % pgsize ≡ 0) (lo : pgroundup oldsz ≤ c) (lt : c < newsz) (ka : Kmem)
        (g : Grows end pgdir (pgroundup oldsz) c k free ka) where
      pub empty-IsDone : IsDone (grow_back end pgdir newsz oldsz ka)
      empty-IsDone =
          let b : pgroundup newsz ≤ kernbase = omega (arith, top) in
          let le : c ≤ pgroundup newsz = omega (arith, lt, top) in
          let (k3, e, f) =
            deallocuvm-Frees end pgdir newsz oldsz ka g.free' above g.owned
              (omega (arith, lt, lo, old, top)) (omega (arith, top)) in
          rw (grow_back-some ka k3 oldsz e) (
            inr (
              refl,
              undo-Back end pgdir (pgroundup oldsz) (pgroundup newsz) c k ka free lo le b clear g ka
                  g.free' (λ va l. refl) g.kept k3 f,
            ))

      module _ (x : ℕ) (free1 : List ℕ) (eq : g.free' ≡ x ∷ free1) where
        pub here : IsOwned end ka (x ∷ free1) pgdir
        here = subst (λ l. IsOwned end ka l pgdir) eq g.owned

        so_far : Keeps end pgdir k free ka (x ∷ free1)
        so_far = subst (λ l. Keeps end pgdir k free ka l) eq g.kept

        unfoldable pub filled : Kmem
        filled = blank end pgdir ka x free1 here

        failed-IsDone :
            (k2 : Kmem)
            → MapEnds end pgdir c (c + pgsize) (v2p x) user_perm filled free1 (some (k2, false))
            → IsDone (free_after end x (grow_back end pgdir newsz oldsz k2))
        unfolding filled
        failed-IsDone k2 (s2, (d, lo2, hi2, al2, maps), keeps) =
            let bl = blank end pgdir ka x free1 here in
            let b : pgroundup newsz ≤ kernbase = omega (arith, top) in
            let le : c ≤ pgroundup newsz = omega (arith, lt, top) in
            let end_c : d ≡ c = omega (arith, al, al2, lo2, hi2) in
            let same = λ (va : ℕ) (l : va < 2 ^ 32). unmoved k2 d end_c maps va l in
            let own : IsOwned end k2 [] pgdir =
              IsOwned-same end pgdir bl k2 free1 [] (blank-IsOwned end pgdir ka x free1 here) s2
                (λ va l.
                  same va (omega (arith, l)) ∙ sym (blank-lookup end pgdir ka x free1 here va))
                (λ va q.
                  (keeps (frame bl pgdir va)
                    ((blank-IsOwned end pgdir ka x free1 here).owns va q)).0) in
            let (k3, e, f) =
              deallocuvm-Frees end pgdir newsz oldsz k2 [] above own
                (omega (arith, lt, lo, old, top)) (omega (arith, top)) in
            let sp = (keeps x (blank-Spare end pgdir ka x free1 here)).0 in
            let kept =
              Keeps-trans end pgdir k bl k2 free free1 []
                (Keeps-trans end pgdir k ka bl free (x ∷ free1) free1 so_far
                  (blank-Keeps end pgdir ka x free1 here))
                keeps in
            let alone = λ (va : ℕ) (q : IsMapped ka pgdir va) (t : frame ka pgdir va ≡ x).
              (here.owns va q).used.0 (sym t) in
            let apart = λ (y : ℕ) (q : Spare end k free pgdir y). (so_far y q).0.used.0 in
            let got =
              returned end pgdir (pgroundup oldsz) (pgroundup newsz) c k ka free lo le b clear g k2
                [] same kept k3 f x sp alone apart in
            subst IsDone (sym (gave_back x k2 k3 got.left oldsz e got.gave)) (
              inr (
                refl,
                returned-Back end pgdir (pgroundup oldsz) (pgroundup newsz) c k ka free lo le b
                    clear g k2 [] same kept k3 f x sp alone apart,
              ))
          where
            unmoved :
                (k2 : Kmem) (d : ℕ)
                → d ≡ c
                → MapsTo pgdir c d (v2p x) user_perm (blank end pgdir ka x free1 here) k2
                → (va : ℕ) → va < 2 ^ 32
                → lookup k2 pgdir va ≡ lookup ka pgdir va
            unmoved k2 d e maps va l =
                let t : (leb c va && ltb va d) ≡ false = ground (arith, e) in
                maps va l ∙ rw t (blank-lookup end pgdir ka x free1 here va)

        pub taken-RoundEnds :
            (r : Option (Kmem × Bool))
            → MapEnds end pgdir c (c + pgsize) (v2p x) user_perm filled free1 r
            → RoundEnds c (after_mappages x r)
        unfolding filled
        taken-RoundEnds none (va, l, h, there) =
            let up : c + pgsize ≤ pgroundup newsz = omega (arith, lt, al, top) in
            let y : true ≡ false =
              sym there
              ∙ ap is_present (blank-lookup end pgdir ka x free1 here va)
              ∙ ap is_present (g.others va (omega (arith, h, lt, top)) (inr l))
              ∙ clear va (omega (arith, lo, l)) (omega (arith, h, up)) in
            cc
        taken-RoundEnds (some (k2, true)) m =
            Grows-trans end pgdir (pgroundup oldsz) c (c + pgsize) k ka k2 free lo (omega arith)
              (omega (arith, lt, al, top)) g
              (subst (λ l. Grows end pgdir c (c + pgsize) ka l k2) (sym eq)
                (mapped-Grows end pgdir c ka x free1 here al (omega (arith, lt, top)) k2 m))
        taken-RoundEnds (some (k2, false)) m = failed-IsDone k2 m
