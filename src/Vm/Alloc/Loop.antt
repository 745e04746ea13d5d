-- ===== src/Vm/Alloc/Loop.antt =====
-- The whole of `allocuvm` of xv6/vm.c.
use operation_system.Vm.Alloc.Round.{empty-IsDone, taken-RoundEnds}
use operation_system.Kalloc.FreeList.{IsFreeList, kalloc-empty}
use operation_system.Vm.Walk.{page-ne-zero}
use operation_system.Vm.Map.Loop.{mappages-MapEnds}
use operation_system.Vm.{pgrounddown, mappages}
use operation_system.Vm.Alloc.Page.{blank-IsSpace, given, user_perm, blank}
use operation_system.Vm.Alloc.Round.{
  taken-RoundEnds, grow_page-taken, after_mappages, loop_ends, grow_page-empty, here, loop_done,
  loop_goes_on, RoundEnds, filled, IsDone,
}
use operation_system.Vm.Alloc.{Grows-refl, Grows, AllocEnds}
use operation_system.Vm.Space.{IsSpace}
use operation_system.Vm.Owned.{IsOwned}
use operation_system.Vm.Map.{MapEnds, Unmapped}
use operation_system.Kalloc.{v2p, pgroundup, pgsize, Kmem, kernbase}
use operation_system.Vm.User.{grow_back, alloc_loop, grow_page, allocuvm}
use operation_system.Base.{
  ℕ, zero, suc, ◌+◌, ◌-◌, ◌*◌, ◌/◌, ◌%◌, ◌^◌, ◌≤◌, ◌<◌, ◌≡◌, refl, sym, ap, ◌∙◌, subst, ◌⊎◌, inl,
  inr, true, false, Option, List, [], ◌∷◌, arith, ltb, leb, Bool-cases,
}

List-cases : (l : List ℕ) → (l ≡ []) ⊎ ((x : ℕ) × (xs : List ℕ) × (l ≡ x ∷ xs))
List-cases [] = inl refl
List-cases (x ∷ xs) = inr (x, xs, refl)

-- `mappages` of one page.
page-MapEnds :
    (end pgdir c x : ℕ) (k : Kmem) (free : List ℕ)
    → c % pgsize ≡ 0
    → c < kernbase
    → IsSpace end k free pgdir
    → MapEnds end pgdir c
        (c + pgsize)
        (v2p x)
        user_perm
        k
        free
        (mappages pgdir c pgsize (v2p x) user_perm k)
page-MapEnds end pgdir c x k free al lt s =
    let q : pgrounddown c ≡ c = omega (arith, al) in
    let p : pgrounddown (c + pgsize - 1) + pgsize ≡ c + pgsize = omega (arith, al) in
    let r = mappages pgdir c pgsize (v2p x) user_perm k in
    subst (λ b. MapEnds end pgdir c b (v2p x) user_perm k free r) p
      (subst
        (λ a.
          MapEnds end pgdir a (pgrounddown (c + pgsize - 1) + pgsize) (v2p x) user_perm k free r)
        q
        (mappages-MapEnds end pgdir user_perm c pgsize (v2p x) k free (omega arith)
          (omega (arith, lt)) (omega arith) s))

module _ (end pgdir oldsz newsz : ℕ) (above : kernbase < end) (old : oldsz ≤ newsz)
    (top : newsz < kernbase) (k : Kmem) (free : List ℕ)
    (clear : Unmapped pgdir (pgroundup oldsz) (pgroundup newsz) k) where
  abbrev Ends : Option (Kmem × ℕ) → Type 0
  Ends r = IsDone end pgdir oldsz newsz above old top k free clear r

  full :
      (n c : ℕ) (ka : Kmem)
      → c % pgsize ≡ 0
      → c ≤ pgroundup newsz
      → newsz ≤ c
      → Grows end pgdir (pgroundup oldsz) c k free ka
      → Ends (alloc_loop end pgdir oldsz newsz (suc n) c ka)
  full n c ka al hi past g =
      let t : ltb c newsz ≡ false = ground (arith, past) in
      let e : c ≡ pgroundup newsz = omega (arith, past, al, hi, top) in
      subst Ends (sym (loop_done end pgdir oldsz newsz n c ka t))
        (inl (refl, subst (λ y. Grows end pgdir (pgroundup oldsz) y k free ka) e g))

  round :
      (n c : ℕ) (ka : Kmem) (u : Kmem ⊎ Option (Kmem × ℕ))
      → c < newsz
      → grow_page end pgdir oldsz newsz c ka ≡ u
      → RoundEnds end pgdir oldsz newsz above old top k free clear c u
      → ((k2 : Kmem)
          → Grows end pgdir (pgroundup oldsz) (c + pgsize) k free k2
          → Ends (alloc_loop end pgdir oldsz newsz n (c + pgsize) k2))
      → Ends (alloc_loop end pgdir oldsz newsz (suc n) c ka)
  round n c ka (inl k2) lt e g rest =
      let t : ltb c newsz ≡ true = ground (arith, lt) in
      let q : (c + pgsize) % 2 ^ 32 ≡ c + pgsize = omega (arith, lt, top) in
      subst Ends
        (sym (
          loop_goes_on end pgdir oldsz newsz n c ka k2 t e
          ∙ ap (λ y. alloc_loop end pgdir oldsz newsz n y k2) q))
        (rest k2 g)
  round n c ka (inr r) lt e d rest =
      let t : ltb c newsz ≡ true = ground (arith, lt) in
      subst Ends (sym (loop_ends end pgdir oldsz newsz n c ka r t e)) d

  taken :
      (n c x : ℕ) (xs : List ℕ) (ka : Kmem)
      → c % pgsize ≡ 0
      → pgroundup oldsz ≤ c
      → c < newsz
      → (g : Grows end pgdir (pgroundup oldsz) c k free ka) → g.free' ≡ x ∷ xs
      → ((k2 : Kmem)
          → Grows end pgdir (pgroundup oldsz) (c + pgsize) k free k2
          → Ends (alloc_loop end pgdir oldsz newsz n (c + pgsize) k2))
      → Ends (alloc_loop end pgdir oldsz newsz (suc n) c ka)
  unfolding filled blank
  taken n c x xs ka al lo lt g eq rest =
      let k1 = filled end pgdir oldsz newsz above old top k free clear c al lo lt ka g x xs eq in
      let o = here end pgdir oldsz newsz above old top k free clear c al lo lt ka g x xs eq in
      let got = given end pgdir ka x xs o in
      let r = mappages pgdir c pgsize (v2p x) user_perm k1 in
      let m =
        page-MapEnds end pgdir c x k1 xs al (omega (arith, lt, top))
          (blank-IsSpace end pgdir ka x xs o) in
      round n c ka (after_mappages end pgdir oldsz newsz x r) lt
        (grow_page-taken end pgdir oldsz newsz c x ka got.left r got.gave
          (page-ne-zero end pgdir x got.page) refl)
        (taken-RoundEnds end pgdir oldsz newsz above old top k free clear c al lo lt ka g x xs eq r
          m)
        rest

  loop-Ends :
      (n c : ℕ) (ka : Kmem)
      → c % pgsize ≡ 0
      → pgroundup oldsz ≤ c
      → c ≤ pgroundup newsz
      → newsz ≤ c + n * pgsize
      → Grows end pgdir (pgroundup oldsz) c k free ka
      → Ends (alloc_loop end pgdir oldsz newsz (suc n) c ka)
  loop-Ends zero c ka al lo hi fuel g = full 0 c ka al hi (omega (arith, fuel)) g
  loop-Ends (suc n) c ka al lo hi fuel g = elim (Bool-cases (ltb c newsz)) [
    | inr past ↦ full (suc n) c ka al hi (ground (arith, past)) g
    | inl t ↦
        let lt : c < newsz = ground (arith, t) in
        elim (List-cases g.free') [
          | inl e ↦
              round (suc n) c ka (inr (grow_back end pgdir newsz oldsz ka)) lt
                (grow_page-empty end pgdir oldsz newsz c ka
                  (kalloc-empty end ka (subst (IsFreeList end ka) e g.owned.space.listed)))
                (empty-IsDone end pgdir oldsz newsz above old top k free clear c al lo lt ka g)
                (λ k2 g2.
                  loop-Ends n (c + pgsize) k2 (omega (arith, al)) (omega (arith, lo))
                    (omega (arith, lt, al, top)) (omega (arith, fuel)) g2)
          | inr (x, xs, e) ↦ taken (suc n) c x xs ka al lo lt g e (λ k2 g2.
              loop-Ends n (c + pgsize) k2 (omega (arith, al)) (omega (arith, lo))
                (omega (arith, lt, al, top)) (omega (arith, fuel)) g2)
        ]
  ]

-- With the kernel's end above KERNBASE: from `oldsz` to a `newsz` below KERNBASE that is not smaller, in a well-formed address space that has no
-- page from PGROUNDUP(oldsz) up to PGROUNDUP(newsz), `allocuvm` does not panic. Either it returns `newsz`, and
-- each address there is then a user's to read and write, at a page that holds zeros and was in nobody's
-- hands; or it returns 0, and no address there is mapped. Either way the address space is well-formed, every
-- other address leads where it led, and pages that were in other hands stay so and keep their words.
pub allocuvm-AllocEnds :
    (end pgdir oldsz newsz : ℕ) (k : Kmem) (free : List ℕ)
    → kernbase < end
    → IsOwned end k free pgdir
    → oldsz ≤ newsz
    → newsz < kernbase
    → Unmapped pgdir (pgroundup oldsz) (pgroundup newsz) k
    → AllocEnds end pgdir
        (pgroundup oldsz)
        (pgroundup newsz)
        newsz
        k
        free
        (allocuvm end pgdir oldsz newsz k)
unfolding allocuvm
allocuvm-AllocEnds end pgdir oldsz newsz k free above o old top clear =
    let t : leb kernbase newsz ≡ false = ground (arith, top) in
    let u : ltb newsz oldsz ≡ false = ground (arith, old) in
    let a = pgroundup oldsz in
    let fuel : suc (newsz / pgsize + 1) ≡ newsz / pgsize + 2 = omega arith in
    rw (t, u)
      (subst
        (λ n.
          AllocEnds end pgdir a (pgroundup newsz) newsz k free
            (alloc_loop end pgdir oldsz newsz n a k))
        fuel
        (loop-Ends end pgdir oldsz newsz above old top k free clear (newsz / pgsize + 1) a k
          (omega arith) (omega arith) (omega (arith, old, top)) (omega (arith, old, top))
          (Grows-refl end pgdir a k free o)))
