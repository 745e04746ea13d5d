-- ===== src/Vm/Dealloc/Loop.antt =====
-- The loop of `deallocuvm` of xv6/vm.c.
use operation_system.Vm.Dealloc.Join.{next_table, nothing-Frees, FreesOr-trans, no_table-Frees}
use Prim.Native.Nat.{zero}
use operation_system.Base.{
  ℕ, suc, ◌+◌, ◌*◌, ◌%◌, ◌^◌, ◌≤◌, ◌<◌, ◌≡◌, refl, inl, inr, true, false, none, some, List, arith,
  ltb, Bool-cases,
}
use operation_system.Kalloc.{Kmem, pgsize, kernbase}
use operation_system.Vm.{pdx, ptx, is_present, pde_at, table_at, walkpgdir}
use operation_system.Vm.Space.{lookup}
use operation_system.Vm.User.{free_entry, dealloc_loop}
use operation_system.Vm.Owned.{IsOwned}
use operation_system.Vm.Dealloc.{
  reads, free_entry-absent, not_there, is_cleared, freed, cleared, HasTable, slot, FreesOr,
}

walk_found :
    (pgdir a : ℕ) (k : Kmem)
    → is_present (pde_at k pgdir (pdx a)) ≡ true
    → (walkpgdir pgdir a false k).1 ≡ some (table_at k pgdir (pdx a) + 4 * ptx a)
unfolding walkpgdir
walk_found pgdir a k h = rw h refl

walk_missing :
    (pgdir a : ℕ) (k : Kmem)
    → is_present (pde_at k pgdir (pdx a)) ≡ false
    → (walkpgdir pgdir a false k).1 ≡ none
unfolding walkpgdir
walk_missing pgdir a k h = rw h refl

module _ (end pgdir oldsz : ℕ) where
  loop_done :
      (n a : ℕ) (k : Kmem) → ltb a oldsz ≡ false → dealloc_loop end pgdir oldsz (suc n) a k ≡ some k
  unfolding dealloc_loop
  loop_done n a k t = rw (t, dealloc_loop) refl

  loop_skips :
      (n a : ℕ) (k : Kmem)
      → ltb a oldsz ≡ true
      → (walkpgdir pgdir a false k).1 ≡ none
      → dealloc_loop end pgdir oldsz (suc n) a k
        ≡ dealloc_loop end pgdir oldsz n (next_table a % 2 ^ 32) k
  unfolding dealloc_loop
  loop_skips n a k t w = rw (t, dealloc_loop, w) refl

  loop_frees :
      (n a pte : ℕ) (k k2 : Kmem)
      → ltb a oldsz ≡ true
      → (walkpgdir pgdir a false k).1 ≡ some pte
      → free_entry end pte k ≡ some k2
      → dealloc_loop end pgdir oldsz (suc n) a k
        ≡ dealloc_loop end pgdir oldsz n ((a + pgsize) % 2 ^ 32) k2
  unfolding dealloc_loop
  loop_frees n a pte k k2 t w f = rw (t, dealloc_loop, w, f) refl

module _ (end pgdir : ℕ) where
  module _ (oldsz b : ℕ) (above : kernbase < end) (lo : oldsz ≤ b) (hi : b < oldsz + pgsize)
      (bl : b % pgsize ≡ 0) (top : b ≤ kernbase) where
    done-Frees :
        (n a : ℕ) (k : Kmem) (free : List ℕ)
        → IsOwned end k free pgdir
        → a % pgsize ≡ 0
        → oldsz ≤ a
        → FreesOr end pgdir a b k free (dealloc_loop end pgdir oldsz (suc n) a k)
    done-Frees n a k free o al past =
        let t : ltb a oldsz ≡ false = ground (arith, past) in
        rw (loop_done end pgdir oldsz n a k t)
          (nothing-Frees end pgdir a b k free o (λ va l u. absurd (omega (arith, l, u))))

    -- One round, at a page that the directory has a page table for.
    page-Frees :
        (n a : ℕ) (k : Kmem) (free : List ℕ)
        → (o : IsOwned end k free pgdir) → a % pgsize ≡ 0
        → a < oldsz
        → HasTable k pgdir (pdx a)
        → ((k1 : Kmem) (free1 : List ℕ)
            → IsOwned end k1 free1 pgdir
            → FreesOr end pgdir
                (a + pgsize)
                b
                k1
                free1
                (dealloc_loop end pgdir oldsz n (a + pgsize) k1))
        → FreesOr end pgdir a b k free (dealloc_loop end pgdir oldsz (suc n) a k)
    unfolding slot not_there
    page-Frees n a k free o al lt h rest =
        let l : a < kernbase = omega (arith, lt, lo, top) in
        let t : ltb a oldsz ≡ true = ground (arith, lt) in
        let w = walk_found pgdir a k h.1 in
        let pte = table_at k pgdir (pdx a) + 4 * ptx a in
        let q : (a + pgsize) % 2 ^ 32 ≡ a + pgsize = omega (arith, l) in
        let up : a + pgsize ≤ b = omega (arith, lt, lo, al, bl) in
        elim (Bool-cases (is_present (lookup k pgdir a))) [
          | inl there ↦
              let c = cleared end pgdir above a k free o al l h there in
              let f = freed end pgdir above a k free o al l h there in
              rw
                (
                  loop_frees end pgdir oldsz n a pte k c t w
                      (is_cleared end pgdir above a k free o al l h there),
                  q,
                )
                (FreesOr-trans end pgdir a (a + pgsize) b k c free
                  (dealloc_loop end pgdir oldsz n (a + pgsize) c) (omega arith) up
                  (omega (arith, top)) f (rest c f.free' f.owned))
          | inr gone ↦
              let f = not_there end pgdir above a k free o al l h gone in
              rw
                (
                  loop_frees end pgdir oldsz n a pte k k t w (
                      free_entry-absent end pte (lookup k pgdir a) k
                        (reads end pgdir above a k free o al l h) gone),
                  q,
                )
                (FreesOr-trans end pgdir a (a + pgsize) b k k free
                  (dealloc_loop end pgdir oldsz n (a + pgsize) k) (omega arith) up
                  (omega (arith, top)) f (rest k free o))
        ]

    -- The loop from the page `a` on, where `n` rounds more reach `oldsz`.
    pub loop-Frees :
        (n a : ℕ) (k : Kmem) (free : List ℕ)
        → IsOwned end k free pgdir
        → a % pgsize ≡ 0
        → oldsz ≤ a + n * pgsize
        → FreesOr end pgdir a b k free (dealloc_loop end pgdir oldsz (suc n) a k)
    unfolding no_table-Frees nothing-Frees
    loop-Frees zero a k free o al fuel = done-Frees 0 a k free o al (omega (arith, fuel))
    loop-Frees (suc n) a k free o al fuel = elim (Bool-cases (ltb a oldsz)) [
      | inr past ↦ done-Frees (suc n) a k free o al (ground (arith, past))
      | inl t ↦
          let lt : a < oldsz = ground (arith, t) in
          let l : a < kernbase = omega (arith, lt, lo, top) in
          elim (Bool-cases (is_present (pde_at k pgdir (pdx a)))) [
            | inl there ↦
                page-Frees (suc n) a k free o al lt (omega arith, there)
                  λ k1 free1 o1.
                    loop-Frees n (a + pgsize) k1 free1 o1 (omega (arith, al)) (omega (arith, fuel))
            | inr gone ↦
                let c = next_table a in
                let q : c % 2 ^ 32 ≡ c = omega (arith, l) in
                let up : a + pgsize ≤ c = omega (arith, l, al) in
                rw (loop_skips end pgdir oldsz (suc n) a k t (walk_missing pgdir a k gone), q)
                  (elim (Bool-cases (ltb c oldsz)) [
                    | inl more ↦
                        let m : c < oldsz = ground (arith, more) in
                        FreesOr-trans end pgdir a c b k k free
                          (dealloc_loop end pgdir oldsz (suc n) c k) (omega (arith, up))
                          (omega (arith, m, lo)) (omega (arith, top))
                          (no_table-Frees end pgdir a c k free o l gone (omega arith))
                          (loop-Frees n c k free o (omega arith) (omega (arith, fuel, up)))
                    | inr end_here ↦
                        let m : oldsz ≤ c = ground (arith, end_here) in
                        let u : ltb c oldsz ≡ false = end_here in
                        rw (loop_done end pgdir oldsz n c k u)
                          (no_table-Frees end pgdir a b k free o l gone (omega (arith, m, hi, bl)))
                  ])
          ]
    ]
