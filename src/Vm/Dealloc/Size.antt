-- ===== src/Vm/Dealloc/Size.antt =====
-- `deallocuvm` of xv6/vm.c: the whole call.
use operation_system.Vm.Dealloc.Loop.{loop-Frees}
use operation_system.Vm.Dealloc.{IsOwned, Frees, FreesOr}
use operation_system.Vm.User.{dealloc_loop, deallocuvm}
use operation_system.Kalloc.{pgsize, pgroundup, kernbase, Kmem}
use operation_system.Base.{
  ℕ, suc, ◌+◌, ◌/◌, ◌≤◌, ◌<◌, ◌≡◌, refl, subst, false, Option, none, some, List, arith, leb,
}

FreesOr-done :
    (end pgdir a b : ℕ) (k : Kmem) (free : List ℕ) (r : Option Kmem)
    → FreesOr end pgdir a b k free r
    → (k' : Kmem) × (r ≡ some k') × Frees end pgdir a b k free k'
FreesOr-done end pgdir a b k free none f = absurd f
FreesOr-done end pgdir a b k free (some k') f = (k', refl, f)

-- With the kernel's end above KERNBASE, and where each user page is mapped once, at a page that is neither
-- free nor a page table, `deallocuvm` from
-- `oldsz` (up to KERNBASE) to a smaller `newsz` does not panic and returns `newsz`: no address from
-- PGROUNDUP(newsz) up to PGROUNDUP(oldsz) is mapped, every other address leads where it led, every page of
-- memory that was mapped there is on the free list, all other pages in use keep their words, and the
-- address space is as well-formed as before.
pub deallocuvm-Frees :
    (end pgdir oldsz newsz : ℕ) (k : Kmem) (free : List ℕ)
    → kernbase < end
    → IsOwned end k free pgdir
    → newsz < oldsz
    → oldsz ≤ kernbase
    → (k' : Kmem) × (deallocuvm end pgdir oldsz newsz k ≡ some (k', newsz))
      × Frees end pgdir (pgroundup newsz) (pgroundup oldsz) k free k'
unfolding deallocuvm
deallocuvm-Frees end pgdir oldsz newsz k free above o lt top =
    let t : leb oldsz newsz ≡ false = ground (arith, lt) in
    let fuel : suc (oldsz / pgsize + 1) ≡ oldsz / pgsize + 2 = omega arith in
    let b = pgroundup oldsz in
    let (k', e, f) =
      FreesOr-done end pgdir (pgroundup newsz) b k free
        (dealloc_loop end pgdir oldsz (oldsz / pgsize + 2) (pgroundup newsz) k)
        (subst
          (λ n.
            FreesOr end pgdir (pgroundup newsz) b k free
              (dealloc_loop end pgdir oldsz n (pgroundup newsz) k))
          fuel
          (loop-Frees end pgdir oldsz b above (omega (arith, top)) (omega (arith, top))
            (omega arith) (omega (arith, top)) (oldsz / pgsize + 1) (pgroundup newsz) k free o
            (omega arith) (omega (arith, top)))) in
    (k', rw (t, e) refl, f)
