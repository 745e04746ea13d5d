-- ===== src/Kalloc/Range.antt =====
-- `freerange` frees exactly the whole pages of a range (xv6/kalloc.c).
use operation_system.Base.{
  ap, ◌∙◌, ◌⊎◌, ℕ, zero, suc, ◌+◌, ◌-◌, ◌*◌, ◌/◌, ◌%◌, ◌^◌, ◌≤◌, ◌<◌, ◌≡◌, ◌≢◌, true, false, some,
  List, ◌∷◌, arith, leb, NotMem, length, All, All-weaken,
}
use operation_system.Kalloc.{
  kfree, Kmem, pgsize, kernbase, phystop, pgroundup, freerange_loop, freerange,
}
use operation_system.Kalloc.FreeList.{kfree-IsFreeList, IsPage, IsFreeList}

-- The `m` pages from `p` on, put one by one in front of a list.
unfoldable pub range_pages : ℕ → ℕ → List ℕ → List ℕ
range_pages zero p pages = pages
range_pages (suc m) p pages = range_pages m (p + pgsize) (p ∷ pages)

pub length-range_pages :
    (m p : ℕ) (pages : List ℕ) → length (range_pages m p pages) ≡ m + length pages
unfolding range_pages
length-range_pages zero p pages = omega arith
length-range_pages (suc m) p pages = omega (arith, length-range_pages m (p + pgsize) (p ∷ pages))

module _ (end : ℕ) where
  NotMem-of_below : (p : ℕ) (pages : List ℕ) → All (λ y. y < p) pages → NotMem p pages
  NotMem-of_below p pages h =
      All-weaken (λ y. y < p) (λ y. y ≢ p) pages h (λ y lt. omega (arith, lt))

  freerange_loop-step :
      (n p q vend : ℕ) (k k' : Kmem)
      → leb ((p + pgsize) % 2 ^ 32) vend ≡ true
      → kfree end k p ≡ some k'
      → (p + pgsize) % 2 ^ 32 ≡ q
      → freerange_loop end (suc n) p vend k ≡ freerange_loop end n q vend k'
  unfolding freerange_loop
  freerange_loop-step n p q vend k k' go freed e =
      rw (go, freed, freerange_loop) (ap (λ r. freerange_loop end n r vend k') e)

  freerange_loop_lem :
      (n m p vend : ℕ) (k : Kmem) (pages : List ℕ)
      → m < n
      → IsFreeList end k pages
      → All (λ y. y < p) pages
      → p % pgsize ≡ 0
      → end ≤ p
      → kernbase ≤ p
      → vend ≤ kernbase + phystop
      → p + pgsize < 2 ^ 32
      → (m ≡ 0) ⊎ (p + m * pgsize ≤ vend)
      → vend < p + m * pgsize + pgsize
      → (k' : Kmem) × (freerange_loop end n p vend k ≡ some k')
        × IsFreeList end k' (range_pages m p pages)
  unfolding freerange_loop range_pages
  freerange_loop_lem zero m p vend k pages lt f b al e kb top small lo hi = absurd (omega arith)
  freerange_loop_lem (suc n) zero p vend k pages lt f b al e kb top small lo hi =
      let stop : leb ((p + pgsize) % 2 ^ 32) vend ≡ false = ground arith in
      (k, rw (stop, freerange_loop), f)
  freerange_loop_lem (suc n) (suc m) p vend k pages lt f b al e kb top small lo hi =
      let go : leb ((p + pgsize) % 2 ^ 32) vend ≡ true = ground arith in
      let is_page : IsPage end p = omega arith in
      let (k', freed, f') = kfree-IsFreeList end k p pages f is_page (NotMem-of_below p pages b) in
      let next : (p + pgsize) % 2 ^ 32 ≡ p + pgsize = omega arith in
      let (k'', done, f'') =
        freerange_loop_lem n m (p + pgsize) vend k' (p ∷ pages) (omega arith) f'
          (
            omega arith,
            All-weaken (λ y. y < p) (λ y. y < p + pgsize) pages b (λ y h. omega (arith, h)),
          )
          (omega arith) (omega arith) (omega arith) top (omega arith) (omega arith) (omega arith) in
      (k'', freerange_loop-step n p (p + pgsize) vend k k' go freed next ∙ done, f'')

  -- `freerange` over a range of kernel addresses above every page that is free puts the range's
  -- whole pages on the free list, in order, each once, and panics at none.
  pub freerange-IsFreeList :
      (vstart vend : ℕ) (k : Kmem) (pages : List ℕ)
      → IsFreeList end k pages
      → All (λ y. y < pgroundup vstart) pages
      → end ≤ vstart
      → kernbase ≤ vstart
      → vstart ≤ vend
      → vend ≤ kernbase + phystop
      → (k' : Kmem) × (freerange end vstart vend k ≡ some k')
        × IsFreeList end k'
            (range_pages ((vend - pgroundup vstart) / pgsize) (pgroundup vstart) pages)
  unfolding freerange
  freerange-IsFreeList vstart vend k pages f b e kb ord top =
      freerange_loop_lem (vend / pgsize + 1) ((vend - pgroundup vstart) / pgsize) (pgroundup vstart)
        vend k pages (omega arith) f b (omega arith) (omega arith) (omega arith) top (omega arith)
        (omega arith) (omega arith)
