-- ===== src/Kalloc/FreeList.antt =====
-- What the free list of xv6/kalloc.c holds, and what each operation does to it.
use operation_system.Base.{
  ◌/◌, ℕ, ◌+◌, ◌%◌, ◌^◌, ◌≤◌, ◌<◌, ◌≡◌, refl, ◌≢◌, false, some, List, [], ◌∷◌, arith, ◌==◌, NotMem,
  Distinct, All,
}
use operation_system.Kalloc.{
  Kmem, pgsize, kernbase, phystop, write, fill_junk, rejects, kfree, kalloc,
}

-- From `p` the first words lead through the pages of the list to 0.
abbrev pub Chain : (ℕ → ℕ) → ℕ → List ℕ → Type 0
Chain word p [] = p ≡ 0
Chain word p (x ∷ xs) = (p ≡ x) × (x ≢ 0) × Chain word (word x) xs

module _ (end : ℕ) where
  -- A page that `kfree` accepts: aligned, above the kernel, below the end of physical memory.
  pub record IsPage (v : ℕ) : Type 0 where
    pub aligned : v % pgsize ≡ 0
    pub above : end ≤ v
    pub mapped : kernbase ≤ v
    pub below : v < kernbase + phystop

  pub record IsFreeList (k : Kmem) (pages : List ℕ) : Type 0 where
    pub chain : Chain k.word k.freelist pages
    pub distinct : Distinct pages
    pub all_pages : All IsPage pages

  pub rejects-false : (v : ℕ) → IsPage v → rejects end v ≡ false
  rejects-false v p = ground arith

  -- A panic of `kfree` is exactly a bad address.
  pub rejects-IsPage : (v : ℕ) → v < 2 ^ 32 → rejects end v ≡ false → IsPage v
  rejects-IsPage v w e = ground arith

  -- Filling and linking one page leaves the chain through others as it is.
  Chain-frame :
      (word : ℕ → ℕ) (v x p : ℕ) (pages : List ℕ)
      → v % pgsize ≡ 0
      → NotMem v pages
      → All IsPage pages
      → Chain word p pages
      → Chain (write (fill_junk word v) v x) p pages
  Chain-frame word v x p [] al out ok c = c
  Chain-frame word v x p (y ∷ ys) al out ok c =
      (c.0, c.1, rw same (Chain-frame word v x (word y) ys al out.1 ok.1 c.2))
    where
      same : write (fill_junk word v) v x y ≡ word y
      same = ground (arith, out.0, ok.0.aligned)

  -- `kfree` of a page that is not free panics at no page, and puts it in front of the free list.
  pub kfree-IsFreeList :
      (k : Kmem) (v : ℕ) (pages : List ℕ)
      → IsFreeList k pages
      → IsPage v
      → NotMem v pages
      → (k' : Kmem) × (kfree end k v ≡ some k') × IsFreeList k' (v ∷ pages)
  unfolding kfree
  kfree-IsFreeList k v pages f p out = (
    record k { freelist = v; word = write (fill_junk k.word v) v k.freelist },
    rw (rejects-false v p),
    record {
      chain = (
        refl,
        omega (arith, p.mapped),
        rw linked
            (Chain-frame k.word v k.freelist k.freelist pages p.aligned out f.all_pages f.chain),
      );
      distinct = (out, f.distinct);
      all_pages = (p, f.all_pages);
    },
  )
    where
      linked : write (fill_junk k.word v) v k.freelist v ≡ k.freelist
      linked = ground arith

  -- `kfree` writes in its page only.
  pub kfree-word :
      (k k' : Kmem) (v a : ℕ)
      → kfree end k v ≡ some k'
      → v % pgsize ≡ 0
      → a / pgsize ≢ v / pgsize
      → k'.word a ≡ k.word a
  unfolding kfree
  kfree-word k k' v a e al ne = ground (arith, e, al, ne)

  -- `kalloc` hands out the first free page and leaves the others, or 0 if there is none.
  pub kalloc-IsFreeList :
      (k : Kmem) (x : ℕ) (pages : List ℕ)
      → IsFreeList k (x ∷ pages)
      → ((kalloc k).0 ≡ x) × IsFreeList (kalloc k).1 pages × NotMem x pages × IsPage x
  unfolding kalloc
  kalloc-IsFreeList k x pages f =
      let ne : (k.freelist == 0) ≡ false = ground (arith, f.chain) in
      rw ne (
        f.chain.0,
        record {
          chain = rw (f.chain.0) (f.chain.2);
          distinct = f.distinct.1;
          all_pages = f.all_pages.1;
        },
        f.distinct.0,
        f.all_pages.0,
      )

  pub kalloc-empty : (k : Kmem) → IsFreeList k [] → kalloc k ≡ (0, k)
  unfolding kalloc
  kalloc-empty k f = rw (f.chain)
