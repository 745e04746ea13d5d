-- ===== src/Vm/Space.antt =====
-- A page directory of xv6/vm.c with its page tables, among the pages of xv6/kalloc.c; and what a change
-- elsewhere leaves.
use operation_system.Base.{
  refl, subst, ◌∙◌, sym, ap, ℕ, ◌+◌, ◌*◌, ◌/◌, ◌%◌, ◌<◌, ◌≡◌, ◌≢◌, true, List, [], ◌∷◌, arith,
  if◌then◌else◌, NotMem, All,
}
use operation_system.Kalloc.{Kmem, pgsize}
use operation_system.Kalloc.FreeList.{Chain, IsPage, IsFreeList}
use operation_system.Vm.{pte_addr, p2v, pdx, ptx, is_present, pde_at, table_at}

-- Whether the directory has a page table for its entry `i`.
abbrev pub HasTable : Kmem → ℕ → ℕ → Type 0
HasTable k pgdir i = (i < 1024) × (is_present (pde_at k pgdir i) ≡ true)

-- Directory and page tables are different pages, and none of them is free.
pub record IsSpace (end : ℕ) (k : Kmem) (free : List ℕ) (pgdir : ℕ) : Type 0 where
  pub listed : IsFreeList end k free
  pub dir_aligned : pgdir % pgsize ≡ 0
  pub dir_used : NotMem pgdir free
  pub table_page : (i : ℕ) → HasTable k pgdir i → IsPage end (table_at k pgdir i)
  pub table_used : (i : ℕ) → HasTable k pgdir i → NotMem (table_at k pgdir i) free
  pub table_dir : (i : ℕ) → HasTable k pgdir i → table_at k pgdir i ≢ pgdir
  pub once :
      (i j : ℕ)
      → HasTable k pgdir i
      → HasTable k pgdir j
      → table_at k pgdir i ≡ table_at k pgdir j
      → i ≡ j

-- The entry that the processor finds for `va`, which is 0 where there is no page table.
abbrev pub lookup : Kmem → ℕ → ℕ → ℕ
lookup k pgdir va =
    if is_present (pde_at k pgdir (pdx va))
    then k.word (table_at k pgdir (pdx va) + 4 * ptx va)
    else 0

-- A page that is in other hands: neither free, nor the directory, nor one of its tables.
pub record Spare (end : ℕ) (k : Kmem) (free : List ℕ) (pgdir f : ℕ) : Type 0 where
  pub page : IsPage end f
  pub used : NotMem f free
  pub no_dir : f ≢ pgdir
  pub no_table : (i : ℕ) → HasTable k pgdir i → f ≢ table_at k pgdir i

-- Such pages stay so, and keep their words.
abbrev pub Keeps : ℕ → ℕ → Kmem → List ℕ → Kmem → List ℕ → Type 0
Keeps end pgdir k free k' free' =
    (f : ℕ)
    → Spare end k free pgdir f
    → Spare end k' free' pgdir f × ((a : ℕ) → a / pgsize ≡ f / pgsize → k'.word a ≡ k.word a)

pub Keeps-refl : (end pgdir : ℕ) (k : Kmem) (free : List ℕ) → Keeps end pgdir k free k free
Keeps-refl end pgdir k free f s = (s, λ a e. refl)

pub Keeps-trans :
    (end pgdir : ℕ) (k k1 k2 : Kmem) (free free1 free2 : List ℕ)
    → Keeps end pgdir k free k1 free1
    → Keeps end pgdir k1 free1 k2 free2
    → Keeps end pgdir k free k2 free2
Keeps-trans end pgdir k k1 k2 free free1 free2 f g page s =
    let (s1, w1) = f page s in let (s2, w2) = g page s1 in (s2, λ a e. w2 a e ∙ w1 a e)

-- The free list as long as its own words are the same.
Chain-same :
    (word word' : ℕ → ℕ) (p : ℕ) (pages : List ℕ)
    → All (λ x. word' x ≡ word x) pages
    → Chain word p pages
    → Chain word' p pages
Chain-same word word' p [] same c = c
Chain-same word word' p (x ∷ xs) same c =
    (c.0, c.1, rw (same.0) (Chain-same word word' (word x) xs same.1 c.2))

module _ (end : ℕ) (k : Kmem) (free : List ℕ) (listed : IsFreeList end k free) where
  -- A change within a page that is not free.
  pub change-IsFreeList :
      (page : ℕ) (word : ℕ → ℕ)
      → page % pgsize ≡ 0
      → NotMem page free
      → ((a : ℕ) → a / pgsize ≢ page / pgsize → word a ≡ k.word a)
      → IsFreeList end (record k { word = word }) free
  change-IsFreeList page word al out same = record {
    chain = Chain-same k.word word k.freelist free (keeps free out listed.all_pages) listed.chain;
    distinct = listed.distinct;
    all_pages = listed.all_pages;
  }
    where
      keeps :
          (pages : List ℕ)
          → NotMem page pages
          → All (IsPage end) pages
          → All (λ x. word x ≡ k.word x) pages
      keeps [] out ok = tt
      keeps (x ∷ xs) out ok =
          let apart = out.0 in
          let fits = ok.0.aligned in (same x (λ e. apart (omega (arith, e))), keeps xs out.1 ok.1)

module _ (end : ℕ) (k : Kmem) (free : List ℕ) (pgdir : ℕ) (s : IsSpace end k free pgdir) where
  -- The entry for `va` is in none of the other pages.
  pub entry_page :
      (i x : ℕ)
      → HasTable k pgdir i
      → x < 1024
      → (table_at k pgdir i + 4 * x) / pgsize ≡ table_at k pgdir i / pgsize
  entry_page i x h lt = let al = (s.table_page i h).aligned in omega (arith, al)

  pub dir_page : (i : ℕ) → i < 1024 → (pgdir + 4 * i) / pgsize ≡ pgdir / pgsize
  dir_page i lt = let al = s.dir_aligned in omega (arith, al)

  pub table-dir_page : (i : ℕ) → HasTable k pgdir i → table_at k pgdir i / pgsize ≢ pgdir / pgsize
  table-dir_page i h e =
      let al = (s.table_page i h).aligned in
      let dal = s.dir_aligned in s.table_dir i h (omega (arith, al, dal, e))

  pub same_dir-IsSpace :
      (k' : Kmem)
      → IsFreeList end k' free
      → ((j : ℕ) → j < 1024 → pde_at k' pgdir j ≡ pde_at k pgdir j)
      → IsSpace end k' free pgdir
  same_dir-IsSpace k' listed eq = record {
    listed = listed;
    dir_aligned = s.dir_aligned;
    dir_used = s.dir_used;
    table_page = λ i h. subst (IsPage end) (sym (table i h)) (s.table_page i (back i h));
    table_used = λ i h. subst (λ t. NotMem t free) (sym (table i h)) (s.table_used i (back i h));
    table_dir = λ i h e. s.table_dir i (back i h) (sym (table i h) ∙ e);
    once = λ i j h g e. s.once i j (back i h) (back j g) (sym (table i h) ∙ e ∙ table j g);
  }
    where
      back : (i : ℕ) → HasTable k' pgdir i → HasTable k pgdir i
      back i h = (h.0, ap is_present (sym (eq i h.0)) ∙ h.1)

      table : (i : ℕ) → HasTable k' pgdir i → table_at k' pgdir i ≡ table_at k pgdir i
      table i h = ap (λ e. p2v (pte_addr e)) (eq i h.0)

  pub same_dir-Spare :
      (k' : Kmem) (f : ℕ)
      → ((j : ℕ) → j < 1024 → pde_at k' pgdir j ≡ pde_at k pgdir j)
      → Spare end k free pgdir f
      → Spare end k' free pgdir f
  same_dir-Spare k' f eq sp = record {
    page = sp.page;
    used = sp.used;
    no_dir = sp.no_dir;
    no_table = λ i h e.
        sp.no_table i (h.0, ap is_present (sym (eq i h.0)) ∙ h.1)
          (e ∙ ap (λ p. p2v (pte_addr p)) (eq i h.0));
  }
