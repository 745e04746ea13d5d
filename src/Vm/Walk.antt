-- ===== src/Vm/Walk.antt =====
-- `walkpgdir` of xv6/vm.c where it may allocate.
use operation_system.Kalloc.FreeList.{kalloc-IsFreeList, IsFreeList, kalloc-empty, IsPage}
use operation_system.Vm.Table.{
  new-Keeps, new-lookup, new-table_self, new-HasTable, new-IsSpace, with_table,
}
use operation_system.Base.{
  subst, sym, ◌<◌, ◌≢◌, ◌∙◌, ◌==◌, NotMem, if◌then◌else◌, ap, ℕ, ◌+◌, ◌*◌, ◌≡◌, refl, inl, inr,
  true, false, Option, none, some, List, [], ◌∷◌, arith, Bool-cases,
}
use operation_system.Kalloc.{Kmem, kalloc}
use operation_system.Vm.{
  pte_addr, p2v, pdx, ptx, is_present, pde_at, table_at, new_table, walkpgdir,
}
use operation_system.Vm.Space.{Spare, Keeps, Keeps-refl, HasTable, IsSpace, lookup}

-- There was no free page, and nothing has changed; or there is an entry for `va`, and the processor finds
-- for every address what it found before.
abbrev pub Walked : ℕ → ℕ → ℕ → Kmem → List ℕ → Kmem × Option ℕ → Type 0
Walked end pgdir va k free (k', none) =
    IsSpace end k' [] pgdir
    × ((a : ℕ) → lookup k' pgdir a ≡ lookup k pgdir a)
    × Keeps end pgdir k free k' []
Walked end pgdir va k free (k', some pte) =
    (free' : List ℕ) × IsSpace end k' free' pgdir
    × HasTable k' pgdir (pdx va)
    × (pte ≡ table_at k' pgdir (pdx va) + 4 * ptx va)
    × ((a : ℕ) → lookup k' pgdir a ≡ lookup k pgdir a)
    × Keeps end pgdir k free k' free'

-- `kalloc` has given the page `x`, which is none of the directory and its page tables.
pub record Gives (end : ℕ) (k : Kmem) (x : ℕ) (free : List ℕ) (pgdir : ℕ) : Type 0 where
  pub left : Kmem
  pub gave : kalloc k ≡ (x, left)
  pub word : left.word ≡ k.word
  pub space : IsSpace end left free pgdir
  pub page : IsPage end x
  pub fresh : NotMem x free
  pub other : x ≢ pgdir
  pub apart : (j : ℕ) → HasTable left pgdir j → x ≢ table_at left pgdir j
  pub spares : (f : ℕ) → Spare end k (x ∷ free) pgdir f → Spare end left free pgdir f × (x ≢ f)

pub same_words :
    (k k' : Kmem) (pgdir a : ℕ) → k.word ≡ k'.word → lookup k pgdir a ≡ lookup k' pgdir a
same_words k k' pgdir a e =
    ap
      (λ (w : ℕ → ℕ).
        if is_present (w (pgdir + 4 * pdx a))
        then w (p2v (pte_addr (w (pgdir + 4 * pdx a))) + 4 * ptx a)
        else 0)
      e

module _ (end : ℕ) (pgdir : ℕ) where
  pub kalloc-Gives :
      (k : Kmem) (x : ℕ) (free : List ℕ) → IsSpace end k (x ∷ free) pgdir → Gives end k x free pgdir
  unfolding kalloc
  kalloc-Gives k x free s =
      let left = record k { freelist = k.word k.freelist } in
      let t : (k.freelist == 0) ≡ false = (let c = s.listed.chain in ground (arith, c)) in
      let all : kalloc k ≡ (x, left) = rw t (ap (λ y. (y, left)) s.listed.chain.0) in
      record {
        left = left;
        gave = all;
        word = refl;
        space = record {
          listed =
              subst (λ (r : ℕ × Kmem). IsFreeList end r.1 free) all
                (kalloc-IsFreeList end k x free s.listed).1;
          dir_aligned = s.dir_aligned;
          dir_used = s.dir_used.1;
          table_page = s.table_page;
          table_used = λ i h. (s.table_used i h).1;
          table_dir = s.table_dir;
          once = s.once;
        };
        page = s.listed.all_pages.0;
        fresh = s.listed.distinct.0;
        other = s.dir_used.0;
        apart = λ j h. (s.table_used j h).0;
        spares = λ f sp. (
          record { page = sp.page; used = sp.used.1; no_dir = sp.no_dir; no_table = sp.no_table },
          sp.used.0,
        );
      }

  pub page-ne-zero : (x : ℕ) → IsPage end x → (x == 0) ≡ false
  page-ne-zero x p = let m = p.mapped in ground (arith, m)

  -- The page at the head of the free list becomes the table.
  taken-Walked :
      (va : ℕ) (k : Kmem) (x : ℕ) (free : List ℕ)
      → IsSpace end k (x ∷ free) pgdir
      → is_present (pde_at k pgdir (pdx va)) ≡ false
      → Walked end pgdir va k (x ∷ free) (new_table pgdir va (kalloc k))
  unfolding with_table
  taken-Walked va k x free s gone =
      let g = kalloc-Gives k x free s in
      let i = pdx va in
      let gone' : is_present (pde_at g.left pgdir i) ≡ false =
        ap (λ (w : ℕ → ℕ). is_present (w (pgdir + 4 * i))) g.word ∙ gone in
      let lt : i < 1024 = omega arith in
      rw (g.gave, page-ne-zero x g.page)
        (
          free,
          new-IsSpace end g.left free pgdir x i g.space g.page g.fresh g.other g.apart lt gone',
          new-HasTable end g.left free pgdir x i g.space g.page g.fresh g.other g.apart lt gone',
          ap (λ t. t + 4 * ptx va)
              (sym (
                new-table_self end g.left free pgdir x i g.space g.page g.fresh g.other g.apart lt
                  gone')),
          (λ a.
              new-lookup end g.left free pgdir x i g.space g.page g.fresh g.other g.apart lt gone' a
              ∙ same_words g.left k pgdir a g.word),
          (λ f sp.
              let (s1, ne) = g.spares f sp in
              let (s2, w) =
                new-Keeps end g.left free pgdir x i g.space g.page g.fresh g.other g.apart lt gone'
                  f ne s1 in
              (s2, λ a q. w a q ∙ ap (λ (word : ℕ → ℕ). word a) g.word)),
        )

  pub walkpgdir-Walked :
      (va : ℕ) (k : Kmem) (free : List ℕ)
      → IsSpace end k free pgdir
      → Walked end pgdir va k free (walkpgdir pgdir va true k)
  unfolding walkpgdir
  walkpgdir-Walked va k free s = elim (Bool-cases (is_present (pde_at k pgdir (pdx va)))) [
    | inl there ↦
        rw there (free, s, (omega arith, there), refl, (λ a. refl), Keeps-refl end pgdir k free)
    | inr gone ↦ rw gone (missing free s gone)
  ]
    where
      missing :
          (free : List ℕ)
          → IsSpace end k free pgdir
          → is_present (pde_at k pgdir (pdx va)) ≡ false
          → Walked end pgdir va k free (new_table pgdir va (kalloc k))
      missing [] s gone =
          rw (kalloc-empty end k s.listed) (s, (λ a. refl), Keeps-refl end pgdir k [])
      missing (x ∷ free) s gone = taken-Walked va k x free s gone
