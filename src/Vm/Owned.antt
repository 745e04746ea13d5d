-- ===== src/Vm/Owned.antt =====
-- The user pages of an address space of xv6/vm.c, and what becomes of it when one is freed.
use operation_system.Kalloc.FreeList.{IsPage, kfree-word, kfree-IsFreeList, IsFreeList}
use operation_system.Base.{
  refl, inr, inl, NotMem, Bool-cases, arith, sym, ◌*◌, if◌then◌else◌, ◌+◌, ap, subst, ◌∙◌, ℕ, ◌/◌,
  ◌<◌, ◌≡◌, ◌≢◌, true, some, List, ◌∷◌,
}
use operation_system.Kalloc.{Kmem, pgsize, kernbase, kfree}
use operation_system.Vm.{ptx, pde_at, pdx, table_at, p2v, pte_addr, is_present}
use operation_system.Vm.Space.{entry_page, dir_page, HasTable, IsSpace, lookup, Spare}

abbrev pub frame : Kmem → ℕ → ℕ → ℕ
frame k pgdir va = p2v (pte_addr (lookup k pgdir va))

abbrev pub IsMapped : Kmem → ℕ → ℕ → Type 0
IsMapped k pgdir va = (va < kernbase) × (is_present (lookup k pgdir va) ≡ true)

-- Each page below KERNBASE that is mapped has a page of memory for itself.
pub record IsOwned (end : ℕ) (k : Kmem) (free : List ℕ) (pgdir : ℕ) : Type 0 where
  pub space : IsSpace end k free pgdir
  pub owns : (va : ℕ) → IsMapped k pgdir va → Spare end k free pgdir (frame k pgdir va)
  pub alone :
      (a b : ℕ)
      → IsMapped k pgdir a
      → IsMapped k pgdir b
      → frame k pgdir a ≡ frame k pgdir b
      → a / pgsize ≡ b / pgsize

-- A change that leaves the addresses below KERNBASE where they lead.
pub IsOwned-same :
    (end pgdir : ℕ) (k k' : Kmem) (free free' : List ℕ)
    → IsOwned end k free pgdir
    → IsSpace end k' free' pgdir
    → ((va : ℕ) → va < kernbase → lookup k' pgdir va ≡ lookup k pgdir va)
    → ((va : ℕ) → IsMapped k pgdir va → Spare end k' free' pgdir (frame k pgdir va))
    → IsOwned end k' free' pgdir
IsOwned-same end pgdir k k' free free' o s same spare = record {
  space = s;
  owns = λ va m. subst (Spare end k' free' pgdir) (sym (frames va m)) (spare va (back va m));
  alone = λ a b m n e. o.alone a b (back a m) (back b n) (sym (frames a m) ∙ e ∙ frames b n);
}
  where
    back : (va : ℕ) → IsMapped k' pgdir va → IsMapped k pgdir va
    back va m = (m.0, ap is_present (sym (same va m.0)) ∙ m.1)

    frames : (va : ℕ) → IsMapped k' pgdir va → frame k' pgdir va ≡ frame k pgdir va
    frames va m = ap (λ e. p2v (pte_addr e)) (same va m.0)

-- `kfree` of a page that the directory and its tables are not.
module _ (end : ℕ) (k : Kmem) (free : List ℕ) (pgdir v : ℕ) (s : IsSpace end k free pgdir)
    (sp : Spare end k free pgdir v) where
  pub record Gave : Type 0 where
    pub left : Kmem
    pub gave : kfree end k v ≡ some left
    pub space : IsSpace end left (v ∷ free) pgdir
    pub pde : (i : ℕ) → i < 1024 → pde_at left pgdir i ≡ pde_at k pgdir i
    pub same : (va : ℕ) → lookup left pgdir va ≡ lookup k pgdir va
    pub word : (a : ℕ) → a / pgsize ≢ v / pgsize → left.word a ≡ k.word a
    pub spares : (f : ℕ) → v ≢ f → Spare end k free pgdir f → Spare end left (v ∷ free) pgdir f

  module _ (left : Kmem) (same : (a : ℕ) → a / pgsize ≢ v / pgsize → left.word a ≡ k.word a) where
    pub left-pde : (i : ℕ) → i < 1024 → pde_at left pgdir i ≡ pde_at k pgdir i
    left-pde i lt =
        let p = dir_page end k free pgdir s i lt in
        let al = sp.page.aligned in
        let dal = s.dir_aligned in
        let ne = sp.no_dir in same (pgdir + 4 * i) (λ e. ne (omega (arith, p, e, al, dal)))

    left-HasTable : (i : ℕ) → HasTable left pgdir i → HasTable k pgdir i
    left-HasTable i h = (h.0, ap is_present (sym (left-pde i h.0)) ∙ h.1)

    left-table : (i : ℕ) → i < 1024 → table_at left pgdir i ≡ table_at k pgdir i
    left-table i lt = ap (λ e. p2v (pte_addr e)) (left-pde i lt)

    left-entry :
        (i x : ℕ)
        → HasTable k pgdir i
        → x < 1024
        → left.word (table_at k pgdir i + 4 * x) ≡ k.word (table_at k pgdir i + 4 * x)
    left-entry i x h lt =
        let p = entry_page end k free pgdir s i x h lt in
        let al = sp.page.aligned in
        let tal = (s.table_page i h).aligned in
        let ne = sp.no_table i h in
        same (table_at k pgdir i + 4 * x) (λ e. ne (omega (arith, p, e, al, tal)))

    pub left-lookup : (va : ℕ) → lookup left pgdir va ≡ lookup k pgdir va
    left-lookup va =
        let i = pdx va in
        let x = ptx va in
        let view = λ (p : ℕ). if is_present p then left.word (p2v (pte_addr p) + 4 * x) else 0 in
        elim (Bool-cases (is_present (pde_at k pgdir i))) [
          | inl there ↦
              ap view (left-pde i (omega arith))
              ∙ rw there (left-entry i x (omega arith, there) (omega arith))
          | inr gone ↦ ap view (left-pde i (omega arith)) ∙ rw gone refl
        ]

    left-Spare : (f : ℕ) → v ≢ f → Spare end k free pgdir f → Spare end left (v ∷ free) pgdir f
    left-Spare f ne q = record {
      page = q.page;
      used = (ne, q.used);
      no_dir = q.no_dir;
      no_table = λ i h e. q.no_table i (left-HasTable i h) (e ∙ left-table i h.0);
    }

    left-IsSpace : IsFreeList end left (v ∷ free) → IsSpace end left (v ∷ free) pgdir
    left-IsSpace listed = record {
      listed = listed;
      dir_aligned = s.dir_aligned;
      dir_used = (sp.no_dir, s.dir_used);
      table_page =
          λ i h. subst (IsPage end) (sym (left-table i h.0)) (s.table_page i (left-HasTable i h));
      table_used = λ i h.
          subst (λ t. NotMem t (v ∷ free)) (sym (left-table i h.0))
            (sp.no_table i (left-HasTable i h), s.table_used i (left-HasTable i h));
      table_dir = λ i h e. s.table_dir i (left-HasTable i h) (sym (left-table i h.0) ∙ e);
      once = λ i j h g e.
          s.once i j (left-HasTable i h) (left-HasTable j g)
            (sym (left-table i h.0) ∙ e ∙ left-table j g.0);
    }

  pub kfree-Gave : Gave
  kfree-Gave =
      let (left, gave, listed) = kfree-IsFreeList end k v free s.listed sp.page sp.used in
      let word = λ (a : ℕ) (ne : a / pgsize ≢ v / pgsize).
        kfree-word end k left v a gave sp.page.aligned ne in
      record {
        left = left;
        gave = gave;
        space = left-IsSpace left word listed;
        pde = left-pde left word;
        same = left-lookup left word;
        word = word;
        spares = left-Spare left word;
      }
