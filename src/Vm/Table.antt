-- ===== src/Vm/Table.antt =====
-- A new page table in a page directory (xv6/vm.c): what `walkpgdir` does where there is none.
use operation_system.Base.{
  Bool-cases, ℕ, ◌+◌, ◌*◌, ◌/◌, ◌%◌, ◌<◌, bit_or, ◌≡◌, refl, sym, ap, ◌∙◌, subst, ◌≢◌, inl, inr,
  true, false, List, arith, ◌==◌, if◌then◌else◌, ℕ_eq, NotMem, bit_or-odd, bit_or-page,
}
use operation_system.Kalloc.{Kmem, pgsize, v2p, write}
use operation_system.Kalloc.FreeList.{IsPage, IsFreeList}
use operation_system.Vm.{
  ptx, pdx, pte_p, pte_w, pte_u, p2v, pte_addr, is_present, fill_zero, pde_at, table_at, dir_entry,
}
use operation_system.Vm.Space.{
  Spare, entry_page, table-dir_page, lookup, HasTable, IsSpace, change-IsFreeList, dir_page,
}

dir_entry-present : (v : ℕ) → is_present (dir_entry v) ≡ true
dir_entry-present v =
    let a = bit_or-odd (bit_or (bit_or (v2p v) pte_p) pte_w) pte_u in
    let b = bit_or-odd (bit_or (v2p v) pte_p) pte_w in
    let c = bit_or-odd (v2p v) pte_p in
    let odd : dir_entry v % 2 ≡ 1 = omega (arith, a, b, c) in ground (arith, odd)

dir_entry-table : (end v : ℕ) → IsPage end v → p2v (pte_addr (dir_entry v)) ≡ v
dir_entry-table end v p =
    let a = bit_or-page (bit_or (bit_or (v2p v) pte_p) pte_w) pte_u (omega arith) in
    let b = bit_or-page (bit_or (v2p v) pte_p) pte_w (omega arith) in
    let c = bit_or-page (v2p v) pte_p (omega arith) in
    let al = p.aligned in let m = p.mapped in let l = p.below in omega (arith, a, b, c)

module _ (end : ℕ) (k : Kmem) (free : List ℕ) (pgdir v i : ℕ) (s : IsSpace end k free pgdir)
    (page : IsPage end v) (out : NotMem v free) (other : v ≢ pgdir)
    (apart : (j : ℕ) → HasTable k pgdir j → v ≢ table_at k pgdir j) (lt : i < 1024)
    (gone : is_present (pde_at k pgdir i) ≡ false) where
  unfoldable pub with_table : Kmem
  with_table = record k { word = write (fill_zero k.word v) (pgdir + 4 * i) (dir_entry v) }

  pages_apart : v / pgsize ≢ pgdir / pgsize
  pages_apart e = let a = page.aligned in let b = s.dir_aligned in other (omega (arith, a, b, e))

  -- The directory has the new entry and is else as it was.
  new-pde :
      (j : ℕ)
      → j < 1024
      → pde_at with_table pgdir j ≡ (if i == j then dir_entry v else pde_at k pgdir j)
  unfolding with_table
  new-pde j l =
      let p = dir_page end k free pgdir s j l in
      let ne = pages_apart in let al = page.aligned in ground (arith, p, ne, al)

  new-pde_self : pde_at with_table pgdir i ≡ dir_entry v
  new-pde_self = new-pde i lt ∙ (let t : (i == i) ≡ true = ground arith in rw t refl)

  new-pde_ne : (j : ℕ) → j < 1024 → j ≢ i → pde_at with_table pgdir j ≡ pde_at k pgdir j
  new-pde_ne j l ne = new-pde j l ∙ (let t : (i == j) ≡ false = ground (arith, ne) in rw t refl)

  pub new-table_self : table_at with_table pgdir i ≡ v
  new-table_self = ap (λ e. p2v (pte_addr e)) new-pde_self ∙ dir_entry-table end v page

  new-table_ne : (j : ℕ) → j < 1024 → j ≢ i → table_at with_table pgdir j ≡ table_at k pgdir j
  new-table_ne j l ne = ap (λ e. p2v (pte_addr e)) (new-pde_ne j l ne)

  pub new-HasTable : HasTable with_table pgdir i
  new-HasTable = (lt, ap is_present new-pde_self ∙ dir_entry-present v)

  old-HasTable : (j : ℕ) → j ≢ i → HasTable with_table pgdir j → HasTable k pgdir j
  old-HasTable j ne h = (h.0, ap is_present (sym (new-pde_ne j h.0 ne)) ∙ h.1)

  new-listed : IsFreeList end with_table free
  unfolding with_table
  new-listed =
      change-IsFreeList end (record k { word = fill_zero k.word v }) free
        (change-IsFreeList end k free s.listed v (fill_zero k.word v) page.aligned out filled) pgdir
        (write (fill_zero k.word v) (pgdir + 4 * i) (dir_entry v)) s.dir_aligned s.dir_used linked
    where
      filled : (a : ℕ) → a / pgsize ≢ v / pgsize → fill_zero k.word v a ≡ k.word a
      filled a ne = let al = page.aligned in ground (arith, al, ne)

      linked :
          (a : ℕ)
          → a / pgsize ≢ pgdir / pgsize
          → write (fill_zero k.word v) (pgdir + 4 * i) (dir_entry v) a ≡ fill_zero k.word v a
      linked a ne = let p = dir_page end k free pgdir s i lt in ground (arith, p, ne)

  -- A property of every table, for the new one and the others.
  by_table :
      (P : ℕ → Type 0)
      → P v
      → ((j : ℕ) → HasTable k pgdir j → P (table_at k pgdir j))
      → (j : ℕ) → HasTable with_table pgdir j
      → P (table_at with_table pgdir j)
  by_table P new old j h = elim (ℕ_eq j i) [
    | inl e ↦ subst P (sym new-table_self ∙ ap (table_at with_table pgdir) (sym e)) new
    | inr ne ↦ subst P (sym (new-table_ne j h.0 ne)) (old j (old-HasTable j ne h))
  ]

  pub new-IsSpace : IsSpace end with_table free pgdir
  new-IsSpace = record {
    listed = new-listed;
    dir_aligned = s.dir_aligned;
    dir_used = s.dir_used;
    table_page = by_table (IsPage end) page s.table_page;
    table_used = by_table (λ t. NotMem t free) out s.table_used;
    table_dir = by_table (λ t. t ≢ pgdir) other s.table_dir;
    once = λ a b ha hb e. elim (ℕ_eq a i) [
      | inl ea ↦ elim (ℕ_eq b i) [
        | inl eb ↦ ea ∙ sym eb
        | inr nb ↦ absurd (
            apart b (old-HasTable b nb hb) (
              sym new-table_self
              ∙ ap (table_at with_table pgdir) (sym ea)
              ∙ e
              ∙ new-table_ne b hb.0 nb))
      ]
      | inr na ↦ elim (ℕ_eq b i) [
        | inl eb ↦ absurd (
            apart a (old-HasTable a na ha) (
              sym new-table_self
              ∙ ap (table_at with_table pgdir) (sym eb)
              ∙ sym e
              ∙ new-table_ne a ha.0 na))
        | inr nb ↦
            s.once a b (old-HasTable a na ha) (old-HasTable b nb hb)
              (sym (new-table_ne a ha.0 na) ∙ e ∙ new-table_ne b hb.0 nb)
      ]
    ];
  }

  pub new-Keeps :
      (f : ℕ)
      → v ≢ f
      → Spare end k free pgdir f
      → Spare end with_table free pgdir f
        × ((a : ℕ) → a / pgsize ≡ f / pgsize → with_table.word a ≡ k.word a)
  unfolding with_table
  new-Keeps f ne sp = (
    record {
      page = sp.page;
      used = sp.used;
      no_dir = sp.no_dir;
      no_table = by_table (λ t. f ≢ t) (λ e. ne (sym e)) sp.no_table;
    },
    λ a q.
        let al = page.aligned in
        let fal = sp.page.aligned in
        let dal = s.dir_aligned in
        let nd = sp.no_dir in
        let p = dir_page end k free pgdir s i lt in ground (arith, al, fal, dal, nd, ne, p, q),
  )

  -- The words of the new table are 0, and those of the others are as they were.
  new_word : (x : ℕ) → x < 1024 → with_table.word (v + 4 * x) ≡ 0
  unfolding with_table
  new_word x l =
      let al = page.aligned in
      let ne = pages_apart in let p = dir_page end k free pgdir s i lt in ground (arith, al, ne, p)

  old_word :
      (j x : ℕ)
      → HasTable k pgdir j
      → x < 1024
      → with_table.word (table_at k pgdir j + 4 * x) ≡ k.word (table_at k pgdir j + 4 * x)
  unfolding with_table
  old_word j x h l =
      let al = page.aligned in
      let tal = (s.table_page j h).aligned in
      let ne = apart j h in
      let nd = table-dir_page end k free pgdir s j h in
      let p = dir_page end k free pgdir s i lt in
      let q = entry_page end k free pgdir s j x h l in ground (arith, al, tal, ne, nd, p, q)

  pub new-lookup : (va : ℕ) → lookup with_table pgdir va ≡ lookup k pgdir va
  new-lookup va =
      let j = pdx va in
      let x = ptx va in
      let view =
        λ (p : ℕ). if is_present p then with_table.word (p2v (pte_addr p) + 4 * x) else 0 in
      elim (ℕ_eq j i) [
        | inl e ↦
            let q : pde_at with_table pgdir j ≡ dir_entry v =
              ap (pde_at with_table pgdir) e ∙ new-pde_self in
            let g : is_present (pde_at k pgdir j) ≡ false =
              ap (λ y. is_present (pde_at k pgdir y)) e ∙ gone in
            ap view q
            ∙ rw (dir_entry-present v, dir_entry-table end v page, g) (new_word x (omega arith))
        | inr ne ↦
            let q : pde_at with_table pgdir j ≡ pde_at k pgdir j = new-pde_ne j (omega arith) ne in
            elim (Bool-cases (is_present (pde_at k pgdir j))) [
              | inl there ↦ ap view q ∙ rw there (old_word j x (omega arith, there) (omega arith))
              | inr none_there ↦ ap view q ∙ rw none_there refl
            ]
      ]
