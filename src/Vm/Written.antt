-- ===== src/Vm/Written.antt =====
-- A page directory of xv6/vm.c when an entry of a page table is written.
use operation_system.Base.{
  refl, false, inr, ◌∙◌, sym, inl, ap, Bool-cases, ap₂, ℕ, ◌+◌, ◌*◌, ◌/◌, ◌^◌, ◌<◌, ◌≡◌, ◌≢◌, true,
  List, arith, ◌==◌, if◌then◌else◌,
}
use operation_system.Kalloc.{write, Kmem, pgsize}
use operation_system.Vm.{pte_addr, p2v, pdx, ptx, is_present, pde_at, table_at, set_word}
use operation_system.Vm.Space.{
  change-IsFreeList, dir_page, same_dir-IsSpace, same_dir-Spare, entry_page, table-dir_page,
  HasTable, IsSpace, lookup, Keeps,
}

-- A test of addresses, in terms of what they are the addresses of.
write-alike :
    (word : ℕ → ℕ) (e a a' p p' : ℕ)
    → (a ≡ a' → p ≡ p')
    → (p ≡ p' → a ≡ a')
    → write word a e a' ≡ (if p == p' then e else word a')
write-alike word e a a' p p' f g = ground (arith, f, g)

module _ (end : ℕ) (k : Kmem) (free : List ℕ) (pgdir : ℕ) (s : IsSpace end k free pgdir) where
  -- An entry `e` for `va` in its page table.
  unfoldable pub written : ℕ → ℕ → Kmem
  written va e = set_word k (table_at k pgdir (pdx va) + 4 * ptx va) e

  written-pde :
      (va e j : ℕ)
      → HasTable k pgdir (pdx va)
      → j < 1024
      → pde_at (written va e) pgdir j ≡ pde_at k pgdir j
  unfolding written
  written-pde va e j h lt =
      let ne = table-dir_page end k free pgdir s (pdx va) h in
      let p = entry_page end k free pgdir s (pdx va) (ptx va) h (omega arith) in
      let q = dir_page end k free pgdir s j lt in ground (arith, ne, p, q)

  pub written-Keeps :
      (va e : ℕ) → HasTable k pgdir (pdx va) → Keeps end pgdir k free (written va e) free
  unfolding written
  written-Keeps va e h f sp = (
    same_dir-Spare end k free pgdir s (written va e) f (λ j lt. written-pde va e j h lt) sp,
    λ a q.
        let p = entry_page end k free pgdir s (pdx va) (ptx va) h (omega arith) in
        let al = (s.table_page (pdx va) h).aligned in
        let fal = sp.page.aligned in
        let ne = sp.no_table (pdx va) h in ground (arith, p, al, fal, ne, q),
  )

  pub written-IsSpace :
      (va e : ℕ) → HasTable k pgdir (pdx va) → IsSpace end (written va e) free pgdir
  unfolding written
  written-IsSpace va e h =
      same_dir-IsSpace end k free pgdir s (written va e)
        (change-IsFreeList end k free s.listed (table_at k pgdir (pdx va))
          (write k.word (table_at k pgdir (pdx va) + 4 * ptx va) e)
          (s.table_page (pdx va) h).aligned (s.table_used (pdx va) h) elsewhere)
        (λ j lt. written-pde va e j h lt)
    where
      elsewhere :
          (a : ℕ)
          → a / pgsize ≢ table_at k pgdir (pdx va) / pgsize
          → write k.word (table_at k pgdir (pdx va) + 4 * ptx va) e a ≡ k.word a
      elsewhere a ne =
          let p = entry_page end k free pgdir s (pdx va) (ptx va) h (omega arith) in
          ground (arith, p, ne)

  pub entry_at : ℕ → ℕ
  entry_at va = table_at k pgdir (pdx va) + 4 * ptx va

  -- Two addresses have the same entry only if they are in the same page.
  entry_at-page :
      (va va' : ℕ)
      → HasTable k pgdir (pdx va)
      → HasTable k pgdir (pdx va')
      → va < 2 ^ 32
      → va' < 2 ^ 32
      → entry_at va ≡ entry_at va'
      → va / pgsize ≡ va' / pgsize
  unfolding entry_at
  entry_at-page va va' h h' l l' e =
      let al = (s.table_page (pdx va) h).aligned in
      let al' = (s.table_page (pdx va') h').aligned in
      let same : table_at k pgdir (pdx va) ≡ table_at k pgdir (pdx va') =
        omega (arith, e, al, al') in
      let q = s.once (pdx va) (pdx va') h h' same in omega (arith, q, same, e)

  entry_at-cong : (va va' : ℕ) → va / pgsize ≡ va' / pgsize → entry_at va ≡ entry_at va'
  unfolding entry_at
  entry_at-cong va va' e =
      let d : pdx va ≡ pdx va' = omega (arith, e) in
      let t : ptx va ≡ ptx va' = omega (arith, e) in ap₂ (λ i x. table_at k pgdir i + 4 * x) d t

  -- Exactly the addresses of that page have the new entry.
  pub written-lookup :
      (va e va' : ℕ)
      → HasTable k pgdir (pdx va)
      → va < 2 ^ 32
      → va' < 2 ^ 32
      → lookup (written va e) pgdir va'
        ≡ (if va / pgsize == va' / pgsize then e else lookup k pgdir va')
  unfolding written entry_at
  written-lookup va e va' h l l' =
      let same : pde_at (written va e) pgdir (pdx va') ≡ pde_at k pgdir (pdx va') =
        written-pde va e (pdx va') h (omega arith) in
      let word = write k.word (entry_at va) e in
      let reads : lookup (written va e) pgdir va'
          ≡ (if is_present (pde_at k pgdir (pdx va')) then word (entry_at va') else 0) =
        ap (λ p. if is_present p then word (p2v (pte_addr p) + 4 * ptx va') else 0) same in
      elim (Bool-cases (is_present (pde_at k pgdir (pdx va')))) [
        | inl there ↦
            let h' : HasTable k pgdir (pdx va') = (omega arith, there) in
            reads
            ∙ rw there (
                write-alike k.word e (entry_at va) (entry_at va') (va / pgsize) (va' / pgsize)
                  (entry_at-page va va' h h' l l') (entry_at-cong va va'))
        | inr gone ↦
            let ne : va / pgsize ≢ va' / pgsize = λ q.
              let d : pdx va ≡ pdx va' = omega (arith, q) in
              let y : true ≡ false = sym h.1 ∙ ap (λ i. is_present (pde_at k pgdir i)) d ∙ gone in
              cc in
            let t : (va / pgsize == va' / pgsize) ≡ false = ground (arith, ne) in
            reads ∙ rw (gone, t) refl
      ]
