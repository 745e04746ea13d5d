-- ===== src/Vm/Map.antt =====
-- `mappages` of xv6/vm.c, as a change of what the processor finds for each address: how it may end, and
-- one round of its loop.
pub mod Loop
use operation_system.Base.{
  ℕ, ◌+◌, ◌-◌, ◌*◌, ◌/◌, ◌%◌, ◌^◌, ◌≤◌, ◌<◌, bit_or, ◌≡◌, refl, sym, ap, ap₂, ◌∙◌, subst, inl, inr,
  Bool, true, false, ◌&&◌, Option, none, some, List, [], arith, ltb, leb, ◌==◌, if◌then◌else◌,
  Bool-cases, ℕ_eq,
}
use operation_system.Kalloc.{Kmem, pgsize}
use operation_system.Vm.{
  pte_p, pdx, ptx, pgrounddown, is_present, pde_at, table_at, walkpgdir, set_word, Mapped, remap,
  no_table, mapped, put_entry,
}
use operation_system.Vm.Space.{HasTable, IsSpace, lookup, Keeps, Keeps-trans}
use operation_system.Vm.Written.{written, written-Keeps, written-IsSpace, written-lookup}
use operation_system.Vm.Walk.{Walked, walkpgdir-Walked}

abbrev pub entry : ℕ → ℕ → ℕ
entry pa perm = bit_or (bit_or pa perm) pte_p

-- From `a` up to `b` the pages of the physical memory from `pa` on are mapped; all else is as in `k`.
abbrev pub MapsTo : ℕ → ℕ → ℕ → ℕ → ℕ → Kmem → Kmem → Type 0
MapsTo pgdir a b pa perm k k' =
    (va : ℕ)
    → va < 2 ^ 32
    → lookup k' pgdir va ≡ (
        if leb a va && ltb va b
        then entry ((pa + (pgrounddown va - a)) % 2 ^ 32) perm
        else lookup k pgdir va)

abbrev pub Unmapped : ℕ → ℕ → ℕ → Kmem → Type 0
Unmapped pgdir a b k = (va : ℕ) → a ≤ va → va < b → is_present (lookup k pgdir va) ≡ false

-- A call for the pages from `a` up to `b` panics only at a page that is mapped. It returns -1 only when all
-- memory is in use, and has then mapped the pages up to some `c`. If it returns 0, it has mapped all of
-- them, and none of them was mapped before.
abbrev pub MapEnds : ℕ → ℕ → ℕ → ℕ → ℕ → ℕ → Kmem → List ℕ → Option (Kmem × Bool) → Type 0
MapEnds end pgdir a b pa perm k free none =
    (va : ℕ) × (a ≤ va) × (va < b) × (is_present (lookup k pgdir va) ≡ true)
MapEnds end pgdir a b pa perm k free (some (k', true)) =
    (free' : List ℕ) × IsSpace end k' free' pgdir
    × MapsTo pgdir a b pa perm k k'
    × Unmapped pgdir a b k
    × Keeps end pgdir k free k' free'
MapEnds end pgdir a b pa perm k free (some (k', false)) =
    IsSpace end k' [] pgdir
    × ((c : ℕ) × (a ≤ c) × (c < b) × (c % pgsize ≡ 0) × MapsTo pgdir a c pa perm k k')
    × Keeps end pgdir k free k' []

-- One round, at the page `a`.
abbrev pub RoundEnds : ℕ → ℕ → ℕ → ℕ → ℕ → Kmem → List ℕ → Mapped → Type 0
RoundEnds end pgdir a pa perm k free remap = is_present (lookup k pgdir a) ≡ true
RoundEnds end pgdir a pa perm k free (no_table k') =
    IsSpace end k' [] pgdir
    × ((va : ℕ) → lookup k' pgdir va ≡ lookup k pgdir va)
    × Keeps end pgdir k free k' []
RoundEnds end pgdir a pa perm k free (mapped k') =
    (is_present (lookup k pgdir a) ≡ false)
    × ((free' : List ℕ) × IsSpace end k' free' pgdir
        × MapsTo pgdir a (a + pgsize) pa perm k k'
        × Keeps end pgdir k free k' free')

pub lookup-HasTable :
    (k : Kmem) (pgdir a : ℕ)
    → HasTable k pgdir (pdx a)
    → lookup k pgdir a ≡ k.word (table_at k pgdir (pdx a) + 4 * ptx a)
lookup-HasTable k pgdir a h = rw (h.1) refl

pub lookup-page :
    (k : Kmem) (pgdir a b : ℕ) → a / pgsize ≡ b / pgsize → lookup k pgdir a ≡ lookup k pgdir b
lookup-page k pgdir a b e =
    let d : pdx a ≡ pdx b = omega (arith, e) in
    let t : ptx a ≡ ptx b = omega (arith, e) in
    ap₂ (λ i x. if is_present (pde_at k pgdir i) then k.word (table_at k pgdir i + 4 * x) else 0) d
      t

module _ (end pgdir perm : ℕ) where
  -- The test for one page, as one for a range.
  page-test :
      (k k1 : Kmem) (a pa va : ℕ)
      → a % pgsize ≡ 0
      → pa < 2 ^ 32
      → lookup k1 pgdir va ≡ lookup k pgdir va
      → (if a / pgsize == va / pgsize then entry pa perm else lookup k1 pgdir va) ≡ (
          if leb a va && ltb va (a + pgsize)
          then entry ((pa + (pgrounddown va - a)) % 2 ^ 32) perm
          else lookup k pgdir va)
  page-test k k1 a pa va al lp same = elim (ℕ_eq (a / pgsize) (va / pgsize)) [
    | inl e ↦
        let t : (a / pgsize == va / pgsize) ≡ true = ground (arith, e) in
        let u : (leb a va && ltb va (a + pgsize)) ≡ true = ground (arith, e, al) in
        let p : pa ≡ (pa + (pgrounddown va - a)) % 2 ^ 32 = omega (arith, e, al, lp) in
        rw (t, u) (ap (λ y. entry y perm) p)
    | inr ne ↦
        let t : (a / pgsize == va / pgsize) ≡ false = ground (arith, ne) in
        let u : (leb a va && ltb va (a + pgsize)) ≡ false = ground (arith, ne, al) in rw (t, u) same
  ]

  -- The page's entry is written where there is an entry.
  put-RoundEnds :
      (a pa pte : ℕ) (k k1 : Kmem) (free0 free : List ℕ)
      → a % pgsize ≡ 0
      → a < 2 ^ 32
      → pa < 2 ^ 32
      → IsSpace end k1 free pgdir
      → HasTable k1 pgdir (pdx a)
      → pte ≡ table_at k1 pgdir (pdx a) + 4 * ptx a
      → ((va : ℕ) → lookup k1 pgdir va ≡ lookup k pgdir va)
      → Keeps end pgdir k free0 k1 free
      → RoundEnds end pgdir a pa perm k free0 (put_entry pa perm (k1, some pte))
  unfolding written
  put-RoundEnds a pa pte k k1 free0 free al l lp s h e same keep =
      let reads : lookup k pgdir a ≡ k1.word pte =
        sym (same a) ∙ lookup-HasTable k1 pgdir a h ∙ ap k1.word (sym e) in
      elim (Bool-cases (is_present (k1.word pte))) [
        | inl there ↦ rw there (ap is_present reads ∙ there)
        | inr gone ↦
            let x = entry pa perm in
            let q : set_word k1 pte x ≡ written end k1 free pgdir s a x =
              ap (λ t. set_word k1 t x) e in
            rw gone (
              ap is_present reads ∙ gone,
              (
                free,
                subst (λ m. IsSpace end m free pgdir) (sym q)
                    (written-IsSpace end k1 free pgdir s a x h),
                (λ va lv.
                    ap (λ m. lookup m pgdir va) q
                    ∙ written-lookup end k1 free pgdir s a x va h l lv
                    ∙ page-test k k1 a pa va al lp (same va)),
                subst (λ m. Keeps end pgdir k free0 m free) (sym q)
                    (Keeps-trans end pgdir k k1 (written end k1 free pgdir s a x) free0 free free
                      keep (written-Keeps end k1 free pgdir s a x h)),
              ),
            )
      ]

  pub round-RoundEnds :
      (a pa : ℕ) (k : Kmem) (free : List ℕ)
      → a % pgsize ≡ 0
      → a < 2 ^ 32
      → pa < 2 ^ 32
      → IsSpace end k free pgdir
      → RoundEnds end pgdir a pa perm k free (put_entry pa perm (walkpgdir pgdir a true k))
  round-RoundEnds a pa k free al l lp s =
      from_walk (walkpgdir pgdir a true k) (walkpgdir-Walked end pgdir a k free s)
    where
      from_walk :
          (w : Kmem × Option ℕ)
          → Walked end pgdir a k free w
          → RoundEnds end pgdir a pa perm k free (put_entry pa perm w)
      from_walk (k1, none) h = h
      from_walk (k1, some pte) (free', s1, h, e, same, keep) =
          put-RoundEnds a pa pte k k1 free free' al l lp s1 h e same keep
