-- ===== src/Vm/Map/Loop.antt =====
-- The loop of `mappages` of xv6/vm.c.
use operation_system.Base.{
  ℕ, zero, suc, ◌+◌, ◌-◌, ◌*◌, ◌/◌, ◌%◌, ◌^◌, ◌≤◌, ◌<◌, ◌≡◌, refl, sym, ap, ◌∙◌, ◌≢◌, inl, inr,
  Bool, true, false, ◌&&◌, Option, none, some, List, [], arith, ltb, leb, ◌==◌, Bool-cases,
}
use operation_system.Kalloc.{Kmem, pgsize}
use operation_system.Vm.{
  pgrounddown, is_present, walkpgdir, Mapped, remap, no_table, mapped, put_entry, after_map,
  map_loop, page_count, mappages,
}
use operation_system.Vm.Space.{IsSpace, lookup, Keeps, Keeps-trans}
use operation_system.Vm.Map.{
  entry, MapsTo, Unmapped, MapEnds, RoundEnds, lookup-page, round-RoundEnds,
}

module _ (end pgdir perm : ℕ) where
  -- A part that is mapped, and the rest.
  MapsTo-trans :
      (a b pa : ℕ) (k k1 k2 : Kmem)
      → a % pgsize ≡ 0
      → a + pgsize ≤ b
      → MapsTo pgdir a (a + pgsize) pa perm k k1
      → MapsTo pgdir (a + pgsize) b ((pa + pgsize) % 2 ^ 32) perm k1 k2
      → MapsTo pgdir a b pa perm k k2
  MapsTo-trans a b pa k k1 k2 al lt m1 m2 va l =
      let x1 = m1 va l in
      let x2 = m2 va l in
      elim (Bool-cases (leb (a + pgsize) va && ltb va b)) [
        | inl later ↦
            let u : (leb a va && ltb va b) ≡ true = ground (arith, later) in
            let p : ((pa + pgsize) % 2 ^ 32 + (pgrounddown va - (a + pgsize))) % 2 ^ 32
                ≡ (pa + (pgrounddown va - a)) % 2 ^ 32 =
              (let lo : a + pgsize ≤ va = ground (arith, later) in omega (arith, lo, al)) in
            x2 ∙ rw (later, u) (ap (λ y. entry y perm) p)
        | inr not_later ↦
            let u : (leb a va && ltb va (a + pgsize)) ≡ (leb a va && ltb va b) =
              ground (arith, not_later, lt) in
            x2 ∙ rw not_later (x1 ∙ rw u refl)
      ]

  -- Nothing is mapped from `a` to `a`.
  MapsTo-none :
      (a pa : ℕ) (k k1 : Kmem)
      → ((va : ℕ) → lookup k1 pgdir va ≡ lookup k pgdir va)
      → MapsTo pgdir a a pa perm k k1
  MapsTo-none a pa k k1 same va l =
      let t : (leb a va && ltb va a) ≡ false = ground arith in same va ∙ rw t refl

  Unmapped-page :
      (a : ℕ) (k : Kmem)
      → a % pgsize ≡ 0
      → is_present (lookup k pgdir a) ≡ false
      → Unmapped pgdir a (a + pgsize) k
  Unmapped-page a k al h va lo hi =
      ap is_present (lookup-page k pgdir va a (omega (arith, lo, hi, al))) ∙ h

  -- Outside the first page, what is found is as before it was mapped.
  beyond :
      (a pa va : ℕ) (k k1 : Kmem)
      → MapsTo pgdir a (a + pgsize) pa perm k k1
      → a + pgsize ≤ va
      → va < 2 ^ 32
      → lookup k1 pgdir va ≡ lookup k pgdir va
  beyond a pa va k k1 m lo l =
      let t : (leb a va && ltb va (a + pgsize)) ≡ false = ground (arith, lo) in m va l ∙ rw t refl

  -- The rounds after the first.
  later-MapEnds :
      (a b pa : ℕ) (k k1 : Kmem) (free0 free1 : List ℕ) (r : Option (Kmem × Bool))
      → a % pgsize ≡ 0
      → a + pgsize < b
      → b ≤ 2 ^ 32
      → is_present (lookup k pgdir a) ≡ false
      → MapsTo pgdir a (a + pgsize) pa perm k k1
      → Keeps end pgdir k free0 k1 free1
      → MapEnds end pgdir (a + pgsize) b ((pa + pgsize) % 2 ^ 32) perm k1 free1 r
      → MapEnds end pgdir a b pa perm k free0 r
  later-MapEnds a b pa k k1 free0 free1 none al lt hi gone m keep (va, lo, up, there) = (
    va,
    omega (arith, lo),
    up,
    ap is_present (sym (beyond a pa va k k1 m lo (omega (arith, up, hi)))) ∙ there,
  )
  later-MapEnds a b pa k k1 free0 free1 (some (k2, true)) al lt hi gone m keep
        (free, s, m2, clear, keep2) =
      (
        free,
        s,
        MapsTo-trans a b pa k k1 k2 al (omega (arith, lt)) m m2,
        (λ va lo up. elim (Bool-cases (ltb va (a + pgsize))) [
          | inl first ↦ Unmapped-page a k al gone va lo (ground (arith, first))
          | inr more ↦
              let past : a + pgsize ≤ va = ground (arith, more) in
              ap is_present (sym (beyond a pa va k k1 m past (omega (arith, up, hi))))
              ∙ clear va past up
        ]),
        Keeps-trans end pgdir k k1 k2 free0 free1 free keep keep2,
      )
  later-MapEnds a b pa k k1 free0 free1 (some (k2, false)) al lt hi gone m keep
        (s, (c, lo, up, cal, m2), keep2) =
      (
        s,
        (c, omega (arith, lo), up, cal, MapsTo-trans a c pa k k1 k2 al lo m m2),
        Keeps-trans end pgdir k k1 k2 free0 free1 [] keep keep2,
      )

  after-MapEnds :
      (a b pa : ℕ) (k : Kmem) (free0 : List ℕ) (r : Mapped) (next : Kmem → Option (Kmem × Bool))
      → a < b
      → a % pgsize ≡ 0
      → RoundEnds end pgdir a pa perm k free0 r
      → ((k1 : Kmem) (free : List ℕ)
          → IsSpace end k1 free pgdir
          → is_present (lookup k pgdir a) ≡ false
          → MapsTo pgdir a (a + pgsize) pa perm k k1
          → Keeps end pgdir k free0 k1 free
          → MapEnds end pgdir a b pa perm k free0 (next k1))
      → MapEnds end pgdir a b pa perm k free0 (after_map r next)
  after-MapEnds a b pa k free0 remap next lt al h f = (a, omega arith, lt, h)
  after-MapEnds a b pa k free0 (no_table k1) next lt al h f =
      (h.0, (a, omega arith, lt, al, MapsTo-none a pa k k1 h.1), h.2)
  after-MapEnds a b pa k free0 (mapped k1) next lt al (gone, (free, s, m, keep)) f =
      f k1 free s gone m keep

  map_loop-last :
      (n a last pa : ℕ) (k : Kmem)
      → a ≡ last
      → map_loop pgdir last perm (suc n) a pa k
        ≡ after_map (put_entry pa perm (walkpgdir pgdir a true k)) (λ k1. some (k1, true))
  unfolding map_loop
  map_loop-last n a last pa k e = let t : (a == last) ≡ true = ground (arith, e) in rw t refl

  map_loop-more :
      (n a last pa : ℕ) (k : Kmem)
      → a ≢ last
      → a + pgsize < 2 ^ 32
      → map_loop pgdir last perm (suc n) a pa k
        ≡ after_map
            (put_entry pa perm (walkpgdir pgdir a true k))
            (map_loop pgdir last perm n (a + pgsize) ((pa + pgsize) % 2 ^ 32))
  unfolding map_loop
  map_loop-more n a last pa k ne lt =
      let t : (a == last) ≡ false = ground (arith, ne) in
      let q : (a + pgsize) % 2 ^ 32 ≡ a + pgsize = omega arith in rw (t, q) refl

  -- The loop from `a` to the page `last`, `n` pages further on.
  map_loop-MapEnds :
      (n a last pa : ℕ) (k : Kmem) (free : List ℕ)
      → a % pgsize ≡ 0
      → last ≡ a + n * pgsize
      → last + pgsize ≤ 2 ^ 32
      → pa < 2 ^ 32
      → IsSpace end k free pgdir
      → MapEnds end pgdir a (last + pgsize) pa perm k free (map_loop pgdir last perm (suc n) a pa k)
  map_loop-MapEnds zero a last pa k free al e hi lp s =
      let q : a ≡ last = omega arith in
      rw (map_loop-last 0 a last pa k q, ← q)
        (after-MapEnds a (a + pgsize) pa k free (put_entry pa perm (walkpgdir pgdir a true k))
          (λ k1. some (k1, true)) (omega arith) al
          (round-RoundEnds end pgdir perm a pa k free al (omega (arith, e, hi)) lp s)
          (λ k1 free' s1 gone m keep. (free', s1, m, Unmapped-page a k al gone, keep)))
  map_loop-MapEnds (suc n) a last pa k free al e hi lp s =
      rw (map_loop-more (suc n) a last pa k (omega arith) (omega arith)) (
        after-MapEnds a (last + pgsize) pa k free (put_entry pa perm (walkpgdir pgdir a true k))
          (map_loop pgdir last perm (suc n) (a + pgsize) ((pa + pgsize) % 2 ^ 32)) (omega arith) al
          (round-RoundEnds end pgdir perm a pa k free al (omega (arith, e, hi)) lp s)
          (λ k1 free' s1 gone m keep.
            later-MapEnds a (last + pgsize) pa k k1 free free'
              (map_loop pgdir last perm (suc n) (a + pgsize) ((pa + pgsize) % 2 ^ 32) k1) al
              (omega arith) hi gone m keep
              (map_loop-MapEnds n (a + pgsize) last ((pa + pgsize) % 2 ^ 32) k1 free' (omega arith)
                (omega arith) hi (omega arith) s1)))

  -- In a page directory whose tables are pages that are not free, `mappages` of at least one byte below
  -- 2 ^ 32 panics only at a page that was mapped. It returns 0 only if no page of the range was, and
  -- then the processor finds the entry of each page there, and what it found before elsewhere. It
  -- returns -1 only when no memory is free, with the range mapped up to some page. Pages that are
  -- neither free nor those of the directory and its tables are not touched.
  pub mappages-MapEnds :
      (va size pa : ℕ) (k : Kmem) (free : List ℕ)
      → 0 < size
      → va + size ≤ 2 ^ 32
      → pa < 2 ^ 32
      → IsSpace end k free pgdir
      → MapEnds end pgdir
          (pgrounddown va)
          (pgrounddown (va + size - 1) + pgsize)
          pa
          perm
          k
          free
          (mappages pgdir va size pa perm k)
  unfolding mappages
  mappages-MapEnds va size pa k free pos hi lp s =
      let a = pgrounddown va in
      let last = pgrounddown (va + size - 1) in
      let n = (last - a) / pgsize in
      let q : (va + size + 2 ^ 32 - 1) % 2 ^ 32 ≡ va + size - 1 = omega arith in
      let c : page_count a last ≡ suc n = omega arith in
      rw (q, c) (map_loop-MapEnds n a last pa k free (omega arith) (omega arith) (omega arith) lp s)
