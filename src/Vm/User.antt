-- ===== src/Vm/User.antt =====
-- The user part of an address space in xv6/vm.c: `inituvm`, `loaduvm`, `allocuvm`, `deallocuvm` and
-- `freevm`. `end` is as in xv6/kalloc.c.
use operation_system.Base.{
  ℕ, zero, suc, ◌+◌, ◌-◌, ◌*◌, ◌/◌, ◌%◌, ◌^◌, min, bit_or, ◌⊎◌, inl, inr, Bool, true, false, not,
  ◌&&◌, Option, none, some, ltb, leb, ◌==◌, if◌then◌else◌, length, get_or,
}
use operation_system.Kalloc.{Kmem, pgsize, kernbase, v2p, pgroundup, kfree, kalloc}
use operation_system.Fs.{Dinode, Fs, word}
use operation_system.Fs.Content.{Io, done, readi}
use operation_system.Fs.Icache.Dir.{no_handler, rounds}
use operation_system.Vm.{
  pte_w, pte_u, pdx, p2v, pte_addr, is_present, fill_zero, pde_at, table_at, walkpgdir, set_word,
  mappages,
}

-- The byte `i` of a word, and the word of four bytes.
abbrev pub byte_of : ℕ → ℕ → ℕ
byte_of w i = w / 2 ^ (8 * i) % 2 ^ 8

-- `memmove(dst, src, n)` from outside the memory, for each word of it.
abbrev pub put_bytes : (ℕ → ℕ) → ℕ → (ℕ → ℕ) → ℕ → ℕ → ℕ
put_bytes word dst src n a =
    let pick = λ (i : ℕ).
      if leb dst (a + i) && ltb (a + i) (dst + n) then src (a + i - dst) else byte_of (word a) i in
    pick 0 + pick 1 * 2 ^ 8 + pick 2 * 2 ^ 16 + pick 3 * 2 ^ 24

abbrev pub zero_page : ℕ → Kmem → Kmem
zero_page mem k = record k { word = fill_zero k.word mem }

-- `inituvm`, which checks neither `kalloc` nor `mappages`; `none` is a panic.
pub inituvm : ℕ → (ℕ → ℕ) → ℕ → Kmem → Option Kmem
inituvm pgdir init sz k =
    if leb pgsize sz
    then none
    else let mem = (kalloc k).0 in
      elim (mappages pgdir 0 pgsize (v2p mem) (bit_or pte_w pte_u) (zero_page mem (kalloc k).1)) [
        | none ↦ none
        | some (k2, _) ↦ some (record k2 { word = put_bytes k2.word mem init sz })
      ]

-- `readi` of a part of a program into a page.
abbrev pub load_page : ℕ → ℕ → Kmem → Io → Option (Kmem × Fs × Dinode × Bool)
load_page dst n k (done fs d bytes) = some (
  record k { word = put_bytes k.word dst (λ j. get_or bytes j 0) (length bytes) },
  fs,
  d,
  length bytes == n,
)
load_page dst n k _ = none

-- The loop of `loaduvm` from `i` on, in at most `rounds` rounds.
pub load_loop : ℕ → ℕ → ℕ → ℕ → ℕ → ℕ → Kmem → Fs → Dinode → Option (Kmem × Fs × Dinode × Bool)
load_loop pgdir addr offset sz zero i k fs d = none
load_loop pgdir addr offset sz (suc rounds) i k fs d = elim (ltb i sz) [
  | false ↦ some (k, fs, d, true)
  | true ↦ elim (walkpgdir pgdir (addr + i) false k).1 [
    | none ↦ none
    | some pte ↦
        let n = min (sz - i) pgsize in
        let dst = p2v (pte_addr (k.word pte)) in
        elim (load_page dst n k (readi no_handler fs d (offset + i) n)) [
          | none ↦ none
          | some (k2, fs2, d2, true) ↦ load_loop pgdir addr offset sz rounds (i + pgsize) k2 fs2 d2
          | some (k2, fs2, d2, false) ↦ some (k2, fs2, d2, false)
        ]
  ]
]

-- `none` is a panic; else whether `loaduvm` returned 0.
pub loaduvm : ℕ → ℕ → ℕ → ℕ → Kmem → Fs → Dinode → Option (Kmem × Fs × Dinode × Bool)
loaduvm pgdir addr offset sz k fs d =
    if not (addr % pgsize == 0)
    then none
    else load_loop pgdir addr offset sz (sz / pgsize + 2) 0 k fs d

module _ (end : ℕ) where
  -- A page that is mapped is freed, and its entry cleared; `none` is a panic.
  abbrev pub free_entry : ℕ → Kmem → Option Kmem
  free_entry pte k =
      let pa = pte_addr (k.word pte) in
      if is_present (k.word pte)
      then (if pa == 0
          then none
          else elim (kfree end k (p2v pa)) [ none ↦ none | some k' ↦ some (set_word k' pte 0) ])
      else some k

  -- The loop of `deallocuvm` from `a` on, in at most `n` rounds. Where there is no page table, it goes on
  -- at the first address of the next one.
  unfoldable pub dealloc_loop : ℕ → ℕ → ℕ → ℕ → Kmem → Option Kmem
  dealloc_loop pgdir oldsz zero a k = none
  dealloc_loop pgdir oldsz (suc n) a k = elim (ltb a oldsz) [
    | false ↦ some k
    | true ↦ elim (walkpgdir pgdir a false k).1 [
      | none ↦ dealloc_loop pgdir oldsz n ((pdx a + 1) * 2 ^ 22 % 2 ^ 32) k
      | some pte ↦ elim (free_entry pte k) [
        | none ↦ none
        | some k2 ↦ dealloc_loop pgdir oldsz n ((a + pgsize) % 2 ^ 32) k2
      ]
    ]
  ]

  -- The new size; `none` is a panic.
  unfoldable pub deallocuvm : ℕ → ℕ → ℕ → Kmem → Option (Kmem × ℕ)
  deallocuvm pgdir oldsz newsz k =
      if leb oldsz newsz
      then some (k, oldsz)
      else elim (dealloc_loop pgdir oldsz (oldsz / pgsize + 2) (pgroundup newsz) k) [
        | none ↦ none
        | some k' ↦ some (k', newsz)
      ]

  -- `allocuvm` has run out of memory.
  abbrev pub grow_back : ℕ → ℕ → ℕ → Kmem → Option (Kmem × ℕ)
  grow_back pgdir newsz oldsz k = elim (deallocuvm pgdir newsz oldsz k) [
    | none ↦ none
    | some (k', sz) ↦ some (k', 0)
  ]

  abbrev pub free_after : ℕ → Option (Kmem × ℕ) → Option (Kmem × ℕ)
  free_after mem none = none
  free_after mem (some (k, sz)) = elim (kfree end k mem) [ none ↦ none | some k' ↦ some (k', sz) ]

  -- One round of the loop of `allocuvm`: `inr` has the result of the call.
  unfoldable pub grow_page : ℕ → ℕ → ℕ → ℕ → Kmem → Kmem ⊎ Option (Kmem × ℕ)
  grow_page pgdir oldsz newsz a k =
      let mem = (kalloc k).0 in
      if mem == 0
      then inr (grow_back pgdir newsz oldsz (kalloc k).1)
      else elim (mappages pgdir a pgsize (v2p mem) (bit_or pte_w pte_u)
          (zero_page mem (kalloc k).1)) [
            | none ↦ inr none
            | some (k2, true) ↦ inl k2
            | some (k2, false) ↦ inr (free_after mem (grow_back pgdir newsz oldsz k2))
          ]

  unfoldable pub alloc_loop : ℕ → ℕ → ℕ → ℕ → ℕ → Kmem → Option (Kmem × ℕ)
  alloc_loop pgdir oldsz newsz zero a k = none
  alloc_loop pgdir oldsz newsz (suc n) a k = elim (ltb a newsz) [
    | false ↦ some (k, newsz)
    | true ↦ elim (grow_page pgdir oldsz newsz a k) [
      | inl k' ↦ alloc_loop pgdir oldsz newsz n ((a + pgsize) % 2 ^ 32) k'
      | inr r ↦ r
    ]
  ]

  -- The new size, or 0; `none` is a panic.
  unfoldable pub allocuvm : ℕ → ℕ → ℕ → Kmem → Option (Kmem × ℕ)
  allocuvm pgdir oldsz newsz k =
      if leb kernbase newsz
      then some (k, 0)
      else if ltb newsz oldsz
      then some (k, oldsz)
      else alloc_loop pgdir oldsz newsz (newsz / pgsize + 2) (pgroundup oldsz) k

  -- The loop of `freevm` over the page directory, with `n` entries left.
  pub free_tables : ℕ → ℕ → ℕ → Kmem → Option Kmem
  free_tables pgdir i zero k = some k
  free_tables pgdir i (suc n) k =
      elim (if is_present (pde_at k pgdir i) then kfree end k (table_at k pgdir i) else some k) [
        | none ↦ none
        | some k' ↦ free_tables pgdir (i + 1) n k'
      ]

  pub freevm : ℕ → Kmem → Option Kmem
  freevm pgdir k = if pgdir == 0 then none else elim (deallocuvm pgdir kernbase 0 k) [
    | none ↦ none
    | some (k1, sz) ↦ elim (free_tables pgdir 0 1024 k1) [
      | none ↦ none
      | some k2 ↦ kfree end k2 pgdir
    ]
  ]
