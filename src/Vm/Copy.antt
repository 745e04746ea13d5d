-- ===== src/Vm/Copy.antt =====
-- `setupkvm`, `copyuvm` and `copyout` of xv6/vm.c.
use operation_system.Base.{
  ◌∷◌, List, ℕ, zero, suc, ◌+◌, ◌-◌, ◌/◌, ◌%◌, ◌^◌, min, Bool, true, false, ◌&&◌, Option, none,
  some, [], ltb, leb, ◌==◌, if◌then◌else◌,
}
use operation_system.Kalloc.{phystop, Kmem, pgsize, kernbase, v2p, kalloc}
use operation_system.Fs.{word}
use operation_system.Vm.{
  uva2ka, pte_flags, pgrounddown, pte_w, p2v, pte_addr, is_present, walkpgdir, mappages,
}
use operation_system.Vm.User.{freevm, zero_page, put_bytes}

-- `memmove` of a page.
abbrev pub copy_page : (ℕ → ℕ) → ℕ → ℕ → ℕ → ℕ
copy_page word dst src a =
    if leb dst a && ltb a (dst + pgsize) then word (src + (a - dst)) else word a

module _ (end : ℕ) where
  -- A line of `kmap`: the virtual address, the physical ones of the start and the end, the flags.
  abbrev pub KernMap : Type 0
  KernMap = ℕ × ℕ × ℕ × ℕ

  pub map_all : ℕ → List KernMap → Kmem → Option (Kmem × ℕ)
  map_all pgdir [] k = some (k, pgdir)
  map_all pgdir ((virt, start, stop, perm) ∷ ks) k =
      elim (mappages pgdir virt ((stop + 2 ^ 32 - start) % 2 ^ 32) start perm k) [
        | none ↦ none
        | some (k', true) ↦ map_all pgdir ks k'
        | some (k', false) ↦ elim (freevm end pgdir k') [ none ↦ none | some k'' ↦ some (k'', 0) ]
      ]

  -- `kmem_start` is the linker's `data`, and the frame buffer is `gpu`'s.
  module _ (kmem_start vram_size pvram_addr : ℕ) where
    abbrev pub kmap : List KernMap
    kmap =
        (kernbase, 0, 0x100000, pte_w)
        ∷ (kernbase + 0x100000, 0x100000, v2p kmem_start, 0)
        ∷ (kmem_start, v2p kmem_start, phystop, pte_w)
        ∷ (
          (0xFE000000 + 2 ^ 32 - vram_size) % 2 ^ 32,
          pvram_addr,
          (pvram_addr + vram_size) % 2 ^ 32,
          pte_w,
        )
        ∷ (0x80000000 + 0x40000000, 0x80000000, 0x10000000 + 0x80000000, pte_w)
        ∷ (0xFE000000, 0xFE000000, 0, pte_w)
        ∷ []

    -- The page directory, or 0; `none` is a panic.
    pub setupkvm : Kmem → Option (Kmem × ℕ)
    setupkvm k =
        let pgdir = (kalloc k).0 in
        if pgdir == 0
        then some ((kalloc k).1, 0)
        else if ltb 0xFE000000 (p2v phystop)
        then none
        else map_all pgdir kmap (zero_page pgdir (kalloc k).1)

    abbrev pub give_up : ℕ → Kmem → Option (Kmem × ℕ)
    give_up d k = elim (freevm end d k) [ none ↦ none | some k' ↦ some (k', 0) ]

    -- The loop of `copyuvm` from `i` on, into the page directory `d`.
    pub copy_loop : ℕ → ℕ → ℕ → ℕ → ℕ → Kmem → Option (Kmem × ℕ)
    copy_loop pgdir d sz zero i k = none
    copy_loop pgdir d sz (suc n) i k = elim (ltb i sz) [
      | false ↦ some (k, d)
      | true ↦ elim (walkpgdir pgdir i false k).1 [
        | none ↦ none
        | some pte ↦ elim (is_present (k.word pte)) [
          | false ↦ none
          | true ↦
              let e = k.word pte in
              let mem = (kalloc k).0 in
              elim (mem == 0) [
                | true ↦ give_up d (kalloc k).1
                | false ↦
                    let k1 = (kalloc k).1 in
                    let k2 = record k1 { word = copy_page k1.word mem (p2v (pte_addr e)) } in
                    elim (mappages d i pgsize (v2p mem) (pte_flags e) k2) [
                      | none ↦ none
                      | some (k3, true) ↦ copy_loop pgdir d sz n ((i + pgsize) % 2 ^ 32) k3
                      | some (k3, false) ↦ give_up d k3
                    ]
              ]
        ]
      ]
    ]

    pub copyuvm : ℕ → ℕ → Kmem → Option (Kmem × ℕ)
    copyuvm pgdir sz k = elim (setupkvm k) [
      | none ↦ none
      | some (k1, d) ↦ if d == 0 then some (k1, 0) else copy_loop pgdir d sz (sz / pgsize + 2) 0 k1
    ]

-- The loop of `copyout` with `len` bytes of `buf` left, in at most `n` rounds; `none` is the access of
-- `uva2ka` through a null pointer.
pub copy_out : ℕ → ℕ → ℕ → (ℕ → ℕ) → ℕ → Kmem → Option (Kmem × Bool)
copy_out pgdir zero va buf len k = none
copy_out pgdir (suc n) va buf len k = elim (ltb 0 len) [
  | false ↦ some (k, true)
  | true ↦
      let va0 = pgrounddown va in
      let part = min (pgsize - (va - va0)) len in
      elim (uva2ka pgdir va0 k) [
        | none ↦ none
        | some none ↦ some (k, false)
        | some (some pa0) ↦
            copy_out pgdir n ((va0 + pgsize) % 2 ^ 32) (λ j. buf (j + part)) (len - part)
              (record k { word = put_bytes k.word (pa0 + (va - va0)) buf part })
      ]
]

pub copyout : ℕ → ℕ → (ℕ → ℕ) → ℕ → Kmem → Option (Kmem × Bool)
copyout pgdir va buf len k = copy_out pgdir (len / pgsize + 3) va buf len k
