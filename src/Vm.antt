-- ===== src/Vm.antt =====
-- xv6/vm.c: the page tables, in the memory that xv6/kalloc.c gives out. A page directory is named by its
-- address, and an entry by the address of its word.
pub mod User
pub mod Copy
pub mod Space
pub mod Written
pub mod Table
pub mod Walk
pub mod Map
pub mod Owned
pub mod Dealloc
pub mod Alloc
mod Tests
use operation_system.Base.{
  ℕ, zero, suc, ◌+◌, ◌-◌, ◌*◌, ◌/◌, ◌%◌, ◌^◌, bit_or, Bool, true, false, not, ◌&&◌, Option, none,
  some, [], ltb, leb, ◌==◌, if◌then◌else◌,
}
use operation_system.Kalloc.{Kmem, pgsize, kernbase, v2p, write, kalloc}

-- PTE_P, PTE_W, PTE_U.
abbrev pub pte_p : ℕ
pte_p = 1

abbrev pub pte_w : ℕ
pte_w = 2

abbrev pub pte_u : ℕ
pte_u = 4

abbrev pub pdx : ℕ → ℕ
pdx va = va / 2 ^ 22 % 2 ^ 10

abbrev pub ptx : ℕ → ℕ
ptx va = va / 2 ^ 12 % 2 ^ 10

abbrev pub p2v : ℕ → ℕ
p2v a = (a + kernbase) % 2 ^ 32

abbrev pub pgrounddown : ℕ → ℕ
pgrounddown a = a / pgsize * pgsize

abbrev pub pte_addr : ℕ → ℕ
pte_addr pte = pte / pgsize * pgsize

abbrev pub pte_flags : ℕ → ℕ
pte_flags pte = pte % pgsize

abbrev pub is_present : ℕ → Bool
is_present pte = pte % 2 == 1

abbrev pub is_user : ℕ → Bool
is_user pte = pte / 4 % 2 == 1

-- `memset(v, 0, PGSIZE)`, word by word.
abbrev pub fill_zero : (ℕ → ℕ) → ℕ → ℕ → ℕ
fill_zero word v a = if leb v a && ltb a (v + pgsize) then 0 else word a

-- `pgdir[i]`, and the page table that it leads to.
abbrev pub pde_at : Kmem → ℕ → ℕ → ℕ
pde_at k pgdir i = k.word (pgdir + 4 * i)

abbrev pub table_at : Kmem → ℕ → ℕ → ℕ
table_at k pgdir i = p2v (pte_addr (pde_at k pgdir i))

abbrev pub dir_entry : ℕ → ℕ
dir_entry pgtab = bit_or (bit_or (bit_or (v2p pgtab) pte_p) pte_w) pte_u

abbrev pub new_table : ℕ → ℕ → ℕ × Kmem → Kmem × Option ℕ
new_table pgdir va (v, k) = if v == 0 then (k, none) else (
  record k { word = write (fill_zero k.word v) (pgdir + 4 * pdx va) (dir_entry v) },
  some (v + 4 * ptx va),
)

-- The entry for `va`; `none` is the null pointer.
unfoldable pub walkpgdir : ℕ → ℕ → Bool → Kmem → Kmem × Option ℕ
walkpgdir pgdir va alloc k =
    if is_present (pde_at k pgdir (pdx va))
    then (k, some (table_at k pgdir (pdx va) + 4 * ptx va))
    else if alloc
    then new_table pgdir va (kalloc k)
    else (k, none)

abbrev pub set_word : Kmem → ℕ → ℕ → Kmem
set_word k a x = record k { word = write k.word a x }

-- One round of the loop of `mappages`.
pub data Mapped : Type 0 where
  remap : Mapped
  no_table mapped : Kmem → Mapped

abbrev pub put_entry : ℕ → ℕ → Kmem × Option ℕ → Mapped
put_entry pa perm (k, none) = no_table k
put_entry pa perm (k, some pte) =
    if is_present (k.word pte)
    then remap
    else mapped (set_word k pte (bit_or (bit_or pa perm) pte_p))

-- What the loop does after a round: it goes on, by `next`, only if it has written the entry.
abbrev pub after_map : Mapped → (Kmem → Option (Kmem × Bool)) → Option (Kmem × Bool)
after_map remap next = none
after_map (no_table k) next = some (k, false)
after_map (mapped k) next = next k

-- The loop of `mappages`, in at most `n` rounds.
pub map_loop : ℕ → ℕ → ℕ → ℕ → ℕ → ℕ → Kmem → Option (Kmem × Bool)
map_loop pgdir last perm zero a pa k = none
map_loop pgdir last perm (suc n) a pa k =
    after_map (put_entry pa perm (walkpgdir pgdir a true k)) λ k'. elim (a == last) [
      | true ↦ some (k', true)
      | false ↦ map_loop pgdir last perm n ((a + pgsize) % 2 ^ 32) ((pa + pgsize) % 2 ^ 32) k'
    ]

-- As many rounds as there are pages.
abbrev pub page_count : ℕ → ℕ → ℕ
page_count a last = (last + 2 ^ 32 - a) % 2 ^ 32 / pgsize + 1

-- `none` is the panic; else whether the call returned 0, and not -1.
pub mappages : ℕ → ℕ → ℕ → ℕ → ℕ → Kmem → Option (Kmem × Bool)
mappages pgdir va size pa perm k =
    let a = pgrounddown va in
    let last = pgrounddown ((va + size + 2 ^ 32 - 1) % 2 ^ 32) in
    map_loop pgdir last perm (page_count a last) a pa k

-- `none` is the panic. `walkpgdir` changes nothing where it does not allocate.
pub clearpteu : ℕ → ℕ → Kmem → Option Kmem
clearpteu pgdir uva k = elim (walkpgdir pgdir uva false k).1 [
  | none ↦ none
  | some pte ↦ let e = k.word pte in some (set_word k pte (if is_user e then e - pte_u else e))
]

-- `none` is an access through the null pointer that `walkpgdir` returns where there is no page table,
-- which `uva2ka` does not check; the inner `none` is the null pointer.
pub uva2ka : ℕ → ℕ → Kmem → Option (Option ℕ)
uva2ka pgdir uva k = elim (walkpgdir pgdir uva false k).1 [
  | none ↦ none
  | some pte ↦
      let e = k.word pte in
      if not (is_present e)
      then some none
      else if not (is_user e)
      then some none
      else some (some (p2v (pte_addr e)))
]
