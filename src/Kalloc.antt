-- ===== src/Kalloc.antt =====
-- xv6/kalloc.c: the allocator of 4096-byte pages. The free pages are linked through their first
-- word; `kmem.lock` makes each operation atomic.
pub mod FreeList
pub mod Owners
pub mod Range
mod Tests
use operation_system.Base.{
  ℕ, zero, suc, ◌+◌, ◌-◌, ◌*◌, ◌/◌, ◌%◌, ◌^◌, Bool, true, false, not, ◌&&◌, ◌||◌, Option, none,
  some, [], ltb, leb, ◌==◌, if◌then◌else◌,
}

-- `kmem` and the memory, a 32-bit word at each word address.
pub record Kmem : Type 0 where
  pub use_lock : Bool
  pub freelist : ℕ
  pub word : ℕ → ℕ

abbrev pub pgsize : ℕ
pgsize = 4096

abbrev pub kernbase : ℕ
kernbase = 0x80000000

abbrev pub phystop : ℕ
phystop = 0x20000000

-- The macros V2P and PGROUNDUP, on 32-bit addresses.
abbrev pub v2p : ℕ → ℕ
v2p v = (v + 2 ^ 32 - kernbase) % 2 ^ 32

abbrev pub pgroundup : ℕ → ℕ
pgroundup a = (a + (pgsize - 1)) % 2 ^ 32 / pgsize * pgsize

abbrev pub write : (ℕ → ℕ) → ℕ → ℕ → ℕ → ℕ
write word v x a = if v == a then x else word a

-- `memset(v, 1, PGSIZE)`, word by word.
abbrev pub fill_junk : (ℕ → ℕ) → ℕ → ℕ → ℕ
fill_junk word v a = if leb v a && ltb a (v + pgsize) then 0x01010101 else word a

-- `end` is the first address after the kernel, which the linker script defines.
module _ (end : ℕ) where
  abbrev pub rejects : ℕ → Bool
  rejects v = not (v % pgsize == 0) || ltb v end || leb phystop (v2p v)

  -- `none` is the panic.
  unfoldable pub kfree : Kmem → ℕ → Option Kmem
  kfree k v =
      if rejects v
      then none
      else some (record k { freelist = v; word = write (fill_junk k.word v) v k.freelist })

  -- The loop of `freerange` from `p` on, `n` bounding its rounds.
  pub freerange_loop : ℕ → ℕ → ℕ → Kmem → Option Kmem
  freerange_loop zero p vend k = none
  freerange_loop (suc n) p vend k = elim (leb ((p + pgsize) % 2 ^ 32) vend) [
    | true ↦ elim (kfree k p) [
      | none ↦ none
      | some k' ↦ freerange_loop n ((p + pgsize) % 2 ^ 32) vend k'
    ]
    | false ↦ some k
  ]

  pub freerange : ℕ → ℕ → Kmem → Option Kmem
  unfolding freerange_loop
  freerange vstart vend k = freerange_loop (vend / pgsize + 1) (pgroundup vstart) vend k

  pub kinit1 : ℕ → ℕ → Kmem → Option Kmem
  unfolding freerange
  kinit1 vstart vend k = freerange vstart vend (record k { use_lock = false })

  pub kinit2 : ℕ → ℕ → Kmem → Option Kmem
  unfolding freerange
  kinit2 vstart vend k = elim (freerange vstart vend k) [
    | none ↦ none
    | some k' ↦ some (record k' { use_lock = true })
  ]

-- The page's address, 0 where there is none.
unfoldable pub kalloc : Kmem → ℕ × Kmem
kalloc k =
    if k.freelist == 0 then (0, k) else (k.freelist, record k { freelist = k.word k.freelist })
