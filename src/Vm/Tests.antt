-- ===== src/Vm/Tests.antt =====
-- xv6/vm.c at concrete inputs, and its theorems there.
use operation_system.Vm.Alloc.Loop.{allocuvm-AllocEnds}
use operation_system.Vm.Alloc.{AllocEnds}
use operation_system.Vm.Dealloc.Size.{deallocuvm-Frees}
use operation_system.Vm.Map.Loop.{mappages-MapEnds}
use operation_system.Vm.Dealloc.{Frees}
use operation_system.Vm.Map.{Unmapped, MapEnds}
use operation_system.Vm.User.{grow_back, grow_page, dealloc_loop, alloc_loop, allocuvm, deallocuvm}
use operation_system.Vm.{map_loop, walkpgdir, mappages, table_at}
use operation_system.Kalloc.{kalloc, kfree, Kmem, pgsize}
use operation_system.Kalloc.FreeList.{IsPage, IsFreeList}
use operation_system.Vm.Owned.{frame, IsOwned, IsMapped}
use operation_system.Vm.Space.{Spare, IsSpace, HasTable}
use operation_system.Base.{
  ◌+◌, none, Option, some, ℕ, ◌%◌, ◌≤◌, ◌<◌, ◌≡◌, refl, sym, ◌∙◌, true, List, [], ◌∷◌, arith, ◌==◌,
  if◌then◌else◌,
}

-- A directory whose first table maps a page at the address 0, and two free pages.
abbrev kernel_end : ℕ
kernel_end = 0x8010_9000

abbrev dir : ℕ
dir = 0x8020_0000

abbrev table : ℕ
table = 0x8020_1000

abbrev page : ℕ
page = 0x8020_2000

abbrev words : ℕ → ℕ
words a =
    if a == dir
    then 0x20_1007
    else if a == table
    then 0x20_2007
    else if a == 0x8020_3000
    then 0x8020_4000
    else 0

abbrev memory : Kmem
memory = record { use_lock = true; freelist = 0x8020_3000; word = words }

abbrev free_pages : List ℕ
free_pages = 0x8020_3000 ∷ 0x8020_4000 ∷ []

first_only : (i : ℕ) → HasTable memory dir i → i ≡ 0
first_only i h = ground (arith, h)

memory-IsPage : (v : ℕ) → v % pgsize ≡ 0 → kernel_end ≤ v → v < 0x8030_0000 → IsPage kernel_end v
memory-IsPage v al lo hi = record {
  aligned = al;
  above = lo;
  mapped = omega (arith, lo);
  below = omega (arith, hi);
}

table_only : (i : ℕ) → HasTable memory dir i → table_at memory dir i ≡ table
table_only i h = rw (first_only i h) refl

page-Spared : (v : ℕ) → v ≡ page → Spare kernel_end memory free_pages dir v
page-Spared v e = record {
  page = memory-IsPage v (omega (arith, e)) (omega (arith, e)) (omega (arith, e));
  used = (omega (arith, e), (omega (arith, e), tt));
  no_dir = omega (arith, e);
  no_table = λ i h t. let z = table_only i h in omega (arith, e, t, z);
}

memory-IsFreeList : IsFreeList kernel_end memory free_pages
memory-IsFreeList = record {
  chain = (refl, omega arith, (refl, omega arith, refl));
  distinct = ((omega arith, tt), (tt, tt));
  all_pages = (
    memory-IsPage 0x8020_3000 (omega arith) (omega arith) (omega arith),
    (memory-IsPage 0x8020_4000 (omega arith) (omega arith) (omega arith), tt),
  );
}

memory-IsSpace : IsSpace kernel_end memory free_pages dir
memory-IsSpace = record {
  listed = memory-IsFreeList;
  dir_aligned = omega arith;
  dir_used = (omega arith, (omega arith, tt));
  table_page =
      λ i h. rw (first_only i h) (memory-IsPage table (omega arith) (omega arith) (omega arith));
  table_used = λ i h. rw (table_only i h) (omega arith, (omega arith, tt));
  table_dir = λ i h. rw (first_only i h) (omega arith);
  once = λ i j h g e. first_only i h ∙ sym (first_only j g);
}

page_only : (va : ℕ) → IsMapped memory dir va → va < pgsize
page_only va m = ground (arith, m)

frame_only : (va : ℕ) → va < pgsize → frame memory dir va ≡ page
frame_only va l = ground (arith, l)

memory-IsOwned : IsOwned kernel_end memory free_pages dir
memory-IsOwned = record {
  space = memory-IsSpace;
  owns = λ va m. page-Spared (frame memory dir va) (frame_only va (page_only va m));
  alone = λ a b m n e. let p = page_only a m in let q = page_only b n in omega (arith, p, q);
}

-- Three pages, of which the first has a page table already.
mappages-MapEnds_example :
    MapEnds kernel_end dir 0x3f_f000 0x40_2000 0x10_0000 2 memory free_pages
      (mappages dir 0x3f_f100 8000 0x10_0000 2 memory)
mappages-MapEnds_example =
    mappages-MapEnds kernel_end dir 2 0x3f_f100 8000 0x10_0000 memory free_pages (omega arith)
      (omega arith) (omega arith) memory-IsSpace

deallocuvm-Frees_example :
    (k' : Kmem) × (deallocuvm kernel_end dir 5000 0 memory ≡ some (k', 0))
    × Frees kernel_end dir 0 8192 memory free_pages k'
deallocuvm-Frees_example =
    deallocuvm-Frees kernel_end dir 5000 0 memory free_pages (omega arith) memory-IsOwned
      (omega arith) (omega arith)

second-Unmapped : Unmapped dir 4096 8192 memory
second-Unmapped va lo hi = ground (arith, lo, hi)

allocuvm-AllocEnds_example :
    AllocEnds kernel_end dir 4096 8192 6000 memory free_pages
      (allocuvm kernel_end dir 4096 6000 memory)
allocuvm-AllocEnds_example =
    allocuvm-AllocEnds kernel_end dir 4096 6000 memory free_pages (omega arith) memory-IsOwned
      (omega arith) (omega arith) second-Unmapped

-- The size, the head of the free list and the words at two addresses.
abbrev seen : ℕ → ℕ → Option (Kmem × ℕ) → List ℕ
seen a b none = []
seen a b (some (k, sz)) = sz ∷ k.freelist ∷ k.word a ∷ k.word b ∷ []

-- The page goes to the free list, and its entry is cleared.
freed_page :
    seen page table (deallocuvm kernel_end dir 5000 0 memory) ≡ 0 ∷ page ∷ 0x8020_3000 ∷ 0 ∷ []
unfolding deallocuvm dealloc_loop walkpgdir kfree
freed_page = refl

grown :
    seen (table + 4) 0x8020_3000 (allocuvm kernel_end dir 4096 6000 memory)
    ≡ 6000 ∷ 0x8020_4000 ∷ 0x20_3007 ∷ 0 ∷ []
unfolding allocuvm alloc_loop grow_page mappages map_loop walkpgdir kalloc
grown = refl

-- Only two of the three pages are there: all is freed, down to the old size.
no_memory :
    seen table (table + 4) (allocuvm kernel_end dir 4096 16384 memory)
    ≡ 0 ∷ 0x8020_4000 ∷ 0x20_2007 ∷ 0 ∷ []
unfolding allocuvm alloc_loop grow_page grow_back deallocuvm dealloc_loop mappages map_loop
    walkpgdir kalloc kfree
no_memory = refl
