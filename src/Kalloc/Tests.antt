-- ===== src/Kalloc/Tests.antt =====
-- xv6/kalloc.c at concrete inputs, and its theorems there.
use operation_system.Base.{ℕ, ◌-◌, ◌/◌, ◌≡◌, refl, true, false, none, some, List, [], ◌∷◌, arith}
use operation_system.Kalloc.{Kmem, pgsize, pgroundup, kfree, freerange}
use operation_system.Kalloc.FreeList.{IsFreeList}
use operation_system.Kalloc.Range.{range_pages, freerange-IsFreeList}
use operation_system.Kalloc.Owners.{obtain, release, Client, calls, Sound, calls-Sound}

abbrev kernel_end : ℕ
kernel_end = 0x8010_9000

abbrev blank : Kmem
blank = record { use_lock = false; freelist = 0; word = λ a. 0 }

blank-IsFreeList : IsFreeList kernel_end blank []
blank-IsFreeList = record { chain = refl; distinct = tt; all_pages = tt }

misaligned : kfree kernel_end blank 0x8020_0004 ≡ none
unfolding kfree
misaligned = refl

-- The range begins and ends inside a page.
freerange-IsFreeList_example :
    (k' : Kmem) × (freerange kernel_end 0x8020_0800 0x8020_3400 blank ≡ some k')
    × IsFreeList kernel_end k'
        (range_pages ((0x8020_3400 - pgroundup 0x8020_0800) / pgsize) (pgroundup 0x8020_0800) [])
freerange-IsFreeList_example =
    freerange-IsFreeList kernel_end 0x8020_0800 0x8020_3400 blank [] blank-IsFreeList tt
      (omega arith) (omega arith) (omega arith) (omega arith)

range_example : range_pages 2 0x8020_1000 [] ≡ 0x8020_2000 ∷ 0x8020_1000 ∷ []
unfolding range_pages
range_example = refl

-- One page is free and one is owned.
abbrev client : Client
client = record {
  kmem = record { use_lock = true; freelist = 0x8020_1000; word = λ a. 0 };
  owned = 0x8020_0000 ∷ [];
}

client-Sound : Sound kernel_end 2 client (0x8020_1000 ∷ [])
client-Sound = record {
  listed = record {
    chain = (refl, omega arith, refl);
    distinct = (tt, tt);
    all_pages = (omega arith, tt);
  };
  owned_pages = (omega arith, tt);
  owned_once = (tt, tt);
  apart = ((omega arith, tt), tt);
  balance = refl;
}

calls-Sound_example :
    (c' : Client) × (free' : List ℕ) × (calls kernel_end client (obtain ∷ release 1 ∷ obtain ∷ [])
      ≡ some c')
    × Sound kernel_end 2 c' free'
calls-Sound_example =
    calls-Sound kernel_end 2 (obtain ∷ release 1 ∷ obtain ∷ []) client (0x8020_1000 ∷ [])
      client-Sound
