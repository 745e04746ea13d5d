-- ===== src/Strings/Tests.antt =====
-- xv6/string.c at concrete inputs, and its theorems there.
use operation_system.Base.{◌≡◌, refl, some, [], ◌∷◌}
use operation_system.Strings.Move.{moved, memmove-moved}
use operation_system.Strings.{forward, backward, memmove, memcmp}

-- Ranges that overlap: bytes 0 to 3 of a memory that holds its own addresses, moved up by 2.
move_up : memmove (λ a. a) 2 0 4 5 ≡ 3
unfolding memmove forward backward
move_up = refl

differ : memcmp (1 ∷ 2 ∷ []) (1 ∷ 3 ∷ []) 2 ≡ some (2, 3)
unfolding memcmp
differ = refl

memmove-moved_example : memmove (λ a. a) 2 0 4 5 ≡ moved (λ a. a) 2 0 4 5
memmove-moved_example = memmove-moved (λ a. a) 2 0 4 5
