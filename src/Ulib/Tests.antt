-- ===== src/Ulib/Tests.antt =====
-- xv6/ulib.c at concrete inputs, and its theorems there.
use operation_system.Ulib.{get_loop, atoi_from, atoi, memmove, gets}
use operation_system.Strings.{forward}
use operation_system.Ulib.Gets.{gets-Got, Got}
use operation_system.Base.{◌+◌, ◌≡◌, refl, [], ◌∷◌, map, arith}

-- Room for 3 bytes of 5.
gets-Got_example :
    Got 4
      (b'a' ∷ b'b' ∷ b'c' ∷ b'd' ∷ 10 ∷ [])
      (gets 4 (b'a' ∷ b'b' ∷ b'c' ∷ b'd' ∷ 10 ∷ [])).0
      (gets 4 (b'a' ∷ b'b' ∷ b'c' ∷ b'd' ∷ 10 ∷ [])).1
gets-Got_example = gets-Got 4 (b'a' ∷ b'b' ∷ b'c' ∷ b'd' ∷ 10 ∷ []) (omega arith)

one_line : gets 9 (b'a' ∷ 10 ∷ b'b' ∷ []) ≡ (b'a' ∷ 10 ∷ 0 ∷ [], b'b' ∷ [])
unfolding gets get_loop
one_line = refl

-- A buffer of no bytes gets a NUL as well.
no_room : gets 0 (b'a' ∷ []) ≡ (0 ∷ [], b'a' ∷ [])
unfolding gets get_loop
no_room = refl

number_read : atoi (b'4' ∷ b'2' ∷ b' ' ∷ b'1' ∷ []) ≡ 42
unfolding atoi atoi_from
number_read = refl

-- Two bytes of 1, 2, 3 moved up by one: the 2 is lost.
overlap : map (memmove (λ a. a + 1) 1 0 2) (0 ∷ 1 ∷ 2 ∷ []) ≡ 1 ∷ 1 ∷ 1 ∷ []
unfolding memmove forward
overlap = refl
