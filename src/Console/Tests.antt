-- ===== src/Console/Tests.antt =====
-- xv6/console.c at concrete inputs, and its theorems there.
use operation_system.Base.{
  some, inl, true, ltb, false, ℕ, ◌-◌, ◌^◌, ◌≡◌, refl, List, [], ◌∷◌, arith, replicate,
}
use operation_system.Console.{intr_char, consoleread, Input, consoleintr}
use operation_system.Console.Ring.{ready, IsValid}
use operation_system.Console.Edit.{lines, edit_all, Edits}
use operation_system.Console.Print.{put_digits, printint, cprintf}
use operation_system.Console.Print.Numerals.{Prints, printint-Prints}
use operation_system.Console.Reads.{take_line, Reads, consoleread-Reads}
use operation_system.Console.Edit.Refines.{consoleintr-Edits}

-- An empty ring whose counters are about to wrap round.
abbrev empty_ring : Input
empty_ring = record { buf = replicate 128 0; r = 2 ^ 32 - 2; w = 2 ^ 32 - 2; e = 2 ^ 32 - 2 }

empty_ring-IsValid : IsValid empty_ring
empty_ring-IsValid = record {
  size = refl;
  r_word = omega arith;
  w_word = omega arith;
  e_word = omega arith;
  within = omega arith;
  order = omega arith;
  open_line = λ k h l. absurd (omega arith);
}

-- The bytes of "lx", a delete, and "s" with a return; then "a".
abbrev keys : List ℕ
keys = b'l' ∷ b'x' ∷ 127 ∷ b's' ∷ 13 ∷ b'a' ∷ []

consoleintr-Edits_example :
    Edits (edit_all keys (lines empty_ring)) (consoleintr keys empty_ring).input
consoleintr-Edits_example = consoleintr-Edits keys empty_ring empty_ring-IsValid

edit_runs :
    edit_all keys (lines empty_ring) ≡ record { ready = b'l' ∷ b's' ∷ 10 ∷ []; line = b'a' ∷ [] }
edit_runs = refl

-- The ring with these keys, of which a line of three bytes is ready.
abbrev typed_ring : Input
typed_ring = (consoleintr keys empty_ring).input

consoleread-Reads_example :
    Reads
      (take_line false (ltb 2 2) 2 (ready typed_ring))
      typed_ring
      (consoleread false 2 2 typed_ring)
consoleread-Reads_example =
    consoleread-Reads false 2 2 typed_ring (consoleintr-Edits keys empty_ring empty_ring-IsValid).0
      (omega arith)

read_runs : (consoleread false 8 8 typed_ring).bytes ≡ b'l' ∷ b's' ∷ 10 ∷ []
unfolding consoleread consoleintr intr_char
read_runs = refl

-- The word of -305.
printint-Prints_example : Prints 10 (2 ^ 32 - 305) (printint (2 ^ 32 - 305) 10 true)
printint-Prints_example = printint-Prints 10 (2 ^ 32 - 305) true (inl refl) (omega arith)

printint_runs : printint (2 ^ 32 - 305) 10 true ≡ some (b'-' ∷ b'3' ∷ b'0' ∷ b'5' ∷ [])
unfolding printint put_digits
printint_runs = refl

-- "%x.", of 255.
cprintf_runs :
    cprintf (λ k. 255) (λ s. []) (b'%' ∷ b'x' ∷ b'.' ∷ []) 0 ≡ some (b'f' ∷ b'f' ∷ b'.' ∷ [])
unfolding cprintf printint put_digits
cprintf_runs = refl
