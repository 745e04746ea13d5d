-- ===== src/Console/Edit.antt =====
-- A line editor without a ring, which `consoleintr` of xv6/console.c is to be.
pub mod Erase
pub mod Add
pub mod Refines
use operation_system.Base.{
  Bool-cases, Bool, length-append, get_or-set_ne, length-set, ap₂, get_or-set_self, inr, ◌%◌, true,
  refl, inl, sym, set, false, ℕ_eq, ap, ℕ, zero, suc, ◌+◌, ◌-◌, ◌^◌, ◌≤◌, ◌<◌, ◌≡◌, ◌∙◌, ◌≢◌, not,
  ◌&&◌, ◌||◌, List, [], ◌∷◌, ◌++◌, arith, ltb, ◌==◌, if◌then◌else◌, length, take,
}
use operation_system.Console.{
  Typed, consoleintr, add_char, intr_char, inc, commit, put_char, input_buf, rub_out, Input, at,
  dec, sub32, ctrl_u, ctrl_h, ctrl_p, ctrl_d, newline, kill_line, no_return,
}
use operation_system.Console.Ring.{
  window-join, window-snoc, take-window, window-set, window, line, ready, held, committed, IsValid,
  length-window, at_same,
}

-- The bytes that a reader may get, and the line that is being typed.
pub record Lines : Type 0 where
  pub ready : List ℕ
  pub line : List ℕ

abbrev pub lines : Input → Lines
lines i = record { ready = ready i; line = line i }

abbrev pub all_but_last : List ℕ → List ℕ
all_but_last l = take (length l - 1) l

-- The end of the line makes it ready, and so do 128 bytes.
abbrev pub end_line : ℕ → List ℕ → List ℕ → Lines
end_line c ready line =
    if (c == newline) || (c == ctrl_d) || (length ready + length line == 128)
    then record { ready = ready ++ line; line = [] }
    else record { ready = ready; line = line }

abbrev pub edit : ℕ → Lines → Lines
edit c t =
    if c == ctrl_p
    then t
    else if c == ctrl_u
    then record t { line = [] }
    else if (c == ctrl_h) || (c == 0x7f)
    then record t { line = all_but_last t.line }
    else if not (c == 0) && ltb (length t.ready + length t.line) 128
    then end_line (no_return c) t.ready (t.line ++ (no_return c ∷ []))
    else t

abbrev pub edit_all : List ℕ → Lines → Lines
edit_all [] t = t
edit_all (c ∷ cs) t = edit_all cs (edit c t)

abbrev pub Edits : Lines → Input → Type 0
Edits t i = IsValid i × (lines i ≡ t)
