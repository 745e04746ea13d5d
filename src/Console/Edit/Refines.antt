-- ===== src/Console/Edit/Refines.antt =====
-- `consoleintr` (xv6/console.c) is the line editor.
use operation_system.Base.{
  ℕ, ◌+◌, ◌≡◌, refl, sym, ap, ◌∙◌, inl, inr, not, ◌&&◌, ◌||◌, List, [], ◌∷◌, ◌++◌, arith, ltb, ◌==◌,
  if◌then◌else◌, Bool-cases, length,
}
use operation_system.Console.{
  Input, input_buf, sub32, ctrl_u, ctrl_h, ctrl_p, no_return, add_char, intr_char, consoleintr,
}
use operation_system.Console.Ring.{ready, line, IsValid}
use operation_system.Console.Edit.{lines, end_line, edit, edit_all, Edits}
use operation_system.Console.Edit.Erase.{lengths, kill-Edits, rub_out-Edits}
use operation_system.Console.Edit.Add.{commit-Edits}

module _ (i : Input) (v : IsValid i) where
  same_room : ltb (sub32 i.e i.r) input_buf ≡ ltb (length (ready i) + length (line i)) 128
  same_room = ap (λ n. ltb n 128) (sym (lengths i v))

  add_char-Edits :
      (c : ℕ)
      → Edits
          (if not (c == 0) && ltb (length (ready i) + length (line i)) 128
            then end_line (no_return c) (ready i) (line i ++ (no_return c ∷ []))
            else lines i)
          (add_char c i).input
  add_char-Edits c =
      let b = not (c == 0) && ltb (length (ready i) + length (line i)) 128 in
      elim (Bool-cases b) [
        | inl y ↦
            rw (same_room, y) (commit-Edits i v (no_return c) (ground (arith, y, lengths i v)))
        | inr n ↦ rw (same_room, n) (v, refl)
      ]

  intr_char-Edits : (c : ℕ) → Edits (edit c (lines i)) (intr_char c i).input
  unfolding intr_char
  intr_char-Edits c = elim (Bool-cases (c == ctrl_p)) [
    | inl p ↦ rw p (v, refl)
    | inr np ↦ elim (Bool-cases (c == ctrl_u)) [
      | inl u ↦ rw (np, u) (kill-Edits i v)
      | inr nu ↦ elim (Bool-cases ((c == ctrl_h) || (c == 0x7f))) [
        | inl h ↦ rw (np, nu, h) (rub_out-Edits i v)
        | inr nh ↦ rw (np, nu, nh) (add_char-Edits c)
      ]
    ]
  ]

-- Whatever bytes an interrupt gets, the ring stays well formed, and the bytes that are ready and the
-- line that is being typed are those of a line editor: control-U empties the line, control-H and delete
-- take off its last byte, control-P and 0 do nothing, and any other byte, a return as a newline, is added
-- if there are fewer than 128; a newline, a control-D or the 128th byte make the line ready.
pub consoleintr-Edits :
    (cs : List ℕ) (i : Input) → IsValid i → Edits (edit_all cs (lines i)) (consoleintr cs i).input
unfolding consoleintr
consoleintr-Edits [] i v = (v, refl)
consoleintr-Edits (c ∷ cs) i v =
    let h = intr_char-Edits i v c in
    let rest = consoleintr-Edits cs (intr_char c i).input h.0 in
    (rest.0, rest.1 ∙ ap (edit_all cs) h.1)
