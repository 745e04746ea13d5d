-- ===== src/Ulib/Gets.antt =====
-- What `gets` of xv6/ulib.c reads, and that it stays in its buffer.
use operation_system.Ulib.{gets, ends_line, get_loop}
use operation_system.Base.{
  length-append, ◌<◌, ℕ, zero, suc, ◌-◌, ◌≤◌, ◌≡◌, refl, ap, ◌⊎◌, inl, inr, Bool, true, false, not,
  ◌&&◌, List, [], ◌∷◌, ◌++◌, arith, Bool-cases, length, All,
}

-- Whether a line has a line end as its last byte, and none before.
abbrev pub is_line : List ℕ → Bool
is_line [] = false
is_line (c ∷ []) = ends_line c
is_line (c ∷ d ∷ s) = not (ends_line c) && is_line (d ∷ s)

-- The line is what stood first in the input. It has a line end only as its last byte; if it has none, the
-- buffer of `n` bytes and a NUL is full or the input is at its end.
pub record Line (n : ℕ) (input line left : List ℕ) : Type 0 where
  pub prefix : line ++ left ≡ input
  pub short : length line ≤ n
  pub ending :
      (is_line line ≡ true)
      ⊎ (All (λ c. ends_line c ≡ false) line × ((length line ≡ n) ⊎ (left ≡ [])))

get_loop-Line : (n : ℕ) (input : List ℕ) → Line n input (get_loop n input).0 (get_loop n input).1
unfolding get_loop
get_loop-Line zero input = record {
  prefix = refl;
  short = omega arith;
  ending = inr (tt, inl refl);
}
get_loop-Line (suc n) [] = record {
  prefix = refl;
  short = omega arith;
  ending = inr (tt, inr refl);
}
get_loop-Line (suc n) (c ∷ input) = elim (Bool-cases (ends_line c)) [
  | inl e ↦ rw e (record { prefix = refl; short = omega arith; ending = inl e })
  | inr ne ↦ rw ne (longer (get_loop n input).0 (get_loop n input).1 (get_loop-Line n input) ne)
]
  where
    goes_on :
        (line : List ℕ) → ends_line c ≡ false → is_line line ≡ true → is_line (c ∷ line) ≡ true
    goes_on [] ne e = absurd (cc)
    goes_on (d ∷ s) ne e = rw ne e

    longer :
        (line left : List ℕ)
        → Line n input line left
        → (ends_line c ≡ false)
        → Line (suc n) (c ∷ input) (c ∷ line) left
    longer line left l ne = record {
      prefix = ap (λ s. c ∷ s) l.prefix;
      short = omega (arith, l.short);
      ending = elim l.ending [
        | inl e ↦ inl (goes_on line ne e)
        | inr (none_yet, inl full) ↦ inr ((ne, none_yet), inl (omega (arith, full)))
        | inr (none_yet, inr done) ↦ inr ((ne, none_yet), inr done)
      ];
    }

-- The bytes `buf` are such a line and a NUL, which `max` bytes have room for.
pub record Got (max : ℕ) (input buf left : List ℕ) : Type 0 where
  pub line : List ℕ
  pub bytes : buf ≡ line ++ (0 ∷ [])
  pub fits : length buf ≤ max
  pub read : Line (max - 1) input line left

-- `gets` into a buffer of `max` bytes, at least one, writes no byte behind it: it puts a line and a NUL.
-- The line is what stood first in the input, and the rest of the input is left. A line end is the last
-- byte of the line; if there is none, the buffer is full or the input is at its end.
pub gets-Got :
    (max : ℕ) (input : List ℕ) → 0 < max → Got max input (gets max input).0 (gets max input).1
unfolding gets
gets-Got max input pos =
    let l = get_loop-Line (max - 1) input in
    let line = (get_loop (max - 1) input).0 in
    record {
      line = line;
      bytes = refl;
      fits = omega (arith, length-append line (0 ∷ []), l.short, pos);
      read = l;
    }
