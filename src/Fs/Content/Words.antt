-- ===== src/Fs/Content/Words.antt =====
-- A block of data as an array of 32-bit numbers (the indirect block of xv6/fs.c).
use operation_system.Base.{
  ℕ, ◌+◌, ◌*◌, ◌/◌, ◌%◌, ◌^◌, ◌<◌, ◌≡◌, refl, ap, fun_ext, ◌≢◌, true, false, arith, ◌==◌, ==_iff,
}
use operation_system.Fs.{word, put_word}

pub word_cong : (f g : ℕ → ℕ) (i : ℕ) → ((j : ℕ) → f j ≡ g j) → word f i ≡ word g i
word_cong f g i h = ap (λ (x : ℕ → ℕ). word x i) (fun_ext h)

eq_true : (a b : ℕ) → a ≡ b → (a == b) ≡ true
eq_true a b e = (==_iff a b).1 e

eq_false : (a b : ℕ) → a ≢ b → (a == b) ≡ false
eq_false a b ne = ground (arith, ne)

put_word_ne : (f : ℕ → ℕ) (i w a : ℕ) → a / 4 ≢ i → put_word f i w a ≡ f a
put_word_ne f i w a ne = rw (eq_false (a / 4) i ne)

put_word_0 : (f : ℕ → ℕ) (i w a : ℕ) → a ≡ 4 * i → put_word f i w a ≡ w % 2 ^ 8
put_word_0 f i w a e =
    rw (eq_true (a / 4) i (omega (arith, e)), eq_true (a % 4) 0 (omega (arith, e)))

put_word_1 : (f : ℕ → ℕ) (i w a : ℕ) → a ≡ 4 * i + 1 → put_word f i w a ≡ w / 2 ^ 8 % 2 ^ 8
put_word_1 f i w a e = rw (
  eq_true (a / 4) i (omega (arith, e)),
  eq_false (a % 4) 0 (omega (arith, e)),
  eq_true (a % 4) 1 (omega (arith, e)),
)

put_word_2 : (f : ℕ → ℕ) (i w a : ℕ) → a ≡ 4 * i + 2 → put_word f i w a ≡ w / 2 ^ 16 % 2 ^ 8
put_word_2 f i w a e = rw (
  eq_true (a / 4) i (omega (arith, e)),
  eq_false (a % 4) 0 (omega (arith, e)),
  eq_false (a % 4) 1 (omega (arith, e)),
  eq_true (a % 4) 2 (omega (arith, e)),
)

put_word_3 : (f : ℕ → ℕ) (i w a : ℕ) → a ≡ 4 * i + 3 → put_word f i w a ≡ w / 2 ^ 24 % 2 ^ 8
put_word_3 f i w a e = rw (
  eq_true (a / 4) i (omega (arith, e)),
  eq_false (a % 4) 0 (omega (arith, e)),
  eq_false (a % 4) 1 (omega (arith, e)),
  eq_false (a % 4) 2 (omega (arith, e)),
)

-- An entry that is written is read back.
pub word-put_word : (f : ℕ → ℕ) (i w : ℕ) → w < 2 ^ 32 → word (put_word f i w) i ≡ w
word-put_word f i w h =
    rw
      (
        put_word_0 f i w (4 * i) refl,
        put_word_1 f i w (4 * i + 1) refl,
        put_word_2 f i w (4 * i + 2) refl,
        put_word_3 f i w (4 * i + 3) refl,
      )
      (omega arith)

-- The other entries stay.
pub word-put_word_ne : (f : ℕ → ℕ) (i j w : ℕ) → j ≢ i → word (put_word f i w) j ≡ word f j
word-put_word_ne f i j w ne = rw (
  put_word_ne f i w (4 * j) (omega arith),
  put_word_ne f i w (4 * j + 1) (omega arith),
  put_word_ne f i w (4 * j + 2) (omega arith),
  put_word_ne f i w (4 * j + 3) (omega arith),
)

pub word_zero : (f : ℕ → ℕ) (i : ℕ) → ((j : ℕ) → f j ≡ 0) → word f i ≡ 0
word_zero f i h = word_cong f (λ j. 0) i h
