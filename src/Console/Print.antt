-- ===== src/Console/Print.antt =====
-- `printint` and `cprintf` of xv6/console.c: the bytes that they put with `consputc`.
pub mod Numerals
use operation_system.Base.{
  ℕ, zero, suc, ◌+◌, ◌-◌, ◌/◌, ◌%◌, ◌^◌, Bool, true, false, not, ◌&&◌, ◌||◌, Option, none, some,
  List, [], ◌∷◌, ◌++◌, ltb, leb, ◌==◌, if◌then◌else◌, length,
}

abbrev pub digit : ℕ → ℕ
digit d = if ltb d 10 then b'0' + d else b'a' + d - 10

abbrev pub also : ℕ → Option (List ℕ) → Option (List ℕ)
also c none = none
also c (some cs) = some (c ∷ cs)

-- The first loop of `printint`, with room for `n` bytes more in `buf`; `none` is a write past it. The
-- lowest digit stands first.
unfoldable pub put_digits : ℕ → ℕ → ℕ → Option (List ℕ)
put_digits base zero x = none
put_digits base (suc n) x =
    let rest = put_digits base n (x / base) in
    if x / base == 0 then some (digit (x % base) ∷ []) else also (digit (x % base)) rest

-- The second loop, from the last byte of `buf` to its first.
abbrev pub backwards : List ℕ → List ℕ
backwards [] = []
backwards (c ∷ cs) = backwards cs ++ (c ∷ [])

-- The sign goes into `buf` too, which has 16 bytes.
abbrev pub put_sign : Bool → Option (List ℕ) → Option (List ℕ)
put_sign neg none = none
put_sign neg (some buf) =
    if neg
    then (if ltb (length buf) 16 then some (backwards (buf ++ (b'-' ∷ []))) else none)
    else some (backwards buf)

-- The 32-bit word `xx` is negative from 2 ^ 31 on.
abbrev pub is_negative : ℕ → Bool → Bool
is_negative xx sign = sign && leb (2 ^ 31) xx

abbrev pub magnitude : ℕ → Bool → ℕ
magnitude xx neg = if neg then (2 ^ 32 - xx) % 2 ^ 32 else xx

unfoldable pub printint : ℕ → ℕ → Bool → Option (List ℕ)
printint xx base sign =
    let neg = is_negative xx sign in put_sign neg (put_digits base 16 (magnitude xx neg))

abbrev pub followed : Option (List ℕ) → Option (List ℕ) → Option (List ℕ)
followed none b = none
followed (some s) none = none
followed (some s) (some t) = some (s ++ t)

-- The arguments are words, from `k` on, and `str` the bytes at an address up to the NUL.
module _ (arg : ℕ → ℕ) (str : ℕ → List ℕ) where
  abbrev pub string_at : ℕ → List ℕ
  string_at s = if s == 0 then b'(' ∷ b'n' ∷ b'u' ∷ b'l' ∷ b'l' ∷ b')' ∷ [] else str s

  unfoldable pub cprintf : List ℕ → ℕ → Option (List ℕ)
  cprintf [] k = some []
  cprintf (c ∷ []) k = some (if c == b'%' then [] else c ∷ [])
  cprintf (c ∷ d ∷ fmt) k =
      let next = cprintf (d ∷ fmt) k in
      let same = cprintf fmt k in
      let more = cprintf fmt (k + 1) in
      if not (c == b'%')
      then also c next
      else if d == b'd'
      then followed (printint (arg k) 10 true) more
      else if (d == b'x') || (d == b'p')
      then followed (printint (arg k) 16 false) more
      else if d == b's'
      then followed (some (string_at (arg k))) more
      else if d == b'%'
      then also b'%' same
      else also b'%' (also d same)
