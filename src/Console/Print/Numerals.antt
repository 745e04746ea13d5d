-- ===== src/Console/Print/Numerals.antt =====
-- What `printint` of xv6/console.c prints is the number, and fits in its buffer.
use native.Mathlib.Nat.{mod-lt, div-add-mod', div-lt_iff_lt-mul}
use Prim.Native.Nat.pow
use operation_system.Base.{
  inr, ap₂, inl, ◌⊎◌, ap, ℕ_eq, Bool, length-append, ◌∙◌, ℕ, zero, suc, ◌+◌, ◌-◌, ◌*◌, ◌/◌, ◌%◌,
  ◌^◌, ◌≤◌, ◌<◌, ◌≡◌, refl, subst, ◌≢◌, true, false, Option, some, List, [], ◌∷◌, ◌++◌, arith, ltb,
  ◌==◌, if◌then◌else◌, length, All,
}
use operation_system.Console.Print.{
  is_negative, put_sign, magnitude, printint, digit, put_digits, backwards,
}

abbrev pub minus : ℕ
minus = b'-'

-- Reading numerals back.
abbrev pub undigit : ℕ → ℕ
undigit c = if ltb c b'a' then c - b'0' else c + 10 - b'a'

abbrev pub number : ℕ → ℕ → List ℕ → ℕ
number base acc [] = acc
number base acc (c ∷ cs) = number base (acc * base + undigit c) cs

-- The 32-bit word that a numeral stands for.
abbrev pub read_int : ℕ → List ℕ → ℕ
read_int base [] = 0
read_int base (c ∷ cs) =
    if c == minus then (2 ^ 32 - number base 0 cs) % 2 ^ 32 else number base 0 (c ∷ cs)

number-snoc :
    (base acc : ℕ) (cs : List ℕ) (c : ℕ)
    → number base acc (cs ++ (c ∷ [])) ≡ number base acc cs * base + undigit c
number-snoc base acc [] c = refl
number-snoc base acc (d ∷ cs) c = number-snoc base (acc * base + undigit d) cs c

abbrev Unsigned : List ℕ → Type 0
Unsigned l = All (λ c. c ≢ minus) l

Unsigned-snoc : (cs : List ℕ) (c : ℕ) → Unsigned cs → c ≢ minus → Unsigned (cs ++ (c ∷ []))
Unsigned-snoc [] c h ne = (ne, tt)
Unsigned-snoc (d ∷ cs) c h ne = (h.0, Unsigned-snoc cs c h.1 ne)

read_int-Unsigned : (base : ℕ) (cs : List ℕ) → Unsigned cs → read_int base cs ≡ number base 0 cs
read_int-Unsigned base [] h = refl
read_int-Unsigned base (c ∷ cs) h =
    let ne = h.0 in let q : (c == minus) ≡ false = ground (arith, ne) in rw q refl

digit-minus : (d : ℕ) → digit d ≢ minus
digit-minus d e = ground (arith, e)

undigit-digit : (d : ℕ) → d < 16 → undigit (digit d) ≡ d
undigit-digit d h = ground (arith, h)

-- The bytes in `buf` are at most `n` digits of `x`, the lowest one first.
record Digits (base x n : ℕ) (r : Option (List ℕ)) : Type 0 where
  buf : List ℕ
  found : r ≡ some buf
  value : number base 0 (backwards buf) ≡ x
  short : length buf ≤ n
  unsigned : Unsigned (backwards buf)

module _ (base : ℕ) (lo : 1 < base) (hi : base ≤ 16) where
  undigit-low : (x : ℕ) → undigit (digit (x % base)) ≡ x % base
  undigit-low x =
      let l : x % base < base = mod-lt x (omega arith) in undigit-digit (x % base) (omega arith)

  last-Digits :
      (x n fuel : ℕ) → x / base ≡ 0 → 0 < n → Digits base x n (put_digits base (suc fuel) x)
  unfolding put_digits
  last-Digits x n fuel z hn =
      let t : (x / base == 0) ≡ true = ground (arith, z) in
      let e : x / base * base + x % base ≡ x = div-add-mod' x base in
      rw t (record {
        buf = digit (x % base) ∷ [];
        found = refl;
        value = ap (λ d. 0 * base + d) (undigit-low x) ∙ rw z at e;
        short = omega arith;
        unsigned = (digit-minus (x % base), tt);
      })

  next-Digits :
      (x n fuel : ℕ)
      → x / base ≢ 0
      → Digits base (x / base) n (put_digits base fuel (x / base))
      → Digits base x (suc n) (put_digits base (suc fuel) x)
  unfolding put_digits
  next-Digits x n fuel nz d =
      let t : (x / base == 0) ≡ false = ground (arith, nz) in
      rw (t, d.found)
        (record {
          buf = digit (x % base) ∷ d.buf;
          found = refl;
          value =
              number-snoc base 0 (backwards d.buf) (digit (x % base))
              ∙ ap₂ (λ a b. a * base + b) d.value (undigit-low x)
              ∙ div-add-mod' x base;
          short = omega (arith, d.short);
          unsigned =
              Unsigned-snoc (backwards d.buf) (digit (x % base)) d.unsigned
                (digit-minus (x % base));
        })

  put_digits-Digits :
      (n fuel x : ℕ) → n ≤ fuel → x < base ^ n → 0 < n → Digits base x n (put_digits base fuel x)
  put_digits-Digits zero fuel x h b p = absurd (omega arith)
  put_digits-Digits (suc n) zero x h b p = absurd (omega arith)
  put_digits-Digits (suc n) (suc fuel) x h b p =
      let q : x / base < base ^ n =
        (div-lt_iff_lt-mul (omega arith)).1 (subst (λ y. x < y) (pow.suc base n) b) in
      elim (ℕ_eq (x / base) 0) [
        | inl z ↦ last-Digits x (suc n) fuel z (omega arith)
        | inr nz ↦ elim (ℕ_eq n 0) [
          | inl e ↦
              let one : base ^ n ≡ 1 = ap (λ k. base ^ k) e ∙ pow.zero base in
              absurd (omega (arith, one, q, nz))
          | inr ne ↦
              next-Digits x n fuel nz
                (put_digits-Digits n fuel (x / base) (omega arith) q (omega (arith, ne)))
        ]
      ]

-- The call has put a numeral of `xx`, of at most 11 bytes.
pub record Prints (base xx : ℕ) (r : Option (List ℕ)) : Type 0 where
  pub out : List ℕ
  pub found : r ≡ some out
  pub reads : read_int base out ≡ xx
  pub short : length out ≤ 11

backwards-snoc : (cs : List ℕ) (c : ℕ) → backwards (cs ++ (c ∷ [])) ≡ c ∷ backwards cs
backwards-snoc [] c = refl
backwards-snoc (d ∷ cs) c = ap (λ l. l ++ (d ∷ [])) (backwards-snoc cs c)

length-backwards : (cs : List ℕ) → length (backwards cs) ≡ length cs
length-backwards [] = refl
length-backwards (c ∷ cs) =
    omega (arith, length-append (backwards cs) (c ∷ []), length-backwards cs)

signed-Prints :
    (base xx : ℕ) (neg : Bool) (r : Option (List ℕ))
    → xx < 2 ^ 32
    → (neg ≡ true → 2 ^ 31 ≤ xx)
    → Digits base (magnitude xx neg) 10 r
    → Prints base xx (put_sign neg r)
signed-Prints base xx false r h big d = rw d.found (record {
  out = backwards d.buf;
  found = refl;
  reads = read_int-Unsigned base (backwards d.buf) d.unsigned ∙ d.value;
  short = omega (arith, length-backwards d.buf, d.short);
})
signed-Prints base xx true r h big d =
    let t : ltb (length d.buf) 16 ≡ true = (let s = d.short in ground (arith, s)) in
    let lo = big refl in
    rw (d.found, t, backwards-snoc d.buf minus)
      (record {
        out = minus ∷ backwards d.buf;
        found = refl;
        reads = ap (λ m. (2 ^ 32 - m) % 2 ^ 32) d.value ∙ omega (arith, h, lo);
        short = omega (arith, length-backwards d.buf, d.short);
      })

record Fits (base : ℕ) : Type 0 where
  lo : 1 < base
  hi : base ≤ 16
  ten_digits : 2 ^ 32 ≤ base ^ 10

base-Fits : (base : ℕ) → (base ≡ 10) ⊎ (base ≡ 16) → Fits base
base-Fits base (inl e) =
    let p : base ^ 10 ≡ 10 ^ 10 = ap (λ b. b ^ 10) e in
    record { lo = omega arith; hi = omega arith; ten_digits = omega (arith, p) }
base-Fits base (inr e) =
    let p : base ^ 10 ≡ 16 ^ 10 = ap (λ b. b ^ 10) e in
    record { lo = omega arith; hi = omega arith; ten_digits = omega (arith, p) }

-- `printint` of a 32-bit word in base 10 or 16 never writes past its buffer: it puts at most 11 bytes, and
-- these, read back as a numeral with a minus sign or none, are the word.
pub printint-Prints :
    (base xx : ℕ) (sign : Bool)
    → (base ≡ 10) ⊎ (base ≡ 16)
    → xx < 2 ^ 32
    → Prints base xx (printint xx base sign)
unfolding printint
printint-Prints base xx sign known h =
    let f = base-Fits base known in
    let neg = is_negative xx sign in
    let m : magnitude xx neg < 2 ^ 32 = ground (arith, h) in
    signed-Prints base xx neg (put_digits base 16 (magnitude xx neg)) h (λ q. ground (arith, q))
      (put_digits-Digits base f.lo f.hi 10 16 (magnitude xx neg) (omega arith)
        (omega (arith, m, f.ten_digits)) (omega arith))
