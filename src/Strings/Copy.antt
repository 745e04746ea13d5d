-- ===== src/Strings/Copy.antt =====
-- What the string copies of xv6/string.c write.
use operation_system.Base.{
  ℕ, zero, suc, ◌+◌, min, ◌≡◌, refl, ap, List, [], ◌∷◌, arith, length, take, length-replicate,
}
use operation_system.Strings.{zeros_left, strncpy, safestrcpy, strlen}

-- `strncpy` fills exactly the `n` bytes of its buffer.
length-strncpy : (t : List ℕ) (n : ℕ) → length (strncpy t n) ≡ n
unfolding strncpy zeros_left
length-strncpy t zero = refl
length-strncpy [] (suc n) = ap suc (length-replicate n 0)
length-strncpy (c ∷ t) (suc n) = ground (arith, length-strncpy t n, length-replicate {A = ℕ} n 0)

-- `safestrcpy` into a buffer of `n` bytes, `n` being at least 1, writes at most `n` bytes, and what
-- it writes is a string: the first bytes of the source up to its NUL, as many as fit before the NUL
-- that ends the copy.
strlen-safestrcpy :
    (t : List ℕ) (n : ℕ)
    → (length (safestrcpy t (suc n)) ≡ strlen (safestrcpy t (suc n)) + 1)
      × (strlen (safestrcpy t (suc n)) ≡ min n (strlen t))
      × (take (strlen (safestrcpy t (suc n))) t
          ≡ take (strlen (safestrcpy t (suc n))) (safestrcpy t (suc n)))
unfolding safestrcpy strlen
strlen-safestrcpy t zero = ground arith
strlen-safestrcpy [] (suc n) = ground arith
strlen-safestrcpy (c ∷ t) (suc n) = ground (arith, strlen-safestrcpy t n)
