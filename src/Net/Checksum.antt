-- ===== src/Net/Checksum.antt =====
-- The checksums of xv6/icmp.c and xv6/ipv4.c.
use operation_system.Base.{
  ℕ, zero, suc, ◌+◌, ◌*◌, ◌%◌, ◌^◌, ◌<◌, ◌≡◌, inl, inr, List, [], ◌∷◌, arith, ltb, Bool-cases,
  get_or, take, All,
}
use operation_system.Net.{chksum_loop, complement, icmp_chksum, ipv4_chksum}

abbrev pub IsByte : ℕ → Type 0
IsByte b = b < 2 ^ 8

-- The sum of the big-endian 16-bit words; a last single byte is left out.
pub word_sum : List ℕ → ℕ
word_sum [] = 0
word_sum (hi ∷ []) = 0
word_sum (hi ∷ lo ∷ bytes) = hi * 2 ^ 8 + lo + word_sum bytes

-- The sum `r` is `total` in one's complement arithmetic: a word that differs from it by a multiple of
-- 2 ^ 16 - 1, and is 0 only if `total` is.
abbrev pub OnesSum : ℕ → ℕ → Type 0
OnesSum total r = (r < 2 ^ 16) × ((k : ℕ) × (r + k * 0xFFFF ≡ total)) × (r ≡ 0 → total ≡ 0)

-- From a word `s`, the loop over bytes computes `s` plus the 16-bit words in one's complement
-- arithmetic.
pub chksum_loop-OnesSum :
    (s : ℕ) (bytes : List ℕ)
    → s < 2 ^ 16
    → All IsByte bytes
    → OnesSum (s + word_sum bytes) (chksum_loop s bytes)
unfolding chksum_loop word_sum
chksum_loop-OnesSum s [] h b = (h, (0, omega arith), λ e. omega (arith, e))
chksum_loop-OnesSum s (hi ∷ []) h b = (h, (0, omega arith), λ e. omega (arith, e))
chksum_loop-OnesSum s (hi ∷ lo ∷ bytes) h b =
    let t = s + (hi * 2 ^ 8 + lo) in
    elim (Bool-cases (ltb 0xFFFF t)) [
      | inl over ↦
          let big : 0xFFFF < t = ground (arith, over) in
          let (r, (k, e), z) =
            chksum_loop-OnesSum (t % 2 ^ 16 + 1) bytes (omega (arith, big)) b.1.1 in
          rw over (r, (k + 1, omega (arith, e, big)), λ q. omega (arith, z q))
      | inr under ↦
          let small : t < 2 ^ 16 = ground (arith, under) in
          let (r, (k, e), z) = chksum_loop-OnesSum t bytes small b.1.1 in
          rw under (r, (k, omega (arith, e)), λ q. omega (arith, z q))
    ]

take-IsByte : (n : ℕ) (bytes : List ℕ) → All IsByte bytes → All IsByte (take n bytes)
take-IsByte zero bytes h = tt
take-IsByte (suc n) [] h = tt
take-IsByte (suc n) (b ∷ bytes) h = (h.0, take-IsByte n bytes h.1)

-- Added to the words that it covers, the complement of their sum is 0 in one's complement
-- arithmetic, a multiple of 0xFFFF.
OnesSum-complement :
    (total r : ℕ) → OnesSum (0 + total) r → (k : ℕ) × (total + complement r ≡ k * 0xFFFF)
OnesSum-complement total r (small, (k, e), z) = (k + 1, omega (arith, e))

-- Added to the words that it covers, a checksum is a multiple of 0xFFFF: 64 bytes for ICMP, and for
-- IPv4 as many 32-bit words as the low half of the first byte says.
pub chksum_checks :
    (bytes : List ℕ)
    → All IsByte bytes
    → ((k : ℕ) × (word_sum (take 64 bytes) + icmp_chksum bytes ≡ k * 0xFFFF))
      × ((k : ℕ) × (word_sum (take (get_or bytes 0 0 % 2 ^ 4 * 4) bytes) + ipv4_chksum bytes
            ≡ k * 0xFFFF))
unfolding icmp_chksum ipv4_chksum
chksum_checks bytes h =
    let sum : (n : ℕ) → All IsByte (take n bytes) = λ n. take-IsByte n bytes h in
    (
      OnesSum-complement _ _ (chksum_loop-OnesSum 0 (take 64 bytes) (omega arith) (sum 64)),
      OnesSum-complement _ _
          (chksum_loop-OnesSum 0 (take (get_or bytes 0 0 % 2 ^ 4 * 4) bytes) (omega arith) (sum _)),
    )
