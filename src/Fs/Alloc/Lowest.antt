-- ===== src/Fs/Alloc/Lowest.antt =====
-- `balloc` takes the lowest free block (xv6/fs.c).
use operation_system.Base.{
  refl, ap, ◌≢◌, ◌==◌, ap₂, ◌∙◌, Option-cases, if◌then◌else◌, ◌*◌, ◌%◌, ℕ, zero, suc, ◌+◌, ◌-◌, ◌/◌,
  ◌≤◌, ◌<◌, ◌≡◌, inl, inr, Bool, true, false, Option, none, some, arith, ltb, Bool-cases, ℕ_eq,
}
use operation_system.Fs.Alloc.{
  bfree, bblock, put_bit, take_block, used, bpb, Fs, scan_map, balloc, scan_bits,
}

-- What a scan of the bits from `bi` on has found: a free block, or none in reach.
abbrev ScannedBits : (ℕ → Bool) → ℕ → ℕ → ℕ → ℕ → Option ℕ → Type 0
ScannedBits row b size bi n none = (k : ℕ) → bi ≤ k → k < bi + n → b + k < size → row k ≡ true
ScannedBits row b size bi n (some r) =
    (bi ≤ r)
    × (r < bi + n)
    × (b + r < size)
    × (row r ≡ false)
    × ((k : ℕ) → bi ≤ k → k < r → row k ≡ true)

later_bits :
    (row : ℕ → Bool) (b size bi n : ℕ)
    → row bi ≡ true
    → (o : Option ℕ) → ScannedBits row b size (bi + 1) n o
    → ScannedBits row b size bi (suc n) o
later_bits row b size bi n taken none h = λ k lo hi lt. elim (ℕ_eq k bi) [
  | inl e ↦ rw e taken
  | inr ne ↦ h k (omega (arith, lo, ne)) (omega (arith, hi)) lt
]
later_bits row b size bi n taken (some r) h = (
  omega (arith, h.0),
  omega (arith, h.1),
  h.2,
  h.3,
  λ k lo hi. elim (ℕ_eq k bi) [ inl e ↦ rw e taken | inr ne ↦ h.4 k (omega (arith, lo, ne)) hi ],
)

scan_bits-Scanned :
    (row : ℕ → Bool) (b size bi n : ℕ) → ScannedBits row b size bi n (scan_bits row b size bi n)
unfolding scan_bits
scan_bits-Scanned row b size bi zero = λ k lo hi lt. absurd (omega (arith, lo, hi))
scan_bits-Scanned row b size bi (suc n) = elim (Bool-cases (ltb (b + bi) size)) [
  | inr out ↦ rw out (λ k lo hi lt. absurd (ground (arith, lo, lt, out)))
  | inl fits ↦ elim (Bool-cases (row bi)) [
    | inr free ↦
        rw (fits, free)
          (
            omega arith,
            omega arith,
            ground (arith, fits),
            free,
            λ k lo hi. absurd (omega (arith, lo, hi)),
          )
    | inl taken ↦
        rw (fits, taken)
          (later_bits row b size bi n taken (scan_bits row b size (bi + 1) n)
            (scan_bits-Scanned row b size (bi + 1) n))
  ]
]

-- The lowest free block from `b` on.
abbrev pub Lowest : Fs → ℕ → Option ℕ → Type 0
Lowest fs b none = (k : ℕ) → b ≤ k → k < fs.sb.size → used fs k ≡ true
Lowest fs b (some r) =
    (b ≤ r) × (r < fs.sb.size) × (used fs r ≡ false) × ((k : ℕ) → b ≤ k → k < r → used fs k ≡ true)

-- The bit of a block in the bitmap block of `b`.
used_bit :
    (fs : Fs) (b k : ℕ)
    → b % bpb ≡ 0
    → b ≤ k
    → k < b + bpb
    → used fs k ≡ fs.bits (bblock b fs.sb) (k - b)
used_bit fs b k z lo hi =
    ap₂ (λ x y. fs.bits x y) (omega (arith, z, lo, hi)) (omega (arith, z, lo, hi))

map_found :
    (fs : Fs) (b r : ℕ)
    → b % bpb ≡ 0
    → ScannedBits (fs.bits (bblock b fs.sb)) b fs.sb.size 0 bpb (some r)
    → Lowest fs b (some (b + r))
map_found fs b r z h = (
  omega arith,
  h.2,
  used_bit fs b (b + r) z (omega arith) (omega (arith, h.1))
      ∙ ap (fs.bits (bblock b fs.sb)) (omega arith)
      ∙ h.3,
  λ k lo hi.
      used_bit fs b k z lo (omega (arith, h.1, hi))
      ∙ h.4 (k - b) (omega arith) (omega (arith, lo, hi)),
)

map_missed :
    (fs : Fs) (b : ℕ)
    → b % bpb ≡ 0
    → ScannedBits (fs.bits (bblock b fs.sb)) b fs.sb.size 0 bpb none
    → (o : Option ℕ) → Lowest fs (b + bpb) o
    → Lowest fs b o
map_missed fs b z h none rest = λ k lo lt. elim (Bool-cases (ltb k (b + bpb))) [
  | inl near ↦
      used_bit fs b k z lo (ground (arith, near))
      ∙ h (k - b) (omega arith) (ground (arith, near, lo)) (omega (arith, lo, lt))
  | inr far ↦ rest k (ground (arith, far)) lt
]
map_missed fs b z h (some r) rest = (
  omega (arith, rest.0),
  rest.1,
  rest.2,
  λ k lo hi. elim (Bool-cases (ltb k (b + bpb))) [
    | inl near ↦
        used_bit fs b k z lo (ground (arith, near))
        ∙ h (k - b) (omega arith) (ground (arith, near, lo)) (omega (arith, lo, hi, rest.1))
    | inr far ↦ rest.3 k (ground (arith, far)) hi
  ],
)

-- With as many rounds as bitmap blocks from `b` on, the scan finds the lowest free block.
scan_map-Lowest :
    (fs : Fs) (b n : ℕ) → b % bpb ≡ 0 → fs.sb.size ≤ b + n * bpb → Lowest fs b (scan_map fs b n)
unfolding scan_map
scan_map-Lowest fs b zero z enough = λ k lo lt. absurd (omega (arith, enough, lo, lt))
scan_map-Lowest fs b (suc n) z enough = elim (Bool-cases (ltb b fs.sb.size)) [
  | inr out ↦ rw out (λ k lo lt. absurd (ground (arith, out, lo, lt)))
  | inl fits ↦
      let row = fs.bits (bblock b fs.sb) in
      let h = scan_bits-Scanned row b fs.sb.size 0 bpb in
      elim (Option-cases (scan_bits row b fs.sb.size 0 bpb)) [
        | inl missed ↦
            let h' : ScannedBits row b fs.sb.size 0 bpb none = rw missed at h in
            rw (fits, missed)
              (map_missed fs b z h' (scan_map fs (b + bpb) n)
                (scan_map-Lowest fs (b + bpb) n (omega (arith, z)) (omega (arith, enough))))
        | inr (r, found) ↦
            let h' : ScannedBits row b fs.sb.size 0 bpb (some r) = rw found at h in
            rw (fits, found) (map_found fs b r z h')
      ]
]

pub put_bit_used :
    (fs : Fs) (b k : ℕ) (v : Bool) → used (put_bit b v fs) k ≡ (if k == b then v else used fs k)
put_bit_used fs b k v = elim (ℕ_eq k b) [
  | inl e ↦ ground (arith, e)
  | inr ne ↦ elim (ℕ_eq (b / bpb) (k / bpb)) [
    | inl e ↦ let x : b % bpb ≢ k % bpb = λ q. ne (omega (arith, e, q)) in ground (arith, ne, e, x)
    | inr e ↦ ground (arith, ne, e)
  ]
]

-- What `balloc` has done: it took the lowest free block and zeroed it, and changed nothing else; or
-- it panics, and no block is free.
pub record Took (fs fs' : Fs) (b : ℕ) : Type 0 where
  pub in_range : b < fs.sb.size
  pub was_free : used fs b ≡ false
  pub lowest : (k : ℕ) → k < b → used fs k ≡ true
  pub now : (k : ℕ) → used fs' k ≡ (if k == b then true else used fs k)
  pub zeroed : (j : ℕ) → fs'.byte b j ≡ 0
  pub others : (c j : ℕ) → c ≢ b → fs'.byte c j ≡ fs.byte c j
  pub same_sb : fs'.sb ≡ fs.sb
  pub same_inodes : fs'.inodes ≡ fs.inodes

abbrev pub Allocates : Fs → Option (Fs × ℕ) → Type 0
Allocates fs none = (k : ℕ) → k < fs.sb.size → used fs k ≡ true
Allocates fs (some (fs', b)) = Took fs fs' b

take_block-Allocates : (fs : Fs) (o : Option ℕ) → Lowest fs 0 o → Allocates fs (take_block fs o)
take_block-Allocates fs none h = λ k lt. h k (omega arith) lt
take_block-Allocates fs (some b) h = record {
  in_range = h.1;
  was_free = h.2;
  lowest = λ k lt. h.3 k (omega arith) lt;
  now = λ k. put_bit_used fs b k true;
  zeroed = λ j. ground arith;
  others = λ c j ne. ground (arith, ne);
  same_sb = refl;
  same_inodes = refl;
}

-- `balloc` takes the lowest free block, marks it and zeroes it, and changes no other bit and no other
-- block; it panics only if every block is in use.
pub balloc-Allocates : (fs : Fs) → Allocates fs (balloc fs)
unfolding balloc
balloc-Allocates fs =
    take_block-Allocates fs (scan_map fs 0 (fs.sb.size / bpb + 1))
      (scan_map-Lowest fs 0 (fs.sb.size / bpb + 1) (omega arith) (omega arith))

-- `bfree` of a block in use clears its mark.
pub bfree_used : (fs : Fs) (b : ℕ) → used fs b ≡ true → bfree b fs ≡ some (put_bit b false fs)
unfolding bfree
bfree_used fs b u = rw u
