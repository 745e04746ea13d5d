-- ===== src/Fs/Content/Read.antt =====
-- The loop of `readi` (xv6/fs.c).
use operation_system.Base.{
  ℕ, zero, suc, ◌+◌, ◌-◌, ◌*◌, ◌/◌, ◌%◌, ◌≤◌, ◌<◌, ◌≡◌, refl, sym, ap, ap₂, ◌∙◌, ◌≢◌, inl, inr,
  false, Option, none, some, List, [], ◌∷◌, ◌++◌, arith, ◌==◌, if◌then◌else◌, Bool-cases,
  Option-cases,
}
use operation_system.Fs.{Dinode, Fs, bsize}
use operation_system.Fs.Content.{bmap, slice, chunk, read_loop}
use operation_system.Fs.Content.Owned.{blk, byte_of, Owned, Grows, Grows-refl, Grows-trans}
use operation_system.Fs.Content.Map.{Maps, Full, MapsOr, bmap-Maps}

pub slice_cong :
    (f g : ℕ → ℕ) (i j m : ℕ)
    → ((k : ℕ) → k < m → f (i + k) ≡ g (j + k))
    → slice f i m ≡ slice g j m
slice_cong f g i j zero h = refl
slice_cong f g i j (suc m) h =
    ap₂ (λ x xs. x ∷ xs) (ap f (omega arith) ∙ h 0 (omega arith) ∙ ap g (omega arith))
      (slice_cong f g (i + 1) (j + 1) m
        (λ k lt. ap f (omega arith) ∙ h (k + 1) (omega (arith, lt)) ∙ ap g (omega arith)))

slice-append : (f : ℕ → ℕ) (i m n : ℕ) → slice f i m ++ slice f (i + m) n ≡ slice f i (m + n)
slice-append f i zero n = ap₂ (slice f) (omega arith) (omega arith)
slice-append f i (suc m) n =
    ap (λ xs. f i ∷ xs)
      (ap (λ k. slice f (i + 1) m ++ slice f k n) (omega arith) ∙ slice-append f (i + 1) m n)
    ∙ ap (slice f i) (let e : suc (m + n) ≡ suc m + n = omega arith in e)

pub record DidRead (fs : Fs) (ip : Dinode) (off n : ℕ) (fs' : Fs) (ip' : Dinode) (out : List ℕ)
    : Type 0 where
  pub owned : Owned fs' ip'
  pub grows : Grows fs ip fs' ip'
  pub bytes : (i : ℕ) → i < 140 * bsize → byte_of fs' ip' i ≡ byte_of fs ip i
  pub read : out ≡ slice (byte_of fs ip) off n

abbrev pub ReadOr : Fs → Dinode → ℕ → ℕ → Option (Fs × Dinode × List ℕ) → Type 0
ReadOr fs ip off n none = (fs' : Fs) × (ip' : Dinode) × Grows fs ip fs' ip' × Full fs'
ReadOr fs ip off n (some (fs', ip', out)) = DidRead fs ip off n fs' ip' out

abbrev joined : List ℕ → Option (Fs × Dinode × List ℕ) → Option (Fs × Dinode × List ℕ)
joined bytes none = none
joined bytes (some (fs, ip, out)) = some (fs, ip, bytes ++ out)

-- The bytes of one round are those of the file.
round_bytes :
    (fs : Fs) (ip : Dinode) (off m a : ℕ)
    → blk fs ip (off / bsize) ≡ a
    → a ≢ 0
    → off % bsize + m ≤ bsize
    → slice (fs.byte a) (off % bsize) m ≡ slice (byte_of fs ip) off m
round_bytes fs ip off m a at there fits =
    slice_cong (fs.byte a) (byte_of fs ip) (off % bsize) off m (λ k lt.
      let q : (off + k) / bsize ≡ off / bsize = omega (arith, lt, fits) in
      let r : (off + k) % bsize ≡ off % bsize + k = omega (arith, lt, fits) in
      let nz : (a == 0) ≡ false = ground (arith, there) in
      sym (
        ap₂ (λ x y. if blk fs ip x == 0 then 0 else fs.byte (blk fs ip x) y) q r
        ∙ rw (at, nz) refl))

round-DidRead :
    (fs : Fs) (ip : Dinode) (off n m : ℕ) (fs1 : Fs) (ip1 : Dinode) (a : ℕ)
    (r : Option (Fs × Dinode × List ℕ))
    → m ≤ n
    → off % bsize + m ≤ bsize
    → off + n ≤ 140 * bsize
    → Maps fs ip (off / bsize) fs1 ip1 a
    → ReadOr fs1 ip1 (off + m) (n - m) r
    → ReadOr fs ip off n (joined (slice (fs1.byte a) (off % bsize) m) r)
round-DidRead fs ip off n m fs1 ip1 a none le fits end mp (fs2, ip2, g, full) =
    (fs2, ip2, Grows-trans fs ip fs1 ip1 fs2 ip2 mp.grows g, full)
round-DidRead fs ip off n m fs1 ip1 a (some (fs2, ip2, out)) le fits end mp d = record {
  owned = d.owned;
  grows = Grows-trans fs ip fs1 ip1 fs2 ip2 mp.grows d.grows;
  bytes = λ i lt. d.bytes i lt ∙ mp.bytes i lt;
  read =
      ap₂ (λ x y. x ++ y) (round_bytes fs1 ip1 off m a mp.at mp.there fits) d.read
      ∙ slice-append (byte_of fs1 ip1) off m (n - m)
      ∙ ap (slice (byte_of fs1 ip1) off) (omega (arith, le))
      ∙ slice_cong (byte_of fs1 ip1) (byte_of fs ip) off off n
          (λ k lt. mp.bytes (off + k) (omega (arith, lt, end)));
}

nothing-DidRead : (fs : Fs) (ip : Dinode) (off : ℕ) → Owned fs ip → DidRead fs ip off 0 fs ip []
nothing-DidRead fs ip off o = record {
  owned = o;
  grows = Grows-refl fs ip;
  bytes = λ i lt. refl;
  read = refl;
}

pub read_loop-DidRead :
    (fs : Fs) (ip : Dinode) (off n k : ℕ)
    → Owned fs ip
    → off + n ≤ 140 * bsize
    → n ≤ k
    → ReadOr fs ip off n (read_loop fs ip off n k)
unfolding read_loop
read_loop-DidRead fs ip off n zero o fits fuel =
    let z : n ≡ 0 = omega arith in rw z (nothing-DidRead fs ip off o)
read_loop-DidRead fs ip off n (suc k) o fits fuel = elim (Bool-cases (n == 0)) [
  | inl last ↦ let z : n ≡ 0 = ground (arith, last) in rw z (nothing-DidRead fs ip off o)
  | inr more ↦
      let nz : n ≢ 0 = ground (arith, more) in
      let low : off / bsize < 140 = omega (arith, fits, nz) in
      let mapped = bmap-Maps fs ip (off / bsize) o low in
      elim (Option-cases (bmap fs ip (off / bsize))) [
        | inl e ↦
            let full : MapsOr fs ip (off / bsize) none = rw e at mapped in
            rw (more, e, read_loop) full
        | inr ((fs1, ip1, a), e) ↦
            let m = chunk off n in
            let mp : Maps fs ip (off / bsize) fs1 ip1 a = rw e at mapped in
            rw (more, e, read_loop)
              (round-DidRead fs ip off n m fs1 ip1 a (read_loop fs1 ip1 (off + m) (n - m) k)
                (omega arith) (omega arith) fits mp
                (read_loop-DidRead fs1 ip1 (off + m) (n - m) k mp.owned (omega (arith, fits))
                  (omega (arith, fuel, nz))))
      ]
]
