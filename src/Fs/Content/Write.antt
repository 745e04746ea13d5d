-- ===== src/Fs/Content/Write.antt =====
-- The loop of `writei` (xv6/fs.c).
use operation_system.Base.{
  ℕ, zero, suc, ◌+◌, ◌-◌, ◌*◌, ◌/◌, ◌%◌, ◌≤◌, ◌<◌, ◌≡◌, sym, ap, ◌∙◌, ◌≢◌, inl, inr, Option, none,
  some, arith, leb, ◌==◌, if◌then◌else◌, leb→le, Bool-cases, Option-cases,
}
use operation_system.Fs.{Dinode, Fs, bsize}
use operation_system.Fs.Content.{bmap, chunk, write_block, write_loop}
use operation_system.Fs.Content.Owned.{byte_of, Owned, Grows, Grows-refl, Grows-trans}
use operation_system.Fs.Content.Map.{Maps, Full, MapsOr, bmap-Maps}
use operation_system.Fs.Content.Round.{within, spliced, wrote-Owned, wrote-Grows, wrote_bytes}

pub record Wrote (fs : Fs) (ip : Dinode) (src : ℕ → ℕ) (off n : ℕ) (fs' : Fs) (ip' : Dinode)
    : Type 0 where
  pub owned : Owned fs' ip'
  pub grows : Grows fs ip fs' ip'
  pub bytes : (i : ℕ) → i < 140 * bsize → byte_of fs' ip' i ≡ spliced (byte_of fs ip) src off n i

-- The bytes of two pieces.
pub spliced_twice :
    (old src : ℕ → ℕ) (off m n i : ℕ)
    → m ≤ n
    → spliced (spliced old src off m) (λ j. src (j + m)) (off + m) (n - m) i
      ≡ spliced old src off n i
spliced_twice old src off m n i le = elim (Bool-cases (leb (off + m) i)) [
  | inr early ↦ ground (arith, early, le)
  | inl late ↦
      let h : off + m ≤ i = leb→le (off + m) i late in
      let index : src (i - (off + m) + m) ≡ src (i - off) = ap src (omega (arith, h)) in
      ground (arith, late, h, index, le)
]

abbrev pub WroteOr : Fs → Dinode → (ℕ → ℕ) → ℕ → ℕ → Option (Fs × Dinode) → Type 0
WroteOr fs ip src off n none = (fs' : Fs) × (ip' : Dinode) × Grows fs ip fs' ip' × Full fs'
WroteOr fs ip src off n (some (fs', ip')) = Wrote fs ip src off n fs' ip'

pub spliced_none : (old src : ℕ → ℕ) (off i : ℕ) → spliced old src off 0 i ≡ old i
spliced_none old src off i = ground arith

pub spliced_cong :
    (old old' src : ℕ → ℕ) (off n i : ℕ)
    → old i ≡ old' i
    → spliced old src off n i ≡ spliced old' src off n i
spliced_cong old old' src off n i e = ap (λ v. if within off n i then src (i - off) else v) e

-- One round and the rest.
round-Wrote :
    (fs : Fs) (ip : Dinode) (src : ℕ → ℕ) (off n m : ℕ) (fs1 : Fs) (ip1 : Dinode) (a : ℕ)
    (r : Option (Fs × Dinode))
    → m ≤ n
    → off % bsize + m ≤ bsize
    → off / bsize < 140
    → Maps fs ip (off / bsize) fs1 ip1 a
    → WroteOr (write_block fs1 a (off % bsize) m src) ip1 (λ j. src (j + m)) (off + m) (n - m) r
    → WroteOr fs ip src off n r
round-Wrote fs ip src off n m fs1 ip1 a none le fits low mp (fs3, ip3, g, full) =
    let fs2 = write_block fs1 a (off % bsize) m src in
    let g2 = wrote-Grows fs1 ip1 src off m a mp.owned mp.at mp.there fits low in
    (
      fs3,
      ip3,
      Grows-trans fs ip fs1 ip1 fs3 ip3 mp.grows (Grows-trans fs1 ip1 fs2 ip1 fs3 ip3 g2 g),
      full,
    )
round-Wrote fs ip src off n m fs1 ip1 a (some (fs3, ip3)) le fits low mp w =
    let fs2 = write_block fs1 a (off % bsize) m src in
    let g2 = wrote-Grows fs1 ip1 src off m a mp.owned mp.at mp.there fits low in
    record {
      owned = w.owned;
      grows =
          Grows-trans fs ip fs1 ip1 fs3 ip3 mp.grows
            (Grows-trans fs1 ip1 fs2 ip1 fs3 ip3 g2 w.grows);
      bytes = λ i lt.
          w.bytes i lt
          ∙ spliced_cong (byte_of fs2 ip1) (spliced (byte_of fs1 ip1) src off m) (λ j. src (j + m))
              (off + m) (n - m) i
              (wrote_bytes fs1 ip1 src off m a mp.owned mp.at mp.there fits low i lt)
          ∙ spliced_twice (byte_of fs1 ip1) src off m n i le
          ∙ spliced_cong (byte_of fs1 ip1) (byte_of fs ip) src off n i (mp.bytes i lt);
    }

pub write_loop-Wrote :
    (fs : Fs) (ip : Dinode) (src : ℕ → ℕ) (off n k : ℕ)
    → Owned fs ip
    → off + n ≤ 140 * bsize
    → n ≤ k
    → WroteOr fs ip src off n (write_loop fs ip src off n k)
unfolding write_loop
write_loop-Wrote fs ip src off n zero o fits fuel =
    let z : n ≡ 0 = omega arith in
    rw z (record {
      owned = o;
      grows = Grows-refl fs ip;
      bytes = λ i lt. sym (spliced_none (byte_of fs ip) src off i);
    })
write_loop-Wrote fs ip src off n (suc k) o fits fuel = elim (Bool-cases (n == 0)) [
  | inl last ↦
      let z : n ≡ 0 = ground (arith, last) in
      rw z (record {
        owned = o;
        grows = Grows-refl fs ip;
        bytes = λ i lt. sym (spliced_none (byte_of fs ip) src off i);
      })
  | inr more ↦
      let nz : n ≢ 0 = ground (arith, more) in
      let low : off / bsize < 140 = omega (arith, fits, nz) in
      let mapped = bmap-Maps fs ip (off / bsize) o low in
      elim (Option-cases (bmap fs ip (off / bsize))) [
        | inl e ↦
            let full : MapsOr fs ip (off / bsize) none = rw e at mapped in
            rw (more, e, write_loop) full
        | inr ((fs1, ip1, a), e) ↦
            let m = chunk off n in
            let mp : Maps fs ip (off / bsize) fs1 ip1 a = rw e at mapped in
            let fs2 = write_block fs1 a (off % bsize) m src in
            let chunk_le : off % bsize + m ≤ bsize = omega arith in
            rw (more, e, write_loop)
              (round-Wrote fs ip src off n m fs1 ip1 a
                (write_loop fs2 ip1 (λ j. src (j + m)) (off + m) (n - m) k) (omega arith) chunk_le
                low mp
                (write_loop-Wrote fs2 ip1 (λ j. src (j + m)) (off + m) (n - m) k
                  (wrote-Owned fs1 ip1 src off m a mp.owned mp.at mp.there chunk_le low)
                  (omega (arith, fits)) (omega (arith, fuel, nz))))
      ]
]
