-- ===== src/Fs/Content/Round.antt =====
-- One round of the loop of `writei` (xv6/fs.c).
use operation_system.Base.{
  ℕ, ◌+◌, ◌-◌, ◌*◌, ◌/◌, ◌%◌, ◌≤◌, ◌<◌, ◌≡◌, refl, sym, ap, ap₂, ◌∙◌, ◌≢◌, inl, inr, Bool, true,
  false, ◌&&◌, arith, ltb, leb, ◌==◌, if◌then◌else◌, ltb→lt, leb→le, ==_iff, Bool-cases, ℕ_eq,
}
use operation_system.Fs.{Dinode, Fs, bsize, word}
use operation_system.Fs.Alloc.{used}
use operation_system.Fs.Content.{put_bytes, write_block}
use operation_system.Fs.Content.Owned.{blk, byte_of, Owned, Grows}

abbrev pub within : ℕ → ℕ → ℕ → Bool
within off n i = leb off i && ltb i (off + n)

-- What a file holds after `n` bytes of `src` have been written at `off`.
abbrev pub spliced : (ℕ → ℕ) → (ℕ → ℕ) → ℕ → ℕ → (ℕ → ℕ)
spliced old src off n i = if within off n i then src (i - off) else old i

leb_cong : (a b c d : ℕ) → (a ≤ b → c ≤ d) → (c ≤ d → a ≤ b) → leb a b ≡ leb c d
leb_cong a b c d f g = elim (Bool-cases (leb a b)) [
  | inl t ↦ let x = f (leb→le a b t) in ground (arith, t, x)
  | inr t ↦ elim (Bool-cases (leb c d)) [
    | inl u ↦ let x = g (leb→le c d u) in ground (arith, t, x)
    | inr u ↦ t ∙ sym u
  ]
]

ltb_cong : (a b c d : ℕ) → (a < b → c < d) → (c < d → a < b) → ltb a b ≡ ltb c d
ltb_cong a b c d f g = elim (Bool-cases (ltb a b)) [
  | inl t ↦ let x = f (ltb→lt a b t) in ground (arith, t, x)
  | inr t ↦ elim (Bool-cases (ltb c d)) [
    | inl u ↦ let x = g (ltb→lt c d u) in ground (arith, t, x)
    | inr u ↦ t ∙ sym u
  ]
]

within_block :
    (f src : ℕ → ℕ) (off m i : ℕ)
    → i / bsize ≡ off / bsize
    → put_bytes f (off % bsize) m src (i % bsize)
      ≡ (if within off m i then src (i - off) else f (i % bsize))
within_block f src off m i e =
    let same : within (off % bsize) m (i % bsize) ≡ within off m i =
      ap₂ (λ x y. x && y)
        (leb_cong (off % bsize) (i % bsize) off i (λ h. omega (arith, e, h))
          (λ h. omega (arith, e, h)))
        (ltb_cong (i % bsize) (off % bsize + m) i (off + m) (λ h. omega (arith, e, h))
          (λ h. omega (arith, e, h))) in
    let index : i % bsize - off % bsize ≡ i - off = omega (arith, e) in rw (same, index) refl

outside_block :
    (off m i : ℕ) → i / bsize ≢ off / bsize → off % bsize + m ≤ bsize → within off m i ≡ false
outside_block off m i ne fits = elim (Bool-cases (leb off i)) [
  | inr before ↦ rw before refl
  | inl after ↦
      let x : off + m ≤ i = omega (arith, leb→le off i after, ne, fits) in ground (arith, x)
]

-- One round: part of one block of the file is written.
module _ (fs : Fs) (ip : Dinode) (src : ℕ → ℕ) (off m a : ℕ) (o : Owned fs ip)
    (at : blk fs ip (off / bsize) ≡ a) (there : a ≢ 0) (fits : off % bsize + m ≤ bsize)
    (low : off / bsize < 140) where
  abbrev pub round_fs : Fs
  round_fs = write_block fs a (off % bsize) m src

  same_blocks : (k : ℕ) → k ≤ 140 → blk round_fs ip k ≡ blk fs ip k
  same_blocks k le = elim (ℕ_eq (ip.addrs 12) 0) [
    | inl z ↦ ground (arith, z)
    | inr nz ↦
        let ne : a ≢ ip.addrs 12 = λ e.
          let x : off / bsize ≡ 140 =
            o.apart (off / bsize) 140 (omega (arith, low)) (omega arith) (λ z. there (sym at ∙ z))
              (at ∙ e) in
          omega (arith, x, low) in
        let same : round_fs.byte (ip.addrs 12) ≡ fs.byte (ip.addrs 12) = ground (arith, ne) in
        ap
          (λ f.
            if ltb k 12
            then ip.addrs k
            else if k == 140
            then ip.addrs 12
            else if ip.addrs 12 == 0
            then 0
            else word f (k - 12))
          same
  ]

  pub wrote-Owned : Owned round_fs ip
  wrote-Owned = record {
    apart = λ k j lk lj nz e.
        o.apart k j lk lj (λ z. nz (same_blocks k lk ∙ z))
          (sym (same_blocks k lk) ∙ e ∙ same_blocks j lj);
    taken =
        λ k lk nz. ap (used fs) (same_blocks k lk) ∙ o.taken k lk (λ z. nz (same_blocks k lk ∙ z));
    boot = o.boot;
    small = o.small;
  }

  pub wrote-Grows : Grows fs ip round_fs ip
  wrote-Grows = record {
    slots = λ k le. inl (same_blocks k le);
    still = λ b u. u;
    frame = λ b i u away.
        let ne : a ≢ b = λ e. away (off / bsize) (omega (arith, low)) (at ∙ e) in
        ground (arith, ne);
    same_sb = refl;
    same_inodes = refl;
    same_size = refl;
    same_type = refl;
  }

  pub wrote_bytes :
      (i : ℕ) → i < 140 * bsize → byte_of round_fs ip i ≡ spliced (byte_of fs ip) src off m i
  wrote_bytes i lt =
      let old = blk fs ip (i / bsize) in
      let q : i / bsize < 140 = omega (arith, lt) in
      ap (λ x. if x == 0 then 0 else round_fs.byte x (i % bsize))
        (same_blocks (i / bsize) (omega (arith, q)))
      ∙ elim (ℕ_eq (i / bsize) (off / bsize)) [
        | inl e ↦
            let here : old ≡ a = ap (blk fs ip) e ∙ at in
            let full : (a == 0) ≡ false = ground (arith, there) in
            let hit : (a == a) ≡ true = (==_iff a a).1 refl in
            rw (here, full, hit) (within_block (fs.byte a) src off m i e)
        | inr ne ↦ rw (outside_block off m i ne fits) (elim (ℕ_eq old 0) [
          | inl z ↦ rw z refl
          | inr nz ↦
              let away : (a == old) ≡ false = ground (
                arith,
                λ (e : a ≡ old). ne (
                    o.apart (i / bsize) (off / bsize) (omega (arith, q)) (omega (arith, low)) nz
                      (sym e ∙ sym at)),
              ) in
              rw away refl
        ])
      ]
