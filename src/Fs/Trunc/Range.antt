-- ===== src/Fs/Trunc/Range.antt =====
-- A loop of `itrunc` frees the blocks of a range (xv6/fs.c).
use operation_system.Base.{
  ℕ, zero, suc, ◌+◌, ◌-◌, ◌<◌, ◌≡◌, refl, sym, ap, ◌∙◌, ◌≢◌, inl, inr, true, false, some, arith,
  ◌==◌, ==_iff, Bool-cases, ℕ_eq,
}
use operation_system.Fs.{Fs}
use operation_system.Fs.Alloc.{used, put_bit}
use operation_system.Fs.Alloc.Lowest.{bfree_used, put_bit_used}
use operation_system.Fs.Trunc.{free_range}

-- Only marks in the bitmap are cleared.
pub record Clears (fs fs' : Fs) : Type 0 where
  pub down : (b : ℕ) → used fs b ≡ false → used fs' b ≡ false
  pub same_byte : fs'.byte ≡ fs.byte
  pub same_sb : fs'.sb ≡ fs.sb
  pub same_inodes : fs'.inodes ≡ fs.inodes

pub Clears-trans : (a b c : Fs) → Clears a b → Clears b c → Clears a c
Clears-trans a b c p q = record {
  down = λ x u. q.down x (p.down x u);
  same_byte = q.same_byte ∙ p.same_byte;
  same_sb = q.same_sb ∙ p.same_sb;
  same_inodes = q.same_inodes ∙ p.same_inodes;
}

pub put_bit-Clears : (fs : Fs) (b : ℕ) → Clears fs (put_bit b false fs)
put_bit-Clears fs b = record {
  down = λ x u. put_bit_used fs b x false ∙ ground (arith, u);
  same_byte = refl;
  same_sb = refl;
  same_inodes = refl;
}

-- The numbers `a i` to `a (i + n - 1)` that are not 0 have been freed, and no others.
pub record Freed (a : ℕ → ℕ) (i n : ℕ) (fs fs' : Fs) : Type 0 where
  pub clears : Clears fs fs'
  pub gone : (k : ℕ) → k < n → a (i + k) ≢ 0 → used fs' (a (i + k)) ≡ false
  pub kept : (b : ℕ) → ((k : ℕ) → k < n → a (i + k) ≢ 0 → a (i + k) ≢ b) → used fs' b ≡ used fs b

skip-Freed :
    (a : ℕ → ℕ) (i n : ℕ) (fs fs' : Fs)
    → a i ≡ 0
    → Freed a (i + 1) n fs fs'
    → Freed a i (suc n) fs fs'
skip-Freed a i n fs fs' z f = record {
  clears = f.clears;
  gone = λ k lt nz. elim (ℕ_eq k 0) [
    | inl e ↦ absurd (nz (ap a (omega (arith, e)) ∙ z))
    | inr ne ↦
        let q : i + k ≡ i + 1 + (k - 1) = omega (arith, ne) in
        ap (λ x. used fs' (a x)) q ∙ f.gone (k - 1) (omega (arith, lt, ne)) (λ e. nz (ap a q ∙ e))
  ];
  kept = λ b away. f.kept b (λ k lt nz e.
      let q : i + (k + 1) ≡ i + 1 + k = omega arith in
      away (k + 1) (omega (arith, lt)) (λ y. nz (sym (ap a q) ∙ y)) (ap a q ∙ e));
}

free-Freed :
    (a : ℕ → ℕ) (i n : ℕ) (fs fs' : Fs)
    → a i ≢ 0
    → Freed a (i + 1) n (put_bit (a i) false fs) fs'
    → Freed a i (suc n) fs fs'
free-Freed a i n fs fs' nz0 f = record {
  clears = Clears-trans fs (put_bit (a i) false fs) fs' (put_bit-Clears fs (a i)) f.clears;
  gone = λ k lt nz. elim (ℕ_eq k 0) [
    | inl e ↦
        ap (λ x. used fs' (a x)) (let q : i + k ≡ i = omega (arith, e) in q)
        ∙ f.clears.down (a i) (put_bit_used fs (a i) (a i) false ∙ ground arith)
    | inr ne ↦
        let q : i + k ≡ i + 1 + (k - 1) = omega (arith, ne) in
        ap (λ x. used fs' (a x)) q ∙ f.gone (k - 1) (omega (arith, lt, ne)) (λ e. nz (ap a q ∙ e))
  ];
  kept = λ b away.
      let first : a i ≢ b = λ e.
        let q : i + 0 ≡ i = omega arith in
        away 0 (omega arith) (λ y. nz0 (sym (ap a q) ∙ y)) (ap a q ∙ e) in
      f.kept b (λ k lt nz e.
        let q : i + (k + 1) ≡ i + 1 + k = omega arith in
        away (k + 1) (omega (arith, lt)) (λ y. nz (sym (ap a q) ∙ y)) (ap a q ∙ e))
      ∙ put_bit_used fs (a i) b false
      ∙ ground (arith, first);
}

pub free_range-Freed :
    (a : ℕ → ℕ) (i n : ℕ) (fs : Fs)
    → ((k : ℕ) → k < n → a (i + k) ≢ 0 → used fs (a (i + k)) ≡ true)
    → ((k j : ℕ) → k < n → j < n → a (i + k) ≢ 0 → a (i + k) ≡ a (i + j) → k ≡ j)
    → (fs' : Fs) × (free_range a i n fs ≡ some fs') × Freed a i n fs fs'
unfolding free_range
free_range-Freed a i zero fs marked apart = (
  fs,
  refl,
  record {
    clears = record { down = λ b u. u; same_byte = refl; same_sb = refl; same_inodes = refl };
    gone = λ k lt nz. absurd (omega (arith, lt));
    kept = λ b away. refl;
  },
)
free_range-Freed a i (suc n) fs marked apart =
    let shift : (k : ℕ) → i + 1 + k ≡ i + (k + 1) = λ k. omega arith in
    let apart' : (k j : ℕ)
        → k < n
        → j < n
        → a (i + 1 + k) ≢ 0
        → a (i + 1 + k) ≡ a (i + 1 + j)
        → k ≡ j =
      λ k j lk lj nz e.
        let x : k + 1 ≡ j + 1 =
          apart (k + 1) (j + 1) (omega (arith, lk)) (omega (arith, lj))
            (λ y. nz (ap a (shift k) ∙ y)) (sym (ap a (shift k)) ∙ e ∙ ap a (shift j)) in
        omega (arith, x) in
    elim (Bool-cases (a i == 0)) [
      | inl z ↦
          let z' : a i ≡ 0 = (==_iff (a i) 0).0 z in
          let (fs', e, f) =
            free_range-Freed a (i + 1) n fs
              (λ k lk nz.
                ap (λ x. used fs (a x)) (shift k)
                ∙ marked (k + 1) (omega (arith, lk)) (λ y. nz (ap a (shift k) ∙ y)))
              apart' in
          (fs', rw z e, skip-Freed a i n fs fs' z' f)
      | inr nz ↦
          let nz' : a i ≢ 0 = ground (arith, nz) in
          let q : i + 0 ≡ i = omega arith in
          let mark : used fs (a i) ≡ true =
            ap (λ x. used fs (a x)) (sym q)
            ∙ marked 0 (omega arith) (λ y. nz' (sym (ap a q) ∙ y)) in
          let fs1 = put_bit (a i) false fs in
          let (fs', e, f) =
            free_range-Freed a (i + 1) n fs1
              (λ k lk nzk.
                let away : a (i + 1 + k) ≢ a i = λ y.
                  let x : k + 1 ≡ 0 =
                    apart (k + 1) 0 (omega (arith, lk)) (omega arith)
                      (λ w. nzk (ap a (shift k) ∙ w)) (sym (ap a (shift k)) ∙ y ∙ sym (ap a q)) in
                  omega (arith, x) in
                put_bit_used fs (a i) (a (i + 1 + k)) false
                ∙ (let m : used fs (a (i + 1 + k)) ≡ true =
                      ap (λ x. used fs (a x)) (shift k)
                      ∙ marked (k + 1) (omega (arith, lk)) (λ y. nzk (ap a (shift k) ∙ y)) in
                    ground (arith, away, m)))
              apart' in
          (fs', rw (nz, bfree_used fs (a i) mark) e, free-Freed a i n fs fs' nz' f)
    ]
