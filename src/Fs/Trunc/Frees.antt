-- ===== src/Fs/Trunc/Frees.antt =====
-- `itrunc` frees the blocks of the file and no others (xv6/fs.c).
use operation_system.Base.{
  ℕ, ◌+◌, ◌-◌, ◌≤◌, ◌<◌, ◌≡◌, refl, sym, ap, ◌∙◌, ◌≢◌, inl, inr, true, false, some, arith, ltb,
  ◌==◌, if◌then◌else◌, ltb→lt, ==_iff, Bool-cases, ℕ_eq,
}
use operation_system.Fs.{Dinode, Fs, word}
use operation_system.Fs.Alloc.{used, put_bit}
use operation_system.Fs.Alloc.Lowest.{put_bit_used, bfree_used}
use operation_system.Fs.Content.{iupdate}
use operation_system.Fs.Content.Owned.{blk, Owned}
use operation_system.Fs.Content.Grant.{blk-entry, blk-direct}
use operation_system.Fs.Trunc.{then_top, then_indirect, trunc_end, free_range, emptied, itrunc}
use operation_system.Fs.Trunc.Range.{Clears-trans, put_bit-Clears, Freed, free_range-Freed}

-- All blocks of the file are free, all other marks are as they were, and no block is written.
pub record Frees (fs : Fs) (ip : Dinode) (fs' : Fs) : Type 0 where
  pub gone : (k : ℕ) → k ≤ 140 → blk fs ip k ≢ 0 → used fs' (blk fs ip k) ≡ false
  pub kept :
      (b : ℕ) → ((k : ℕ) → k ≤ 140 → blk fs ip k ≢ 0 → blk fs ip k ≢ b) → used fs' b ≡ used fs b
  pub same_byte : fs'.byte ≡ fs.byte
  pub same_sb : fs'.sb ≡ fs.sb
  pub same_inodes : fs'.inodes ≡ fs.inodes

module _ (fs : Fs) (ip : Dinode) (o : Owned fs ip) where
  slot : (k : ℕ) → k < 12 → blk fs ip k ≡ ip.addrs (0 + k)
  slot k lk = blk-direct fs ip k lk ∙ ap ip.addrs (omega arith)

  direct-Freed : (fs1 : Fs) × (free_range ip.addrs 0 12 fs ≡ some fs1) × Freed ip.addrs 0 12 fs fs1
  direct-Freed =
      free_range-Freed ip.addrs 0 12 fs
        (λ k lk nz.
          let q : blk fs ip k ≡ ip.addrs (0 + k) = slot k lk in
          ap (used fs) (sym q) ∙ o.taken k (omega (arith, lk)) (λ z. nz (sym q ∙ z)))
        (λ k j lk lj nz e.
          o.apart k j (omega (arith, lk)) (omega (arith, lj)) (λ z. nz (sym (slot k lk) ∙ z))
            (slot k lk ∙ e ∙ sym (slot j lj)))

  -- A file without an indirect block.
  short-Frees : (fs1 : Fs) → ip.addrs 12 ≡ 0 → Freed ip.addrs 0 12 fs fs1 → Frees fs ip fs1
  short-Frees fs1 z f = record {
    gone = λ k lk nz. elim (Bool-cases (ltb k 12)) [
      | inl low ↦
          let l : k < 12 = ltb→lt k 12 low in
          ap (used fs1) (slot k l) ∙ f.gone k l (λ y. nz (slot k l ∙ y))
      | inr high ↦ absurd (nz (ground (arith, high, z)))
    ];
    kept = λ b away.
        f.kept b
          (λ k lk nz e. away k (omega (arith, lk)) (λ y. nz (sym (slot k lk) ∙ y)) (slot k lk ∙ e));
    same_byte = f.clears.same_byte;
    same_sb = f.clears.same_sb;
    same_inodes = f.clears.same_inodes;
  }

  entry : ℕ → ℕ
  entry i = word (fs.byte (ip.addrs 12)) i

  entry_slot : (k : ℕ) → k < 128 → ip.addrs 12 ≢ 0 → blk fs ip (k + 12) ≡ entry (0 + k)
  unfolding entry
  entry_slot k lk nz =
      blk-entry fs ip (k + 12) k refl (omega (arith, lk)) nz
      ∙ ap (word (fs.byte (ip.addrs 12))) (omega arith)

  top_slot : blk fs ip 140 ≡ ip.addrs 12
  top_slot = refl

  -- What is not a direct block is still marked after the first loop.
  still_marked :
      (fs1 : Fs) (k : ℕ)
      → Freed ip.addrs 0 12 fs fs1
      → 12 ≤ k
      → k ≤ 140
      → blk fs ip k ≢ 0
      → used fs1 (blk fs ip k) ≡ true
  still_marked fs1 k f lo hi nz =
      f.kept (blk fs ip k) (λ j lj nzj e.
        let x : j ≡ k =
          o.apart j k (omega (arith, lj)) hi (λ z. nzj (sym (slot j lj) ∙ z)) (slot j lj ∙ e) in
        omega (arith, x, lj, lo))
      ∙ o.taken k hi nz

  entries-Freed :
      (fs1 : Fs)
      → Freed ip.addrs 0 12 fs fs1
      → ip.addrs 12 ≢ 0
      → (fs2 : Fs) × (free_range entry 0 128 fs1 ≡ some fs2) × Freed entry 0 128 fs1 fs2
  entries-Freed fs1 f there =
      free_range-Freed entry 0 128 fs1
        (λ k lk nz.
          let q = entry_slot k lk there in
          ap (used fs1) (sym q)
          ∙ still_marked fs1 (k + 12) f (omega arith) (omega (arith, lk)) (λ z. nz (sym q ∙ z)))
        (λ k j lk lj nz e.
          let x : k + 12 ≡ j + 12 =
            o.apart (k + 12) (j + 12) (omega (arith, lk)) (omega (arith, lj))
              (λ z. nz (sym (entry_slot k lk there) ∙ z))
              (entry_slot k lk there ∙ e ∙ sym (entry_slot j lj there)) in
          omega (arith, x))

  -- The indirect block is still marked after both loops.
  top_marked :
      (fs1 fs2 : Fs)
      → Freed ip.addrs 0 12 fs fs1
      → Freed entry 0 128 fs1 fs2
      → ip.addrs 12 ≢ 0
      → used fs2 (ip.addrs 12) ≡ true
  top_marked fs1 fs2 f g there =
      g.kept (ip.addrs 12) (λ j lj nz e.
        let x : j + 12 ≡ 140 =
          o.apart (j + 12) 140 (omega (arith, lj)) (omega arith)
            (λ z. nz (sym (entry_slot j lj there) ∙ z))
            (entry_slot j lj there ∙ e ∙ sym top_slot) in
        omega (arith, x, lj))
      ∙ still_marked fs1 140 f (omega arith) (omega arith) there

  long-Frees :
      (fs1 fs2 : Fs)
      → Freed ip.addrs 0 12 fs fs1
      → Freed entry 0 128 fs1 fs2
      → ip.addrs 12 ≢ 0
      → Frees fs ip (put_bit (ip.addrs 12) false fs2)
  long-Frees fs1 fs2 f g there =
      let top = ip.addrs 12 in
      let fs3 = put_bit top false fs2 in
      let last = put_bit-Clears fs2 top in
      let two = Clears-trans fs1 fs2 fs3 g.clears last in
      let all = Clears-trans fs fs1 fs3 f.clears two in
      record {
        gone = λ k lk nz. elim (Bool-cases (ltb k 12)) [
          | inl low ↦
              let l : k < 12 = ltb→lt k 12 low in
              two.down (blk fs ip k)
                (ap (used fs1) (slot k l) ∙ f.gone k l (λ y. nz (slot k l ∙ y)))
          | inr high ↦ elim (ℕ_eq k 140) [
            | inl e ↦
                ap (λ x. used fs3 (blk fs ip x)) e ∙ put_bit_used fs2 top top false ∙ ground arith
            | inr ne ↦
                let h : 12 ≤ k = ground (arith, high) in
                let q : k ≡ k - 12 + 12 = omega (arith, h) in
                let l : k - 12 < 128 = omega (arith, lk, ne, h) in
                let b = ap (blk fs ip) q ∙ entry_slot (k - 12) l there in
                last.down (blk fs ip k) (ap (used fs2) b ∙ g.gone (k - 12) l (λ y. nz (b ∙ y)))
          ]
        ];
        kept = λ b away.
            put_bit_used fs2 top b false
            ∙ (let ne : top ≢ b = away 140 (omega arith) there in
                let s : (if b == top then false else used fs2 b) ≡ used fs2 b =
                  ground (arith, ne) in
                s)
            ∙ g.kept b (λ k lk nz e.
              let q = entry_slot k lk there in
              away (k + 12) (omega (arith, lk)) (λ y. nz (sym q ∙ y)) (q ∙ e))
            ∙ f.kept b (λ k lk nz e.
              away k (omega (arith, lk)) (λ y. nz (sym (slot k lk) ∙ y)) (slot k lk ∙ e));
        same_byte = all.same_byte;
        same_sb = all.same_sb;
        same_inodes = all.same_inodes;
      }

  short-itrunc :
      (inum : ℕ) (fs1 : Fs)
      → free_range ip.addrs 0 12 fs ≡ some fs1
      → ip.addrs 12 ≡ 0
      → itrunc fs inum ip ≡ trunc_end inum ip (some fs1)
  unfolding itrunc
  short-itrunc inum fs1 e1 z =
      let t : (ip.addrs 12 == 0) ≡ true = (==_iff (ip.addrs 12) 0).1 z in
      ap (λ x. trunc_end inum ip (then_indirect ip x)) e1 ∙ rw t refl

  long-itrunc :
      (inum : ℕ) (fs1 fs2 : Fs)
      → free_range ip.addrs 0 12 fs ≡ some fs1
      → ip.addrs 12 ≢ 0
      → free_range (word (fs1.byte (ip.addrs 12))) 0 128 fs1 ≡ some fs2
      → used fs2 (ip.addrs 12) ≡ true
      → itrunc fs inum ip ≡ trunc_end inum ip (some (put_bit (ip.addrs 12) false fs2))
  unfolding itrunc
  long-itrunc inum fs1 fs2 e1 there e2 marked =
      let t : (ip.addrs 12 == 0) ≡ false = ground (arith, there) in
      ap (λ x. trunc_end inum ip (then_indirect ip x)) e1
      ∙ ap
          (λ c. trunc_end inum ip (
            if c
            then some fs1
            else then_top (ip.addrs 12) (free_range (word (fs1.byte (ip.addrs 12))) 0 128 fs1)))
          t
      ∙ ap (λ x. trunc_end inum ip (then_top (ip.addrs 12) x)) e2
      ∙ ap (trunc_end inum ip) (bfree_used fs2 (ip.addrs 12) marked)

  -- `itrunc` never panics: it frees each block of the file, once, and no other, and leaves the inode
  -- without blocks and with size 0, also on the disk.
  pub itrunc-Frees :
      (inum : ℕ)
      → (fs' : Fs) × (itrunc fs inum ip ≡ some (iupdate fs' inum (emptied ip), emptied ip))
        × Frees fs ip fs'
  unfolding entry
  itrunc-Frees inum =
      let (fs1, e1, f) = direct-Freed in
      elim (ℕ_eq (ip.addrs 12) 0) [
        | inl z ↦ (fs1, short-itrunc inum fs1 e1 z, short-Frees fs1 z f)
        | inr there ↦
            let (fs2, e2, g) = entries-Freed fs1 f there in
            let same : free_range (word (fs1.byte (ip.addrs 12))) 0 128 fs1 ≡ some fs2 =
              ap (λ h. free_range (word (h (ip.addrs 12))) 0 128 fs1) f.clears.same_byte ∙ e2 in
            (
              put_bit (ip.addrs 12) false fs2,
              long-itrunc inum fs1 fs2 e1 there same (top_marked fs1 fs2 f g there),
              long-Frees fs1 fs2 f g there,
            )
      ]
