-- ===== src/Fs/Content/Grant.antt =====
-- How a file gets a block: as a direct block, as the indirect block, or as an entry of it (xv6/fs.c).
use operation_system.Base.{
  ℕ, ◌+◌, ◌-◌, ◌^◌, ◌<◌, ◌≡◌, refl, sym, ap, ◌∙◌, ◌≢◌, inl, inr, true, false, arith, ltb, ◌==◌,
  if◌then◌else◌, Bool-cases, ℕ_eq,
}
use operation_system.Fs.{Dinode, Fs, word, put_word}
use operation_system.Fs.Alloc.{used}
use operation_system.Fs.Alloc.Lowest.{Took}
use operation_system.Fs.Content.{set_addr}
use operation_system.Fs.Content.Words.{word_cong, word-put_word, word-put_word_ne, word_zero}
use operation_system.Fs.Content.Owned.{blk, Owned, Granted}

pub blk-entry :
    (fs : Fs) (ip : Dinode) (k i : ℕ)
    → k ≡ i + 12
    → k < 140
    → ip.addrs 12 ≢ 0
    → blk fs ip k ≡ word (fs.byte (ip.addrs 12)) i
blk-entry fs ip k i e lt nz =
    let high : ltb k 12 ≡ false = ground (arith, e) in
    let other : (k == 140) ≡ false = ground (arith, lt) in
    let there : (ip.addrs 12 == 0) ≡ false = ground (arith, nz) in
    rw (high, other, there) (ap (word (fs.byte (ip.addrs 12))) (omega (arith, e)))

pub blk-direct : (fs : Fs) (ip : Dinode) (k : ℕ) → k < 12 → blk fs ip k ≡ ip.addrs k
blk-direct fs ip k lt = ground (arith, lt)

-- A block of the file that is not the one that `balloc` takes.
module _ (fs : Fs) (ip : Dinode) (fs1 : Fs) (b : ℕ) (o : Owned fs ip) (t : Took fs fs1 b) where
  indirect_ne : ip.addrs 12 ≢ 0 → ip.addrs 12 ≢ b
  indirect_ne nz e =
      let x : used fs (ip.addrs 12) ≡ true = o.taken 140 (omega arith) nz in
      let y : used fs (ip.addrs 12) ≡ false = ap (used fs) e ∙ t.was_free in cc

  entries_stay :
      (i : ℕ) → ip.addrs 12 ≢ 0 → word (fs1.byte (ip.addrs 12)) i ≡ word (fs.byte (ip.addrs 12)) i
  entries_stay i nz =
      word_cong (fs1.byte (ip.addrs 12)) (fs.byte (ip.addrs 12)) i
        (λ j. t.others (ip.addrs 12) j (indirect_ne nz))

  pub direct-Granted : (i : ℕ) → i < 12 → ip.addrs i ≡ 0 → Granted fs ip i b fs1 (set_addr ip i b)
  direct-Granted i lt z = record {
    none_yet = ground (arith, z, lt);
    slot = ground (arith, lt);
    others = λ j lj ne. elim (ℕ_eq (ip.addrs 12) 0) [
      | inl none_there ↦ ground (arith, ne, lt, none_there)
      | inr nz ↦ ground (arith, ne, lt, entries_stay (j - 12) nz)
    ];
    was_free = t.was_free;
    now = t.now;
    zeroed = λ i _. t.zeroed i;
    rest = λ a i ne _. t.others a i ne;
    same_sb = t.same_sb;
    same_inodes = t.same_inodes;
    same_size = refl;
    same_type = refl;
  }

  pub indirect-Granted : ip.addrs 12 ≡ 0 → Granted fs ip 140 b fs1 (set_addr ip 12 b)
  indirect-Granted z = record {
    none_yet = ground (arith, z);
    slot = ground arith;
    others = λ j lj ne. ground (arith, ne, z, word_zero (fs1.byte b) (j - 12) t.zeroed);
    was_free = t.was_free;
    now = t.now;
    zeroed = λ i _. t.zeroed i;
    rest = λ a i ne _. t.others a i ne;
    same_sb = t.same_sb;
    same_inodes = t.same_inodes;
    same_size = refl;
    same_type = refl;
  }

  abbrev pub with_entry : ℕ → Fs
  with_entry i = record fs1 {
    byte = λ c. if ip.addrs 12 == c then put_word (fs1.byte c) i b else fs1.byte c;
  }

  pub entry-Granted :
      (i : ℕ)
      → i < 128
      → ip.addrs 12 ≢ 0
      → word (fs.byte (ip.addrs 12)) i ≡ 0
      → Granted fs ip (i + 12) b (with_entry i) ip
  entry-Granted i lt nz z =
      let addr = ip.addrs 12 in
      let small : b < 2 ^ 32 = omega (arith, t.in_range, o.small) in
      let there : (with_entry i).byte addr ≡ put_word (fs1.byte addr) i b = ground arith in
      record {
        none_yet = blk-entry fs ip (i + 12) i refl (omega (arith, lt)) nz ∙ z;
        slot =
            blk-entry (with_entry i) ip (i + 12) i refl (omega (arith, lt)) nz
            ∙ ap (λ f. word f i) there
            ∙ word-put_word (fs1.byte addr) i b small;
        others = λ j lj ne. elim (Bool-cases (ltb j 12)) [
          | inl low ↦
              let l : j < 12 = ground (arith, low) in
              blk-direct (with_entry i) ip j l ∙ sym (blk-direct fs ip j l)
          | inr high ↦ elim (ℕ_eq j 140) [
            | inl top ↦ rw top refl
            | inr other ↦
                let e : j ≡ j - 12 + 12 = ground (arith, high) in
                let l : j < 140 = omega (arith, lj, other) in
                blk-entry (with_entry i) ip j (j - 12) e l nz
                ∙ ap (λ f. word f (j - 12)) there
                ∙ word-put_word_ne (fs1.byte addr) i (j - 12) b (λ q. ne (omega (arith, q, e)))
                ∙ entries_stay (j - 12) nz
                ∙ sym (blk-entry fs ip j (j - 12) e l nz)
          ]
        ];
        was_free = t.was_free;
        now = t.now;
        zeroed = λ j _. ground (arith, indirect_ne nz, t.zeroed j);
        rest = λ a j ne top. ground (arith, ne, top, t.others a j ne);
        same_sb = t.same_sb;
        same_inodes = t.same_inodes;
        same_size = refl;
        same_type = refl;
      }
