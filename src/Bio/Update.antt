-- ===== src/Bio/Update.antt =====
-- What a change of one buffer keeps of the invariant.
use operation_system.Base.{ℕ, ◌≡◌, sym, ◌∙◌, ◌≢◌, ◌⊎◌, inl, inr, true, false, List, arith, ℕ_eq}
use operation_system.Bio.{Buf, Cache, put_buf, unused}
use operation_system.Bio.Coherent.{In, BufOk, Coherent}

abbrev pub changed : Cache → ℕ → Buf → (ℕ → List ℕ) → Cache
changed c s b disk = record (put_buf c s b) { disk = disk }

BufOk-other :
    (view view' : ℕ → List ℕ) (p p' : ℕ) (b : Buf)
    → p' ≡ p
    → (b.dev ≡ 1 → view' b.blockno ≡ view b.blockno)
    → BufOk view p b
    → BufOk view' p' b
BufOk-other view view' p p' b e same o = record {
  on_disk_1 = o.on_disk_1;
  fresh = λ v. o.fresh v ∙ sym (same (o.on_disk_1 v));
  counted = ground (arith, o.counted, e);
  filled = o.filled;
}

module _ (c : Cache) (view : ℕ → List ℕ) (pend : ℕ → ℕ) (s : ℕ) (b : Buf) (disk : ℕ → List ℕ) where
  pub at_new : (changed c s b disk).buf s ≡ b
  at_new = ground arith

  pub at_old : (i : ℕ) → i ≢ s → (changed c s b disk).buf i ≡ c.buf i
  at_old i ne = ground (arith, ne)

  -- The buffer keeps its block, and nothing changes for the other blocks and buffers.
  pub changed-Coherent :
      (view' : ℕ → List ℕ) (pend' : ℕ → ℕ)
      → Coherent c view pend
      → In s c.order
      → (c.buf s).dev ≡ 1
      → b.dev ≡ 1
      → b.blockno ≡ (c.buf s).blockno
      → ((i : ℕ) → i ≢ s → pend' i ≡ pend i)
      → ((a : ℕ) → a ≢ b.blockno → (disk a ≡ c.disk a) × (view' a ≡ view a))
      → BufOk view' (pend' s) b
      → (disk b.blockno ≡ view' b.blockno) ⊎ ((b.valid ≡ true) × (unused b ≡ false))
      → Coherent (changed c s b disk) view' pend'
  changed-Coherent view' pend' co m dev1 dev' same others rest ok last =
      let c' = changed c s b disk in
      let dev : (i : ℕ) → (c'.buf i).dev ≡ 1 → (c.buf i).dev ≡ 1 =
        λ i e. ground (arith, e, dev1, dev') in
      let key : (i : ℕ) → (c'.buf i).blockno ≡ (c.buf i).blockno = λ i. ground (arith, same) in
      record {
        each = λ i mi. elim (ℕ_eq i s) [
          | inl e ↦ rw (e, at_new) ok
          | inr ne ↦ rw (at_old i ne) (
              BufOk-other view view' (pend i) (pend' i) (c.buf i) (others i ne)
                (λ d. (rest (c.buf i).blockno (λ e. ne (co.unique i s mi m d dev1 (e ∙ same)))).1)
                (co.each i mi))
        ];
        unique = λ i j mi mj di dj e.
            co.unique i j mi mj (dev i di) (dev j dj) (sym (key i) ∙ e ∙ key j);
        stored = λ a. elim (ℕ_eq a b.blockno) [
          | inl e ↦ elim last [
            | inl d ↦ inl (rw e d)
            | inr k ↦ inr (record {
              slot = s;
              listed = m;
              full = rw at_new (k.0);
              block = rw at_new (sym e);
              kept = rw at_new (k.1);
            })
          ]
          | inr ne ↦ elim (co.stored a) [
            | inl d ↦ inl ((rest a ne).0 ∙ d ∙ sym ((rest a ne).1))
            | inr k ↦
                let away : k.slot ≢ s = λ e. ne (ground (arith, k.block, e, same)) in
                inr (record {
                  slot = k.slot;
                  listed = k.listed;
                  full = rw (at_old k.slot away) k.full;
                  block = rw (at_old k.slot away) k.block;
                  kept = rw (at_old k.slot away) k.kept;
                })
          ]
        ];
      }
