-- ===== src/Bio/Ops.antt =====
-- Every operation of the buffer cache keeps its invariant.
use operation_system.Base.{
  none, ap, Option-cases, Option, ℕ, ◌+◌, ◌≡◌, refl, sym, ◌∙◌, ◌≢◌, inl, inr, true, false, some,
  List, arith, ◌==◌, if◌then◌else◌, ℕ_eq,
}
use operation_system.Bio.{find_next, recycle, find_prev, cached, Cache, put_buf, has, unused, bget}
use operation_system.Bio.Coherent.{
  find_next-none, find_prev-some, find_next-some, In, Coherent, bump,
}
use operation_system.Bio.Update.{at_new, at_old, changed-Coherent}

abbrev pub write_view : (ℕ → List ℕ) → ℕ → List ℕ → (ℕ → List ℕ)
write_view view b v a = if b == a then v else view a

-- The buffer that `bget` returns.
pub record Gets (view : ℕ → List ℕ) (pend : ℕ → ℕ) (b : ℕ) (c' : Cache) (s : ℕ) : Type 0 where
  pub coherent : Coherent c' view (bump pend s)
  pub listed : In s c'.order
  pub dev1 : (c'.buf s).dev ≡ 1
  pub block : (c'.buf s).blockno ≡ b

module _ (c : Cache) (view : ℕ → List ℕ) (pend : ℕ → ℕ) (co : Coherent c view pend) where
  hit-Gets :
      (b s : ℕ)
      → In s c.order
      → has c 1 b s ≡ true
      → Gets view pend b (put_buf c s (record (c.buf s) { refcnt = (c.buf s).refcnt + 1 })) s
  hit-Gets b s m h =
      let o = co.each s m in
      let d : (c.buf s).dev ≡ 1 = ground (arith, h) in
      let e : (c.buf s).blockno ≡ b = ground (arith, h) in
      let b' = record (c.buf s) { refcnt = (c.buf s).refcnt + 1 } in
      record {
        coherent =
            changed-Coherent c view pend s b' c.disk view (bump pend s) co m d d refl
              (λ i ne. ground (arith, ne)) (λ a ne. (refl, refl))
              (record {
                on_disk_1 = o.on_disk_1;
                fresh = o.fresh;
                counted = ground (arith, o.counted);
                filled = o.filled;
              })
              (elim (co.stored (c.buf s).blockno) [
                | inl x ↦ inl x
                | inr k ↦
                    let there : k.slot ≡ s =
                      co.unique k.slot s k.listed m ((co.each k.slot k.listed).on_disk_1 k.full) d
                        k.block in
                    inr (rw there at k.full, ground arith)
              ]);
        listed = m;
        dev1 = ground (arith, d);
        block = ground (arith, e);
      }

  recycle-Gets :
      (b s : ℕ)
      → In s c.order
      → unused (c.buf s) ≡ true
      → ((i : ℕ) → In i c.order → has c 1 b i ≡ false)
      → Gets view pend b
          (put_buf c s
            (record (c.buf s) { dev = 1; blockno = b; refcnt = 1; valid = false; dirty = false }))
          s
  recycle-Gets b s m free miss =
      let o = co.each s m in
      let b' = record (c.buf s) {
        dev = 1;
        blockno = b;
        refcnt = 1;
        valid = false;
        dirty = false;
      } in
      let c' = put_buf c s b' in
      let unlocked : (c.buf s).locked ≡ false = ground (arith, o.counted, free) in
      let none_waits : pend s ≡ 0 = ground (arith, o.counted, free) in
      let away : (i : ℕ) → In i c.order → (c.buf i).dev ≡ 1 → (c.buf i).blockno ≢ b =
        λ i mi d e. ground (arith, miss i mi, d, e) in
      record {
        coherent = record {
          each = λ i mi. elim (ℕ_eq i s) [
            | inl e ↦
                rw (e, at_new c view pend s b' c.disk)
                  (record {
                    on_disk_1 = λ v. cc;
                    fresh = λ v. cc;
                    counted = ground (arith, none_waits, unlocked);
                    filled = λ l. ground (arith, unlocked, l);
                  })
            | inr ne ↦
                let same : bump pend s i ≡ pend i = ground (arith, ne) in
                rw (at_old c view pend s b' c.disk i ne, same) (co.each i mi)
          ];
          unique = λ i j mi mj di dj e. elim (ℕ_eq i s) [
            | inl ei ↦ elim (ℕ_eq j s) [
              | inl ej ↦ ei ∙ sym ej
              | inr nj ↦ absurd (away j mj (ground (arith, nj, dj)) (ground (arith, ei, nj, e)))
            ]
            | inr ni ↦ elim (ℕ_eq j s) [
              | inl ej ↦ absurd (away i mi (ground (arith, ni, di)) (ground (arith, ej, ni, e)))
              | inr nj ↦
                  co.unique i j mi mj (ground (arith, ni, di)) (ground (arith, nj, dj))
                    (ground (arith, ni, nj, e))
            ]
          ];
          stored = λ a. elim (co.stored a) [
            | inl d ↦ inl d
            | inr k ↦
                let ne : k.slot ≢ s = λ e. ground (arith, k.kept, free, e) in
                let at = at_old c view pend s b' c.disk k.slot ne in
                inr (record {
                  slot = k.slot;
                  listed = k.listed;
                  full = rw at k.full;
                  block = rw at k.block;
                  kept = rw at k.kept;
                })
          ];
        };
        listed = m;
        dev1 = ground arith;
        block = ground arith;
      }

  cached-Gets :
      (b s : ℕ) (c' : Cache) (o : Option ℕ)
      → find_next (has c 1 b) c.order ≡ o
      → cached c 1 b o ≡ some (c', s)
      → Gets view pend b c' s
  cached-Gets b s c' (some t) found e =
      let x : put_buf c t (record (c.buf t) { refcnt = (c.buf t).refcnt + 1 }) ≡ c' = cc in
      let y : t ≡ s = cc in
      let h = find_next-some (has c 1 b) c.order found in rw (← x, ← y) (hit-Gets b t h.0 h.1)
  cached-Gets b s c' none missed e =
      elim (Option-cases (find_prev (λ i. unused (c.buf i)) c.order)) [
        | inl full ↦ absurd (ground (arith, full, e))
        | inr (t, found) ↦
            let e' : recycle c 1 b (some t) ≡ some (c', s) = ap (recycle c 1 b) (sym found) ∙ e in
            let x : put_buf c t (record (c.buf t) {
              dev = 1;
              blockno = b;
              refcnt = 1;
              valid = false;
              dirty = false;
            })
                ≡ c' =
              cc in
            let y : t ≡ s = cc in
            let h = find_prev-some (λ i. unused (c.buf i)) c.order found in
            rw (← x, ← y)
              (recycle-Gets b t h.0 h.1 (λ i mi. find_next-none (has c 1 b) c.order missed i mi))
      ]

  -- `bget` gives a buffer for the block, an old one if there is one, and recycles only a buffer that
  -- nobody uses and that is not part of a transaction: the invariant holds.
  pub bget-Gets : (b s : ℕ) (c' : Cache) → bget c 1 b ≡ some (c', s) → Gets view pend b c' s
  unfolding bget
  bget-Gets b s c' e = cached-Gets b s c' (find_next (has c 1 b) c.order) refl e
