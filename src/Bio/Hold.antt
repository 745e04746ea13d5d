-- ===== src/Bio/Hold.antt =====
-- What a process does with a buffer: it takes the lock, changes the block, writes it, releases it.
use operation_system.Base.{
  Option-cases, fun_ext, ◌==◌, ◌⊎◌, some, if◌then◌else◌, ℕ, ◌≡◌, refl, sym, ap, ◌∙◌, ◌≢◌, inl, inr,
  true, false, List, arith, Bool-cases,
}
use operation_system.Bio.{put_buf, Buf, Cache, iderw, reads, bread_locked}
use operation_system.Bio.Coherent.{In, Coherent, lower}
use operation_system.Bio.Update.{changed, changed-Coherent}

abbrev pub iderw_written : Cache → ℕ → Cache
iderw_written c s =
    let b = c.buf s in
    changed c s (record b { dirty = false; valid = true })
      (λ a. if b.blockno == a then b.content else c.disk a)

abbrev pub iderw_read : Cache → ℕ → Cache
iderw_read c s =
    let b = c.buf s in changed c s (record b { content = c.disk b.blockno; valid = true }) c.disk

-- What `iderw` has done where it does not panic.
pub iderw-some :
    (c : Cache) (s : ℕ) (c2 : Cache)
    → iderw c s ≡ some c2
    → ((c.buf s).dev ≡ 1)
      × (((c.buf s).dirty ≡ true) × (iderw_written c s ≡ c2)
          ⊎ ((c.buf s).dirty ≡ false) × (iderw_read c s ≡ c2))
unfolding iderw
iderw-some c s c2 e = elim (Bool-cases (c.buf s).dirty) [
  | inl d ↦ (ground (arith, e), inl (d, ground (arith, e, d)))
  | inr d ↦ (ground (arith, e), inr (d, ground (arith, e, d)))
]

module _ (c : Cache) (view : ℕ → List ℕ) (pend : ℕ → ℕ) (s : ℕ) (co : Coherent c view pend)
    (m : In s c.order) where
  -- The buffer after a process has got its lock.
  pub record Reads (c' : Cache) : Type 0 where
    pub coherent : Coherent c' view (lower pend s)
    pub taken : (c'.buf s).locked ≡ true
    pub latest : (c'.buf s).content ≡ view (c.buf s).blockno
    pub block : (c'.buf s).blockno ≡ (c.buf s).blockno

  lock-Reads :
      (b' : Buf)
      → pend s ≢ 0
      → (c.buf s).locked ≡ false
      → (c.buf s).dev ≡ 1
      → b'.dev ≡ 1
      → b'.blockno ≡ (c.buf s).blockno
      → b'.refcnt ≡ (c.buf s).refcnt
      → b'.locked ≡ true
      → b'.valid ≡ true
      → b'.content ≡ view (c.buf s).blockno
      → Reads (changed c s b' c.disk)
  lock-Reads b' pending unlocked d d' e r l v now =
      let o = co.each s m in
      record {
        coherent =
            changed-Coherent c view pend s b' c.disk view (lower pend s) co m d d' e
              (λ i ne. ground (arith, ne)) (λ a ne. (refl, refl))
              (record {
                on_disk_1 = λ _. d';
                fresh = λ _. now ∙ ap view (sym e);
                counted = ground (arith, o.counted, r, l, unlocked, pending);
                filled = λ _. v;
              })
              (inr (v, ground (arith, r, o.counted, pending)));
        taken = ground (arith, l);
        latest = ground (arith, now);
        block = ground (arith, e);
      }

  -- An empty buffer's block is on the disk as the kernel has it.
  empty_stored :
      (c.buf s).valid ≡ false
      → (c.buf s).dev ≡ 1
      → c.disk (c.buf s).blockno ≡ view (c.buf s).blockno
  empty_stored v d = elim (co.stored (c.buf s).blockno) [
    | inl x ↦ x
    | inr k ↦
        let there : k.slot ≡ s =
          co.unique k.slot s k.listed m ((co.each k.slot k.listed).on_disk_1 k.full) d k.block in
        absurd (let f = rw there at k.full in cc)
  ]

  fill-Reads :
      (c2 : Cache)
      → pend s ≢ 0
      → (c.buf s).locked ≡ false
      → (c.buf s).valid ≡ false
      → (let c1 = put_buf c s (record (c.buf s) { locked = true }) in
          ((c1.buf s).dev ≡ 1)
          × (((c1.buf s).dirty ≡ true) × (iderw_written c1 s ≡ c2)
              ⊎ ((c1.buf s).dirty ≡ false) × (iderw_read c1 s ≡ c2)))
      → Reads c2
  fill-Reads c2 pending l v (d, inl (dirty, e)) =
      let o = co.each s m in
      let x : (c.buf s).dirty ≡ true = ground (arith, dirty) in
      absurd (let y = o.filled (inr x) in cc)
  fill-Reads c2 pending l v (d, inr (clean, e)) =
      let d1 : (c.buf s).dev ≡ 1 = ground (arith, d) in
      let b' = record (c.buf s) {
        locked = true;
        content = c.disk (c.buf s).blockno;
        valid = true;
      } in
      let twice : (λ i. (iderw_read (put_buf c s (record (c.buf s) { locked = true })) s).buf i)
          ≡ (λ i. (changed c s b' c.disk).buf i) =
        fun_ext (λ i. ground arith) in
      let same : changed c s b' c.disk ≡ c2 = ap (λ f. record c { buf = f }) (sym twice) ∙ e in
      rw (← same) (lock-Reads b' pending l d1 d1 refl refl refl refl (empty_stored v d1))

  -- `bread` of a free buffer reads the block as it was last written.
  pub bread_locked-Reads : (c' : Cache) → pend s ≢ 0 → bread_locked c s ≡ reads c' → Reads c'
  unfolding bread_locked
  bread_locked-Reads c' pending e = elim (Bool-cases (c.buf s).locked) [
    | inl l ↦ absurd (ground (arith, l, e))
    | inr l ↦ elim (Bool-cases (c.buf s).valid) [
      | inl v ↦
          let o = co.each s m in
          let x : put_buf c s (record (c.buf s) { locked = true }) ≡ c' = ground (arith, l, v, e) in
          rw (← x) (
            lock-Reads (record (c.buf s) { locked = true }) pending l (o.on_disk_1 v)
              (o.on_disk_1 v) refl refl refl v (o.fresh v))
      | inr v ↦
          let c1 = put_buf c s (record (c.buf s) { locked = true }) in
          elim (Option-cases (iderw c1 s)) [
            | inl broken ↦ absurd (ground (arith, l, v, broken, e))
            | inr (c2, done) ↦
                let x : c2 ≡ c' = ground (arith, l, v, done, e) in
                rw (← x) (fill-Reads c2 pending l v (iderw-some c1 s c2 done))
          ]
    ]
  ]
