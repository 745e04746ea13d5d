-- ===== src/Bio/Change.antt =====
-- What the holder of a buffer's lock does to it: it changes the block, puts it into a transaction
-- (`log_write` of xv6/log.c sets B_DIRTY), writes it to the disk, and releases it.
use operation_system.Base.{
  ℕ, ◌-◌, ◌≡◌, refl, sym, ap₂, ◌∙◌, fun_ext, ◌⊎◌, inl, inr, true, false, some, List, [], ◌∷◌, arith,
  ◌==◌, if◌then◌else◌, ==_iff, Bool-cases,
}
use operation_system.Bio.{Cache, put_buf, iderw, bwrite, unlink, brelse}
use operation_system.Bio.Coherent.{In, Coherent}
use operation_system.Bio.Update.{changed, changed-Coherent}
use operation_system.Bio.Ops.{write_view}
use operation_system.Bio.Hold.{iderw_written, iderw-some}

abbrev pub fill : Cache → ℕ → List ℕ → Cache
fill c s v = put_buf c s (record (c.buf s) { content = v })

abbrev pub pin : Cache → ℕ → Cache
pin c s = put_buf c s (record (c.buf s) { dirty = true })

reordered :
    (c : Cache) (view : ℕ → List ℕ) (pend : ℕ → ℕ) (order : List ℕ)
    → Coherent c view pend
    → ((i : ℕ) → In i order → In i c.order)
    → ((i : ℕ) → In i c.order → In i order)
    → Coherent (record c { order = order }) view pend
reordered c view pend order co from to = record {
  each = λ i mi. co.each i (from i mi);
  unique = λ i j mi mj. co.unique i j (from i mi) (from j mj);
  stored = λ a. elim (co.stored a) [
    | inl d ↦ inl d
    | inr k ↦ inr (record {
      slot = k.slot;
      listed = to k.slot k.listed;
      full = k.full;
      block = k.block;
      kept = k.kept;
    })
  ];
}

In-unlink : (s i : ℕ) (is : List ℕ) → In i (unlink s is) → In i is
In-unlink s i [] m = m
In-unlink s i (j ∷ js) m = elim (Bool-cases (s == j)) [
  | inl e ↦ inr (rw e at m)
  | inr ne ↦
      let m' : In i (j ∷ unlink s js) = rw ne at m in
      elim m' [ inl h ↦ inl h | inr t ↦ inr (In-unlink s i js t) ]
]

In-moved : (s i : ℕ) (is : List ℕ) → In i is → In i (s ∷ unlink s is)
In-moved s i [] m = absurd m
In-moved s i (j ∷ js) m = elim (Bool-cases (s == j)) [
  | inl e ↦ elim m [ inl h ↦ inl ((==_iff s j).0 e ∙ h) | inr t ↦ rw e (inr t) ]
  | inr ne ↦ rw ne (elim m [
    | inl h ↦ inr (inl h)
    | inr t ↦ elim (In-moved s i js t) [ inl h ↦ inl h | inr u ↦ inr (inr u) ]
  ])
]

module _ (c : Cache) (view : ℕ → List ℕ) (pend : ℕ → ℕ) (s : ℕ) (co : Coherent c view pend)
    (m : In s c.order) (held : (c.buf s).locked ≡ true) where
  valid : (c.buf s).valid ≡ true
  valid = (co.each s m).filled (inl held)

  dev1 : (c.buf s).dev ≡ 1
  dev1 = (co.each s m).on_disk_1 valid

  pub fill-Coherent :
      (v : List ℕ) → Coherent (fill c s v) (write_view view (c.buf s).blockno v) pend
  fill-Coherent v =
      let o = co.each s m in
      changed-Coherent c view pend s (record (c.buf s) { content = v }) c.disk
        (write_view view (c.buf s).blockno v) pend co m dev1 dev1 refl (λ i ne. refl)
        (λ a ne. (refl, ground (arith, ne)))
        (record {
          on_disk_1 = o.on_disk_1;
          fresh = λ _. ground arith;
          counted = o.counted;
          filled = o.filled;
        })
        (inr (valid, ground (arith, o.counted, held)))

  pub pin-Coherent : Coherent (pin c s) view pend
  pin-Coherent =
      let o = co.each s m in
      changed-Coherent c view pend s (record (c.buf s) { dirty = true }) c.disk view pend co m dev1
        dev1 refl (λ i ne. refl) (λ a ne. (refl, refl))
        (record {
          on_disk_1 = o.on_disk_1;
          fresh = o.fresh;
          counted = o.counted;
          filled = λ _. valid;
        })
        (inr (valid, ground arith))

  write-Coherent :
      let b = record (c.buf s) { dirty = false; valid = true } in
      Coherent (changed c s b (λ a. if b.blockno == a then b.content else c.disk a)) view pend
  write-Coherent =
      let o = co.each s m in
      changed-Coherent c view pend s (record (c.buf s) { dirty = false; valid = true })
        (λ a. if (c.buf s).blockno == a then (c.buf s).content else c.disk a) view pend co m dev1
        dev1 refl (λ i ne. refl) (λ a ne. (ground (arith, ne), refl))
        (record {
          on_disk_1 = λ _. dev1;
          fresh = λ _. o.fresh valid;
          counted = o.counted;
          filled = λ _. refl;
        })
        (inl (ground (arith, o.fresh valid)))

  -- `bwrite` writes the block to the disk.
  pub bwrite-Coherent :
      (c' : Cache)
      → bwrite c s ≡ some c'
      → Coherent c' view pend × (c'.disk (c.buf s).blockno ≡ view (c.buf s).blockno)
  unfolding bwrite
  bwrite-Coherent c' e =
      let e1 : iderw (pin c s) s ≡ some c' = ground (arith, e, held) in
      let o = co.each s m in
      let (d, cases) = iderw-some (pin c s) s c' e1 in
      elim cases [
        | inr (clean, x) ↦ absurd (ground (arith, clean))
        | inl (dirty, x) ↦
            let b' = record (c.buf s) { dirty = false; valid = true } in
            let disk : ℕ → List ℕ =
              λ a. if (c.buf s).blockno == a then (c.buf s).content else c.disk a in
            let twice : (λ i. (iderw_written (pin c s) s).buf i)
                ≡ (λ i. (changed c s b' disk).buf i) =
              fun_ext (λ i. ground arith) in
            let disks : (iderw_written (pin c s) s).disk ≡ disk = fun_ext (λ a. ground arith) in
            let same : changed c s b' disk ≡ c' =
              ap₂ (λ f g. record c { buf = f; disk = g }) (sym twice) (sym disks) ∙ x in
            rw (← same) (write-Coherent, ground (arith, o.fresh valid))
      ]

  release-Coherent :
      ((c.buf s).dirty ≡ true) ⊎ ((c.buf s).content ≡ c.disk (c.buf s).blockno)
      → Coherent
          (put_buf c s (record (c.buf s) { locked = false; refcnt = (c.buf s).refcnt - 1 }))
          view
          pend
  release-Coherent saved =
      let o = co.each s m in
      changed-Coherent c view pend s
        (record (c.buf s) { locked = false; refcnt = (c.buf s).refcnt - 1 }) c.disk view pend co m
        dev1 dev1 refl (λ i ne. refl) (λ a ne. (refl, refl))
        (record {
          on_disk_1 = o.on_disk_1;
          fresh = o.fresh;
          counted = ground (arith, o.counted, held);
          filled = λ _. valid;
        })
        (elim saved [
          | inl dirty ↦ inr (valid, ground (arith, dirty))
          | inr same ↦ inl (sym same ∙ o.fresh valid)
        ])

  -- `brelse` of a block that is on the disk, or part of a transaction, may let the buffer go.
  pub brelse-Coherent :
      (c' : Cache)
      → ((c.buf s).dirty ≡ true) ⊎ ((c.buf s).content ≡ c.disk (c.buf s).blockno)
      → brelse c s ≡ some c'
      → Coherent c' view pend
  unfolding brelse
  brelse-Coherent c' saved e =
      let n = (c.buf s).refcnt - 1 in
      let c1 = put_buf c s (record (c.buf s) { locked = false; refcnt = n }) in
      let r = release-Coherent saved in
      elim (Bool-cases (n == 0)) [
        | inl last ↦
            let x : record c1 { order = s ∷ unlink s c.order } ≡ c' =
              ground (arith, e, held, last) in
            rw (← x) (
              reordered c1 view pend (s ∷ unlink s c.order) r
                (λ i mi. elim mi [ inl same ↦ rw (← same) m | inr t ↦ In-unlink s i c.order t ])
                (λ i mi. In-moved s i c.order mi))
        | inr more ↦ let x : c1 ≡ c' = ground (arith, e, held, more) in rw (← x) r
      ]
