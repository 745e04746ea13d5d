-- ===== src/Log/Steps.antt =====
-- Each step of `commit` and of recovery keeps the disk recoverable (xv6/log.c).
use operation_system.Base.{
  ℕ, ◌≤◌, ◌<◌, ◌≡◌, refl, ap, ◌∙◌, ◌≢◌, ◌⊎◌, inl, inr, List, [], arith, ◌==◌, ==_iff, Bool-cases,
  length,
}
use operation_system.Log.Disk.{
  Block, Store, bwrite, disk-bwrite_ne, disk-bwrite_off, disk-bwrite_self,
}
use operation_system.Log.{encode, decode, install_from, logsize}
use operation_system.Log.Header.{length-encode, decode-encode}
use operation_system.Log.Copy.{install-Installed, Logged, Logged-change, Outside}
use operation_system.Log.Crash.{Has, Clean, Pending, Fits}

module _ (start size : ℕ) where
  -- Writing the header: nothing if the power is off, and else the header alone.
  abbrev pub Headed : (s : Store) (bs : List ℕ) (t : Store) → Type 0
  Headed s bs t =
      ((s.power ≡ 0) × (t.disk ≡ s.disk))
      ⊎ ((0 < s.power)
          × (logsize < length (t.disk start))
          × (decode (t.disk start) ≡ bs)
          × ((a : ℕ) → start ≢ a → t.disk a ≡ s.disk a))

  pub head-Headed :
      (s : Store) (hb : Block) (bs : List ℕ)
      → logsize < length hb
      → length bs ≤ logsize
      → Headed s bs (bwrite s start (encode hb bs))
  head-Headed s hb bs room small = elim (Bool-cases (s.power == 0)) [
    | inl off ↦
        let e : s.power ≡ 0 = (==_iff s.power 0).0 off in
        inl (e, disk-bwrite_off s start (encode hb bs) e)
    | inr on ↦
        let p : 0 < s.power = ground (arith, on) in
        let w = disk-bwrite_self s start (encode hb bs) p in
        inr (
          p,
          rw w (omega (arith, length-encode hb bs)),
          ap decode w ∙ decode-encode hb bs (omega arith),
          λ a ne. disk-bwrite_ne s start (encode hb bs) a ne,
        )
  ]

  pub Outside-ne : 0 < size → (b : ℕ) → Outside start size b → start ≢ b
  Outside-ne pos b o = omega (arith, o)

  -- Writing an empty header over a clean disk leaves it clean.
  pub clear-Clean :
      (s : Store) (hb : Block) (g : ℕ → Block)
      → logsize < length hb
      → 0 < size
      → Clean start size s.disk g
      → Clean start size (bwrite s start (encode hb [])).disk g
  clear-Clean s hb g room pos c = elim (head-Headed s hb [] room (omega arith)) [
    | inl (off, same) ↦ rw same c
    | inr (on, long, head, rest) ↦ record {
      room = long;
      head = head;
      has = λ b o. rest b (Outside-ne pos b o) ∙ c.has b o;
    }
  ]

  module _ (bs : List ℕ) (fits : Fits start size bs) where
    -- `install_trans` keeps the transaction pending, and installs it if the power lasts.
    install-Pending :
        (s : Store) (new : ℕ → Block)
        → Pending start size bs s.disk new
        → Logged start s.view new 0 bs
        → Pending start size bs (install_from start s 0 bs).disk new
          × (length bs ≤ s.power → Has start size (install_from start s 0 bs).disk new)
    install-Pending s new p l =
        let r =
          install-Installed start size new s 0 bs fits.outside (omega (arith, fits.in_log)) l in
        let t = install_from start s 0 bs in
        let head_same : t.disk start ≡ s.disk start =
          r.log_disk start (omega arith) (omega (arith, fits.in_log)) in
        (
          record {
            room = rw head_same p.room;
            head = ap decode head_same ∙ p.head;
            logged =
                Logged-change start s.disk t.disk new new 0 bs
                  (λ a lo hi. r.log_disk a (omega (arith, lo)) (omega (arith, hi, fits.in_log)))
                  (λ b m. refl) p.logged;
            others = λ b o m. r.disk b m ∙ p.others b o m;
          },
          λ on. r.done on p.others,
        )

    -- `install_trans` and the write that clears the header.
    pub finish :
        (s : Store) (hb : Block) (new : ℕ → Block)
        → logsize < length hb
        → Pending start size bs s.disk new
        → Logged start s.view new 0 bs
        → let d = (bwrite (install_from start s 0 bs) start (encode hb [])).disk in
          (Pending start size bs d new ⊎ Clean start size d new)
          × (length bs < s.power → Clean start size d new)
    finish s hb new room p l =
        let (pending, installed) = install-Pending s new p l in
        let t = install_from start s 0 bs in
        let r =
          install-Installed start size new s 0 bs fits.outside (omega (arith, fits.in_log)) l in
        elim (head-Headed t hb [] room (omega arith)) [
          | inl (off, same) ↦
              (inl (rw same pending), λ on. absurd (omega (arith, on, off, r.power)))
          | inr (on, long, head, rest) ↦
              let clean : Clean start size (bwrite t start (encode hb [])).disk new = record {
                room = long;
                head = head;
                has = λ b o.
                    rest b (Outside-ne (omega (arith, fits.in_log)) b o)
                    ∙ installed (omega (arith, on, r.power)) b o;
              } in
              (inr clean, λ _. clean)
        ]
