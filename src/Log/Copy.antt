-- ===== src/Log/Copy.antt =====
-- The two copying loops of xv6/log.c: `write_log` into the log, `install_trans` out of it.
use mathlib.Core.Path.{subst}
use operation_system.Base.{
  inr, ==_iff, inl, ◌==◌, false, suc, Bool-cases, ℕ, ◌+◌, ◌-◌, ◌≤◌, ◌<◌, ◌≡◌, refl, sym, ◌∙◌, ◌⊎◌,
  true, List, [], ◌∷◌, arith, length, All,
}
use operation_system.Log.Disk.{
  disk-bwrite_off, disk-bwrite_self, view-bwrite_self, view-bwrite_ne, Block, Store, bwrite,
  power-bwrite, disk-bwrite_ne,
}
use operation_system.Log.{install_from, write_log_from, mem}

-- `f` has at the log blocks from `tail` on what `g` has at the blocks of the list.
abbrev pub Logged : ℕ → (ℕ → Block) → (ℕ → Block) → ℕ → List ℕ → Type 0
Logged start f g tail [] = Unit
Logged start f g tail (b ∷ bs) = (f (start + tail + 1) ≡ g b) × Logged start f g (tail + 1) bs

pub Logged-change :
    (start : ℕ) (f f' g g' : ℕ → Block) (tail : ℕ) (bs : List ℕ)
    → ((a : ℕ) → start + tail < a → a < start + tail + length bs + 1 → f' a ≡ f a)
    → ((b : ℕ) → mem b bs ≡ true → g' b ≡ g b)
    → Logged start f g tail bs
    → Logged start f' g' tail bs
Logged-change start f f' g g' tail [] hf hg l = tt
Logged-change start f f' g g' tail (b ∷ bs) hf hg l = (
  hf (start + tail + 1) (omega arith) (omega arith) ∙ l.0 ∙ sym (hg b (ground arith)),
  Logged-change start f f' g g' (tail + 1) bs
      (λ a lo hi. hf a (omega (arith, lo)) (omega (arith, hi))) (λ c m. hg c (ground (arith, m)))
      l.1,
)

pub All-mem {ℓ} : (P : ℕ → Type ℓ) (b : ℕ) (bs : List ℕ) → mem b bs ≡ true → All P bs → P b
All-mem P b [] m h = cc
All-mem P b (x ∷ xs) m h = elim (Bool-cases (x == b)) [
  | inl same ↦ subst P ((==_iff x b).0 same) h.0
  | inr other ↦ All-mem P b xs (ground (arith, m, other)) h.1
]

module _ (start size : ℕ) where
  -- A block outside the log.
  abbrev pub Outside : ℕ → Type 0
  Outside b = (b < start) ⊎ (start + size ≤ b)

  pub record WroteLog (s : Store) (tail : ℕ) (bs : List ℕ) (t : Store) : Type 0 where
    pub power : t.power ≡ s.power - length bs
    pub view :
        (a : ℕ) → (a < start + tail + 1) ⊎ (start + tail + length bs < a) → t.view a ≡ s.view a
    pub disk :
        (a : ℕ) → (a < start + tail + 1) ⊎ (start + tail + length bs < a) → t.disk a ≡ s.disk a
    pub logged : Logged start t.view s.view tail bs
    pub written : length bs ≤ s.power → Logged start t.disk s.view tail bs

  pub write_log-WroteLog :
      (s : Store) (tail : ℕ) (bs : List ℕ)
      → All Outside bs
      → tail + length bs < size
      → WroteLog s tail bs (write_log_from start s tail bs)
  unfolding write_log_from
  write_log-WroteLog s tail [] out fits = record {
    power = omega arith;
    view = λ a h. refl;
    disk = λ a h. refl;
    logged = tt;
    written = λ h. tt;
  }
  write_log-WroteLog s tail (b ∷ bs) out fits =
      let a0 = start + tail + 1 in
      let s' = bwrite s a0 (s.view b) in
      let r = write_log-WroteLog s' (tail + 1) bs out.1 (omega arith) in
      let w = write_log_from start s' (tail + 1) bs in
      record {
        power = omega (arith, r.power, power-bwrite s a0 (s.view b));
        view = λ a h.
            r.view a (omega (arith, h)) ∙ view-bwrite_ne s a0 (s.view b) a (omega (arith, h));
        disk = λ a h.
            r.disk a (omega (arith, h)) ∙ disk-bwrite_ne s a0 (s.view b) a (omega (arith, h));
        logged = (
          r.view a0 (omega arith) ∙ view-bwrite_self s a0 (s.view b),
          Logged-change start w.view w.view s'.view s.view (tail + 1) bs (λ a lo hi. refl)
              (same s tail b bs out.1 fits) r.logged,
        );
        written = λ on.
            let p : length bs ≤ s'.power = omega (arith, on, power-bwrite s a0 (s.view b)) in
            (
              r.disk a0 (omega arith) ∙ disk-bwrite_self s a0 (s.view b) (omega (arith, on)),
              Logged-change start w.disk w.disk s'.view s.view (tail + 1) bs (λ a lo hi. refl)
                  (same s tail b bs out.1 fits) (r.written p),
            );
      }
    where
      same :
          (s : Store) (tail b : ℕ) (bs : List ℕ)
          → All Outside bs
          → tail + suc (length bs) < size
          → (c : ℕ) → mem c bs ≡ true
          → s.view c ≡ (bwrite s (start + tail + 1) (s.view b)).view c
      same s tail b bs out fits c m = sym (
          view-bwrite_ne s (start + tail + 1) (s.view b) c
            (omega (arith, All-mem Outside c bs m out)))

  pub record Installed (g : ℕ → Block) (s : Store) (bs : List ℕ) (t : Store) : Type 0 where
    pub power : t.power ≡ s.power - length bs
    -- The log itself is not written.
    pub log_view : (a : ℕ) → start ≤ a → a < start + size → t.view a ≡ s.view a
    pub log_disk : (a : ℕ) → start ≤ a → a < start + size → t.disk a ≡ s.disk a
    -- Only the blocks of the list are.
    pub disk : (a : ℕ) → mem a bs ≡ false → t.disk a ≡ s.disk a
    -- With enough power all blocks have what `g` says, if those not in the list had.
    pub done :
        length bs ≤ s.power
        → ((a : ℕ) → Outside a → mem a bs ≡ false → s.disk a ≡ g a)
        → (a : ℕ) → Outside a
        → t.disk a ≡ g a

  pub install-Installed :
      (g : ℕ → Block) (s : Store) (tail : ℕ) (bs : List ℕ)
      → All Outside bs
      → tail + length bs < size
      → Logged start s.view g tail bs
      → Installed g s bs (install_from start s tail bs)
  unfolding install_from
  install-Installed g s tail [] out fits l = record {
    power = omega arith;
    log_view = λ a lo hi. refl;
    log_disk = λ a lo hi. refl;
    disk = λ a m. refl;
    done = λ on h a o. h a o refl;
  }
  install-Installed g s tail (b ∷ bs) out fits l =
      let v = s.view (start + tail + 1) in
      let s' = bwrite s b v in
      let r = install-Installed g s' (tail + 1) bs out.1 (omega arith) (
        Logged-change start s.view s'.view g g (tail + 1) bs
          (λ a lo hi. view-bwrite_ne s b v a (omega (arith, lo, hi, out.0, fits))) (λ c m. refl)
          l.1) in
      record {
        power = omega (arith, r.power, power-bwrite s b v);
        log_view =
            λ a lo hi. r.log_view a lo hi ∙ view-bwrite_ne s b v a (omega (arith, lo, hi, out.0));
        log_disk =
            λ a lo hi. r.log_disk a lo hi ∙ disk-bwrite_ne s b v a (omega (arith, lo, hi, out.0));
        disk = λ a m.
            r.disk a (ground (arith, m)) ∙ disk-bwrite_ne s b v a (λ e. ground (arith, m, e));
        done = λ on h a o.
            r.done (omega (arith, on, power-bwrite s b v))
              (λ c oc mc. elim (Bool-cases (b == c)) [
                | inl same ↦
                    let e : b ≡ c = (==_iff b c).0 same in
                    subst (λ x. s'.disk x ≡ g x) e
                      (disk-bwrite_self s b v (omega (arith, on)) ∙ l.0)
                | inr other ↦
                    disk-bwrite_ne s b v c (λ e. ground (arith, other, e))
                    ∙ h c oc (ground (arith, other, mc))
              ])
              a o;
      }

pub install_off :
    (start : ℕ) (s : Store) (tail : ℕ) (bs : List ℕ)
    → s.power ≡ 0
    → (install_from start s tail bs).disk ≡ s.disk
unfolding install_from
install_off start s tail [] off = refl
install_off start s tail (b ∷ bs) off =
    let v = s.view (start + tail + 1) in
    install_off start (bwrite s b v) (tail + 1) bs (omega (arith, power-bwrite s b v, off))
    ∙ disk-bwrite_off s b v off
