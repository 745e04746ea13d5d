-- ===== src/Sleeplock/Owner.antt =====
-- Who holds a lock of xv6/sleeplock.c, and who sleeps on it, in any order of the processes' turns.
use operation_system.Sleeplock.{releasesleep}
use operation_system.Sleeplock.System.{
  after_release, woken, idle, asleep, after_acquire, wake, holding, turn, start, update, run,
  System, IsSound, Status,
}
use operation_system.Base.{
  subst, ℕ, ◌≡◌, refl, sym, ap, ◌∙◌, ◌≢◌, ◌⊎◌, inl, inr, Bool, true, false, List, [], ◌∷◌, arith,
  ◌==◌, if◌then◌else◌, Bool-cases, ℕ_eq,
}

update_cases :
    (f : ℕ → Status) (p : ℕ) (v : Status) (q : ℕ) (w : Status)
    → update f p v q ≡ w
    → ((p ≡ q) × (v ≡ w)) ⊎ ((p ≢ q) × (f q ≡ w))
update_cases f p v q w e = elim (ℕ_eq p q) [
  | inl same ↦
      let t : (p == q) ≡ true = ground (arith, same) in
      let u : update f p v q ≡ v = rw t refl in inl (same, sym u ∙ e)
  | inr ne ↦
      let t : (p == q) ≡ false = ground (arith, ne) in
      let u : update f p v q ≡ f q = rw t refl in inr (ne, sym u ∙ e)
]

pub update_self : (f : ℕ → Status) (p : ℕ) (v : Status) → update f p v p ≡ v
update_self f p v = let t : (p == p) ≡ true = ground arith in rw t refl

pub update_other : (f : ℕ → Status) (p : ℕ) (v : Status) (q : ℕ) → p ≢ q → update f p v q ≡ f q
update_other f p v q ne = let t : (p == q) ≡ false = ground (arith, ne) in rw t refl

wake-holding : (t : Status) → wake t ≡ holding → t ≡ holding
wake-holding idle e = cc
wake-holding woken e = cc
wake-holding asleep e = cc
wake-holding holding e = refl

wake-asleep : (t : Status) → wake t ≡ asleep → ⊥
wake-asleep idle e = cc
wake-asleep woken e = cc
wake-asleep asleep e = cc
wake-asleep holding e = cc

start-IsSound : IsSound start
start-IsSound = record {
  holder = λ e. absurd (cc);
  alone = λ q e. absurd (cc);
  sleepers = λ q e. absurd (cc);
}

module _ (s : System) (p : ℕ) (ok : IsSound s) where
  -- The process calls `acquiresleep`, or has been woken there.
  taken-IsSound :
      (b : Bool)
      → s.lk.locked ≡ b
      → s.status p ≢ holding
      → IsSound (
          after_acquire s p
            (if b then (s.lk, false) else (record { locked = true; pid = p }, true)))
  taken-IsSound true l ne = record {
    holder = λ e.
        let h = ok.holder l in
        update_other s.status p asleep s.lk.pid (λ q. ne (ap s.status q ∙ h)) ∙ h;
    alone = λ q e. elim (update_cases s.status p asleep q holding e) [
      | inl (same, v) ↦ absurd (cc)
      | inr (other, v) ↦ ok.alone q v
    ];
    sleepers = λ q e. l;
  }
  taken-IsSound false l ne = record {
    holder = λ e. update_self s.status p holding;
    alone = λ q e. elim (update_cases s.status p holding q holding e) [
      | inl (same, v) ↦ (refl, sym same)
      | inr (other, v) ↦ let y : true ≡ false = sym (ok.alone q v).0 ∙ l in absurd (cc)
    ];
    sleepers = λ q e. refl;
  }

  released-IsSound : s.status p ≡ holding → IsSound (after_release s p (releasesleep s.lk))
  released-IsSound h = record {
    holder = λ e. absurd (cc);
    alone = λ q e.
        elim (update_cases s.status p idle q holding (wake-holding (update s.status p idle q) e)) [
          | inl (same, v) ↦ absurd (cc)
          | inr (other, v) ↦ absurd (other ((ok.alone p h).1 ∙ sym (ok.alone q v).1))
        ];
    sleepers = λ q e. absurd (wake-asleep (update s.status p idle q) e);
  }

  pub turn-IsSound : (t : Status) → s.status p ≡ t → IsSound (turn s p t)
  turn-IsSound idle e =
      taken-IsSound s.lk.locked refl (λ h. let y : idle ≡ holding = sym e ∙ h in cc)
  turn-IsSound woken e =
      taken-IsSound s.lk.locked refl (λ h. let y : woken ≡ holding = sym e ∙ h in cc)
  turn-IsSound asleep e = ok
  turn-IsSound holding e = released-IsSound e

run_from-IsSound : (ps : List ℕ) (s : System) → IsSound s → IsSound (run ps s)
unfolding run
run_from-IsSound [] s ok = ok
run_from-IsSound (p ∷ ps) s ok =
    run_from-IsSound ps (turn s p (s.status p)) (turn-IsSound s p ok (s.status p) refl)

-- In whatever order processes take turns to acquire a sleep lock and to release it, exactly one holds the
-- lock while it is taken, the one that `pid` names, and no process sleeps while it is free: no wakeup is
-- lost.
pub run-IsSound : (ps : List ℕ) → IsSound (run ps start)
run-IsSound ps = run_from-IsSound ps start start-IsSound

-- The turns of the holder, if there is one, and of `p`.
abbrev pub hand_over : System → ℕ → List ℕ
hand_over s p = if s.lk.locked then s.lk.pid ∷ p ∷ [] else p ∷ []

module _ (s : System) (p : ℕ) (ok : IsSound s) where
  free_turn : (t : Status) → s.status p ≡ t → s.lk.locked ≡ false → (turn s p t).status p ≡ holding
  free_turn idle e l = rw l (update_self s.status p holding)
  free_turn woken e l = rw l (update_self s.status p holding)
  free_turn asleep e l = let y : true ≡ false = sym (ok.sleepers p e) ∙ l in absurd (cc)
  free_turn holding e l = let y : true ≡ false = sym (ok.alone p e).0 ∙ l in absurd (cc)

hands_over :
    (s : System) (p : ℕ)
    → IsSound s
    → s.status p ≢ holding
    → (run (hand_over s p) s).status p ≡ holding
unfolding run
hands_over s p ok ne = elim (Bool-cases s.lk.locked) [
  | inr free ↦
      subst (λ l. (run l s).status p ≡ holding) (sym (turns false free))
        (free_turn s p ok (s.status p) refl free)
  | inl taken ↦
      let h = ok.holder taken in
      let s1 = turn s s.lk.pid (s.status s.lk.pid) in
      let l : s1.lk.locked ≡ false = ap (λ t. (turn s s.lk.pid t).lk.locked) h in
      subst (λ l. (run l s).status p ≡ holding) (sym (turns true taken))
        (free_turn s1 p (turn-IsSound s s.lk.pid ok (s.status s.lk.pid) refl) (s1.status p) refl l)
]
  where
    turns : (b : Bool) → s.lk.locked ≡ b → hand_over s p ≡ (if b then s.lk.pid ∷ p ∷ [] else p ∷ [])
    turns b e = ap (λ c. if c then s.lk.pid ∷ p ∷ [] else p ∷ []) e

-- After any turns of the processes, a process that does not hold the lock holds it after a turn of the
-- holder, if there is one, and a turn of its own: it is never stuck, also when it sleeps.
pub run-hand_over :
    (ps : List ℕ) (p : ℕ)
    → (run ps start).status p ≢ holding
    → (run (hand_over (run ps start) p) (run ps start)).status p ≡ holding
run-hand_over ps p ne = hands_over (run ps start) p (run-IsSound ps) ne
