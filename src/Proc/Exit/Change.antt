-- ===== src/Proc/Exit/Change.antt =====
-- What `exit` of xv6/proc.c does to the other processes of the table.
use Prim.Native.Nat.{zero}
use operation_system.Base.{
  inr, inl, Bool-cases, ap, suc, ◌⊎◌, sym, true, if◌then◌else◌, refl, ◌∙◌, All-map, none, if_intro,
  get_or, some, Option, ◌∷◌, ℕ, ◌≡◌, Bool, false, ◌&&◌, List, [], map, arith, ◌==◌, All,
}
use operation_system.Proc.{
  runnable, is_zombie, zombie_child, runnable, nobody, proc_addr, wakeup_parent, wakeup1, Chan,
  Proc, is_sleeping, same_chan, is_parent, rouse, adopt,
}

-- The process sleeps on the channel.
abbrev pub asleep_on : Chan → Proc → Bool
asleep_on c p = is_sleeping p.state && same_chan p.chan c

pub rouse-awake : (c : Chan) (p : Proc) → asleep_on c (rouse c p) ≡ false
rouse-awake c p = ground arith

-- A process that is awake on `d` stays so when those on `c` are woken.
rouse_keeps : (c d : Chan) (p : Proc) → asleep_on d p ≡ false → asleep_on d (rouse c p) ≡ false
rouse_keeps c d p h = ground (arith, h)

rouse_parent :
    (c : Chan) (cur : ℕ) (p : Proc) → is_parent cur (rouse c p).parent ≡ is_parent cur p.parent
rouse_parent c cur p = ground arith

adopt_parent :
    (cur init : ℕ) (p : Proc)
    → (cur == init) ≡ false
    → is_parent cur (adopt cur init p).parent ≡ false
adopt_parent cur init p ne = ground (arith, ne)

adopt_asleep : (cur init : ℕ) (c : Chan) (p : Proc) → asleep_on c (adopt cur init p) ≡ asleep_on c p
adopt_asleep cur init c p = ground arith

-- Whether `q` has an awake process only, for a parent that may be missing.
abbrev pub ParentAwake : Option ℕ → List Proc → Type 0
ParentAwake none ps = Unit
ParentAwake (some q) ps = All (λ p. asleep_on (proc_addr q) p ≡ false) ps

abbrev pub NoChild : ℕ → Proc → Type 0
NoChild cur p = is_parent cur p.parent ≡ false

abbrev pub Awake : Chan → Proc → Type 0
Awake c p = asleep_on c p ≡ false

pub All-any :
    (P : Proc → Type 0) (f : Proc → Proc) (ps : List Proc)
    → ((p : Proc) → P (f p))
    → All P (map f ps)
All-any P f [] h = tt
All-any P f (p ∷ ps) h = (h p, All-any P f ps h)

module _ (cur init : ℕ) (ne : (cur == init) ≡ false) where
  -- The three passes over the table.
  abbrev pub passes : Option ℕ → List Proc → List Proc
  passes parent ps =
      let ps1 = wakeup_parent parent ps in
      let ps2 = map (adopt cur init) ps1 in
      if zombie_child cur ps1 then wakeup1 (proc_addr init) ps2 else ps2

  pub passes-NoChild : (parent : Option ℕ) (ps : List Proc) → All (NoChild cur) (passes parent ps)
  unfolding wakeup1
  passes-NoChild parent ps =
      let ps1 = wakeup_parent parent ps in
      let adopted = All-any (NoChild cur) (adopt cur init) ps1 (λ p. adopt_parent cur init p ne) in
      if_intro (All (NoChild cur)) (zombie_child cur ps1)
        (λ _.
          All-map (NoChild cur) (NoChild cur) (rouse (proc_addr init)) (map (adopt cur init) ps1)
            adopted (λ p h. rouse_parent (proc_addr init) cur p ∙ h))
        (λ _. adopted)

  pub passes-ParentAwake :
      (parent : Option ℕ) (ps : List Proc) → ParentAwake parent (passes parent ps)
  unfolding wakeup1
  passes-ParentAwake none ps = tt
  passes-ParentAwake (some q) ps =
      let c = proc_addr q in
      let ps1 = map (rouse c) ps in
      let woken = All-any (Awake c) (rouse c) ps (rouse-awake c) in
      let adopted =
        All-map (Awake c) (Awake c) (adopt cur init) ps1 woken
          (λ p h. adopt_asleep cur init c p ∙ h) in
      if_intro (All (Awake c)) (zombie_child cur ps1)
        (λ _.
          All-map (Awake c) (Awake c) (rouse (proc_addr init)) (map (adopt cur init) ps1) adopted
            (rouse_keeps (proc_addr init) c))
        (λ _. adopted)

abbrev pub at : List Proc → ℕ → Proc
at ps i = get_or ps i nobody

pub at-map :
    (f : Proc → Proc) (ps : List Proc) (i : ℕ) → f nobody ≡ nobody → at (map f ps) i ≡ f (at ps i)
at-map f [] i e = sym e
at-map f (p ∷ ps) zero e = refl
at-map f (p ∷ ps) (suc i) e = at-map f ps i e

pub zombie_child-at :
    (cur : ℕ) (ps : List Proc) (j : ℕ)
    → is_parent cur (at ps j).parent ≡ true
    → is_zombie (at ps j).state ≡ true
    → zombie_child cur ps ≡ true
zombie_child-at cur [] j h z = cc
zombie_child-at cur (p ∷ ps) zero h z = rw (h, z) refl
zombie_child-at cur (p ∷ ps) (suc j) h z = let y = zombie_child-at cur ps j h z in ground (arith, y)

-- What `exit` does to one process.
abbrev pub wake_one : Option ℕ → Proc → Proc
wake_one none p = p
wake_one (some q) p = rouse (proc_addr q) p

abbrev pub change : ℕ → ℕ → Bool → Option ℕ → Proc → Proc
change cur init z parent p =
    if z
    then rouse (proc_addr init) (adopt cur init (wake_one parent p))
    else adopt cur init (wake_one parent p)

pub wake_parent-at :
    (q : Option ℕ) (ps : List Proc) (i : ℕ) → at (wakeup_parent q ps) i ≡ wake_one q (at ps i)
unfolding wakeup1
wake_parent-at none ps i = refl
wake_parent-at (some q) ps i = at-map (rouse (proc_addr q)) ps i refl

-- All but the parent and the state.
abbrev pub SameFields : Proc → Proc → Type 0
SameFields p p' =
    (p'.pid ≡ p.pid)
    × (p'.chan ≡ p.chan)
    × (p'.killed ≡ p.killed)
    × (p'.kstack ≡ p.kstack)
    × (p'.pgdir ≡ p.pgdir)

-- The process sleeps in the `wait` of `q`, or in that of init.
abbrev pub Waiting : Option ℕ → ℕ → Proc → Type 0
Waiting none init p = asleep_on (proc_addr init) p ≡ true
Waiting (some q) init p = (asleep_on (proc_addr q) p ≡ true) ⊎ (asleep_on (proc_addr init) p ≡ true)

abbrev pub SameOrWoken : Option ℕ → ℕ → Proc → Proc → Type 0
SameOrWoken q init p p' = (p'.state ≡ p.state) ⊎ (Waiting q init p × (p'.state ≡ runnable))

Waiting-init :
    (q : Option ℕ) (init : ℕ) (p : Proc) → asleep_on (proc_addr init) p ≡ true → Waiting q init p
Waiting-init none init p h = h
Waiting-init (some q) init p h = inr h

pub Waiting-sleeping :
    (q : Option ℕ) (init : ℕ) (p : Proc) → Waiting q init p → is_sleeping p.state ≡ true
Waiting-sleeping none init p h = ground (arith, h)
Waiting-sleeping (some q) init p (inl h) = ground (arith, h)
Waiting-sleeping (some q) init p (inr h) = ground (arith, h)

-- The process has the parent `q`, and may have been woken, out of the `wait` of `w` or of init.
pub record Changed (w : Option ℕ) (init : ℕ) (q : Option ℕ) (p p' : Proc) : Type 0 where
  pub parent : p'.parent ≡ q
  pub state : SameOrWoken w init p p'
  pub same : SameFields p p'

rouse-Changed :
    (w : Option ℕ) (init : ℕ) (q : Option ℕ) (c : Chan) (p p' : Proc)
    → (asleep_on c p ≡ true → Waiting w init p)
    → Changed w init q p p'
    → Changed w init q p (rouse c p')
rouse-Changed w init q c p p' why h =
    elim (Bool-cases (is_sleeping p'.state && same_chan p'.chan c)) [
      | inl holds ↦
          let s : is_sleeping p'.state ≡ true = ground (arith, holds) in
          let o : same_chan p'.chan c ≡ true = ground (arith, holds) in
          let was : is_sleeping p.state ≡ true = elim h.state [
            | inl e ↦ ap is_sleeping (sym e) ∙ s
            | inr x ↦ Waiting-sleeping w init p x.0
          ] in
          let on : same_chan p.chan c ≡ true = ap (λ x. same_chan x c) (sym h.same.1) ∙ o in
          rw holds (record {
            parent = h.parent;
            state = inr (why (rw (was, on) refl), refl);
            same = h.same;
          })
      | inr fails ↦ rw fails (record { parent = h.parent; state = h.state; same = h.same })
    ]

abbrev pub new_parent : ℕ → ℕ → Proc → Option ℕ
new_parent cur init p = if is_parent cur p.parent then some init else p.parent

pub wake_one-Changed :
    (q : Option ℕ) (init : ℕ) (p : Proc) → Changed q init p.parent p (wake_one q p)
wake_one-Changed none init p = record {
  parent = refl;
  state = inl refl;
  same = (refl, refl, refl, refl, refl);
}
wake_one-Changed (some q) init p =
    rouse-Changed (some q) init p.parent (proc_addr q) p p (λ h. inl h)
      (record { parent = refl; state = inl refl; same = (refl, refl, refl, refl, refl) })

adopt-Changed :
    (cur init : ℕ) (q : Option ℕ) (p w : Proc)
    → Changed q init p.parent p w
    → Changed q init (new_parent cur init p) p (adopt cur init w)
adopt-Changed cur init q p w h =
    let e : is_parent cur w.parent ≡ is_parent cur p.parent = ap (is_parent cur) h.parent in
    elim (Bool-cases (is_parent cur p.parent)) [
      | inl holds ↦ rw (e ∙ holds, holds) (record { parent = refl; state = h.state; same = h.same })
      | inr fails ↦
          rw (e ∙ fails, fails) (record { parent = h.parent; state = h.state; same = h.same })
    ]

pub change-Changed :
    (cur init : ℕ) (z : Bool) (q : Option ℕ) (p : Proc)
    → Changed q init (new_parent cur init p) p (change cur init z q p)
change-Changed cur init false q p =
    adopt-Changed cur init q p (wake_one q p) (wake_one-Changed q init p)
change-Changed cur init true q p =
    rouse-Changed q init (new_parent cur init p) (proc_addr init) p (adopt cur init (wake_one q p))
      (Waiting-init q init p)
      (adopt-Changed cur init q p (wake_one q p) (wake_one-Changed q init p))
