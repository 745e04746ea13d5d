-- ===== src/Locks/Nesting.antt =====
-- Sections between `pushcli` and `popcli` nest (xv6/spinlock.c).
use operation_system.Base.{
  true, ◌&&◌, ◌-◌, ◌≡◌, refl, ◌∙◌, ◌≢◌, false, Option, none, some, arith, ◌==◌, if◌then◌else◌,
}
use operation_system.Locks.{Cpu, pushcli, popcli}

-- The calls that a CPU makes: each `pushcli` with what it does before its `popcli`, and what it
-- does afterwards.
pub data Section : Type 0 where
  done : Section
  nest : Section → Section → Section

-- `none` is a panic.
pub run : Section → Cpu → Option Cpu
run done c = some c
run (nest inner after) c = elim (run inner (pushcli c)) [
  | none ↦ none
  | some c1 ↦ elim (popcli c1) [ none ↦ none | some c2 ↦ run after c2 ]
]

-- Inside a section interrupts are off.
abbrev pub Quiet : Cpu → Type 0
Quiet c = c.ncli ≢ 0 → c.flag ≡ false

-- The same state, but for what the CPU keeps of a section that it has left.
pub record Restored (c c' : Cpu) : Type 0 where
  pub depth : c'.ncli ≡ c.ncli
  pub interrupts : c'.flag ≡ c.flag
  pub kept : c.ncli ≢ 0 → c'.intena ≡ c.intena

pub popcli-pushcli :
    (c c1 : Cpu)
    → Quiet c
    → Restored (pushcli c) c1
    → (c2 : Cpu) × (popcli c1 ≡ some c2) × Restored c c2
unfolding pushcli popcli
popcli-pushcli c c1 quiet r =
    let off : c1.flag ≡ false = r.interrupts in
    let deep : (c1.ncli == 0) ≡ false = ground (arith, r.depth) in
    let same : c1.intena ≡ (if c.ncli == 0 then c.flag else c.intena) = r.kept (omega arith) in
    (
      record c1 {
        ncli = c1.ncli - 1;
        flag = if c1.ncli - 1 == 0 && c1.intena then true else c1.flag;
      },
      rw (off, deep),
      record {
        depth = omega (arith, r.depth);
        interrupts = ground (arith, off, r.depth, same, quiet);
        kept = λ h. ground (arith, same, h);
      },
    )

pushcli-Quiet : (c : Cpu) → Quiet (pushcli c)
unfolding pushcli
pushcli-Quiet c h = refl

Restored-Quiet : (c c' : Cpu) → Quiet c → Restored c c' → Quiet c'
Restored-Quiet c c' q r h = r.interrupts ∙ q (omega (arith, h, r.depth))

Restored-trans : (a b c : Cpu) → Restored a b → Restored b c → Restored a c
Restored-trans a b c r s = record {
  depth = s.depth ∙ r.depth;
  interrupts = s.interrupts ∙ r.interrupts;
  kept = λ h. s.kept (omega (arith, h, r.depth)) ∙ r.kept h;
}

-- From a state that has interrupts off if it is inside a section, sections that nest do not panic,
-- and leave the interrupt flag and the depth as they were.
pub run-Restored :
    (s : Section) (c : Cpu) → Quiet c → (c' : Cpu) × (run s c ≡ some c') × Restored c c'
unfolding run
run-Restored done c q = (c, refl, record { depth = refl; interrupts = refl; kept = λ h. refl })
run-Restored (nest inner after) c q =
    let (c1, e1, r1) = run-Restored inner (pushcli c) (pushcli-Quiet c) in
    let (c2, e2, r2) = popcli-pushcli c c1 q r1 in
    let (c3, e3, r3) = run-Restored after c2 (Restored-Quiet c c2 q r2) in
    (c3, rw (e1, e2, e3), Restored-trans c c2 c3 r2 r3)
