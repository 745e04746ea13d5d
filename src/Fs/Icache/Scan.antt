-- ===== src/Fs/Icache/Scan.antt =====
-- What the loop of `iget` finds (xv6/fs.c).
use operation_system.Base.{
  ℕ, zero, suc, ◌+◌, ◌≡◌, refl, sym, ap, ◌∙◌, ◌≢◌, ◌⊎◌, inl, inr, true, false, Option, none, some,
  List, [], ◌∷◌, arith, ◌==◌, ==_iff, Bool-cases, get_elem?, some_inj, Nat-cases,
}
use operation_system.Fs.Icache.{Inode, Slot, hit, empty, no_slot, is_cached, remember, scan_icache}

-- What the loop of `iget` from entry `i` on says of the entries.
abbrev pub Scanned : ℕ → ℕ → List Inode → ℕ → Option ℕ → Slot → Type 0
Scanned dev inum l i e (hit s) =
    (k : ℕ) × (ip : Inode) × (s ≡ i + k)
    × (get_elem? l k ≡ some ip)
    × (is_cached dev inum ip ≡ true)
Scanned dev inum l i e (empty s) =
    ((e ≡ some s)
      ⊎ ((k : ℕ) × (ip : Inode) × (s ≡ i + k) × (get_elem? l k ≡ some ip) × (ip.ref ≡ 0)))
    × ((k : ℕ) (ip : Inode) → get_elem? l k ≡ some ip → is_cached dev inum ip ≡ false)
Scanned dev inum l i e no_slot =
    (e ≡ none)
    × ((k : ℕ) (ip : Inode)
        → get_elem? l k ≡ some ip
        → (ip.ref ≢ 0) × (is_cached dev inum ip ≡ false))

-- `remember` keeps an entry that it has, or takes this one.
remember-some :
    (e : Option ℕ) (ip : Inode) (i : ℕ) {s : ℕ}
    → remember e ip i ≡ some s
    → (e ≡ some s) ⊎ (s ≡ i) × (ip.ref ≡ 0)
remember-some (some x) ip i h = inl h
remember-some none ip i h = elim (Bool-cases (ip.ref == 0)) [
  | inl z ↦ inr (ground (arith, h, z), (==_iff ip.ref 0).0 z)
  | inr nz ↦ absurd (ground (arith, h, nz))
]

remember-none :
    (e : Option ℕ) (ip : Inode) (i : ℕ) → remember e ip i ≡ none → (e ≡ none) × (ip.ref ≢ 0)
remember-none (some x) ip i h = absurd (let y : ◌≡◌ {A = Option ℕ} (some x) none = h in cc)
remember-none none ip i h = (refl, λ z. ground (arith, h, z))

misses :
    (dev inum : ℕ) (ip : Inode) (ips : List Inode)
    → is_cached dev inum ip ≡ false
    → ((k : ℕ) (ip' : Inode) → get_elem? ips k ≡ some ip' → is_cached dev inum ip' ≡ false)
    → (k : ℕ) (ip' : Inode) → get_elem? (ip ∷ ips) k ≡ some ip'
    → is_cached dev inum ip' ≡ false
misses dev inum ip ips miss h zero ip' at =
    let same : ip ≡ ip' = cc in ap (is_cached dev inum) (sym same) ∙ miss
misses dev inum ip ips miss h (suc k) ip' at = h k ip' at

scan-next :
    (dev inum : ℕ) (ip : Inode) (ips : List Inode) (i : ℕ) (e : Option ℕ) (r : Slot)
    → is_cached dev inum ip ≡ false
    → Scanned dev inum ips (i + 1) (remember e ip i) r
    → Scanned dev inum (ip ∷ ips) i e r
scan-next dev inum ip ips i e (hit s) miss (k, q, a, b, c) = (suc k, q, omega (arith, a), b, c)
scan-next dev inum ip ips i e (empty s) miss (inl a, b) = (
  elim (remember-some e ip i a) [
    | inl old ↦ inl old
    | inr (here, z) ↦ inr (0, ip, omega (arith, here), refl, z)
  ],
  misses dev inum ip ips miss b,
)
scan-next dev inum ip ips i e (empty s) miss (inr (k, q, a, c, z), b) =
    (inr (suc k, q, omega (arith, a), c, z), misses dev inum ip ips miss b)
scan-next dev inum ip ips i e no_slot miss (r, h) =
    let (n, used) = remember-none e ip i r in
    (
      n,
      λ k ip' at. elim (Nat-cases k) [
        | inl z ↦
            let same : ip ≡ ip' = some_inj (ap (get_elem? (ip ∷ ips)) (sym z) ∙ at) in
            rw (← same) (used, miss)
        | inr (m, e') ↦ h m ip' (ap (get_elem? (ip ∷ ips)) (sym e') ∙ at)
      ],
    )

pub scan_icache-Scanned :
    (dev inum : ℕ) (l : List Inode) (i : ℕ) (e : Option ℕ)
    → Scanned dev inum l i e (scan_icache dev inum l i e)
unfolding scan_icache
scan_icache-Scanned dev inum [] i none =
    (refl, λ k ip at. absurd (let x : ◌≡◌ {A = Option Inode} none (some ip) = at in cc))
scan_icache-Scanned dev inum [] i (some e) =
    (inl refl, λ k ip at. absurd (let x : ◌≡◌ {A = Option Inode} none (some ip) = at in cc))
scan_icache-Scanned dev inum (ip ∷ ips) i e = elim (Bool-cases (is_cached dev inum ip)) [
  | inl found ↦ rw found (0, ip, omega arith, refl, found)
  | inr miss ↦ rw miss (
      scan-next dev inum ip ips i e (scan_icache dev inum ips (i + 1) (remember e ip i)) miss
        (scan_icache-Scanned dev inum ips (i + 1) (remember e ip i)))
]
