-- ===== src/Fs/Icache/Unique.antt =====
-- The inode cache has one entry for each inode in use (xv6/fs.c).
use operation_system.Base.{
  ℕ, ◌+◌, ◌≡◌, refl, sym, ap, ◌∙◌, ◌≢◌, ◌⊎◌, inl, inr, true, false, Option, none, some, List, arith,
  ℕ_eq, get_elem?, get_or, set, get_elem?-set_self, get_elem?-set_ne, get_elem?-lt,
  get_or-get_elem?, some_inj,
}
use operation_system.Fs.Icache.{
  Inode, no_inode, Slot, hit, empty, no_slot, is_cached, scan_icache, iget_slot, iget,
}
use operation_system.Fs.Icache.Scan.{Scanned, scan_icache-Scanned}

-- Entry `i` is in use for the inode `inum`.
pub record Caches (l : List Inode) (dev inum i : ℕ) : Type 0 where
  pub ip : Inode
  pub at : get_elem? l i ≡ some ip
  pub live : ip.ref ≢ 0
  pub same_dev : ip.dev ≡ dev
  pub same_inum : ip.inum ≡ inum

abbrev pub OneEach : List Inode → Type 0
OneEach l = (dev inum i j : ℕ) → Caches l dev inum i → Caches l dev inum j → i ≡ j

-- Entry `i` has got `ip`, which is in use for the inode.
set-Caches :
    (l : List Inode) (i j : ℕ) (ip : Inode) (dev inum : ℕ)
    → i ≢ j
    → Caches (set l i ip) dev inum j
    → Caches l dev inum j
set-Caches l i j ip dev inum ne c = record {
  ip = c.ip;
  at = sym (get_elem?-set_ne l i j ip ne) ∙ c.at;
  live = c.live;
  same_dev = c.same_dev;
  same_inum = c.same_inum;
}

set-OneEach :
    (l : List Inode) (i dev inum : ℕ) (old ip : Inode)
    → get_elem? l i ≡ some old
    → OneEach l
    → ip.dev ≡ dev
    → ip.inum ≡ inum
    → ((j : ℕ) → j ≢ i → Caches l dev inum j → ⊥)
    → OneEach (set l i ip)
set-OneEach l i dev inum old ip at one d n alone dev' inum' j k cj ck =
    let here : get_elem? (set l i ip) i ≡ some ip =
      get_elem?-set_self l i ip (get_elem?-lt l i at) in
    elim (ℕ_eq j i) [
      | inl ej ↦ elim (ℕ_eq k i) [
        | inl ek ↦ ej ∙ sym ek
        | inr nk ↦
            let same : ip ≡ cj.ip =
              some_inj (sym here ∙ ap (get_elem? (set l i ip)) (sym ej) ∙ cj.at) in
            let same_d : dev' ≡ dev = sym cj.same_dev ∙ ap (λ (x : Inode). x.dev) (sym same) ∙ d in
            let same_n : inum' ≡ inum =
              sym cj.same_inum ∙ ap (λ (x : Inode). x.inum) (sym same) ∙ n in
            let c = set-Caches l i k ip dev' inum' (λ e. nk (sym e)) ck in
            absurd (alone k nk (rw (same_d, same_n) at c))
      ]
      | inr nj ↦ elim (ℕ_eq k i) [
        | inl ek ↦
            let same : ip ≡ ck.ip =
              some_inj (sym here ∙ ap (get_elem? (set l i ip)) (sym ek) ∙ ck.at) in
            let same_d : dev' ≡ dev = sym ck.same_dev ∙ ap (λ (x : Inode). x.dev) (sym same) ∙ d in
            let same_n : inum' ≡ inum =
              sym ck.same_inum ∙ ap (λ (x : Inode). x.inum) (sym same) ∙ n in
            let c = set-Caches l i j ip dev' inum' (λ e. nj (sym e)) cj in
            absurd (alone j nj (rw (same_d, same_n) at c))
        | inr nk ↦
            one dev' inum' j k (set-Caches l i j ip dev' inum' (λ e. nj (sym e)) cj)
              (set-Caches l i k ip dev' inum' (λ e. nk (sym e)) ck)
      ]
    ]

-- `iget` returned entry `i`: it is the inode's only one, has one reference more than before if it was
-- in use for that inode, and else the first one, and all other entries are as they were.
pub record Gets (l : List Inode) (dev inum : ℕ) (l' : List Inode) (i : ℕ) : Type 0 where
  pub one_each : OneEach l'
  pub got : Caches l' dev inum i
  pub counted :
      (Caches l dev inum i × (got.ip.ref ≡ (get_or l i no_inode).ref + 1))
      ⊎ ((get_or l i no_inode).ref ≡ 0) × (got.ip.ref ≡ 1) × ((j : ℕ) → Caches l dev inum j → ⊥)
  pub others : (j : ℕ) → j ≢ i → get_elem? l' j ≡ get_elem? l j

abbrev pub GetsOr : List Inode → ℕ → ℕ → Option (List Inode × ℕ) → Type 0
GetsOr l dev inum none = (k : ℕ) (ip : Inode) → get_elem? l k ≡ some ip → ip.ref ≢ 0
GetsOr l dev inum (some (l', i)) = Gets l dev inum l' i

module _ (l : List Inode) (dev inum : ℕ) (one : OneEach l) where
  is_cached-Caches :
      (i : ℕ) (ip : Inode)
      → get_elem? l i ≡ some ip
      → is_cached dev inum ip ≡ true
      → Caches l dev inum i
  is_cached-Caches i ip at c = record {
    ip = ip;
    at = at;
    live = ground (arith, c);
    same_dev = ground (arith, c);
    same_inum = ground (arith, c);
  }

  never :
      ((k : ℕ) (ip : Inode) → get_elem? l k ≡ some ip → is_cached dev inum ip ≡ false)
      → (j : ℕ) → Caches l dev inum j
      → ⊥
  never miss j c = let m = miss j c.ip c.at in ground (arith, m, c.live, c.same_dev, c.same_inum)

  hit-Gets :
      (i : ℕ) (ip : Inode)
      → get_elem? l i ≡ some ip
      → is_cached dev inum ip ≡ true
      → GetsOr l dev inum (iget_slot dev inum l (hit i))
  hit-Gets i ip at c =
      let old = is_cached-Caches i ip at c in
      let same : get_or l i no_inode ≡ ip = get_or-get_elem? l i no_inode at in
      let new = record (get_or l i no_inode) { ref = (get_or l i no_inode).ref + 1 } in
      let d : (get_or l i no_inode).dev ≡ dev =
        ap (λ (x : Inode). x.dev) same ∙ (let q : ip.dev ≡ dev = ground (arith, c) in q) in
      let n : (get_or l i no_inode).inum ≡ inum =
        ap (λ (x : Inode). x.inum) same ∙ (let q : ip.inum ≡ inum = ground (arith, c) in q) in
      record {
        one_each =
            set-OneEach l i dev inum ip new at one d n (λ j ne cj. ne (one dev inum j i cj old));
        got = record {
          ip = new;
          at = get_elem?-set_self l i new (get_elem?-lt l i at);
          live = omega arith;
          same_dev = d;
          same_inum = n;
        };
        counted = inl (old, refl);
        others = λ j ne. get_elem?-set_ne l i j new (λ e. ne (sym e));
      }

  empty-Gets :
      (i : ℕ) (ip : Inode)
      → get_elem? l i ≡ some ip
      → ip.ref ≡ 0
      → ((k : ℕ) (x : Inode) → get_elem? l k ≡ some x → is_cached dev inum x ≡ false)
      → GetsOr l dev inum (iget_slot dev inum l (empty i))
  empty-Gets i ip at z miss =
      let same : get_or l i no_inode ≡ ip = get_or-get_elem? l i no_inode at in
      let new = record (get_or l i no_inode) { dev = dev; inum = inum; ref = 1; valid = false } in
      record {
        one_each = set-OneEach l i dev inum ip new at one refl refl (λ j ne cj. never miss j cj);
        got = record {
          ip = new;
          at = get_elem?-set_self l i new (get_elem?-lt l i at);
          live = omega arith;
          same_dev = refl;
          same_inum = refl;
        };
        counted = inr (ap (λ (x : Inode). x.ref) same ∙ z, refl, never miss);
        others = λ j ne. get_elem?-set_ne l i j new (λ e. ne (sym e));
      }

  slot-Gets : (r : Slot) → Scanned dev inum l 0 none r → GetsOr l dev inum (iget_slot dev inum l r)
  slot-Gets (hit s) (k, ip, e, at, c) =
      let q : s ≡ k = omega (arith, e) in hit-Gets s ip (ap (get_elem? l) q ∙ at) c
  slot-Gets (empty s) (inl x, miss) = absurd (let y : ◌≡◌ {A = Option ℕ} none (some s) = x in cc)
  slot-Gets (empty s) (inr (k, ip, e, at, z), miss) =
      let q : s ≡ k = omega (arith, e) in empty-Gets s ip (ap (get_elem? l) q ∙ at) z miss
  slot-Gets no_slot (x, h) = λ k ip at. (h k ip at).0

  -- In a cache that has at most one entry for each inode, `iget` returns the entry of the inode, with
  -- one reference more, or else an entry that was free; there is still at most one for each inode,
  -- and no other entry changes. It panics only if every entry is in use.
  pub iget-Gets : GetsOr l dev inum (iget dev inum l)
  unfolding iget
  iget-Gets = slot-Gets (scan_icache dev inum l 0 none) (scan_icache-Scanned dev inum l 0 none)
