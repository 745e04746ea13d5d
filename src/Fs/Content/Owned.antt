-- ===== src/Fs/Content/Owned.antt =====
-- The blocks of one file, and what may happen to them.
use operation_system.Base.{
  ℕ, ◌-◌, ◌/◌, ◌%◌, ◌^◌, ◌≤◌, ◌<◌, ◌≡◌, refl, sym, ap, ◌∙◌, ◌≢◌, ◌⊎◌, inl, inr, true, false, arith,
  ltb, ◌==◌, if◌then◌else◌, Bool-cases, ℕ_eq,
}
use operation_system.Fs.Alloc.{used}
use operation_system.Fs.{Dinode, Fs, bsize, word}

-- The number of the file's block `k`, and of its indirect block for 140; 0 where it has none.
abbrev pub blk : Fs → Dinode → ℕ → ℕ
blk fs ip k =
    if ltb k 12
    then ip.addrs k
    else if k == 140
    then ip.addrs 12
    else if ip.addrs 12 == 0
    then 0
    else word (fs.byte (ip.addrs 12)) (k - 12)

-- Byte `i` of the file; where no block is allocated it reads as 0.
abbrev pub byte_of : Fs → Dinode → ℕ → ℕ
byte_of fs ip i =
    if blk fs ip (i / bsize) == 0 then 0 else fs.byte (blk fs ip (i / bsize)) (i % bsize)

-- No block serves twice, and each is marked in the bitmap. Block 0 is the boot block.
pub record Owned (fs : Fs) (ip : Dinode) : Type 0 where
  pub apart : (k j : ℕ) → k ≤ 140 → j ≤ 140 → blk fs ip k ≢ 0 → blk fs ip k ≡ blk fs ip j → k ≡ j
  pub taken : (k : ℕ) → k ≤ 140 → blk fs ip k ≢ 0 → used fs (blk fs ip k) ≡ true
  pub boot : used fs 0 ≡ true
  pub small : fs.sb.size ≤ 2 ^ 32

-- The file keeps its blocks and gets only free ones, and the used blocks of others stay as they are.
pub record Grows (fs : Fs) (ip : Dinode) (fs' : Fs) (ip' : Dinode) : Type 0 where
  pub slots :
      (k : ℕ)
      → k ≤ 140
      → (blk fs' ip' k ≡ blk fs ip k) ⊎ (blk fs ip k ≡ 0) × (used fs (blk fs' ip' k) ≡ false)
  pub still : (b : ℕ) → used fs b ≡ true → used fs' b ≡ true
  pub frame :
      (b i : ℕ)
      → used fs b ≡ true
      → ((k : ℕ) → k ≤ 140 → blk fs ip k ≢ b)
      → fs'.byte b i ≡ fs.byte b i
  pub same_sb : fs'.sb ≡ fs.sb
  pub same_inodes : fs'.inodes ≡ fs.inodes
  pub same_size : ip'.size ≡ ip.size
  pub same_type : ip'.type ≡ ip.type

pub Grows-refl : (fs : Fs) (ip : Dinode) → Grows fs ip fs ip
Grows-refl fs ip = record {
  slots = λ k le. inl refl;
  still = λ b u. u;
  frame = λ b i u h. refl;
  same_sb = refl;
  same_inodes = refl;
  same_size = refl;
  same_type = refl;
}

pub Grows-trans :
    (fs : Fs) (ip : Dinode) (fs1 : Fs) (ip1 : Dinode) (fs2 : Fs) (ip2 : Dinode)
    → Grows fs ip fs1 ip1
    → Grows fs1 ip1 fs2 ip2
    → Grows fs ip fs2 ip2
Grows-trans fs ip fs1 ip1 fs2 ip2 g h = record {
  slots = λ k le. elim (h.slots k le) [
    | inl same2 ↦ elim (g.slots k le) [
      | inl same1 ↦ inl (same2 ∙ same1)
      | inr (z, f) ↦ inr (z, ap (used fs) same2 ∙ f)
    ]
    | inr (z1, f1) ↦
        let free : used fs (blk fs2 ip2 k) ≡ false = elim (Bool-cases (used fs (blk fs2 ip2 k))) [
          | inl u ↦ absurd (let x = g.still (blk fs2 ip2 k) u in cc)
          | inr f ↦ f
        ] in
        elim (g.slots k le) [ inl same1 ↦ inr (sym same1 ∙ z1, free) | inr (z, f) ↦ inr (z, free) ]
  ];
  still = λ b u. h.still b (g.still b u);
  frame = λ b i u away.
      h.frame b i (g.still b u) (λ k le e. elim (g.slots k le) [
        | inl same ↦ away k le (sym same ∙ e)
        | inr (z, f) ↦ let x : used fs b ≡ false = ap (used fs) (sym e) ∙ f in cc
      ])
      ∙ g.frame b i u away;
  same_sb = h.same_sb ∙ g.same_sb;
  same_inodes = h.same_inodes ∙ g.same_inodes;
  same_size = h.same_size ∙ g.same_size;
  same_type = h.same_type ∙ g.same_type;
}

-- Slot `k` had no block and has got `b`, which was free and is zero; an entry of the indirect block
-- may have been written for that.
pub record Granted (fs : Fs) (ip : Dinode) (k b : ℕ) (fs' : Fs) (ip' : Dinode) : Type 0 where
  pub none_yet : blk fs ip k ≡ 0
  pub slot : blk fs' ip' k ≡ b
  pub others : (j : ℕ) → j ≤ 140 → j ≢ k → blk fs' ip' j ≡ blk fs ip j
  pub was_free : used fs b ≡ false
  pub now : (a : ℕ) → used fs' a ≡ (if a == b then true else used fs a)
  pub zeroed : (i : ℕ) → b ≢ 0 → fs'.byte b i ≡ 0
  pub rest : (a i : ℕ) → a ≢ b → a ≢ blk fs' ip' 140 → fs'.byte a i ≡ fs.byte a i
  pub same_sb : fs'.sb ≡ fs.sb
  pub same_inodes : fs'.inodes ≡ fs.inodes
  pub same_size : ip'.size ≡ ip.size
  pub same_type : ip'.type ≡ ip.type

module _ (fs : Fs) (ip : Dinode) (k b : ℕ) (fs' : Fs) (ip' : Dinode) (g : Granted fs ip k b fs' ip')
    (le : k ≤ 140) (o : Owned fs ip) where
  pub Granted_ne_zero : b ≢ 0
  Granted_ne_zero e = let x = o.boot in let y = ap (used fs) (sym e) ∙ g.was_free in cc

  pub Granted-Grows : Grows fs ip fs' ip'
  Granted-Grows = record {
    slots = λ j lj. elim (ℕ_eq j k) [
      | inl e ↦
          inr
            (ap (blk fs ip) e ∙ g.none_yet, ap (used fs) (ap (blk fs' ip') e ∙ g.slot) ∙ g.was_free)
      | inr ne ↦ inl (g.others j lj ne)
    ];
    still = λ a u. ground (arith, g.now a, u);
    frame = λ a i u away.
        g.rest a i
          (λ e. let x : used fs b ≡ true = ap (used fs) (sym e) ∙ u in let y = g.was_free in cc)
          (λ e. elim (ℕ_eq 140 k) [
            | inl top ↦
                let same : a ≡ b = e ∙ ap (blk fs' ip') top ∙ g.slot in
                let x : used fs b ≡ true = ap (used fs) (sym same) ∙ u in let y = g.was_free in cc
            | inr ne ↦ away 140 (omega arith) (sym (e ∙ g.others 140 (omega arith) ne))
          ]);
    same_sb = g.same_sb;
    same_inodes = g.same_inodes;
    same_size = g.same_size;
    same_type = g.same_type;
  }

  -- No old block is the new one.
  fresh : (j : ℕ) → j ≤ 140 → blk fs ip j ≢ b
  fresh j lj e =
      let nz : blk fs ip j ≢ 0 = λ z. Granted_ne_zero (sym e ∙ z) in
      let x = o.taken j lj nz in
      let y : used fs (blk fs ip j) ≡ false = ap (used fs) e ∙ g.was_free in cc

  pub Granted-Owned : Owned fs' ip'
  Granted-Owned = record {
    apart = λ i j li lj nz e. elim (ℕ_eq i k) [
      | inl ei ↦ elim (ℕ_eq j k) [
        | inl ej ↦ ei ∙ sym ej
        | inr nj ↦
            absurd (fresh j lj (sym (g.others j lj nj) ∙ sym e ∙ ap (blk fs' ip') ei ∙ g.slot))
      ]
      | inr ni ↦ elim (ℕ_eq j k) [
        | inl ej ↦ absurd (fresh i li (sym (g.others i li ni) ∙ e ∙ ap (blk fs' ip') ej ∙ g.slot))
        | inr nj ↦
            o.apart i j li lj (λ z. nz (g.others i li ni ∙ z))
              (sym (g.others i li ni) ∙ e ∙ g.others j lj nj)
      ]
    ];
    taken = λ j lj nz. elim (ℕ_eq j k) [
      | inl ej ↦ ap (used fs') (ap (blk fs' ip') ej ∙ g.slot) ∙ ground (arith, g.now b)
      | inr nj ↦
          ap (used fs') (g.others j lj nj)
          ∙ Granted-Grows.still (blk fs ip j) (o.taken j lj (λ z. nz (g.others j lj nj ∙ z)))
    ];
    boot = Granted-Grows.still 0 o.boot;
    small = rw g.same_sb o.small;
  }

  -- The new block is zero, and so reads as the missing one did.
  pub Granted_bytes : (i : ℕ) → i / bsize < 140 → byte_of fs' ip' i ≡ byte_of fs ip i
  Granted_bytes i lt = elim (ℕ_eq (i / bsize) k) [
    | inl e ↦
        let new : blk fs' ip' (i / bsize) ≡ b = ap (blk fs' ip') e ∙ g.slot in
        let old : blk fs ip (i / bsize) ≡ 0 = ap (blk fs ip) e ∙ g.none_yet in
        rw (new, old) (ground (arith, g.zeroed (i % bsize), Granted_ne_zero))
    | inr ne ↦
        let same = g.others (i / bsize) (omega (arith, lt)) ne in
        elim (ℕ_eq (blk fs ip (i / bsize)) 0) [
          | inl z ↦ rw (same, z)
          | inr nz ↦
              let nz' : blk fs' ip' (i / bsize) ≢ 0 = λ z. nz (sym same ∙ z) in
              let away : blk fs ip (i / bsize) ≢ blk fs' ip' 140 = λ e.
                let x : i / bsize ≡ 140 =
                  Granted-Owned.apart (i / bsize) 140 (omega (arith, lt)) (omega arith) nz'
                    (same ∙ e) in
                omega (arith, x, lt) in
              rw same (
                ap (λ v. if blk fs ip (i / bsize) == 0 then 0 else v)
                  (g.rest (blk fs ip (i / bsize)) (i % bsize)
                    (fresh (i / bsize) (omega (arith, lt))) away))
        ]
  ]
