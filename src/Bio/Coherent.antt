-- ===== src/Bio/Coherent.antt =====
-- The invariant of the buffer cache (xv6/bio.c): what `bread` returns is what was last written to
-- the block, though buffers are recycled and the disk lags behind.
use operation_system.Base.{
  ℕ, ◌+◌, ◌-◌, ◌≡◌, ap, ◌∙◌, ◌⊎◌, inl, inr, Bool, true, false, none, some, List, [], ◌∷◌, arith,
  ◌==◌, if◌then◌else◌, Bool-cases, Option-cases,
}
use operation_system.Bio.{Buf, Cache, unused, find_next, find_prev}

abbrev pub In : ℕ → List ℕ → Type 0
In i [] = ⊥
In i (j ∷ js) = (j ≡ i) ⊎ In i js

-- What holds of one buffer. `view` is what each block of disk 1 holds for the kernel, and `pend` the
-- number of processes that wait for the buffer's lock or are about to take it.
pub record BufOk (view : ℕ → List ℕ) (pend : ℕ) (b : Buf) : Type 0 where
  pub on_disk_1 : b.valid ≡ true → b.dev ≡ 1
  pub fresh : b.valid ≡ true → b.content ≡ view b.blockno
  pub counted : b.refcnt ≡ pend + (if b.locked then 1 else 0)
  pub filled : (b.locked ≡ true) ⊎ (b.dirty ≡ true) → b.valid ≡ true

-- The disk may lag behind for this block: its buffer is in use, or is part of a transaction.
pub record Pinned (c : Cache) (blockno : ℕ) : Type 0 where
  pub slot : ℕ
  pub listed : In slot c.order
  pub full : (c.buf slot).valid ≡ true
  pub block : (c.buf slot).blockno ≡ blockno
  pub kept : unused (c.buf slot) ≡ false

pub record Coherent (c : Cache) (view : ℕ → List ℕ) (pend : ℕ → ℕ) : Type 0 where
  pub each : (i : ℕ) → In i c.order → BufOk view (pend i) (c.buf i)
  pub unique :
      (i j : ℕ)
      → In i c.order
      → In j c.order
      → (c.buf i).dev ≡ 1
      → (c.buf j).dev ≡ 1
      → (c.buf i).blockno ≡ (c.buf j).blockno
      → i ≡ j
  pub stored : (b : ℕ) → (c.disk b ≡ view b) ⊎ Pinned c b

abbrev pub bump : (ℕ → ℕ) → ℕ → (ℕ → ℕ)
bump pend s i = if s == i then pend i + 1 else pend i

abbrev pub lower : (ℕ → ℕ) → ℕ → (ℕ → ℕ)
lower pend s i = if s == i then pend i - 1 else pend i

-- A find_next finds an index of the list with the property, and misses only if there is none.
pub find_next-some :
    (p : ℕ → Bool) (is : List ℕ) {i : ℕ} → find_next p is ≡ some i → In i is × (p i ≡ true)
unfolding find_next
find_next-some p [] e = cc
find_next-some p (j ∷ js) {i} e = elim (Bool-cases (p j)) [
  | inl hit ↦ let same : j ≡ i = ground (arith, e, hit) in (inl same, rw same at hit)
  | inr miss ↦ let r = find_next-some p js (ground (arith, e, miss)) in (inr r.0, r.1)
]

pub find_next-none :
    (p : ℕ → Bool) (is : List ℕ) → find_next p is ≡ none → (i : ℕ) → In i is → p i ≡ false
unfolding find_next
find_next-none p [] e i m = absurd m
find_next-none p (j ∷ js) e i m = elim (Bool-cases (p j)) [
  | inl hit ↦ absurd (ground (arith, e, hit))
  | inr miss ↦ elim m [
    | inl same ↦ rw same at miss
    | inr later ↦ find_next-none p js (ground (arith, e, miss)) i later
  ]
]

pub find_prev-some :
    (p : ℕ → Bool) (is : List ℕ) {i : ℕ} → find_prev p is ≡ some i → In i is × (p i ≡ true)
unfolding find_prev
find_prev-some p [] e = cc
find_prev-some p (j ∷ js) {i} e = elim (Option-cases (find_prev p js)) [
  | inl miss ↦
      let hit : p j ≡ true = ground (arith, e, miss) in
      let same : j ≡ i = ground (arith, e, miss, hit) in (inl same, rw same at hit)
  | inr (k, found) ↦
      let same : k ≡ i = ground (arith, e, found) in
      let r = find_prev-some p js (found ∙ ap (λ n. some n) same) in (inr r.0, r.1)
]
