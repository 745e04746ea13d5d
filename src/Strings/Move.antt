-- ===== src/Strings/Move.antt =====
-- `memmove` copies as if through a buffer, also where the ranges overlap (xv6/string.c).
use operation_system.Base.{
  ℕ, zero, suc, ◌+◌, ◌-◌, ◌≤◌, ◌<◌, ◌≡◌, refl, ap, ◌∙◌, ◌≢◌, ◌⊎◌, inl, inr, ◌&&◌, arith, ltb, leb,
  if◌then◌else◌, if_intro,
}
use operation_system.Strings.{Memory, store, forward, backward, memmove}

store-other : (mem : Memory) (d v a : ℕ) → d ≢ a → store mem d v a ≡ mem a
store-other mem d v a ne = ground (arith, ne)

store-same : (mem : Memory) (d v a : ℕ) → d ≡ a → store mem d v a ≡ v
store-same mem d v a e = ground (arith, e)

forward-outside : (mem : Memory) (d s n a : ℕ) → (a < d) ⊎ (d + n ≤ a) → forward mem d s n a ≡ mem a
unfolding forward
forward-outside mem d s zero a h = refl
forward-outside mem d s (suc n) a h =
    forward-outside (store mem d (mem s)) (d + 1) (s + 1) n a (omega (arith, h))
    ∙ store-other mem d (mem s) a (omega (arith, h))

-- The copy upwards reads no byte that it has written if the target starts below the source or
-- behind its end.
forward-inside :
    (mem : Memory) (d s n i a : ℕ)
    → i < n
    → a ≡ d + i
    → (d ≤ s) ⊎ (s + n ≤ d)
    → forward mem d s n a ≡ mem (s + i)
unfolding forward
forward-inside mem d s zero i a lt e h = omega (arith, lt)
forward-inside mem d s (suc n) zero a lt e h =
    forward-outside (store mem d (mem s)) (d + 1) (s + 1) n a (omega (arith, e))
    ∙ store-same mem d (mem s) a (omega (arith, e))
    ∙ ap mem (omega arith)
forward-inside mem d s (suc n) (suc i) a lt e h =
    forward-inside (store mem d (mem s)) (d + 1) (s + 1) n i a (omega (arith, lt))
      (omega (arith, e)) (omega (arith, h))
    ∙ store-other mem d (mem s) (s + 1 + i) (omega (arith, lt, h))
    ∙ ap mem (omega arith)

backward-outside :
    (mem : Memory) (d s n a : ℕ) → (a < d) ⊎ (d + n ≤ a) → backward mem (d + n) (s + n) n a ≡ mem a
unfolding backward
backward-outside mem d s zero a h = refl
backward-outside mem d s (suc n) a h =
    let ed : d + suc n - 1 ≡ d + n = omega arith in
    let es : s + suc n - 1 ≡ s + n = omega arith in
    rw (ed, es)
      (backward-outside (store mem (d + n) (mem (s + n))) d s n a (omega (arith, h))
        ∙ store-other mem (d + n) (mem (s + n)) a (omega (arith, h)))

-- The copy downwards reads no byte that it has written if the target starts above the source.
backward-inside :
    (mem : Memory) (d s n i a : ℕ)
    → i < n
    → a ≡ d + i
    → s < d
    → backward mem (d + n) (s + n) n a ≡ mem (s + i)
unfolding backward
backward-inside mem d s zero i a lt e h = omega (arith, lt)
backward-inside mem d s (suc n) i a lt e h =
    let ed : d + suc n - 1 ≡ d + n = omega arith in
    let es : s + suc n - 1 ≡ s + n = omega arith in
    let mem' = store mem (d + n) (mem (s + n)) in
    let position : (i ≡ n) ⊎ (i < n) = omega (arith, lt) in
    rw (ed, es)
      (elim position [
        | inl top ↦
            backward-outside mem' d s n a (omega (arith, e, top))
            ∙ store-same mem (d + n) (mem (s + n)) a (omega (arith, e, top))
            ∙ ap mem (omega (arith, top))
        | inr below ↦
            backward-inside mem' d s n i a below e h
            ∙ store-other mem (d + n) (mem (s + n)) (s + i) (omega (arith, below, h))
      ])

-- What the memory must hold after a copy of `n` bytes from `s` to `d`.
abbrev pub moved : Memory → ℕ → ℕ → ℕ → Memory
moved mem d s n a = if leb d a && ltb a (d + n) then mem (s + (a - d)) else mem a

memmove-inside :
    (mem : Memory) (d s n i a : ℕ) → i < n → a ≡ d + i → memmove mem d s n a ≡ mem (s + i)
unfolding memmove
memmove-inside mem d s n i a lt e =
    if_intro (λ (m : Memory). m a ≡ mem (s + i)) (ltb s d && ltb d (s + n))
      (λ h. backward-inside mem d s n i a lt e (ground (arith, h)))
      (λ h. forward-inside mem d s n i a lt e (ground (arith, h)))

memmove-outside : (mem : Memory) (d s n a : ℕ) → (a < d) ⊎ (d + n ≤ a) → memmove mem d s n a ≡ mem a
unfolding memmove
memmove-outside mem d s n a out =
    if_intro (λ (m : Memory). m a ≡ mem a) (ltb s d && ltb d (s + n))
      (λ h. backward-outside mem d s n a out) (λ h. forward-outside mem d s n a out)

-- After `memmove` the `n` bytes from `d` on are those that were at `s` before, also if the ranges
-- overlap, and every other byte is as it was.
pub memmove-moved : (mem : Memory) (d s n a : ℕ) → memmove mem d s n a ≡ moved mem d s n a
memmove-moved mem d s n a =
    if_intro (λ v. memmove mem d s n a ≡ v) (leb d a && ltb a (d + n))
      (λ h. memmove-inside mem d s n (a - d) a (ground (arith, h)) (ground (arith, h)))
      (λ h. memmove-outside mem d s n a (ground (arith, h)))
