-- ===== src/Fs/Path/Elements.antt =====
-- The names that `skipelem` finds are the parts of the path between its slashes (xv6/fs.c).
use operation_system.Base.{
  ℕ, zero, suc, ◌≤◌, ◌<◌, ◌≡◌, refl, sym, ap, ap₂, ◌∙◌, inl, inr, Bool, true, false, none, some,
  List, [], ◌∷◌, arith, ◌==◌, if◌then◌else◌, Bool-cases, if_intro, length, take,
}
use operation_system.Fs.Path.{slash, dirsiz, skip_slashes, element, skip_first, skipelem, names}

-- The first part of a path and the others, which slashes separate; parts may be empty.
pub parts : List ℕ → List ℕ × List (List ℕ)
parts [] = ([], [])
parts (c ∷ path) = let r = parts path in if c == slash then ([], r.0 ∷ r.1) else (c ∷ r.0, r.1)

abbrev pub split : List ℕ → List (List ℕ)
split path = (parts path).0 ∷ (parts path).1

abbrev is_empty : List ℕ → Bool
is_empty [] = true
is_empty (c ∷ cs) = false

-- The parts that are not empty, cut to DIRSIZ bytes.
pub elements : List (List ℕ) → List (List ℕ)
elements [] = []
elements (part ∷ rest) =
    let more = elements rest in if is_empty part then more else take dirsiz part ∷ more

-- What is left has no slash in front.
abbrev NoSlash : List ℕ → Type 0
NoSlash [] = Unit
NoSlash (c ∷ path) = (c == slash) ≡ false

skip_slashes-NoSlash : (path : List ℕ) → NoSlash (skip_slashes path)
unfolding skip_slashes
skip_slashes-NoSlash [] = tt
skip_slashes-NoSlash (c ∷ path) =
    if_intro NoSlash (c == slash) (λ s. skip_slashes-NoSlash path) (λ n. n)

module _ (c : ℕ) (path : List ℕ) where
  parts-slash : (c == slash) ≡ true → parts (c ∷ path) ≡ ([], split path)
  unfolding parts
  parts-slash s = rw s refl

  parts_other : (c == slash) ≡ false → parts (c ∷ path) ≡ (c ∷ (parts path).0, (parts path).1)
  unfolding parts
  parts_other n = rw n refl

  element-slash : (c == slash) ≡ true → element (c ∷ path) ≡ ([], c ∷ path)
  unfolding element
  element-slash s = rw s refl

  element_other :
      (c == slash) ≡ false → element (c ∷ path) ≡ (c ∷ (element path).0, (element path).1)
  unfolding element
  element_other n = rw n refl

  skip_slash : (c == slash) ≡ true → skip_slashes (c ∷ path) ≡ skip_slashes path
  unfolding skip_slashes
  skip_slash s = rw s refl

  skip_other : (c == slash) ≡ false → skip_slashes (c ∷ path) ≡ c ∷ path
  unfolding skip_slashes
  skip_other n = rw n refl

  -- A slash in front only adds an empty part.
  slash-elements : (c == slash) ≡ true → elements (split (c ∷ path)) ≡ elements (split path)
  unfolding elements
  slash-elements s = ap (λ (r : List ℕ × List (List ℕ)). elements (r.0 ∷ r.1)) (parts-slash s)

skip_slashes-elements :
    (path : List ℕ) → elements (split (skip_slashes path)) ≡ elements (split path)
unfolding skip_slashes
skip_slashes-elements [] = refl
skip_slashes-elements (c ∷ path) = elim (Bool-cases (c == slash)) [
  | inl s ↦
      ap (λ q. elements (split q)) (skip_slash c path s)
      ∙ skip_slashes-elements path
      ∙ sym (slash-elements c path s)
  | inr n ↦ ap (λ q. elements (split q)) (skip_other c path n)
]

parts-element : (path : List ℕ) → (parts path).0 ≡ (element path).0
unfolding parts element
parts-element [] = refl
parts-element (c ∷ path) = elim (Bool-cases (c == slash)) [
  | inl s ↦ rw s refl
  | inr n ↦ rw n (ap (λ p. c ∷ p) (parts-element path))
]

rest-elements : (path : List ℕ) → elements (parts path).1 ≡ elements (split (element path).1)
unfolding parts element elements
rest-elements [] = refl
rest-elements (c ∷ path) = elim (Bool-cases (c == slash)) [
  | inl s ↦
      ap (λ (r : List ℕ × List (List ℕ)). elements r.1) (parts-slash c path s)
      ∙ sym (slash-elements c path s)
      ∙ ap (λ (r : List ℕ × List ℕ). elements (split r.1)) (sym (element-slash c path s))
  | inr n ↦
      ap (λ (r : List ℕ × List (List ℕ)). elements r.1) (parts_other c path n)
      ∙ rest-elements path
      ∙ ap (λ (r : List ℕ × List ℕ). elements (split r.1)) (sym (element_other c path n))
]

length-skip_slashes : (path : List ℕ) → length (skip_slashes path) ≤ length path
unfolding skip_slashes
length-skip_slashes [] = omega arith
length-skip_slashes (c ∷ path) = ground (arith, length-skip_slashes path)

length-element : (path : List ℕ) → length (element path).1 ≤ length path
unfolding element
length-element [] = omega arith
length-element (c ∷ path) = ground (arith, length-element path)

-- One element in front of a path that has no slash there.
first-element :
    (c : ℕ) (path : List ℕ)
    → (c == slash) ≡ false
    → (elements (split (c ∷ path))
        ≡ take dirsiz (element (c ∷ path)).0 ∷ elements (split (element (c ∷ path)).1))
      × (length (element (c ∷ path)).1 ≤ length path)
unfolding elements
first-element c path n =
    let e : elements (split (c ∷ path))
        ≡ take dirsiz (c ∷ (parts path).0) ∷ elements (parts path).1 =
      ap (λ (r : List ℕ × List (List ℕ)). elements (r.0 ∷ r.1)) (parts_other c path n) in
    let f = element_other c path n in
    (
      e
          ∙ ap₂ (λ p ps. take dirsiz (c ∷ p) ∷ ps) (parts-element path) (rest-elements path)
          ∙ ap (λ (r : List ℕ × List ℕ). take dirsiz r.0 ∷ elements (split r.1)) (sym f),
      omega (arith, ap (λ (r : List ℕ × List ℕ). length r.1) f, length-element path),
    )

skip_first-names :
    (n : ℕ) (path : List ℕ)
    → NoSlash path
    → ((rest : List ℕ) → length rest < length path → names n rest ≡ elements (split rest))
    → (elim (skip_first path) [ none ↦ [] | some (name, rest) ↦ name ∷ names n rest ])
      ≡ elements (split path)
unfolding elements parts
skip_first-names n [] h ih = refl
skip_first-names n (c ∷ path) h ih =
    let (e, shorter) = first-element c path h in
    let tail = (element (c ∷ path)).1 in
    let rest = skip_slashes tail in
    let x : length rest < length (c ∷ path) = omega (arith, length-skip_slashes tail, shorter) in
    ap (λ ps. take dirsiz (element (c ∷ path)).0 ∷ ps) (ih rest x ∙ skip_slashes-elements tail)
    ∙ sym e

-- With more rounds than the path has bytes, the loop of `namex` gets exactly the parts of the path
-- between its slashes that are not empty, in order, each cut to DIRSIZ bytes.
pub names-elements :
    (n : ℕ) (path : List ℕ) → length path < n → names n path ≡ elements (split path)
unfolding names skipelem
names-elements zero path lt = absurd (omega arith)
names-elements (suc n) path lt =
    skip_first-names n (skip_slashes path) (skip_slashes-NoSlash path)
      (λ rest shorter. names-elements n rest (omega (arith, shorter, length-skip_slashes path, lt)))
    ∙ skip_slashes-elements path
