-- ===== src/Sysfile/Descriptors.antt =====
-- Descriptors and the reference counts of their files (xv6/sysfile.c, xv6/file.c).
use operation_system.Base.{
  get_or-set_ne, ◌∙◌, sym, get_or-set_self, ℕ, zero, suc, ◌+◌, ◌-◌, ◌<◌, ◌≡◌, refl, ap, ◌≢◌, inl,
  inr, Option, none, some, List, [], ◌∷◌, arith, ◌==◌, if◌then◌else◌, ℕ_eq, length, get_or, set,
}
use operation_system.File.{File, no_file}
use operation_system.Sysfile.{find_fd}

-- Whether a descriptor is one of the file `f`, as a number.
abbrev pub is_file : ℕ → Option ℕ → ℕ
is_file f none = 0
is_file f (some g) = if g == f then 1 else 0

-- The number of descriptors of the file `f`.
abbrev pub refs : ℕ → List (Option ℕ) → ℕ
refs f [] = 0
refs f (x ∷ xs) = refs f xs + is_file f x

abbrev pub ref_of : List File → ℕ → ℕ
ref_of files f = (get_or files f no_file).ref

-- Each file counts its descriptors in this process, and the `o f` references from elsewhere.
abbrev pub Counts : (ℕ → ℕ) → List File → List (Option ℕ) → Type 0
Counts o files fds = (f : ℕ) → ref_of files f ≡ o f + refs f fds

pub refs-set :
    (f : ℕ) (fds : List (Option ℕ)) (n : ℕ) (v : Option ℕ)
    → n < length fds
    → refs f (set fds n v) + is_file f (get_or fds n none) ≡ refs f fds + is_file f v
refs-set f [] n v h = absurd (omega arith)
refs-set f (x ∷ xs) zero v h = omega arith
refs-set f (x ∷ xs) (suc n) v h = omega (arith, refs-set f xs n v (omega arith))

pub get_or-some-lt :
    {f : ℕ} (fds : List (Option ℕ)) (n : ℕ) → get_or fds n none ≡ some f → n < length fds
get_or-some-lt [] n e = absurd (let y = e in cc)
get_or-some-lt (x ∷ xs) zero e = omega arith
get_or-some-lt (x ∷ xs) (suc n) e = omega (arith, get_or-some-lt xs n e)

pub ref_of-lt : (files : List File) (f : ℕ) → ref_of files f ≢ 0 → f < length files
ref_of-lt [] f h = absurd (h refl)
ref_of-lt (x ∷ xs) zero h = omega arith
ref_of-lt (x ∷ xs) (suc f) h = omega (arith, ref_of-lt xs f h)

pub ref_of-set :
    (files : List File) (f g : ℕ) (x : File)
    → f < length files
    → ref_of (set files f x) g ≡ (if f == g then x.ref else ref_of files g)
ref_of-set files f g x h = elim (ℕ_eq f g) [
  | inl e ↦
      let q : ref_of (set files f x) f ≡ x.ref =
        ap (λ (y : File). y.ref) (get_or-set_self files f x no_file h) in
      ground (arith, e, ap (ref_of (set files f x)) (sym e) ∙ q)
  | inr ne ↦
      let q : ref_of (set files f x) g ≡ ref_of files g =
        ap (λ (y : File). y.ref) (get_or-set_ne files f g x no_file ne) in
      ground (arith, ne, q)
]

-- What the loop of `fdalloc` ends with from `i` on: all are in use, or the first that is not.
abbrev pub FreeFd : List (Option ℕ) → ℕ → Option ℕ → Type 0
FreeFd fds i none = (k : ℕ) → k < length fds → get_or fds k none ≢ none
FreeFd fds i (some n) =
    (k : ℕ) × (n ≡ i + k)
    × (k < length fds)
    × (get_or fds k none ≡ none)
    × ((j : ℕ) → j < k → get_or fds j none ≢ none)

all_used : (g : ℕ) (fs : List (Option ℕ)) → FreeFd fs 0 none → FreeFd (some g ∷ fs) 0 none
all_used g fs h zero lt e = let y = e in cc
all_used g fs h (suc k) lt e = h k (omega arith) e

later_fd :
    (g : ℕ) (fs : List (Option ℕ)) (k : ℕ)
    → ((j : ℕ) → j < k → get_or fs j none ≢ none)
    → (j : ℕ) → j < suc k
    → get_or (some g ∷ fs) j none ≢ none
later_fd g fs k h zero lt e = let y = e in cc
later_fd g fs k h (suc j) lt e = h j (omega arith) e

more_fds :
    (g : ℕ) (fs : List (Option ℕ)) (i : ℕ) (r : Option ℕ)
    → FreeFd fs (i + 1) r
    → FreeFd (some g ∷ fs) i r
more_fds g fs i none h = all_used g fs h
more_fds g fs i (some n) (k, e, lt, z, h) = (suc k, omega arith, omega arith, z, later_fd g fs k h)

pub find_fd-FreeFd : (fds : List (Option ℕ)) (i : ℕ) → FreeFd fds i (find_fd fds i)
unfolding find_fd
find_fd-FreeFd [] i = λ k lt e. omega arith
find_fd-FreeFd (none ∷ fs) i = (0, omega arith, omega arith, refl, λ j lt. absurd (omega arith))
find_fd-FreeFd (some g ∷ fs) i = more_fds g fs i (find_fd fs (i + 1)) (find_fd-FreeFd fs (i + 1))

module _ (o : ℕ → ℕ) (files : List File) (fds : List (Option ℕ)) (cs : Counts o files fds) where
  -- A free descriptor of a file that has one reference more.
  pub Counts-open :
      (f n : ℕ) (x : File)
      → f < length files
      → n < length fds
      → get_or fds n none ≡ none
      → x.ref ≡ ref_of files f + 1
      → Counts o (set files f x) (set fds n (some f))
  Counts-open f n x lf ln free e g =
      let s = refs-set g fds n (some f) ln in
      let z : is_file g (get_or fds n none) ≡ 0 = ap (is_file g) free in
      let r = ref_of-set files f g x lf in
      let c = cs g in
      elim (ℕ_eq f g) [
        | inl same ↦ let c' = cs f in ground (arith, s, z, r, c, c', same, e)
        | inr ne ↦ ground (arith, s, z, r, c, ne, e)
      ]

  pub held_file : (f n : ℕ) → get_or fds n none ≡ some f → ref_of files f ≢ 0
  held_file f n at q =
      let s = refs-set f fds n none (get_or-some-lt fds n at) in
      let z : is_file f (get_or fds n none) ≡ is_file f (some f) = ap (is_file f) at in
      let c = cs f in ground (arith, s, z, c, q)

  -- A descriptor that is closed, of a file that has one reference less.
  pub Counts-close :
      (f n : ℕ) (x : File)
      → get_or fds n none ≡ some f
      → x.ref ≡ ref_of files f - 1
      → Counts o (set files f x) (set fds n none)
  Counts-close f n x at e g =
      let ln = get_or-some-lt fds n at in
      let s = refs-set g fds n none ln in
      let z : is_file g (get_or fds n none) ≡ is_file g (some f) = ap (is_file g) at in
      let lf = ref_of-lt files f (held_file f n at) in
      let r = ref_of-set files f g x lf in
      let c = cs g in
      elim (ℕ_eq f g) [
        | inl same ↦ let c' = cs f in ground (arith, s, z, r, c, c', same, e)
        | inr ne ↦ ground (arith, s, z, r, c, ne, e)
      ]
