-- ===== src/Fs/Path.antt =====
-- `skipelem` of xv6/fs.c. A path is the list of its bytes up to the NUL.
pub mod Elements
use operation_system.Base.{
  ℕ, zero, suc, ◌+◌, ◌-◌, ◌*◌, ◌/◌, ◌&&◌, Option, none, some, List, [], ◌∷◌, ◌++◌, ◌==◌,
  if◌then◌else◌, take,
}

abbrev pub slash : ℕ
slash = b'/'

abbrev pub dirsiz : ℕ
dirsiz = 14

-- `while(*path == '/') path++;`
unfoldable pub skip_slashes : List ℕ → List ℕ
skip_slashes [] = []
skip_slashes (c ∷ path) = let rest = skip_slashes path in if c == slash then rest else c ∷ path

-- `while(*path != '/' && *path != 0) path++;`: what is passed over, and what is left.
unfoldable pub element : List ℕ → List ℕ × List ℕ
element [] = ([], [])
element (c ∷ path) =
    let rest = element path in if c == slash then ([], c ∷ path) else (c ∷ rest.0, rest.1)

abbrev pub skip_first : List ℕ → Option (List ℕ × List ℕ)
skip_first [] = none
skip_first (c ∷ path) =
    some (take dirsiz (element (c ∷ path)).0, skip_slashes (element (c ∷ path)).1)

-- The name and the rest of the path; `none` is the null pointer.
unfoldable pub skipelem : List ℕ → Option (List ℕ × List ℕ)
skipelem path = skip_first (skip_slashes path)

-- The names that the loop of `namex` gets, in at most `n` rounds.
unfoldable pub names : ℕ → List ℕ → List (List ℕ)
names zero path = []
names (suc n) path = elim (skipelem path) [ none ↦ [] | some (name, rest) ↦ name ∷ names n rest ]
