-- ===== src/Ulib.antt =====
-- xv6/ulib.c: the library of user programs. A string is the list of the bytes from a pointer on, and reads
-- as 0 behind its end.
pub mod Gets
mod Tests
use operation_system.Strings.{forward, Memory}
use operation_system.Base.{
  ℕ, zero, suc, ◌+◌, ◌-◌, ◌*◌, ◌/◌, ◌%◌, ◌^◌, Bool, not, ◌&&◌, ◌||◌, Option, none, some, List, [],
  ◌∷◌, ◌++◌, leb, ◌==◌, if◌then◌else◌, get_or, drop,
}

-- The bytes that `strcpy` writes.
pub strcpy : List ℕ → List ℕ
strcpy [] = 0 ∷ []
strcpy (c ∷ t) = if c == 0 then 0 ∷ [] else c ∷ strcpy t

-- As a 32-bit number.
pub strcmp : List ℕ → List ℕ → ℕ
strcmp [] q = (2 ^ 32 - get_or q 0 0) % 2 ^ 32
strcmp (x ∷ p) q =
    let y = get_or q 0 0 in
    let rest = strcmp p (drop 1 q) in
    if not (x == 0) && (x == y) then rest else (x + 2 ^ 32 - y) % 2 ^ 32

pub strlen : List ℕ → ℕ
strlen [] = 0
strlen (c ∷ s) = let n = strlen s in if c == 0 then 0 else suc n

abbrev pub further : Option ℕ → Option ℕ
further none = none
further (some n) = some (suc n)

-- How far from the pointer; `none` is the null pointer.
pub strchr : List ℕ → ℕ → Option ℕ
strchr [] c = none
strchr (x ∷ s) c =
    let rest = strchr s c in if x == 0 then none else if x == c then some 0 else further rest

abbrev pub is_digit : ℕ → Bool
is_digit c = leb b'0' c && leb c b'9'

-- The loop of `atoi` with `n` so far, an int as a 32-bit number.
pub atoi_from : ℕ → List ℕ → ℕ
atoi_from n [] = n
atoi_from n (c ∷ s) =
    let rest = atoi_from ((n * 10 + c - b'0') % 2 ^ 32) s in if is_digit c then rest else n

pub atoi : List ℕ → ℕ
atoi s = atoi_from 0 s

-- It copies upwards in any case.
pub memmove : Memory → ℕ → ℕ → ℕ → Memory
memmove mem dst src n = forward mem dst src n

abbrev pub ends_line : ℕ → Bool
ends_line c = (c == b'\n') || (c == b'\r')

-- The loop of `gets` with room for `n` bytes and the NUL, where `read` has the bytes of `input` to give:
-- the bytes it puts, and those it leaves.
unfoldable pub get_loop : ℕ → List ℕ → List ℕ × List ℕ
get_loop zero input = ([], input)
get_loop (suc n) [] = ([], [])
get_loop (suc n) (c ∷ input) =
    let more = get_loop n input in if ends_line c then (c ∷ [], input) else (c ∷ more.0, more.1)

-- The bytes written to `buf`, and the input that is left.
unfoldable pub gets : ℕ → List ℕ → List ℕ × List ℕ
gets max input = let (line, left) = get_loop (max - 1) input in (line ++ (0 ∷ []), left)
