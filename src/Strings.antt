-- ===== src/Strings.antt =====
-- xv6/string.c: the kernel's memory and string functions. Memory is a byte at each address, and the
-- ranges that a call names do not wrap round the address space. Strings are the list of the bytes
-- from a pointer on.
pub mod Tests
pub mod Copy
pub mod Move
use operation_system.Base.{
  ℕ, zero, suc, ◌+◌, ◌-◌, ◌*◌, ◌/◌, ◌%◌, ◌^◌, not, ◌&&◌, Option, none, some, List, [], ◌∷◌, ◌++◌,
  ltb, leb, ◌==◌, if◌then◌else◌, get_or, drop, replicate,
}

abbrev pub Memory : Type 0
Memory = ℕ → ℕ

abbrev pub store : Memory → ℕ → ℕ → Memory
store mem a v b = if a == b then v else mem b

-- `*d++ = *s++`, `n` times.
unfoldable pub forward : Memory → ℕ → ℕ → ℕ → Memory
forward mem d s zero = mem
forward mem d s (suc n) = forward (store mem d (mem s)) (d + 1) (s + 1) n

-- `*--d = *--s`, `n` times, with `d` and `s` at the ends.
pub backward : Memory → ℕ → ℕ → ℕ → Memory
backward mem d s zero = mem
backward mem d s (suc n) = backward (store mem (d - 1) (mem (s - 1))) (d - 1) (s - 1) n

pub memmove : Memory → ℕ → ℕ → ℕ → Memory
unfolding forward backward
memmove mem d s n =
    if ltb s d && ltb d (s + n) then backward mem (d + n) (s + n) n else forward mem d s n

-- The result is negative, 0 or positive: the two bytes that differ, or `none` where all are equal.
pub memcmp : List ℕ → List ℕ → ℕ → Option (ℕ × ℕ)
memcmp s t zero = none
memcmp s t (suc n) =
    let x = get_or s 0 0 in
    let y = get_or t 0 0 in
    let rest = memcmp (drop 1 s) (drop 1 t) n in if x == y then rest else some (x, y)

-- 0, or the difference of the first two bytes that differ, as a 32-bit number. A string that ends
-- reads as 0.
pub strncmp : List ℕ → List ℕ → ℕ → ℕ
strncmp p q zero = 0
strncmp p q (suc n) =
    let x = get_or p 0 0 in
    let y = get_or q 0 0 in
    let rest = strncmp (drop 1 p) (drop 1 q) n in
    if not (x == 0) && (x == y) then rest else (x + 2 ^ 32 - y) % 2 ^ 32

-- `memset`
pub memset : Memory → ℕ → ℕ → ℕ → Memory
memset mem dst c n a = if leb dst a && ltb a (dst + n) then c % 2 ^ 8 else mem a

-- `strncpy` into a buffer of `n` bytes: the bytes written. The list `t` holds the bytes of the
-- source up to its NUL, which reads as 0 behind them.
pub zeros_left : ℕ → List ℕ
zeros_left n = replicate n 0

pub strncpy : List ℕ → ℕ → List ℕ
unfolding zeros_left
strncpy t zero = []
strncpy [] (suc n) = 0 ∷ zeros_left n
strncpy (c ∷ t) (suc n) = let rest = strncpy t n in if c == 0 then 0 ∷ zeros_left n else c ∷ rest

-- `safestrcpy` with `n` of at least 1: at most `n - 1` bytes, then the NUL.
pub safestrcpy : List ℕ → ℕ → List ℕ
safestrcpy t zero = []
safestrcpy t (suc zero) = 0 ∷ []
safestrcpy [] (suc (suc n)) = 0 ∷ []
safestrcpy (c ∷ t) (suc (suc n)) =
    let rest = safestrcpy t (suc n) in if c == 0 then 0 ∷ [] else c ∷ rest

pub strlen : List ℕ → ℕ
strlen [] = 0
strlen (c ∷ s) = let rest = strlen s in if c == 0 then 0 else rest + 1
