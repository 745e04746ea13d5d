-- ===== src/Console.antt =====
-- xv6/console.c: the line that is being typed, and the lines that are ready to be read, in one ring of
-- 128 bytes. `cons.lock` makes an interrupt atomic, and a read up to its next sleep.
pub mod Ring
pub mod Edit
pub mod Reads
pub mod Print
mod Tests
use operation_system.Base.{
  ℕ, zero, suc, ◌+◌, ◌-◌, ◌/◌, ◌%◌, ◌^◌, Bool, true, false, not, ◌&&◌, ◌||◌, List, [], ◌∷◌, ◌++◌,
  ltb, ◌==◌, if◌then◌else◌, get_or, set,
}

-- `input`; its counters are 32-bit.
pub record Input : Type 0 where
  pub buf : List ℕ
  pub r : ℕ
  pub w : ℕ
  pub e : ℕ

abbrev pub input_buf : ℕ
input_buf = 128

-- The entry of a counter.
abbrev pub at : List ℕ → ℕ → ℕ
at buf i = get_or buf (i % input_buf) 0

abbrev pub inc : ℕ → ℕ
inc n = (n + 1) % 2 ^ 32

abbrev pub dec : ℕ → ℕ
dec n = (n + 2 ^ 32 - 1) % 2 ^ 32

-- 32-bit subtraction.
abbrev pub sub32 : ℕ → ℕ → ℕ
sub32 a b = (a + 2 ^ 32 - b) % 2 ^ 32

-- BACKSPACE, and the control characters U, H, P and D.
abbrev pub backspace : ℕ
backspace = 0x100

abbrev pub ctrl_u : ℕ
ctrl_u = b'U' - b'@'

abbrev pub ctrl_h : ℕ
ctrl_h = b'H' - b'@'

abbrev pub ctrl_p : ℕ
ctrl_p = b'P' - b'@'

abbrev pub ctrl_d : ℕ
ctrl_d = b'D' - b'@'

abbrev pub newline : ℕ
newline = 10

-- What a character does: `put` is what goes to `consputc`.
pub record Typed : Type 0 where
  pub input : Input
  pub put : List ℕ
  pub woken : Bool
  pub dump : Bool

abbrev pub unchanged : Input → Typed
unchanged i = record { input = i; put = []; woken = false; dump = false }

abbrev pub erase : Typed → Typed
erase t = record t { put = backspace ∷ t.put }

-- The loop of `case C('U')`, in at most `n` rounds.
pub kill_line : ℕ → Input → Typed
kill_line zero i = unchanged i
kill_line (suc n) i =
    let rest = kill_line n (record i { e = dec i.e }) in
    if (i.e == i.w) || (at i.buf (dec i.e) == newline) then unchanged i else erase rest

abbrev pub rub_out : Input → Typed
rub_out i = if i.e == i.w then unchanged i else erase (unchanged (record i { e = dec i.e }))

abbrev pub no_return : ℕ → ℕ
no_return c = if c == 13 then newline else c

abbrev pub put_char : ℕ → Input → Input
put_char c i = record i { buf = set i.buf (i.e % input_buf) c; e = inc i.e }

-- The line is ready, where it ends.
abbrev pub commit : ℕ → Input → Typed
commit c i =
    if (c == newline) || (c == ctrl_d) || (i.e == (i.r + input_buf) % 2 ^ 32)
    then record { input = record i { w = i.e }; put = c ∷ []; woken = true; dump = false }
    else record { input = i; put = c ∷ []; woken = false; dump = false }

abbrev pub add_char : ℕ → Input → Typed
add_char c i =
    if not (c == 0) && ltb (sub32 i.e i.r) input_buf
    then commit (no_return c) (put_char (no_return c) i)
    else unchanged i

-- One round of `consoleintr`, for a byte from `getc`.
pub intr_char : ℕ → Input → Typed
intr_char c i =
    if c == ctrl_p
    then record (unchanged i) { dump = true }
    else if c == ctrl_u
    then kill_line (sub32 i.e i.w) i
    else if (c == ctrl_h) || (c == 0x7f)
    then rub_out i
    else add_char c i

abbrev pub then_typed : Typed → Typed → Typed
then_typed t u = record {
  input = u.input;
  put = t.put ++ u.put;
  woken = t.woken || u.woken;
  dump = t.dump || u.dump;
}

-- The bytes that `getc` gives until it has no more.
pub consoleintr : List ℕ → Input → Typed
consoleintr [] i = unchanged i
consoleintr (c ∷ cs) i = let t = intr_char c i in then_typed t (consoleintr cs t.input)

-- A read copies what is in `bytes`. It returns, fails in a killed process, or sleeps with `n` bytes left.
pub data ReadEnd : Type 0 where
  returned read_failed : ReadEnd
  sleeps : ℕ → ReadEnd

pub record Read : Type 0 where
  pub input : Input
  pub bytes : List ℕ
  pub ends : ReadEnd

abbrev pub copied : ℕ → Read → Read
copied c t = record t { bytes = c ∷ t.bytes }

abbrev pub stop : Input → ReadEnd → Read
stop i r = record { input = i; bytes = []; ends = r }

-- `consoleread` with `n` bytes left of `target`, from taking the lock to returning or to sleeping.
pub consoleread : Bool → ℕ → ℕ → Input → Read
consoleread killed target zero i = stop i returned
consoleread killed target (suc n) i =
    let c = at i.buf i.r in
    let i1 = record i { r = inc i.r } in
    let rest = consoleread killed target n i1 in
    if i.r == i.w
    then stop i (if killed then read_failed else sleeps (suc n))
    else if c == ctrl_d
    then stop (if ltb (suc n) target then record i1 { r = dec i1.r } else i1) returned
    else if c == newline
    then copied c (stop i1 returned)
    else copied c rest
