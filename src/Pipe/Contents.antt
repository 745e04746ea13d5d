-- ===== src/Pipe/Contents.antt =====
-- The bytes that a pipe holds, oldest first, and its representation invariant (xv6/pipe.c).
use operation_system.Base.{
  ℕ, zero, suc, ◌+◌, ◌-◌, ◌%◌, ◌^◌, ◌≤◌, ◌<◌, ◌≡◌, refl, ap, ap₂, ◌∙◌, List, [], ◌∷◌, ◌++◌, true,
  false, arith, length, get_or, set, length-set, get_or-set_self, get_or-set_ne,
}
use operation_system.Pipe.{Pipe, pipesize, inc, is_full, is_empty, put_byte, next_byte}

-- The number of bytes held, as 32-bit subtraction gives it.
abbrev pub count : Pipe → ℕ
count p = (p.nwrite + 2 ^ 32 - p.nread) % 2 ^ 32

abbrev pub room : Pipe → ℕ
room p = pipesize - count p

pub record IsValid (p : Pipe) : Type 0 where
  pub size : length p.buf ≡ pipesize
  pub nread_word : p.nread < 2 ^ 32
  pub nwrite_word : p.nwrite < 2 ^ 32
  pub within : count p ≤ pipesize

-- The `n` bytes from counter `r` on.
abbrev pub window : List ℕ → ℕ → ℕ → List ℕ
window buf r zero = []
window buf r (suc n) = get_or buf (r % pipesize) 0 ∷ window buf (inc r) n

abbrev pub contents : Pipe → List ℕ
contents p = window p.buf p.nread (count p)

pub length-contents : (p : Pipe) → length (contents p) ≡ count p
length-contents p = go p.buf p.nread (count p)
  where
    go : (buf : List ℕ) (r n : ℕ) → length (window buf r n) ≡ n
    go buf r zero = refl
    go buf r (suc n) = ap suc (go buf (inc r) n)

pub is_full-true : (p : Pipe) → IsValid p → is_full p ≡ true → count p ≡ pipesize
is_full-true p v e = ground arith

pub is_full-false : (p : Pipe) → IsValid p → is_full p ≡ false → count p < pipesize
is_full-false p v e = ground arith

pub is_empty-true : (p : Pipe) → IsValid p → is_empty p ≡ true → count p ≡ 0
is_empty-true p v e = ground arith

pub is_empty-false : (p : Pipe) → IsValid p → is_empty p ≡ false → 0 < count p
is_empty-false p v e = ground arith

-- Writing just past a window of less than `pipesize` bytes extends it, also where the counter wraps.
window-set :
    (buf : List ℕ) (x n r w : ℕ)
    → length buf ≡ pipesize
    → n < pipesize
    → r < 2 ^ 32
    → w ≡ (r + n) % 2 ^ 32
    → window (set buf (w % pipesize) x) r (suc n) ≡ window buf r n ++ (x ∷ [])
window-set buf x zero r w hb hn hr e =
    ap (λ y. y ∷ [])
      (ap (λ k. get_or (set buf (w % pipesize) x) k 0) same
        ∙ get_or-set_self buf (w % pipesize) x 0 (omega arith))
  where
    same : r % pipesize ≡ w % pipesize
    same = omega arith
window-set buf x (suc n) r w hb hn hr e =
    ap₂ ◌∷◌ (get_or-set_ne buf (w % pipesize) (r % pipesize) x 0 (omega arith))
      (window-set buf x n (inc r) w hb (omega arith) (omega arith) (omega arith))

pub put_byte-IsValid : (p : Pipe) (x : ℕ) → IsValid p → count p < pipesize → IsValid (put_byte p x)
put_byte-IsValid p x v h = ground (arith, length-set p.buf (p.nwrite % pipesize) x)

pub count-put_byte :
    (p : Pipe) (x : ℕ) → IsValid p → count p < pipesize → count (put_byte p x) ≡ count p + 1
count-put_byte p x v h = omega arith

pub contents-put_byte :
    (p : Pipe) (x : ℕ)
    → IsValid p
    → count p < pipesize
    → contents (put_byte p x) ≡ contents p ++ (x ∷ [])
contents-put_byte p x v h =
    ap (λ n. window (set p.buf (p.nwrite % pipesize) x) p.nread n) more
    ∙ window-set p.buf x (count p) p.nread p.nwrite v.size h v.nread_word (omega arith)
  where
    more : count (put_byte p x) ≡ suc (count p)
    more = omega arith

abbrev pub drop_byte : Pipe → Pipe
drop_byte p = record p { nread = inc p.nread }

pub drop_byte-IsValid : (p : Pipe) → IsValid p → 0 < count p → IsValid (drop_byte p)
drop_byte-IsValid p v h = omega arith

pub contents-drop_byte :
    (p : Pipe) → IsValid p → 0 < count p → contents p ≡ next_byte p ∷ contents (drop_byte p)
contents-drop_byte p v h = ap (λ n. window p.buf p.nread n) more
  where
    more : count p ≡ suc (count (drop_byte p))
    more = omega arith
