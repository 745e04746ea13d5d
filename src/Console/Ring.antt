-- ===== src/Console/Ring.antt =====
-- What the ring of xv6/console.c holds, and its representation invariant.
use operation_system.Base.{
  take, ℕ, zero, suc, ◌+◌, ◌-◌, ◌%◌, ◌^◌, ◌≤◌, ◌<◌, ◌≡◌, refl, ap, ap₂, ◌∙◌, ◌≢◌, List, [], ◌∷◌,
  ◌++◌, arith, length, get_or, set, get_or-set_ne,
}
use operation_system.Console.{Input, input_buf, at, sub32, newline}

-- The `n` bytes from counter `s` on.
abbrev pub window : List ℕ → ℕ → ℕ → List ℕ
window buf s zero = []
window buf s (suc n) = at buf s ∷ window buf (s + 1) n

-- The numbers of bytes in the ring, and of those that are ready.
abbrev pub held : Input → ℕ
held i = sub32 i.e i.r

abbrev pub committed : Input → ℕ
committed i = sub32 i.w i.r

abbrev pub ready : Input → List ℕ
ready i = window i.buf i.r (committed i)

abbrev pub line : Input → List ℕ
line i = window i.buf (i.r + committed i) (held i - committed i)

pub record IsValid (i : Input) : Type 0 where
  pub size : length i.buf ≡ input_buf
  pub r_word : i.r < 2 ^ 32
  pub w_word : i.w < 2 ^ 32
  pub e_word : i.e < 2 ^ 32
  pub within : held i ≤ input_buf
  pub order : committed i ≤ held i
  -- the line that is being typed has not ended
  pub open_line : (k : ℕ) → committed i ≤ k → k < held i → at i.buf (i.r + k) ≢ newline

pub length-window : (buf : List ℕ) (s n : ℕ) → length (window buf s n) ≡ n
length-window buf s zero = refl
length-window buf s (suc n) = ap suc (length-window buf (s + 1) n)

pub at_same : (buf : List ℕ) (i j : ℕ) → i % input_buf ≡ j % input_buf → at buf i ≡ at buf j
at_same buf i j e = ap (λ k. get_or buf k 0) e

pub window_same :
    (buf : List ℕ) (s t n : ℕ) → s % input_buf ≡ t % input_buf → window buf s n ≡ window buf t n
window_same buf s t zero e = refl
window_same buf s t (suc n) e =
    ap₂ ◌∷◌ (at_same buf s t e) (window_same buf (s + 1) (t + 1) n (omega arith))

pub window-snoc :
    (buf : List ℕ) (s n : ℕ) → window buf s (suc n) ≡ window buf s n ++ (at buf (s + n) ∷ [])
window-snoc buf s zero = ap (λ x. at buf x ∷ []) (omega arith)
window-snoc buf s (suc n) =
    ap (λ r. at buf s ∷ r)
      (window-snoc buf (s + 1) n ∙ ap (λ x. window buf (s + 1) n ++ (at buf x ∷ [])) (omega arith))

pub window-join :
    (buf : List ℕ) (s m n : ℕ) → window buf s m ++ window buf (s + m) n ≡ window buf s (m + n)
window-join buf s zero n = ap₂ (window buf) (omega arith) (omega arith)
window-join buf s (suc m) n =
    ap (λ r. at buf s ∷ r)
      (ap (λ x. window buf (s + 1) m ++ window buf x n) (omega arith) ∙ window-join buf (s + 1) m n)
    ∙ ap (λ k. window buf s k) (let q : suc (m + n) ≡ suc m + n = omega arith in q)

pub take-window : (buf : List ℕ) (s m n : ℕ) → m ≤ n → take m (window buf s n) ≡ window buf s m
take-window buf s zero n h = refl
take-window buf s (suc m) zero h = absurd (omega arith)
take-window buf s (suc m) (suc n) h =
    ap (λ r. at buf s ∷ r) (take-window buf (s + 1) m n (omega arith))

-- A byte that is written `m` bytes after the start of a window of at most `m` bytes is not in it.
pub window-set :
    (buf : List ℕ) (x s n m p : ℕ)
    → n ≤ m
    → m < input_buf
    → p ≡ (s + m) % input_buf
    → window (set buf p x) s n ≡ window buf s n
window-set buf x s zero m p h hm e = refl
window-set buf x s (suc n) m p h hm e =
    ap₂ ◌∷◌ (get_or-set_ne buf p (s % input_buf) x 0 (omega arith))
      (window-set buf x (s + 1) n (m - 1) p (omega arith) (omega arith) (omega arith))
