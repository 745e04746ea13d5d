-- ===== src/Console/Reads.antt =====
-- `consoleread` of xv6/console.c against the list of the bytes that are ready.
use operation_system.Base.{
  Bool-cases, inr, inl, refl, ℕ_eq, ltb, false, ◌≤◌, ℕ, zero, suc, ◌+◌, ◌-◌, ◌≡◌, ap, ◌∙◌, ◌≢◌,
  Bool, true, List, [], ◌∷◌, arith, ◌==◌, if◌then◌else◌,
}
use operation_system.Console.{
  dec, consoleread, copied, stop, Input, at, inc, ctrl_d, newline, ReadEnd, returned, read_failed,
  sleeps, Read,
}
use operation_system.Console.Ring.{
  window, held, committed, ready, line, IsValid, at_same, window_same,
}

-- A read of at most `n` bytes of the list: the bytes copied, those left, and how it ends.
pub record Taken : Type 0 where
  pub bytes : List ℕ
  pub left : List ℕ
  pub ends : ReadEnd

abbrev copied_too : ℕ → Taken → Taken
copied_too c t = record t { bytes = c ∷ t.bytes }

-- A control-D ends the read, and is left for the next one if this one has copied something.
abbrev pub take_line : Bool → Bool → ℕ → List ℕ → Taken
take_line killed some_copied zero l = record { bytes = []; left = l; ends = returned }
take_line killed some_copied (suc n) [] = record {
  bytes = [];
  left = [];
  ends = if killed then read_failed else sleeps (suc n);
}
take_line killed some_copied (suc n) (c ∷ l) =
    let rest = take_line killed true n l in
    if c == ctrl_d
    then record { bytes = []; left = if some_copied then c ∷ l else l; ends = returned }
    else if c == newline
    then record { bytes = c ∷ []; left = l; ends = returned }
    else copied_too c rest

-- The line that is being typed is not touched.
pub record Reads (t : Taken) (i : Input) (out : Read) : Type 0 where
  pub valid : IsValid out.input
  pub bytes : out.bytes ≡ t.bytes
  pub ends : out.ends ≡ t.ends
  pub left : ready out.input ≡ t.left
  pub typing : line out.input ≡ line i

abbrev pub next : Input → Input
next i = record i { r = inc i.r }

module _ (i : Input) (v : IsValid i) (ne : i.r ≢ i.w) where
  fewer : committed i ≡ suc (committed (next i))
  fewer = omega arith

  fewer_held : held i ≡ suc (held (next i))
  fewer_held = omega (arith, v.order)

  ready-next : ready i ≡ at i.buf i.r ∷ ready (next i)
  ready-next =
      ap (window i.buf i.r) fewer
      ∙ ap (λ l. at i.buf i.r ∷ l)
          (window_same i.buf (i.r + 1) (inc i.r) (committed (next i)) (omega arith))

  line-next : line (next i) ≡ line i
  line-next =
      window_same i.buf (inc i.r + committed (next i)) (i.r + committed i)
        (held (next i) - committed (next i)) (omega (arith, fewer))
      ∙ ap (window i.buf (i.r + committed i)) (omega (arith, fewer, fewer_held))

  next-IsValid : IsValid (next i)
  next-IsValid = record {
    size = v.size;
    r_word = omega arith;
    w_word = v.w_word;
    e_word = v.e_word;
    within = omega (arith, fewer_held, v.within);
    order = omega (arith, fewer, fewer_held, v.order);
    open_line = λ k h l z.
        v.open_line (k + 1) (omega (arith, fewer, h)) (omega (arith, fewer_held, l))
          (at_same i.buf (i.r + (k + 1)) (inc i.r + k) (omega arith) ∙ z);
  }

  -- Control-D: what is left depends on whether something has been copied.
  stop-Reads :
      (b : Bool)
      → Reads
          (record {
            bytes = [];
            left = if b then at i.buf i.r ∷ ready (next i) else ready (next i);
            ends = returned;
          })
          i
          (stop (if b then record (next i) { r = dec (inc i.r) } else next i) returned)
  stop-Reads true =
      let back : dec (inc i.r) ≡ i.r = omega (arith, v.r_word) in
      rw back (record { valid = v; bytes = refl; ends = refl; left = ready-next; typing = refl })
  stop-Reads false = record {
    valid = next-IsValid;
    bytes = refl;
    ends = refl;
    left = refl;
    typing = line-next;
  }

  copied-Reads :
      (c : ℕ) (t : Taken) (out : Read)
      → Reads t (next i) out
      → Reads (copied_too c t) i (copied c out)
  copied-Reads c t out h = record {
    valid = h.valid;
    bytes = ap (λ l. c ∷ l) h.bytes;
    ends = h.ends;
    left = h.left;
    typing = h.typing ∙ line-next;
  }

no_bytes : (i : Input) → IsValid i → i.r ≡ i.w → ready i ≡ []
no_bytes i v e = ap (window i.buf i.r) (let q : committed i ≡ 0 = omega (arith, e, v.r_word) in q)

-- A read of at most `n` bytes takes, of the bytes that are ready, those up to the end of the first line, or
-- `n` of them. A control-D ends it without being copied, and is left for the next read if some bytes have
-- been copied before. With no byte left to take it fails in a killed process, and sleeps in any other.
-- The line that is being typed stays as it is.
pub consoleread-Reads :
    (killed : Bool) (target n : ℕ) (i : Input)
    → IsValid i
    → n ≤ target
    → Reads (take_line killed (ltb n target) n (ready i)) i (consoleread killed target n i)
unfolding consoleread
consoleread-Reads killed target zero i v h = record {
  valid = v;
  bytes = refl;
  ends = refl;
  left = refl;
  typing = refl;
}
consoleread-Reads killed target (suc n) i v h = elim (ℕ_eq i.r i.w) [
  | inl e ↦
      let c : (i.r == i.w) ≡ true = ground (arith, e) in
      rw (c, no_bytes i v e)
        (record { valid = v; bytes = refl; ends = refl; left = no_bytes i v e; typing = refl })
  | inr ne ↦
      let t : (i.r == i.w) ≡ false = ground (arith, ne) in
      let c = at i.buf i.r in
      let more : ltb n target ≡ true = ground (arith, h) in
      let rest = consoleread-Reads killed target n (next i) (next-IsValid i v ne) (omega arith) in
      elim (Bool-cases (c == ctrl_d)) [
        | inl d ↦ rw (t, ready-next i v ne, d) (stop-Reads i v ne (ltb (suc n) target))
        | inr nd ↦ elim (Bool-cases (c == newline)) [
          | inl l ↦
              rw (t, ready-next i v ne, nd, l)
                (copied-Reads i v ne c
                  (record { bytes = []; left = ready (next i); ends = returned })
                  (stop (next i) returned)
                  (record {
                    valid = next-IsValid i v ne;
                    bytes = refl;
                    ends = refl;
                    left = refl;
                    typing = refl;
                  }))
          | inr nl ↦
              rw (t, ready-next i v ne, nd, nl)
                (copied-Reads i v ne c (take_line killed true n (ready (next i)))
                  (consoleread killed target n (next i)) (rw more at rest))
        ]
      ]
]
