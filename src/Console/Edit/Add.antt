-- ===== src/Console/Edit/Add.antt =====
-- The other bytes in `consoleintr` (xv6/console.c): they are added to the line, which may end.
use operation_system.Base.{
  ℕ, suc, ◌+◌, ◌-◌, ◌%◌, ◌^◌, ◌<◌, ◌≡◌, refl, sym, ap, ap₂, ◌∙◌, ◌≢◌, inl, inr, Bool, true, false,
  ◌||◌, [], ◌∷◌, ◌++◌, arith, ◌==◌, if◌then◌else◌, ℕ_eq, length, set, length-append, length-set,
  get_or-set_self, get_or-set_ne,
}
use operation_system.Console.{
  Input, input_buf, at, inc, sub32, ctrl_d, newline, Typed, put_char, commit,
}
use operation_system.Console.Ring.{
  window, held, committed, ready, line, IsValid, at_same, window-snoc, window-join, window-set,
}
use operation_system.Console.Edit.{end_line, Edits}
use operation_system.Console.Edit.Erase.{lengths}

module _ (i : Input) (v : IsValid i) (c : ℕ) (fits : held i < input_buf) where
  put-ready : ready (put_char c i) ≡ ready i
  put-ready =
      window-set i.buf c i.r (committed i) (held i) (i.e % input_buf) v.order fits (omega arith)

  put-line : line (put_char c i) ≡ line i ++ (c ∷ [])
  put-line =
      let n = held i - committed i in
      let s = i.r + committed i in
      let buf = set i.buf (i.e % input_buf) c in
      let q : held (put_char c i) - committed i ≡ suc n = omega arith in
      let new : at buf (s + n) ≡ c =
        at_same buf (s + n) i.e (omega arith)
        ∙ get_or-set_self i.buf (i.e % input_buf) c 0 (omega (arith, v.size)) in
      ap (window buf s) q
      ∙ window-snoc buf s n
      ∙ ap₂ (λ l x. l ++ (x ∷ []))
          (window-set i.buf c s n n (i.e % input_buf) (omega arith) (omega arith) (omega arith)) new

  private_e : sub32 (inc i.e) i.r ≡ held i + 1
  private_e = omega arith

  ended : Input
  ended = record (put_char c i) { w = inc i.e }

  ended-IsValid : IsValid (record (put_char c i) { w = inc i.e })
  ended-IsValid = record {
    size = length-set i.buf (i.e % input_buf) c ∙ v.size;
    r_word = v.r_word;
    w_word = omega arith;
    e_word = omega arith;
    within = omega (arith, private_e, fits);
    order = omega arith;
    open_line = λ k h l. absurd (omega (arith, h, l));
  }

  going-IsValid : c ≢ newline → IsValid (put_char c i)
  going-IsValid ne = record {
    size = length-set i.buf (i.e % input_buf) c ∙ v.size;
    r_word = v.r_word;
    w_word = v.w_word;
    e_word = omega arith;
    within = omega (arith, private_e, fits);
    order = omega (arith, private_e, v.order);
    open_line = λ k h l. elim (ℕ_eq k (held i)) [
      | inl q ↦
          let new : at (set i.buf (i.e % input_buf) c) (i.r + k) ≡ c =
            at_same (set i.buf (i.e % input_buf) c) (i.r + k) i.e (omega (arith, q))
            ∙ get_or-set_self i.buf (i.e % input_buf) c 0 (omega (arith, v.size)) in
          λ z. ne (sym new ∙ z)
      | inr other ↦
          let old : at (set i.buf (i.e % input_buf) c) (i.r + k) ≡ at i.buf (i.r + k) =
            get_or-set_ne i.buf (i.e % input_buf) ((i.r + k) % input_buf) c 0
              (omega (arith, other, l, private_e, fits)) in
          λ z. v.open_line k h (omega (arith, other, l, private_e)) (sym old ∙ z)
    ];
  }

  ended-ready : ready (record (put_char c i) { w = inc i.e }) ≡ ready i ++ (line i ++ (c ∷ []))
  ended-ready =
      let j = put_char c i in
      let q : sub32 j.e j.r ≡ committed i + (held j - committed i) =
        omega (arith, private_e, v.order) in
      ap (window j.buf j.r) q
      ∙ sym (window-join j.buf j.r (committed i) (held j - committed i))
      ∙ ap₂ ◌++◌ put-ready put-line

  full_alike :
      (inc i.e == (i.r + input_buf) % 2 ^ 32)
      ≡ (length (ready i) + length (line i ++ (c ∷ [])) == 128)
  full_alike =
      let l = lengths i v in
      let m = length-append (line i) (c ∷ []) in ground (arith, l, m, private_e)

  commit_if :
      (b : Bool)
      → (b ≡ false → c ≢ newline)
      → Edits
          (if b
            then record { ready = ready i ++ (line i ++ (c ∷ [])); line = [] }
            else record { ready = ready i; line = line i ++ (c ∷ []) })
          (if b then record (put_char c i) { w = inc i.e } else put_char c i)
  commit_if true h = (
    ended-IsValid,
    ap₂
        (λ r n. record {
          ready = r;
          line = window (put_char c i).buf (i.r + held (put_char c i)) n;
        })
        ended-ready (let q : held (put_char c i) - held (put_char c i) ≡ 0 = omega arith in q),
  )
  commit_if false h =
      (going-IsValid (h refl), ap₂ (λ r l. record { ready = r; line = l }) put-ready put-line)

  commit_input :
      (b : Bool) (t u : Typed) → (if b then t else u).input ≡ (if b then t.input else u.input)
  commit_input true t u = refl
  commit_input false t u = refl

  pub commit-Edits :
      Edits (end_line c (ready i) (line i ++ (c ∷ []))) (commit c (put_char c i)).input
  commit-Edits =
      let b =
        (c == newline)
        || (c == ctrl_d)
        || (length (ready i) + length (line i ++ (c ∷ [])) == 128) in
      rw (full_alike, commit_input b) (commit_if b (λ q. ground (arith, q)))
