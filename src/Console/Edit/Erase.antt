-- ===== src/Console/Edit/Erase.antt =====
-- Control-U, control-H and delete in `consoleintr` (xv6/console.c).
use operation_system.Base.{
  ℕ, zero, suc, ◌+◌, ◌-◌, ◌^◌, ◌≤◌, ◌<◌, ◌≡◌, refl, sym, ap, ◌∙◌, ◌≢◌, inl, inr, true, false, ◌||◌,
  [], arith, ◌==◌, ℕ_eq, length, take,
}
use operation_system.Console.{Input, at, dec, sub32, newline, kill_line, rub_out}
use operation_system.Console.Ring.{
  window, held, committed, ready, line, IsValid, length-window, at_same, take-window,
}
use operation_system.Console.Edit.{all_but_last, Edits}

module _ (i : Input) (v : IsValid i) where
  pub lengths : length (ready i) + length (line i) ≡ held i
  lengths = omega (
    arith,
    length-window i.buf i.r (committed i),
    length-window i.buf (i.r + committed i) (held i - committed i),
    v.order,
  )

  -- Fewer bytes of the line.
  shrink-IsValid :
      (e : ℕ)
      → e < 2 ^ 32
      → committed i ≤ sub32 e i.r
      → sub32 e i.r ≤ held i
      → IsValid (record i { e = e })
  shrink-IsValid e word lo hi = record {
    size = v.size;
    r_word = v.r_word;
    w_word = v.w_word;
    e_word = word;
    within = omega (arith, v.within, hi);
    order = lo;
    open_line = λ k h l. v.open_line k h (omega (arith, l, hi));
  }

  last_byte : i.e ≢ i.w → at i.buf (dec i.e) ≢ newline
  last_byte ne q =
      let r = v.r_word in
      let e = v.e_word in
      let w = v.w_word in
      let o = v.order in
      let b = v.within in
      v.open_line (held i - 1) (omega arith) (omega arith)
        (at_same i.buf (i.r + (held i - 1)) (dec i.e) (omega arith) ∙ q)

kill_line-empties :
    (n : ℕ) (i : Input) (v : IsValid i)
    → sub32 i.e i.w ≡ n
    → (kill_line n i).input ≡ record i { e = i.w }
unfolding kill_line
kill_line-empties zero i v h = let q : i.e ≡ i.w = omega arith in ap (λ e. record i { e = e }) q
kill_line-empties (suc n) i v h =
    let ne : i.e ≢ i.w = omega arith in
    let b = last_byte i v ne in
    let c : ((i.e == i.w) || (at i.buf (dec i.e) == newline)) ≡ false = ground (arith, ne, b) in
    rw c (
      kill_line-empties n (record i { e = dec i.e })
        (shrink-IsValid i v (dec i.e) (omega arith) (omega arith) (omega arith)) (omega arith))

module _ (i : Input) (v : IsValid i) where
  empty_line : sub32 i.w i.r - committed i ≡ 0
  empty_line = omega arith

  pub kill-Edits : Edits (record { ready = ready i; line = [] }) (kill_line (sub32 i.e i.w) i).input
  kill-Edits = rw (kill_line-empties (sub32 i.e i.w) i v refl) (
    shrink-IsValid i v i.w v.w_word (omega arith) v.order,
    ap (λ n. record { ready = ready i; line = window i.buf (i.r + committed i) n }) empty_line,
  )

  -- The line without its last `k` bytes.
  shorter :
      (e : ℕ)
      → sub32 e i.r ≡ committed i + (held i - committed i - 1)
      → line (record i { e = e }) ≡ all_but_last (line i)
  shorter e h =
      let n = held i - committed i in
      let s = i.r + committed i in
      let q : sub32 e i.r - committed i ≡ n - 1 = omega (arith, h) in
      ap (window i.buf s) q
      ∙ sym (
          ap (λ k. take (k - 1) (line i)) (length-window i.buf s n)
          ∙ take-window i.buf s (n - 1) n (omega arith))

  pub rub_out-Edits :
      Edits (record { ready = ready i; line = all_but_last (line i) }) (rub_out i).input
  rub_out-Edits = elim (ℕ_eq i.e i.w) [
    | inl q ↦
        let c : (i.e == i.w) ≡ true = ground (arith, q) in
        rw c (v, ap (λ l. record { ready = ready i; line = l }) (shorter i.e (omega (arith, q))))
    | inr ne ↦
        let c : (i.e == i.w) ≡ false = ground (arith, ne) in
        rw c (
          shrink-IsValid i v (dec i.e) (omega arith) (omega (arith, ne)) (omega (arith, ne)),
          ap (λ l. record { ready = ready i; line = l }) (shorter (dec i.e) (omega (arith, ne))),
        )
  ]
