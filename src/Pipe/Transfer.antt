-- ===== src/Pipe/Transfer.antt =====
-- `pipewrite` and `piperead` against a bounded queue of bytes (xv6/pipe.c).
use mathlib.Core.Bool.{true}
use operation_system.Base.{
  false, ◌≢◌, ◌⊎◌, ◌∙◌, ◌<◌, ℕ, zero, suc, ◌+◌, ◌-◌, ◌≡◌, refl, inl, inr, Bool, not, ◌&&◌, ◌||◌,
  List, [], ◌∷◌, ◌++◌, append-nil, append_assoc, arith, leb, if◌then◌else◌, Bool-cases, length,
  take, take-nil, take_none, take-cons,
}
use operation_system.Pipe.{
  bytes_read, readers, pipesize, Pipe, Chan, is_full, is_empty, put_byte, Written, wrote,
  write_failed, write_sleeps, write_from, Read, got, read_failed, read_sleeps, copy_out, read,
}
use operation_system.Pipe.Contents.{
  count, room, IsValid, contents, is_full-true, is_full-false, is_empty-true, is_empty-false,
  put_byte-IsValid, count-put_byte, contents-put_byte, drop_byte, drop_byte-IsValid,
  contents-drop_byte,
}

-- How a stretch of `pipewrite` must end with `n` bytes left and room for `m`, `i` being copied.
abbrev pub write_ends : Bool → Pipe → ℕ → ℕ → ℕ → Written
write_ends killed p n m i =
    if leb n m
    then wrote (i + n)
    else if not p.readopen || killed
    then write_failed
    else write_sleeps (i + m)

pub record Wrote (killed : Bool) (p : Pipe) (bs : List ℕ) (i : ℕ) (out : Written × Pipe × List Chan)
    : Type 0 where
  pub valid : IsValid out.1
  pub ends : out.0 ≡ write_ends killed p (length bs) (room p) i
  pub bytes : contents out.1 ≡ contents p ++ take (room p) bs
  pub reader : out.1.nread ≡ p.nread
  pub read_end : out.1.readopen ≡ p.readopen
  pub write_end : out.1.writeopen ≡ p.writeopen

Wrote-put_byte :
    (killed : Bool) (p : Pipe) (b : ℕ) (bs : List ℕ) (i : ℕ) {out : Written × Pipe × List Chan}
    → IsValid p
    → count p < pipesize
    → Wrote killed (put_byte p b) bs (i + 1) out
    → Wrote killed p (b ∷ bs) i out
Wrote-put_byte killed p b bs i v fits rest = record {
  valid = rest.valid;
  ends = ground (arith, rest.ends, count-put_byte p b v fits);
  bytes =
      let less : room (put_byte p b) ≡ room p - 1 = omega (arith, count-put_byte p b v fits) in
      rest.bytes
      ∙ rw (less, contents-put_byte p b v fits, take-cons (room p) b bs (omega arith))
          (append_assoc (contents p) (b ∷ []) (take (room p - 1) bs));
  reader = rest.reader;
  read_end = rest.read_end;
  write_end = rest.write_end;
}

Wrote-full :
    (killed : Bool) (p : Pipe) (bs : List ℕ) (i : ℕ)
    → IsValid p
    → 0 < length bs
    → count p ≡ pipesize
    → Wrote killed p bs i (
        if not p.readopen || killed
        then (write_failed, p, [])
        else (write_sleeps i, p, readers ∷ []))
Wrote-full killed p bs i v some full = elim (Bool-cases (not p.readopen || killed)) [
  | inl stop ↦ rw stop (record {
    valid = v;
    ends = ground (arith, stop);
    bytes = same;
    reader = refl;
    read_end = refl;
    write_end = refl;
  })
  | inr go ↦ rw go (record {
    valid = v;
    ends = ground (arith, go);
    bytes = same;
    reader = refl;
    read_end = refl;
    write_end = refl;
  })
]
  where
    same : contents p ≡ contents p ++ take (room p) bs
    same = rw (take_none (room p) bs (omega arith), append-nil (contents p))

-- A stretch of `pipewrite` on a valid pipe copies as many bytes as there is room for, in order,
-- behind those held; it returns when all are copied, and otherwise fails if the read end is closed
-- or the process killed, and goes to sleep if not. The ends stay open or closed as they are.
pub write_from-Wrote :
    (killed : Bool) (p : Pipe) (bs : List ℕ) (i : ℕ)
    → IsValid p
    → Wrote killed p bs i (write_from killed p bs i)
unfolding write_from
write_from-Wrote killed p [] i v = record {
  valid = v;
  ends = ground arith;
  bytes = rw (take-nil, append-nil);
  reader = refl;
  read_end = refl;
  write_end = refl;
}
write_from-Wrote killed p (b ∷ bs) i v = elim (Bool-cases (is_full p)) [
  | inl full ↦ rw full (Wrote-full killed p (b ∷ bs) i v (omega arith) (is_full-true p v full))
  | inr free ↦
      let fits = is_full-false p v free in
      let rest = write_from-Wrote killed (put_byte p b) bs (i + 1) (put_byte-IsValid p b v fits) in
      rw free (Wrote-put_byte killed p b bs i v fits rest)
]

Wakes-full :
    (stop : Bool) (p : Pipe) (i : ℕ)
    → let r : Written × Pipe × List Chan =
        if stop then (write_failed, p, []) else (write_sleeps i, p, readers ∷ []) in
      (r.0 ≡ write_failed) × (r.2 ≡ []) ⊎ (r.0 ≢ write_failed) × (r.2 ≡ readers ∷ [])
Wakes-full true p i = inl (refl, refl)
Wakes-full false p i = inr (λ e. cc, refl)

-- A stretch of `pipewrite` that fails wakes nobody, and any other wakes the readers.
pub wakes-write_from :
    (killed : Bool) (p : Pipe) (bs : List ℕ) (i : ℕ)
    → ((write_from killed p bs i).0 ≡ write_failed) × ((write_from killed p bs i).2 ≡ [])
      ⊎ ((write_from killed p bs i).0 ≢ write_failed)
        × ((write_from killed p bs i).2 ≡ readers ∷ [])
unfolding write_from
wakes-write_from killed p [] i = inr (λ e. cc, refl)
wakes-write_from killed p (b ∷ bs) i = elim (Bool-cases (is_full p)) [
  | inl full ↦ rw full (Wakes-full (not p.readopen || killed) p i)
  | inr free ↦ rw free (wakes-write_from killed (put_byte p b) bs (i + 1))
]

-- The bytes that the loop of `piperead` copies and the pipe that it leaves.
copy_out_lem :
    (n : ℕ) (p : Pipe)
    → IsValid p
    → IsValid (copy_out n p).1
      × ((copy_out n p).0 ≡ take n (contents p))
      × ((copy_out n p).0 ++ contents (copy_out n p).1 ≡ contents p)
unfolding copy_out
copy_out_lem zero p v = (v, refl, refl)
copy_out_lem (suc n) p v = elim (Bool-cases (is_empty p)) [
  | inl none_left ↦ ground (arith, is_empty-true p v none_left)
  | inr some_left ↦
      let held = is_empty-false p v some_left in
      let rest = copy_out_lem n (drop_byte p) (drop_byte-IsValid p v held) in
      ground (arith, rest, contents-drop_byte p v held)
]

copy_out_ends :
    (n : ℕ) (p : Pipe)
    → ((copy_out n p).1.readopen ≡ p.readopen) × ((copy_out n p).1.writeopen ≡ p.writeopen)
unfolding copy_out
copy_out_ends zero p = (refl, refl)
copy_out_ends (suc n) p = ground (arith, copy_out_ends n (drop_byte p))

-- How a stretch of `piperead` for `n` bytes must end.
abbrev pub read_ends : Bool → Pipe → ℕ → Read
read_ends killed p n =
    if is_empty p && p.writeopen
    then (if killed then read_failed else read_sleeps)
    else got (take n (contents p))

pub record DidRead (killed : Bool) (p : Pipe) (n : ℕ) (out : Read × Pipe × List Chan) : Type 0 where
  pub valid : IsValid out.1
  pub ends : out.0 ≡ read_ends killed p n
  pub bytes : bytes_read out.0 ++ contents out.1 ≡ contents p
  pub read_end : out.1.readopen ≡ p.readopen
  pub write_end : out.1.writeopen ≡ p.writeopen

-- A stretch of `piperead` on a valid pipe: on an empty pipe whose write end is open it sleeps, or
-- fails if the process is killed; else it returns the first `n` of the bytes held, or all if there
-- are fewer, and leaves the others. The ends stay open or closed as they are.
pub read-DidRead :
    (killed : Bool) (p : Pipe) (n : ℕ) → IsValid p → DidRead killed p n (read killed p n)
unfolding read
read-DidRead killed p n v = ground (arith, v, copy_out_lem n p v, copy_out_ends n p)
