-- ===== src/Pipe/System/Fifo.antt =====
-- Whatever the order of the steps, a pipe delivers the bytes that were written, in order
-- (xv6/pipe.c).
use mathlib.Core.Bool.{true}
use operation_system.Base.{
  true, false, if_intro, get_or, sym, ◌∙◌, ℕ, zero, suc, ◌+◌, min, ◌≡◌, refl, ap, Bool, List, [],
  ◌∷◌, ◌++◌, append_assoc, arith, length, take, length-append, length-take,
}
use operation_system.Pipe.{close, Pipe, Chan, Written, Read}
use operation_system.Pipe.Contents.{count, room, IsValid, contents, length-contents}
use operation_system.Pipe.Transfer.{read-DidRead, write_from-Wrote, Wrote, DidRead}
use operation_system.Pipe.System.{
  rouse, in_use, close_end, go, start_read, idle, read_asleep, reading, write_asleep, start_write,
  Event, start, close_step, writing, step, run_thread, run, Thread, System, copied, run_write,
  run_read,
}

pub record Delivers (s : System) : Type 0 where
  pub valid : IsValid s.pipe
  pub fifo : s.sent ≡ s.received ++ contents s.pipe

take-min : (n m : ℕ) (bs : List ℕ) → n ≡ min m (length bs) → take n bs ≡ take m bs
take-min zero zero bs e = refl
take-min zero (suc m) [] e = refl
take-min zero (suc m) (b ∷ bs) e = absurd (omega arith)
take-min (suc n) zero bs e = absurd (omega arith)
take-min (suc n) (suc m) [] e = refl
take-min (suc n) (suc m) (b ∷ bs) e = ap (λ r. b ∷ r) (take-min n m bs (omega arith))

pub count-Wrote :
    (killed : Bool) (p : Pipe) (bs : List ℕ) (i : ℕ) {out : Written × Pipe × List Chan}
    → Wrote killed p bs i out
    → count out.1 ≡ count p + min (room p) (length bs)
count-Wrote killed p bs i {out} w = omega (
  arith,
  length-contents p,
  length-contents out.1,
  ap (length {A = ℕ}) w.bytes,
  length-append (contents p) (take (room p) bs),
  length-take (room p) bs,
)

run_write-Delivers :
    (killed : Bool) (s : System) (k : ℕ) (bs : List ℕ) (i : ℕ) (out : Written × Pipe × List Chan)
    → Delivers s
    → Wrote killed s.pipe bs i out
    → Delivers (run_write s k bs i out)
run_write-Delivers killed s k bs i out d w = record {
  valid = w.valid;
  fifo =
      rw (w.bytes, d.fifo, take-min (copied s.pipe out.1) (room s.pipe) bs moved)
        (append_assoc s.received (contents s.pipe) (take (room s.pipe) bs));
}
  where
    moved : copied s.pipe out.1 ≡ min (room s.pipe) (length bs)
    moved = omega (arith, count-Wrote killed s.pipe bs i w, w.valid, w.reader, d.valid)

run_read-Delivers :
    (killed : Bool) (s : System) (k n : ℕ) (out : Read × Pipe × List Chan)
    → Delivers s
    → DidRead killed s.pipe n out
    → Delivers (run_read s k n out)
run_read-Delivers killed s k n (r, p, cs) d w = record {
  valid = w.valid;
  fifo = d.fifo ∙ rw (append_assoc) (ap (λ x. s.received ++ x) (sym w.bytes));
}

run_thread-Delivers :
    (s : System) (killed : Bool) (k : ℕ) (t : Thread)
    → Delivers s
    → Delivers (run_thread s killed k t)
unfolding run_thread
run_thread-Delivers s killed k idle d = d
run_thread-Delivers s killed k (writing bs i) d =
    run_write-Delivers killed s k bs i _ d (write_from-Wrote killed s.pipe bs i d.valid)
run_thread-Delivers s killed k (write_asleep bs i) d = d
run_thread-Delivers s killed k (reading n) d =
    run_read-Delivers killed s k n _ d (read-DidRead killed s.pipe n d.valid)
run_thread-Delivers s killed k (read_asleep n) d = d

start-Delivers : (s : System) (k : ℕ) (t now : Thread) → Delivers s → Delivers (start s k t now)
start-Delivers s k t idle d = record { valid = d.valid; fifo = d.fifo }
start-Delivers s k t _ d = d

close_step-Delivers :
    (s : System) (e : Bool) → Delivers s → Delivers (close_step s (close s.pipe e))
unfolding close
close_step-Delivers s true d = record { valid = ground (arith, d.valid); fifo = d.fifo }
close_step-Delivers s false d = record { valid = ground (arith, d.valid); fifo = d.fifo }

step-Delivers : (s : System) (e : Event) → Delivers s → Delivers (step s e)
unfolding step
step-Delivers s (start_write k bs) d =
    if_intro Delivers s.pipe.writeopen
      (λ _. start-Delivers s k (writing bs 0) (get_or s.threads k idle) d) (λ _. d)
step-Delivers s (start_read k n) d =
    if_intro Delivers s.pipe.readopen
      (λ _. start-Delivers s k (reading n) (get_or s.threads k idle) d) (λ _. d)
step-Delivers s (go killed k) d = run_thread-Delivers s killed k (get_or s.threads k idle) d
step-Delivers s (close_end e) d =
    if_intro Delivers (in_use e s.threads) (λ _. d) (λ _. close_step-Delivers s e d)
step-Delivers s (rouse k) d = record { valid = d.valid; fifo = d.fifo }

-- After any sequence of steps of any number of processes, the bytes written so far are those
-- delivered so far followed by those that the pipe holds, in order, and the pipe is valid.
pub run-Delivers : (es : List Event) (s : System) → Delivers s → Delivers (run s es)
unfolding run
run-Delivers [] s d = d
run-Delivers (e ∷ es) s d = run-Delivers es (step s e) (step-Delivers s e d)
