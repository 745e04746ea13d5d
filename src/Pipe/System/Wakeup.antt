-- ===== src/Pipe/System/Wakeup.antt =====
-- No wakeup of a pipe's readers and writers is lost (xv6/pipe.c), except where a killed process
-- writes.
use operation_system.Base.{
  ℕ, ◌<◌, ◌≡◌, refl, ap, ◌∙◌, ◌⊎◌, inl, inr, Bool, true, false, List, [], ◌∷◌, map, arith,
  Bool-cases, if_intro, length, get_or, take, All, length-append, All-set, All-get, All-weaken,
  map-set,
}
use operation_system.Pipe.{
  Pipe, pipesize, Chan, readers, writers, is_empty, Written, wrote, write_failed, write_sleeps,
  write_from, Read, got, read_sleeps, bytes_read, copy_out, read, close,
}
use operation_system.Pipe.Contents.{
  count, room, IsValid, window, contents, length-contents, is_empty-true,
}
use operation_system.Pipe.Transfer.{
  Wrote, write_from-Wrote, wakes-write_from, DidRead, read-DidRead,
}
use operation_system.Pipe.System.{
  Thread, idle, writing, write_asleep, reading, read_asleep, Event, start_write, start_read, go,
  close_end, rouse, System, wake, after_write, run_write, run_read, run_thread, in_use, start,
  close_step, step, run,
}
use operation_system.Pipe.System.Fifo.{count-Wrote}
use operation_system.Pipe.System.Sleepers.{wake_readers-Calm, wake_writers-Calm, Calm, Awake}

-- No process runs inside `pipewrite` or `piperead` once it is killed.
abbrev pub Unkilled : Event → Type 0
Unkilled (go killed k) = killed ≡ false
Unkilled _ = Unit

-- A reader that uses a closed read end, or a writer that waits for one, cannot be.
closed-Calm : (p q : Pipe) (t : Thread) → p.readopen ≡ false → Calm p t → Calm q t
closed-Calm p q idle e c = c
closed-Calm p q (writing bs i) e c = c
closed-Calm p q (write_asleep bs i) e c = ground (arith, c, e)
closed-Calm p q (reading n) e c = ground (arith, c, e)
closed-Calm p q (read_asleep n) e c = ground (arith, c, e)

write_failed-closed :
    (p : Pipe) (bs : List ℕ) (i : ℕ) {out : Written × Pipe × List Chan}
    → Wrote false p bs i out
    → out.0 ≡ write_failed
    → p.readopen ≡ false
write_failed-closed p bs i w e = ground (arith, w.ends, e)

-- The writer itself: if it sleeps then on a full pipe whose read end is open.
after_write-Calm :
    (p : Pipe) (bs : List ℕ) (i : ℕ) (r : Written) (q : Pipe) (cs : List Chan)
    → IsValid p
    → Wrote false p bs i (r, q, cs)
    → Calm q (wake readers (after_write bs i r))
after_write-Calm p bs i (wrote j) q cs v w = (tt, tt)
after_write-Calm p bs i write_failed q cs v w = (tt, tt)
after_write-Calm p bs i (write_sleeps j) q cs v w =
    let full : (room p < length bs) × (p.readopen ≡ true) = ground (arith, w.ends) in
    ((omega (arith, count-Wrote false p bs i w, full.0, v.within), w.read_end ∙ full.1), tt)

run_write-Awake :
    (s : System) (k : ℕ) (bs : List ℕ) (i : ℕ)
    → Awake s
    → Awake (run_write s k bs i (write_from false s.pipe bs i))
run_write-Awake s k bs i a = elim (wakes-write_from false s.pipe bs i) [
  | inl (failed, none_woken) ↦ record {
    valid = w.valid;
    calm = rw none_woken (
        All-set (Calm out.1) s.threads k (after_write bs i out.0)
          (All-weaken (Calm s.pipe) (Calm out.1) s.threads a.calm
            (λ t. closed-Calm s.pipe out.1 t (write_failed-closed s.pipe bs i w failed)))
          (rw failed (tt, tt)));
  }
  | inr (lived, woken) ↦ record {
    valid = w.valid;
    calm =
        rw (woken, map-set)
          (All-set (Calm out.1) (map (wake readers) s.threads) k
            (wake readers (after_write bs i out.0))
            (wake_readers-Calm s.pipe out.1 s.threads a.calm
              (λ full. omega (arith, full, count-Wrote false s.pipe bs i w)) w.read_end)
            (after_write-Calm s.pipe bs i out.0 out.1 out.2 a.valid w));
  }
]
  where
    out : Written × Pipe × List Chan
    out = write_from false s.pipe bs i

    w : Wrote false s.pipe bs i out
    w = write_from-Wrote false s.pipe bs i a.valid

-- The two ways in which a stretch of `piperead` ends for a process that is not killed.
abbrev ReadEnds : Pipe → Read × Pipe × List Chan → Type 0
ReadEnds p (r, q, cs) =
    ((is_empty p ≡ true) × (p.writeopen ≡ true) × (r ≡ read_sleeps) × (q ≡ p) × (cs ≡ []))
    ⊎ ((bs : List ℕ) × (r ≡ got bs) × (cs ≡ writers ∷ []))

read-ReadEnds : (p : Pipe) (n : ℕ) → ReadEnds p (read false p n)
unfolding read
read-ReadEnds p n = elim (Bool-cases (is_empty p)) [
  | inl e ↦ elim (Bool-cases p.writeopen) [
    | inl w ↦ inl (e, w, rw (e, w), rw (e, w), rw (e, w))
    | inr w ↦ inr (copied_bytes, rw (e, w), rw (e, w))
  ]
  | inr e ↦ inr (copied_bytes, rw e, rw e)
]
  where
    copied_bytes : List ℕ
    copied_bytes = (copy_out n p).0

run_read-Awake :
    (s : System) (k n : ℕ)
    → Awake s
    → s.pipe.readopen ≡ true
    → Awake (run_read s k n (read false s.pipe n))
run_read-Awake s k n a open_ = elim (read-ReadEnds s.pipe n) [
  | inl (empty, writable, sleeps, same, none_woken) ↦ record {
    valid = w.valid;
    calm =
        rw (none_woken, same, sleeps)
          (All-set (Calm s.pipe) s.threads k (read_asleep n) a.calm
            ((is_empty-true s.pipe a.valid empty, writable), open_));
  }
  | inr (bs, done, woken) ↦ record {
    valid = w.valid;
    calm =
        rw (woken, done, map-set)
          (All-set (Calm out.1) (map (wake writers) s.threads) k idle
            (wake_writers-Calm s.pipe out.1 s.threads a.calm (λ dry _. drained dry) w.read_end
              w.write_end)
            (tt, tt));
  }
]
  where
    out : Read × Pipe × List Chan
    out = read false s.pipe n

    w : DidRead false s.pipe n out
    w = read-DidRead false s.pipe n a.valid

    drained : count s.pipe ≡ 0 → count out.1 ≡ 0
    drained e = omega (
      arith,
      e,
      length-contents s.pipe,
      length-contents out.1,
      ap (length {A = ℕ}) w.bytes,
      length-append (bytes_read out.0) (contents out.1),
    )

run_thread-Awake :
    (s : System) (k : ℕ) (t : Thread) → Awake s → Calm s.pipe t → Awake (run_thread s false k t)
unfolding run_thread
run_thread-Awake s k idle a c = a
run_thread-Awake s k (writing bs i) a c = run_write-Awake s k bs i a
run_thread-Awake s k (write_asleep bs i) a c = a
run_thread-Awake s k (reading n) a c = run_read-Awake s k n a c.1
run_thread-Awake s k (read_asleep n) a c = a

start-Awake :
    (s : System) (k : ℕ) (t now : Thread) → Awake s → Calm s.pipe t → Awake (start s k t now)
start-Awake s k t idle a c = record {
  valid = a.valid;
  calm = All-set (Calm s.pipe) s.threads k t a.calm c;
}
start-Awake s k t _ a c = a

rouse-Calm : (p : Pipe) (t : Thread) → Calm p t → Calm p (wake readers (wake writers t))
rouse-Calm p idle c = c
rouse-Calm p (writing bs i) c = c
rouse-Calm p (write_asleep bs i) c = (tt, tt)
rouse-Calm p (reading n) c = c
rouse-Calm p (read_asleep n) c = (tt, c.1)

-- `pipeclose` of the write end: no reason to wait for more bytes, so the readers are woken.
close_write-Calm :
    (s : System)
    → Awake s
    → All (Calm (record s.pipe { writeopen = false })) (map (wake readers) s.threads)
close_write-Calm s a =
    wake_readers-Calm s.pipe (record s.pipe { writeopen = false }) s.threads a.calm (λ e. e) refl

close_read-Calm :
    (p : Pipe) (ts : List Thread)
    → in_use false ts ≡ false
    → All (Calm p) ts
    → All (Calm (record p { readopen = false })) (map (wake writers) ts)
close_read-Calm p [] e h = tt
close_read-Calm p (idle ∷ ts) e h = ((tt, tt), close_read-Calm p ts e h.1)
close_read-Calm p (writing bs i ∷ ts) e h = ((tt, tt), close_read-Calm p ts e h.1)
close_read-Calm p (write_asleep bs i ∷ ts) e h = ((tt, tt), close_read-Calm p ts e h.1)
close_read-Calm p (reading n ∷ ts) e h = cc
close_read-Calm p (read_asleep n ∷ ts) e h = cc

close_step-Awake :
    (s : System) (e : Bool)
    → in_use e s.threads ≡ false
    → Awake s
    → Awake (close_step s (close s.pipe e))
unfolding close
close_step-Awake s true unused a = record {
  valid = ground (arith, a.valid);
  calm = close_write-Calm s a;
}
close_step-Awake s false unused a = record {
  valid = ground (arith, a.valid);
  calm = close_read-Calm s.pipe s.threads unused a.calm;
}

step-Awake : (s : System) (e : Event) → Unkilled e → Awake s → Awake (step s e)
unfolding step
step-Awake s (start_write k bs) u a =
    if_intro Awake s.pipe.writeopen
      (λ _. start-Awake s k (writing bs 0) (get_or s.threads k idle) a (tt, tt)) (λ _. a)
step-Awake s (start_read k n) u a =
    if_intro Awake s.pipe.readopen
      (λ on. start-Awake s k (reading n) (get_or s.threads k idle) a (tt, on)) (λ _. a)
step-Awake s (go killed k) u a = rw u (
    run_thread-Awake s k (get_or s.threads k idle) a
      (All-get (Calm s.pipe) s.threads k idle a.calm (tt, tt)))
step-Awake s (close_end e) u a =
    if_intro Awake (in_use e s.threads) (λ _. a) (λ unused. close_step-Awake s e unused a)
step-Awake s (rouse k) u a = record {
  valid = a.valid;
  calm =
      All-set (Calm s.pipe) s.threads k (wake readers (wake writers (get_or s.threads k idle)))
        a.calm
        (rouse-Calm s.pipe (get_or s.threads k idle)
          (All-get (Calm s.pipe) s.threads k idle a.calm (tt, tt)));
}

-- No wakeup is lost: after any sequence of steps in which no killed process runs inside the pipe's
-- code, a writer sleeps only on a full pipe whose read end is open, and a reader only on an empty
-- pipe whose write end is open.
pub run-Awake : (es : List Event) (s : System) → All Unkilled es → Awake s → Awake (run s es)
unfolding run
run-Awake [] s u a = a
run-Awake (e ∷ es) s u a = run-Awake es (step s e) u.1 (step-Awake s e u.0 a)

-- A killed writer that fills an empty pipe returns without a wakeup, so that a reader who slept on
-- the empty pipe stays asleep with 512 bytes to read.
pub killed_write-wakes-nobody :
    (p : Pipe) (bs : List ℕ)
    → IsValid p
    → count p ≡ 0
    → pipesize < length bs
    → ((write_from true p bs 0).0 ≡ write_failed)
      × ((write_from true p bs 0).2 ≡ [])
      × (contents (write_from true p bs 0).1 ≡ take pipesize bs)
killed_write-wakes-nobody p bs v dry long = elim (wakes-write_from true p bs 0) [
  | inl (failed, none_woken) ↦ (failed, none_woken, filled)
  | inr (lived, woken) ↦ absurd (lived failing)
]
  where
    w : Wrote true p bs 0 (write_from true p bs 0)
    w = write_from-Wrote true p bs 0 v

    failing : (write_from true p bs 0).0 ≡ write_failed
    failing = ground (arith, w.ends)

    empty : contents p ≡ []
    empty = ap (λ n. window p.buf p.nread n) dry

    filled : contents (write_from true p bs 0).1 ≡ take pipesize bs
    filled = let all : room p ≡ pipesize = omega (arith, dry) in w.bytes ∙ rw (empty, all)
