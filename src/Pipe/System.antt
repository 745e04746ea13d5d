-- ===== src/Pipe/System.antt =====
-- Processes that share a pipe: each runs one stretch of `piperead` or `pipewrite` at a time, in any
-- order, sleeps and is woken (xv6/pipe.c with sleep and wakeup of xv6/proc.c). The guards of `step`
-- are what the reference counts of xv6/file.c ensure: an end is closed when nobody uses it, and
-- used only while it is open.
pub mod Fifo
pub mod Sleepers
pub mod Wakeup
use operation_system.Base.{
  ℕ, ◌+◌, ◌-◌, ◌/◌, ◌%◌, ◌^◌, Bool, true, false, ◌||◌, List, [], ◌∷◌, ◌++◌, map, if◌then◌else◌,
  get_or, set, take, drop,
}
use operation_system.Pipe.{
  bytes_read, Pipe, Chan, readers, writers, Written, wrote, write_failed, write_sleeps, write_from,
  Read, got, read_failed, read_sleeps, read, close,
}

-- Where a process stands. The list holds the bytes that `pipewrite` has left, the number how many
-- it has copied; `piperead` has the number of bytes wanted.
pub data Thread : Type 0 where
  idle : Thread
  writing write_asleep : List ℕ → ℕ → Thread
  reading read_asleep : ℕ → Thread

pub data Event : Type 0 where
  start_write : ℕ → List ℕ → Event
  start_read : ℕ → ℕ → Event
  -- Process `k` runs; the flag is its `killed`.
  go : Bool → ℕ → Event
  close_end : Bool → Event
  -- What `kill` does to a sleeping process.
  rouse : ℕ → Event

-- `sent` and `received` are the bytes that passed into and out of the pipe, for the proofs.
pub record System : Type 0 where
  pub pipe : Pipe
  pub threads : List Thread
  pub sent : List ℕ
  pub received : List ℕ

-- `wakeup(chan)` for one process.
abbrev pub wake : Chan → Thread → Thread
wake writers (write_asleep bs i) = writing bs i
wake readers (read_asleep n) = reading n
wake _ t = t

abbrev pub wake_all : List Chan → List Thread → List Thread
wake_all [] ts = ts
wake_all (c ∷ cs) ts = wake_all cs (map (wake c) ts)

abbrev pub after_write : List ℕ → ℕ → Written → Thread
after_write bs i (wrote j) = idle
after_write bs i write_failed = idle
after_write bs i (write_sleeps j) = write_asleep (drop (j - i) bs) j

abbrev pub after_read : ℕ → Read → Thread
after_read n (got bs) = idle
after_read n read_failed = idle
after_read n read_sleeps = read_asleep n

-- How far `nwrite` moved.
abbrev pub copied : Pipe → Pipe → ℕ
copied p q = (q.nwrite + 2 ^ 32 - p.nwrite) % 2 ^ 32

abbrev pub run_write : System → ℕ → List ℕ → ℕ → Written × Pipe × List Chan → System
run_write s k bs i (r, p, chans) = record {
  pipe = p;
  threads = wake_all chans (set s.threads k (after_write bs i r));
  sent = s.sent ++ take (copied s.pipe p) bs;
  received = s.received;
}

abbrev pub run_read : System → ℕ → ℕ → Read × Pipe × List Chan → System
run_read s k n (r, p, chans) = record {
  pipe = p;
  threads = wake_all chans (set s.threads k (after_read n r));
  sent = s.sent;
  received = s.received ++ bytes_read r;
}

unfoldable pub run_thread : System → Bool → ℕ → Thread → System
run_thread s killed k idle = s
run_thread s killed k (writing bs i) = run_write s k bs i (write_from killed s.pipe bs i)
run_thread s killed k (write_asleep bs i) = s
run_thread s killed k (reading n) = run_read s k n (read killed s.pipe n)
run_thread s killed k (read_asleep n) = s

-- Whether the process is inside `pipewrite`, or inside `piperead`.
abbrev pub uses : Bool → Thread → Bool
uses true (writing bs i) = true
uses true (write_asleep bs i) = true
uses false (reading n) = true
uses false (read_asleep n) = true
uses _ _ = false

abbrev pub in_use : Bool → List Thread → Bool
in_use e [] = false
in_use e (t ∷ ts) = uses e t || in_use e ts

abbrev pub start : System → ℕ → Thread → Thread → System
start s k t idle = record s { threads = set s.threads k t }
start s k t _ = s

abbrev pub close_step : System → Pipe × Chan × Bool → System
close_step s (p, c, freed) = record s { pipe = p; threads = map (wake c) s.threads }

unfoldable pub step : System → Event → System
unfolding run_thread
step s (start_write k bs) =
    if s.pipe.writeopen then start s k (writing bs 0) (get_or s.threads k idle) else s
step s (start_read k n) =
    if s.pipe.readopen then start s k (reading n) (get_or s.threads k idle) else s
step s (go killed k) = run_thread s killed k (get_or s.threads k idle)
step s (close_end e) = if in_use e s.threads then s else close_step s (close s.pipe e)
step s (rouse k) = record s {
  threads = set s.threads k (wake readers (wake writers (get_or s.threads k idle)));
}

unfoldable pub run : System → List Event → System
run s [] = s
run s (e ∷ es) = run (step s e) es
