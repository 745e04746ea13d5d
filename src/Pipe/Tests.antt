-- ===== src/Pipe/Tests.antt =====
-- xv6/pipe.c at concrete inputs, and its theorems there.
use operation_system.Base.{ℕ, ◌≡◌, refl, true, false, List, [], ◌∷◌, arith, take, replicate}
use operation_system.Pipe.{Pipe, pipesize, write_failed, write_from, got, read_sleeps, read, close}
use operation_system.Pipe.Contents.{IsValid, contents}
use operation_system.Pipe.System.{
  idle, read_asleep, Event, start_write, go, close_end, System, run_thread, step, run,
}
use operation_system.Pipe.System.Fifo.{Delivers, run-Delivers}
use operation_system.Pipe.System.Sleepers.{Awake}
use operation_system.Pipe.System.Wakeup.{run-Awake, killed_write-wakes-nobody}

abbrev page : List ℕ
page = replicate 512 0

-- Both counters are about to wrap.
abbrev wrapping : Pipe
wrapping = record {
  buf = page;
  nread = 0xffff_ffff;
  nwrite = 0xffff_ffff;
  readopen = true;
  writeopen = true;
}

wrapping-IsValid : IsValid wrapping
wrapping-IsValid = omega arith

write_then_read : (read false (write_from false wrapping (7 ∷ 8 ∷ []) 0).1 2).0 ≡ got (7 ∷ 8 ∷ [])
unfolding read write_from
write_then_read = refl

empty_sleeps : (read false wrapping 1).0 ≡ read_sleeps
unfolding read
empty_sleeps = refl

-- A reader that sleeps on the empty pipe, and a writer.
abbrev two : System
two = record { pipe = wrapping; threads = read_asleep 2 ∷ idle ∷ []; sent = []; received = [] }

abbrev schedule : List Event
schedule = start_write 1 (7 ∷ 8 ∷ []) ∷ go false 1 ∷ go false 0 ∷ close_end true ∷ []

schedule_delivers : (run two schedule).received ≡ 7 ∷ 8 ∷ []
unfolding run step run_thread read write_from close
schedule_delivers = refl

run-Delivers_example : Delivers (run two schedule)
run-Delivers_example = run-Delivers schedule two (record { valid = wrapping-IsValid; fifo = refl })

run-Awake_example : Awake (run two schedule)
run-Awake_example =
    run-Awake schedule two (tt, (refl, (refl, (tt, tt))))
      (record { valid = wrapping-IsValid; calm = (((refl, refl), refl), ((tt, tt), tt)) })

killed_write-wakes-nobody_example :
    ((write_from true wrapping (replicate 600 1) 0).0 ≡ write_failed)
    × ((write_from true wrapping (replicate 600 1) 0).2 ≡ [])
    × (contents (write_from true wrapping (replicate 600 1) 0).1 ≡ take pipesize (replicate 600 1))
killed_write-wakes-nobody_example =
    killed_write-wakes-nobody wrapping (replicate 600 1) wrapping-IsValid refl (omega arith)
