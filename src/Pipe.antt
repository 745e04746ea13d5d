-- ===== src/Pipe.antt =====
-- xv6/pipe.c: the pipe's ring of 512 bytes. The spinlock makes each stretch between two sleeps
-- atomic, so a function here runs from taking the lock to sleeping or returning. `killed` is the
-- value of `myproc()->killed`, which such a stretch reads at most once.
pub mod Contents
pub mod Transfer
pub mod System
mod Tests
use operation_system.Base.{
  ℕ, zero, suc, ◌+◌, ◌%◌, ◌^◌, Bool, true, false, not, ◌&&◌, ◌||◌, List, [], ◌∷◌, get_or, set,
  if◌then◌else◌, ◌==◌,
}

-- The fields of `struct pipe` but its lock. `nread` and `nwrite` are 32-bit.
pub record Pipe : Type 0 where
  pub buf : List ℕ
  pub nread : ℕ
  pub nwrite : ℕ
  pub readopen : Bool
  pub writeopen : Bool

abbrev pub pipesize : ℕ
pipesize = 512

-- `&p->nread` and `&p->nwrite`, on which readers and writers sleep.
pub data Chan : Type 0 where
  readers writers : Chan

abbrev pub inc : ℕ → ℕ
inc n = (n + 1) % 2 ^ 32

-- The pipe as `pipealloc` fills it in the page that it was given.
pub fresh : List ℕ → Pipe
fresh page = record { buf = page; nread = 0; nwrite = 0; readopen = true; writeopen = true }

abbrev pub is_full : Pipe → Bool
is_full p = p.nwrite == (p.nread + pipesize) % 2 ^ 32

abbrev pub is_empty : Pipe → Bool
is_empty p = p.nread == p.nwrite

abbrev pub put_byte : Pipe → ℕ → Pipe
put_byte p b = record p { buf = set p.buf (p.nwrite % pipesize) b; nwrite = inc p.nwrite }

-- How a stretch of `pipewrite` ends; `i` bytes were copied.
pub data Written : Type 0 where
  wrote : ℕ → Written
  write_failed : Written
  write_sleeps : ℕ → Written

-- The loop of `pipewrite` from `i` on, `addr[i]`, `addr[i + 1]`, … being the list. The channels are
-- those that it wakes.
pub write_from : Bool → Pipe → List ℕ → ℕ → Written × Pipe × List Chan
write_from killed p [] i = (wrote i, p, readers ∷ [])
write_from killed p (b ∷ bs) i =
    if is_full p
    then (if not p.readopen || killed
        then (write_failed, p, [])
        else (write_sleeps i, p, readers ∷ []))
    else write_from killed (put_byte p b) bs (i + 1)

pub data Read : Type 0 where
  got : List ℕ → Read
  read_failed : Read
  read_sleeps : Read

-- The bytes that a stretch of `piperead` hands to the caller.
abbrev pub bytes_read : Read → List ℕ
bytes_read (got bs) = bs
bytes_read read_failed = []
bytes_read read_sleeps = []

abbrev pub next_byte : Pipe → ℕ
next_byte p = get_or p.buf (p.nread % pipesize) 0

-- The copying loop of `piperead`, with `n` bytes wanted.
pub copy_out : ℕ → Pipe → List ℕ × Pipe
copy_out zero p = ([], p)
copy_out (suc n) p =
    let rest = copy_out n (record p { nread = inc p.nread }) in
    if is_empty p then ([], p) else (next_byte p ∷ rest.0, rest.1)

pub read : Bool → Pipe → ℕ → Read × Pipe × List Chan
unfolding copy_out
read killed p n =
    if is_empty p && p.writeopen
    then (if killed then (read_failed, p, []) else (read_sleeps, p, []))
    else (let r = copy_out n p in (got r.0, r.1, writers ∷ []))

-- `pipeclose`: the pipe, the channel that it wakes, and whether it frees the page.
pub close : Pipe → Bool → Pipe × Chan × Bool
close p true =
    let p' = record p { writeopen = false } in (p', readers, not p'.readopen && not p'.writeopen)
close p false =
    let p' = record p { readopen = false } in (p', writers, not p'.readopen && not p'.writeopen)
