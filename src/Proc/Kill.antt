-- ===== src/Proc/Kill.antt =====
-- `kill` of xv6/proc.c.
use operation_system.Base.{
  ℕ, ◌+◌, ◌<◌, ◌≡◌, refl, ap, ◌∙◌, ◌≢◌, true, false, some, List, [], ◌∷◌, ◌++◌, arith, ◌==◌,
  if◌then◌else◌, ==_iff, length, get_or, All, length-append, get_or-set_self,
}
use operation_system.Proc.{
  runnable, Proc, Table, is_unused, is_sleeping, nobody, find_unused, allocproc, kill,
}

-- A process that is alive and has a pid.
abbrev pub Busy : Proc → Type 0
Busy p = (is_unused p.state ≡ false) × (p.pid ≢ 0)

kill-zero :
    (front back : List Proc) (p : Proc)
    → All Busy front
    → p.pid ≡ 0
    → is_unused p.state ≡ true
    → kill 0 (front ++ (p ∷ back)) ≡ (front ++ (record p { killed = true } ∷ back), true)
unfolding kill
kill-zero [] back p h z u =
    let hit : (p.pid == 0) ≡ true = (==_iff p.pid 0).1 z in
    let awake : (if is_sleeping p.state then runnable else p.state) ≡ p.state = ground (arith, u) in
    rw (hit, awake)
kill-zero (q ∷ front) back p h z u =
    let miss : (q.pid == 0) ≡ false = ground (arith, h.0.1) in
    let rest = kill-zero front back p h.1 z u in rw (miss, rest)

find_unused-first :
    (front back : List Proc) (p : Proc) (i : ℕ)
    → All Busy front
    → is_unused p.state ≡ true
    → find_unused (front ++ (p ∷ back)) i ≡ some (i + length front)
unfolding find_unused
find_unused-first [] back p i h u = rw u (ap (λ n. some n) (omega arith))
find_unused-first (q ∷ front) back p i h u =
    rw (h.0.0) (find_unused-first front back p (i + 1) h.1 u ∙ ap (λ n. some n) (omega arith))

get_or-middle :
    (front back : List Proc) (p : Proc) → get_or (front ++ (p ∷ back)) (length front) nobody ≡ p
get_or-middle [] back p = refl
get_or-middle (q ∷ front) back p = get_or-middle front back p

length-middle : (front back : List Proc) (p : Proc) → length front < length (front ++ (p ∷ back))
length-middle front back p = omega (arith, length-append front (p ∷ back))

-- If the first unused slot has pid 0, and the processes in front of it have others, `kill(0)` succeeds
-- there, and `allocproc`, given a kernel stack, then makes the next process in that slot, which is
-- killed before it has run.
pub kill-zero-poisons :
    (t : Table) (front back : List Proc) (p : Proc) (kstack : ℕ)
    → t.procs ≡ front ++ (p ∷ back)
    → All Busy front
    → p.pid ≡ 0
    → is_unused p.state ≡ true
    → kstack ≢ 0
    → let killed = kill 0 t.procs in
      let made = allocproc (record t { procs = killed.0 }) kstack in
      (killed.1 ≡ true)
      × (made.1 ≡ some (length front))
      × ((get_or made.0.procs (length front) nobody).killed ≡ true)
unfolding allocproc
kill-zero-poisons t front back p kstack e busy z u ne =
    let k = kill-zero front back p busy z u in
    let p' : Proc = record p { killed = true } in
    let found : find_unused (front ++ (p' ∷ back)) 0 ≡ some (length front) =
      find_unused-first front back p' 0 busy u ∙ ap (λ n. some n) (omega arith) in
    let mapped : (kstack == 0) ≡ false = ground (arith, ne) in
    rw (e, k, found, mapped)
      (
        refl,
        refl,
        ap (λ (q : Proc). q.killed)
              (get_or-set_self (front ++ (p' ∷ back)) (length front) _ nobody
                (length-middle front back p'))
            ∙ ap (λ (q : Proc). q.killed) (get_or-middle front back p'),
      )
