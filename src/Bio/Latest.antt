-- ===== src/Bio/Latest.antt =====
-- Processes that use the buffer cache in any order, from a cache that is empty.
use operation_system.Base.{ℕ, ◌≡◌, refl, ◌≢◌, ◌⊎◌, inl, inr, true, false, some, List, [], arith}
use operation_system.Bio.{
  Buf, Cache, unused, binit_order, bget, reads, bread_locked, bwrite, brelse,
}
use operation_system.Bio.Coherent.{In, Coherent, bump, lower}
use operation_system.Bio.Ops.{write_view, bget-Gets}
use operation_system.Bio.Hold.{bread_locked-Reads}
use operation_system.Bio.Change.{
  fill, pin, fill-Coherent, pin-Coherent, bwrite-Coherent, brelse-Coherent,
}

-- The cache, what each block was last changed to, and how many processes wait for each buffer.
pub record Use : Type 0 where
  pub cache : Cache
  pub view : ℕ → List ℕ
  pub pend : ℕ → ℕ

-- One step of some process. A process that changes a buffer, writes it or releases it holds its
-- lock, and what it releases is on the disk or belongs to a transaction.
pub data Step : Use → Use → Type 0 where
  get :
      {u : Use} {c' : Cache} (b s : ℕ)
      → bget u.cache 1 b ≡ some (c', s)
      → Step u (record u { cache = c'; pend = bump u.pend s })
  lock :
      {u : Use} {c' : Cache} (s : ℕ)
      → In s u.cache.order
      → u.pend s ≢ 0
      → bread_locked u.cache s ≡ reads c'
      → Step u (record u { cache = c'; pend = lower u.pend s })
  change :
      {u : Use} (s : ℕ) (v : List ℕ)
      → In s u.cache.order
      → (u.cache.buf s).locked ≡ true
      → Step u (record u {
        cache = fill u.cache s v;
        view = write_view u.view (u.cache.buf s).blockno v;
      })
  log :
      {u : Use} (s : ℕ)
      → In s u.cache.order
      → (u.cache.buf s).locked ≡ true
      → Step u (record u { cache = pin u.cache s })
  write :
      {u : Use} {c' : Cache} (s : ℕ)
      → In s u.cache.order
      → (u.cache.buf s).locked ≡ true
      → bwrite u.cache s ≡ some c'
      → Step u (record u { cache = c' })
  release :
      {u : Use} {c' : Cache} (s : ℕ)
      → In s u.cache.order
      → (u.cache.buf s).locked ≡ true
      → ((u.cache.buf s).dirty ≡ true)
        ⊎ ((u.cache.buf s).content ≡ u.cache.disk (u.cache.buf s).blockno)
      → brelse u.cache s ≡ some c'
      → Step u (record u { cache = c' })

pub data Reach (u : Use) : Use → Type 0 where
  here : Reach u u
  next : {v w : Use} → Reach u v → Step v w → Reach u w

abbrev IsCoherent : Use → Type 0
IsCoherent u = Coherent u.cache u.view u.pend

Step-IsCoherent : {u v : Use} → IsCoherent u → Step u v → IsCoherent v
Step-IsCoherent co (get {u} {c'} b s e) = (bget-Gets u.cache u.view u.pend co b s c' e).coherent
Step-IsCoherent co (lock {u} {c'} s m p e) =
    (bread_locked-Reads u.cache u.view u.pend s co m c' p e).coherent
Step-IsCoherent co (change {u} s v m l) = fill-Coherent u.cache u.view u.pend s co m l v
Step-IsCoherent co (log {u} s m l) = pin-Coherent u.cache u.view u.pend s co m l
Step-IsCoherent co (write {u} {c'} s m l e) =
    (bwrite-Coherent u.cache u.view u.pend s co m l c' e).0
Step-IsCoherent co (release {u} {c'} s m l saved e) =
    brelse-Coherent u.cache u.view u.pend s co m l c' saved e

Reach-IsCoherent : {u v : Use} → IsCoherent u → Reach u v → IsCoherent v
Reach-IsCoherent co here = co
Reach-IsCoherent co (next r st) = Step-IsCoherent (Reach-IsCoherent co r) st

-- What `binit` leaves: `n` buffers that hold nothing.
abbrev pub empty_buf : Buf
empty_buf = record {
  dev = 0;
  blockno = 0;
  refcnt = 0;
  valid = false;
  dirty = false;
  locked = false;
  content = [];
}

abbrev pub start : ℕ → (ℕ → List ℕ) → ℕ → Use
start n disk disksize = record {
  cache = record { buf = λ i. empty_buf; order = binit_order n; disk = disk; disksize = disksize };
  view = disk;
  pend = λ i. 0;
}

start-IsCoherent : (n : ℕ) (disk : ℕ → List ℕ) (size : ℕ) → IsCoherent (start n disk size)
start-IsCoherent n disk size = record {
  each = λ i m. record {
    on_disk_1 = λ v. cc;
    fresh = λ v. cc;
    counted = omega arith;
    filled = λ l. elim l [ inl e ↦ cc | inr e ↦ cc ];
  };
  unique = λ i j mi mj di dj e. absurd (omega (arith, di));
  stored = λ b. inl refl;
}

-- Whatever processes have done with a cache of any number of buffers that was empty, where each changes,
-- writes and releases a buffer only while it holds its lock, and releases one that it has changed only
-- after it has written it or put it into a transaction: a process that gets the lock of a buffer in
-- `bread` reads what its block was last changed to, though buffers have been recycled and the disk may
-- lag behind.
pub Reach-Latest :
    (n : ℕ) (disk : ℕ → List ℕ) (size : ℕ) (u : Use) (s : ℕ) (c' : Cache)
    → Reach (start n disk size) u
    → In s u.cache.order
    → u.pend s ≢ 0
    → bread_locked u.cache s ≡ reads c'
    → ((c'.buf s).content ≡ u.view (u.cache.buf s).blockno)
      × ((c'.buf s).blockno ≡ (u.cache.buf s).blockno)
      × ((c'.buf s).locked ≡ true)
Reach-Latest n disk size u s c' r m p e =
    let co = Reach-IsCoherent (start-IsCoherent n disk size) r in
    let x = bread_locked-Reads u.cache u.view u.pend s co m c' p e in (x.latest, x.block, x.taken)

-- Whatever processes have done with a cache that was empty, where each changes, writes and releases a
-- buffer only while it holds its lock, and releases one that it has changed only after it has written it
-- or put it into a transaction: once no buffer is in use or part of a transaction, the disk has what
-- every block was last changed to, though buffers have been recycled.
pub Reach-stored :
    (n : ℕ) (disk : ℕ → List ℕ) (size : ℕ) (u : Use) (b : ℕ)
    → Reach (start n disk size) u
    → ((i : ℕ) → In i u.cache.order → unused (u.cache.buf i) ≡ true)
    → u.cache.disk b ≡ u.view b
Reach-stored n disk size u b r idle =
    let co = Reach-IsCoherent (start-IsCoherent n disk size) r in
    elim (co.stored b) [
      | inl d ↦ d
      | inr k ↦ absurd (let x = idle k.slot k.listed in let y = k.kept in cc)
    ]
