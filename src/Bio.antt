-- ===== src/Bio.antt =====
-- xv6/bio.c: the buffer cache, over the disk of xv6/memide.c. `bcache.lock` makes the find_next of `bget`
-- and the end of `brelse` atomic. A buffer is named by its index in `bcache.buf`; its sleep lock is
-- taken or not, which is all that `holdingsleep` looks at.
pub mod Coherent
pub mod Update
pub mod Ops
pub mod Hold
pub mod Change
pub mod Latest
pub mod Tests
use operation_system.Base.{
  ℕ, zero, suc, ◌+◌, ◌-◌, Bool, true, false, not, ◌&&◌, ◌||◌, Option, none, some, List, [], ◌∷◌,
  ltb, ◌==◌, if◌then◌else◌,
}

pub record Buf : Type 0 where
  pub dev : ℕ
  pub blockno : ℕ
  pub refcnt : ℕ
  pub valid : Bool
  pub dirty : Bool
  pub locked : Bool
  pub content : List ℕ

-- `order` is the linked list from `head.next` on, the buffer used last in front.
pub record Cache : Type 0 where
  pub buf : ℕ → Buf
  pub order : List ℕ
  pub disk : ℕ → List ℕ
  pub disksize : ℕ

abbrev pub put_buf : Cache → ℕ → Buf → Cache
put_buf c s b = record c { buf = λ i. if s == i then b else c.buf i }

abbrev pub has : Cache → ℕ → ℕ → ℕ → Bool
has c dev blockno i = ((c.buf i).dev == dev) && ((c.buf i).blockno == blockno)

abbrev pub unused : Buf → Bool
unused b = (b.refcnt == 0) && not b.dirty

-- The loops of `bget`: the first index in the list with the property, and the last.
pub find_next : (ℕ → Bool) → List ℕ → Option ℕ
find_next p [] = none
find_next p (i ∷ is) = let rest = find_next p is in if p i then some i else rest

pub find_prev : (ℕ → Bool) → List ℕ → Option ℕ
find_prev p [] = none
find_prev p (i ∷ is) = elim (find_prev p is) [
  | some j ↦ some j
  | none ↦ if p i then some i else none
]

-- `binit`: each buffer is put in front of the list.
pub binit_order : ℕ → List ℕ
binit_order zero = []
binit_order (suc n) = n ∷ binit_order n

abbrev pub recycle : Cache → ℕ → ℕ → Option ℕ → Option (Cache × ℕ)
recycle c dev blockno none = none
recycle c dev blockno (some s) = some (
  put_buf c s
      (record (c.buf s) { dev = dev; blockno = blockno; refcnt = 1; valid = false; dirty = false }),
  s,
)

abbrev pub cached : Cache → ℕ → ℕ → Option ℕ → Option (Cache × ℕ)
cached c dev blockno (some s) =
    some (put_buf c s (record (c.buf s) { refcnt = (c.buf s).refcnt + 1 }), s)
cached c dev blockno none = recycle c dev blockno (find_prev (λ i. unused (c.buf i)) c.order)

-- `bget` up to `acquiresleep`; `none` is the panic.
pub bget : Cache → ℕ → ℕ → Option (Cache × ℕ)
bget c dev blockno = cached c dev blockno (find_next (has c dev blockno) c.order)

-- `none` is a panic.
pub iderw : Cache → ℕ → Option Cache
iderw c s =
    let b = c.buf s in
    if not b.locked
      || (b.valid && not b.dirty)
      || not (b.dev == 1)
      || not (ltb b.blockno c.disksize)
    then none
    else if b.dirty
    then some (record (put_buf c s (record b { dirty = false; valid = true })) {
      disk = λ a. if b.blockno == a then b.content else c.disk a;
    })
    else some (put_buf c s (record b { content = c.disk b.blockno; valid = true }))

pub data Bread : Type 0 where
  panics waits : Bread
  reads : Cache → Bread

-- `bread` from the test of `acquiresleep` on: a taken lock is waited for.
pub bread_locked : Cache → ℕ → Bread
bread_locked c s =
    let c' = put_buf c s (record (c.buf s) { locked = true }) in
    if (c.buf s).locked
    then waits
    else if (c.buf s).valid
    then reads c'
    else elim (iderw c' s) [ none ↦ panics | some c2 ↦ reads c2 ]

pub bwrite : Cache → ℕ → Option Cache
bwrite c s =
    if (c.buf s).locked then iderw (put_buf c s (record (c.buf s) { dirty = true })) s else none

abbrev pub unlink : ℕ → List ℕ → List ℕ
unlink s [] = []
unlink s (i ∷ is) = if s == i then is else i ∷ unlink s is

pub brelse : Cache → ℕ → Option Cache
brelse c s =
    let n = (c.buf s).refcnt - 1 in
    let c' = put_buf c s (record (c.buf s) { locked = false; refcnt = n }) in
    if (c.buf s).locked
    then some (if n == 0 then record c' { order = s ∷ unlink s c.order } else c')
    else none
