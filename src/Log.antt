-- ===== src/Log.antt =====
-- xv6/log.c: the redo log that makes a file system call's block writes atomic. A block is its 128
-- 32-bit words, which is how `struct logheader` lies over a block's bytes.
pub mod Disk
pub mod Header
pub mod Copy
pub mod Crash
pub mod Steps
pub mod Atomic
pub mod Space
mod Tests
use operation_system.Base.{
  ℕ, zero, suc, ◌+◌, ◌-◌, ◌*◌, ◌/◌, Bool, true, false, ◌||◌, Option, none, some, List, [], ◌∷◌,
  ◌++◌, ltb, leb, ◌==◌, if◌then◌else◌, length, get_or, set,
}
use operation_system.Log.Disk.{Block, Store, put, bwrite}

-- `struct log`. The list is `lh.block[0], …, lh.block[lh.n - 1]`; entries behind are never read.
pub record Log : Type 0 where
  pub start : ℕ
  pub size : ℕ
  pub outstanding : ℕ
  pub committing : Bool
  pub dev : ℕ
  pub lh : List ℕ

-- `hb->block[i] = lh.block[i]`, and so on, word 0 being `hb->n`.
pub put_blocks : Block → ℕ → List ℕ → Block
put_blocks hb i [] = hb
put_blocks hb i (b ∷ bs) = put_blocks (set hb (i + 1) b) (i + 1) bs

pub get_blocks : Block → ℕ → ℕ → List ℕ
get_blocks hb i zero = []
get_blocks hb i (suc n) = get_or hb (i + 1) 0 ∷ get_blocks hb (i + 1) n

pub encode : Block → List ℕ → Block
unfolding put_blocks
encode hb bs = put_blocks (set hb 0 (length bs)) 0 bs

pub decode : Block → List ℕ
unfolding get_blocks
decode hb = get_blocks hb 0 (get_or hb 0 0)

-- The loop of `install_trans` from `tail` on.
pub install_from : ℕ → Store → ℕ → List ℕ → Store
install_from start s tail [] = s
install_from start s tail (b ∷ bs) =
    install_from start (bwrite s b (s.view (start + tail + 1))) (tail + 1) bs

pub install_trans : Log → Store → Store
install_trans l s = install_from l.start s 0 l.lh

pub read_head : Log → Store → Log
read_head l s = record l { lh = decode (s.view l.start) }

pub write_head : Log → Store → Store
write_head l s = bwrite s l.start (encode (s.view l.start) l.lh)

pub recover_from_log : Log → Store → Log × Store
unfolding read_head install_trans write_head
recover_from_log l s =
    let l1 = read_head l s in
    let s1 = install_trans l1 s in let l2 = record l1 { lh = [] } in (l2, write_head l2 s1)

-- `sb.logstart` and `sb.nlog` are arguments.
pub initlog : ℕ → ℕ → ℕ → Store → Log × Store
unfolding recover_from_log
initlog dev logstart nlog s =
    recover_from_log
      (record {
        start = logstart;
        size = nlog;
        outstanding = 0;
        committing = false;
        dev = dev;
        lh = [];
      })
      s

-- The loop of `write_log` from `tail` on.
pub write_log_from : ℕ → Store → ℕ → List ℕ → Store
write_log_from start s tail [] = s
write_log_from start s tail (b ∷ bs) =
    write_log_from start (bwrite s (start + tail + 1) (s.view b)) (tail + 1) bs

pub write_log : Log → Store → Store
write_log l s = write_log_from l.start s 0 l.lh

pub commit : Log → Store → Log × Store
unfolding write_log write_head install_trans
commit l s =
    if ltb 0 (length l.lh)
    then (let s1 = write_log l s in
        let s2 = write_head l s1 in
        let s3 = install_trans l s2 in let l4 = record l { lh = [] } in (l4, write_head l4 s3))
    else (l, s)

abbrev pub maxopblocks : ℕ
maxopblocks = 10

abbrev pub logsize : ℕ
logsize = 30

-- One round of the loop of `begin_op`: `none` where the process goes to sleep on the log.
pub begin_op : Log → Option Log
begin_op l =
    if l.committing
    then none
    else if ltb logsize (length l.lh + (l.outstanding + 1) * maxopblocks)
    then none
    else some (record l { outstanding = l.outstanding + 1 })

-- The first critical section of `end_op`, with `do_commit`; `none` is the panic. `outstanding` is
-- above 0 here, since `begin_op` ran.
pub end_op : Log → Option (Log × Bool)
end_op l =
    let out = l.outstanding - 1 in
    if l.committing
    then none
    else if out == 0
    then some (record l { outstanding = out; committing = true }, true)
    else some (record l { outstanding = out }, false)

-- What `end_op` does if `do_commit` is set: it commits and lets the waiting processes on.
pub end_op_commit : Log → Store → Log × Store
unfolding commit
end_op_commit l s = let r = commit l s in (record (r.0) { committing = false }, r.1)

abbrev pub mem : ℕ → List ℕ → Bool
mem b [] = false
mem b (x ∷ xs) = (x == b) || mem b xs

-- `log_write`, the buffer's new data being `v`: the block number is recorded once (absorption), and
-- B_DIRTY keeps the buffer, so that the view keeps the data. `none` is a panic.
pub log_write : Log → Store → ℕ → Block → Option (Log × Store)
log_write l s b v =
    if leb logsize (length l.lh) || leb (l.size - 1) (length l.lh)
    then none
    else if ltb l.outstanding 1
    then none
    else some (
      (if mem b l.lh then l else record l { lh = l.lh ++ (b ∷ []) }),
      record s { view = put s.view b v },
    )
