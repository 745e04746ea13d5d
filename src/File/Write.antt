-- ===== src/File/Write.antt =====
-- `filewrite` of xv6/file.c: a long write in several transactions.
use operation_system.Fs.Content.Map.{Full}
use operation_system.Fs.Content.Calls.{writei-Ok, WriteOk}
use operation_system.File.{
  turn_unlocked, ok, turn_device, turn_wait, turn_panic, turn_failed, writei, done, turn_write,
  turn_done, device, turn_end, turn, Turn,
}
use operation_system.Fs.Content.{Io, failed, panicked}
use operation_system.Base.{
  subst, ℕ, ◌+◌, ◌*◌, ◌^◌, ◌≤◌, ◌<◌, ◌≡◌, refl, sym, ap, ◌∙◌, ◌≢◌, ◌⊎◌, Bool, true, false, not,
  ◌||◌, arith, ltb, length, set, length-set, get_or-set_self,
}
use operation_system.Fs.{Dinode, Fs, bsize}
use operation_system.Fs.Content.Owned.{byte_of, Owned}
use operation_system.Fs.Content.Round.{spliced}
use operation_system.Fs.Icache.{no_inode, Inode, put_inode, ilock, iunlock, Kern, inode}

-- The inode `i` of the cache is in use, valid and not locked, and is a regular file.
pub record IsReady (k : Kern) (i : ℕ) : Type 0 where
  pub cached : i < length k.icache
  pub in_use : (inode k i).ref ≢ 0
  pub unlocked : (inode k i).locked ≡ false
  pub read : (inode k i).valid ≡ true
  pub regular : (inode k i).d.type ≢ 3
  pub size : (inode k i).d.size ≤ 140 * bsize
  pub owned : Owned k.fs (inode k i).d

abbrev pub file_byte : Kern → ℕ → ℕ → ℕ
file_byte k i = byte_of k.fs (inode k i).d

-- One transaction has written `n` bytes at `off`.
pub record TurnWrote (k : Kern) (i : ℕ) (src : ℕ → ℕ) (off n : ℕ) (k' : Kern) : Type 0 where
  pub ready : IsReady k' i
  pub bytes : (j : ℕ) → j < 140 * bsize → file_byte k' i j ≡ spliced (file_byte k i) src off n j
  pub covers : n ≢ 0 → off + n ≤ (inode k' i).d.size
  pub in_order : off ≤ (inode k i).d.size

abbrev pub TurnOr : Kern → ℕ → (ℕ → ℕ) → ℕ → ℕ → Turn → Type 0
TurnOr k i src off n (turn_failed k') =
    (((inode k i).d.size < off) ⊎ (140 * bsize < off + n))
    × IsReady k' i
    × ((j : ℕ) → file_byte k' i j ≡ file_byte k i j)
TurnOr k i src off n turn_panic = (fs : Fs) × Full fs
TurnOr k i src off n turn_wait = ⊥
TurnOr k i src off n turn_device = ⊥
TurnOr k i src off n (turn_done k') = TurnWrote k i src off n k'

abbrev held : Kern → ℕ → Kern
held k i = put_inode k i (record (inode k i) { locked = true })

inode-put : (k : Kern) (i : ℕ) (ip : Inode) → i < length k.icache → inode (put_inode k i ip) i ≡ ip
inode-put k i ip lt = get_or-set_self k.icache i ip no_inode lt

ilock-ready : (k : Kern) (i : ℕ) → IsReady k i → ilock i k ≡ ok (held k i)
unfolding ilock
ilock-ready k i r =
    let a : ltb (inode k i).ref 1 ≡ false = ground (arith, r.in_use) in rw (a, r.unlocked, r.read)

iunlock-held :
    (k : Kern) (i : ℕ) (ip : Inode)
    → inode k i ≡ ip
    → ip.locked ≡ true
    → ip.ref ≢ 0
    → iunlock i k ≡ ok (put_inode k i (record ip { locked = false }))
unfolding iunlock
iunlock-held k i ip e l r =
    let a : (not (inode k i).locked || ltb (inode k i).ref 1) ≡ false =
      ap (λ (x : Inode). not x.locked || ltb x.ref 1) e ∙ ground (arith, l, r) in
    rw a (ap (λ x. ok (put_inode k i (record x { locked = false }))) e)

-- What is left of a turn after `writei`.
ended-Or :
    (k : Kern) (i : ℕ) (src : ℕ → ℕ) (off n : ℕ) (r : Io)
    → IsReady k i
    → WriteOk k.fs (inode k i).inum (inode k i).d src off n r
    → TurnOr k i src off n (turn_end i (held k i) r)
ended-Or k i src off n failed rd w =
    let k1 = held k i in
    let ip1 : Inode = record (inode k i) { locked = true } in
    let l1 : i < length k1.icache = omega (arith, length-set k.icache i ip1, rd.cached) in
    let e1 : inode k1 i ≡ ip1 = inode-put k i _ rd.cached in
    let k3 = put_inode k1 i (record ip1 { locked = false }) in
    let e3 : inode k3 i ≡ record ip1 { locked = false } = inode-put k1 i _ l1 in
    let ed : (inode k3 i).d ≡ (inode k i).d = ap (λ (x : Inode). x.d) e3 in
    subst (λ x. TurnOr k i src off n (turn_unlocked turn_failed x))
      (sym (iunlock-held k1 i ip1 e1 refl rd.in_use))
      (
        w,
        record {
          cached = omega (arith, length-set k1.icache i (record ip1 { locked = false }), l1);
          in_use = ground (arith, ap (λ (x : Inode). x.ref) e3, rd.in_use);
          unlocked = ap (λ (x : Inode). x.locked) e3;
          read = ap (λ (x : Inode). x.valid) e3 ∙ rd.read;
          regular = λ t. rd.regular (sym (ap (λ (x : Dinode). x.type) ed) ∙ t);
          size = ground (arith, ap (λ (x : Dinode). x.size) ed, rd.size);
          owned = subst (Owned k.fs) (sym ed) rd.owned;
        },
        (λ j. ap (λ x. byte_of k.fs x j) ed),
      )
ended-Or k i src off n panicked rd (fs', ip', g, full) = (fs', full)
ended-Or k i src off n (device m) rd w = absurd w
ended-Or k i src off n (done fs d out) rd (le, fits, w) =
    let k1 = held k i in
    let ip1 : Inode = record (inode k i) { locked = true; d = d } in
    let k2 : Kern = record { fs = fs; icache = set k1.icache i (record (inode k1 i) { d = d }) } in
    let l1 : i < length k1.icache =
      omega (arith, length-set k.icache i (record (inode k i) { locked = true }), rd.cached) in
    let e1 : inode k1 i ≡ record (inode k i) { locked = true } = inode-put k i _ rd.cached in
    let e2 : inode k2 i ≡ ip1 =
      get_or-set_self k1.icache i (record (inode k1 i) { d = d }) no_inode l1
      ∙ ap (λ (x : Inode). record x { d = d }) e1 in
    let k3 = put_inode k2 i (record ip1 { locked = false }) in
    let l2 : i < length k2.icache =
      omega (arith, length-set k1.icache i (record (inode k1 i) { d = d }), l1) in
    let e3 : inode k3 i ≡ record ip1 { locked = false } = inode-put k2 i _ l2 in
    let ed : (inode k3 i).d ≡ d = ap (λ (x : Inode). x.d) e3 in
    subst (λ x. TurnOr k i src off n (turn_unlocked turn_done x))
      (sym (iunlock-held k2 i ip1 e2 refl rd.in_use))
      (record {
        ready = record {
          cached = omega (arith, length-set k2.icache i (record ip1 { locked = false }), l2);
          in_use = ground (arith, ap (λ (x : Inode). x.ref) e3, rd.in_use);
          unlocked = ap (λ (x : Inode). x.locked) e3;
          read = ap (λ (x : Inode). x.valid) e3 ∙ rd.read;
          regular = λ t. rd.regular (sym w.same_type ∙ sym (ap (λ (x : Dinode). x.type) ed) ∙ t);
          size = ground (arith, ap (λ (x : Dinode). x.size) ed, w.size, rd.size, fits);
          owned = rw ed w.owned;
        };
        bytes = λ j lj. ap (λ x. byte_of fs x j) ed ∙ w.bytes j lj;
        covers = λ nz. ground (arith, ap (λ (x : Dinode). x.size) ed, w.size, nz);
        in_order = le;
      })

pub turn-Or :
    (handled : ℕ → Bool) (k : Kern) (i : ℕ) (src : ℕ → ℕ) (off n : ℕ)
    → IsReady k i
    → off < 2 ^ 32
    → n < 2 ^ 32
    → TurnOr k i src off n (turn handled i src off n k)
unfolding turn
turn-Or handled k i src off n r lo ln =
    let k1 = held k i in
    let e1 : inode k1 i ≡ record (inode k i) { locked = true } = inode-put k i _ r.cached in
    let w =
      writei-Ok handled k.fs (inode k i).inum (inode k i).d src off n r.owned r.regular r.size lo
        ln in
    let locked = ilock-ready k i r in
    let same : turn_write handled i src off n (ilock i k)
        ≡ turn_end i k1 (writei handled k.fs (inode k i).inum (inode k i).d src off n) =
      ap (turn_write handled i src off n) locked
      ∙ ap (λ (x : Inode). turn_end i k1 (writei handled k.fs x.inum x.d src off n)) e1 in
    rw same
      (ended-Or k i src off n (writei handled k.fs (inode k i).inum (inode k i).d src off n) r w)
