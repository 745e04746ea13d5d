-- ===== src/Fs/Content/Calls.antt =====
-- `readi` and `writei` of xv6/fs.c as reads and writes of an array of bytes.
use operation_system.Fs.Content.Read.{read_loop-DidRead, ReadOr, DidRead}
use operation_system.Base.{
  min, List, ℕ, ◌+◌, ◌-◌, ◌*◌, ◌%◌, ◌^◌, ◌≤◌, ◌<◌, ◌≡◌, refl, ap, ap₂, ◌∙◌, ◌≢◌, ◌⊎◌, inl, inr,
  Bool, true, false, ◌&&◌, ◌||◌, Option, none, some, arith, ltb, ◌==◌, if◌then◌else◌, ltb→lt,
  Bool-cases, if_intro,
}
use operation_system.Fs.{Dinode, Fs, bsize, ipb, iblock, put2}
use operation_system.Fs.Alloc.{used}
use operation_system.Fs.Content.{
  read_end, read_loop, readi, Io, failed, panicked, device, done, write_loop, iupdate, write_end,
  writei,
}
use operation_system.Fs.Content.Owned.{blk, byte_of, Owned, Grows}
use operation_system.Fs.Content.Map.{Full}
use operation_system.Fs.Content.Round.{spliced}
use operation_system.Fs.Content.Write.{WroteOr, write_loop-Wrote}

abbrev pub grown : Dinode → ℕ → ℕ → Bool
grown ip off n = ltb 0 n && ltb ip.size (off + n)

-- The file after a write: the bytes are there, the size covers them, the inode on the disk has the
-- new size, and the used blocks of others are as they were.
pub record Written (fs : Fs) (inum : ℕ) (ip : Dinode) (src : ℕ → ℕ) (off n : ℕ) (fs' : Fs)
    (ip' : Dinode) : Type 0 where
  pub owned : Owned fs' ip'
  pub bytes : (i : ℕ) → i < 140 * bsize → byte_of fs' ip' i ≡ spliced (byte_of fs ip) src off n i
  pub size : ip'.size ≡ (if grown ip off n then off + n else ip.size)
  pub same_type : ip'.type ≡ ip.type
  pub on_disk :
      fs'.inodes
      ≡ (if grown ip off n then put2 fs.inodes (iblock inum fs.sb) (inum % ipb) ip' else fs.inodes)
  pub others :
      (b i : ℕ)
      → used fs b ≡ true
      → ((k : ℕ) → k ≤ 140 → blk fs ip k ≢ b)
      → fs'.byte b i ≡ fs.byte b i

abbrev pub WriteOk : Fs → ℕ → Dinode → (ℕ → ℕ) → ℕ → ℕ → Io → Type 0
WriteOk fs inum ip src off n failed = (ip.size < off) ⊎ (140 * bsize < off + n)
WriteOk fs inum ip src off n panicked = (fs' : Fs) × (ip' : Dinode) × Grows fs ip fs' ip' × Full fs'
WriteOk fs inum ip src off n (device major) = ⊥
WriteOk fs inum ip src off n (done fs' ip' out) =
    (off ≤ ip.size) × (off + n ≤ 140 * bsize) × Written fs inum ip src off n fs' ip'

-- The inode as it is written to the disk has the same blocks.
stored-Owned :
    (fs : Fs) (inum : ℕ) (ip : Dinode) (size : ℕ)
    → Owned fs ip
    → Owned (iupdate fs inum (record ip { size = size })) (record ip { size = size })
unfolding iupdate
stored-Owned fs inum ip size o = record {
  apart = o.apart;
  taken = o.taken;
  boot = o.boot;
  small = o.small;
}

write_end-Ok :
    (fs : Fs) (inum : ℕ) (ip : Dinode) (src : ℕ → ℕ) (off n : ℕ) (r : Option (Fs × Dinode))
    → off ≤ ip.size
    → off + n ≤ 140 * bsize
    → WroteOr fs ip src off n r
    → WriteOk fs inum ip src off n (write_end inum n (off + n) r)
unfolding iupdate
write_end-Ok fs inum ip src off n none le fits w = w
write_end-Ok fs inum ip src off n (some (fs', ip')) le fits w =
    let g = w.grows in
    let grow : (ltb 0 n && ltb ip'.size (off + n)) ≡ grown ip off n =
      ap (λ x. ltb 0 n && ltb x (off + n)) g.same_size in
    elim (Bool-cases (grown ip off n)) [
      | inl yes_grown ↦ rw (grow ∙ yes_grown) (
        le,
        fits,
        record {
          owned = stored-Owned fs' inum ip' (off + n) w.owned;
          bytes = w.bytes;
          size = rw yes_grown refl;
          same_type = g.same_type;
          on_disk = rw yes_grown (
              ap₂ (λ x y. put2 x (iblock inum y) (inum % ipb) (record ip' { size = off + n }))
                g.same_inodes g.same_sb);
          others = g.frame;
        },
      )
      | inr no_growth ↦ rw (grow ∙ no_growth) (
        le,
        fits,
        record {
          owned = w.owned;
          bytes = w.bytes;
          size = rw no_growth g.same_size;
          same_type = g.same_type;
          on_disk = rw no_growth g.same_inodes;
          others = g.frame;
        },
      )
    ]

no_wrap :
    (off n : ℕ)
    → off < 2 ^ 32
    → n < 2 ^ 32
    → ltb ((off + n) % 2 ^ 32) off ≡ false
    → (off + n) % 2 ^ 32 ≡ off + n
no_wrap off n lo ln h = let x : off ≤ (off + n) % 2 ^ 32 = ground (arith, h) in omega (arith, x)

wraps :
    (off n : ℕ)
    → off < 2 ^ 32
    → n < 2 ^ 32
    → ltb ((off + n) % 2 ^ 32) off ≡ true
    → 140 * bsize < off + n
wraps off n lo ln h =
    let x : (off + n) % 2 ^ 32 < off = ltb→lt ((off + n) % 2 ^ 32) off h in omega (arith, x)

-- `writei` of `n` bytes at `off` into a regular file fails only if `off` is behind its end or the file
-- would get longer than MAXFILE blocks, and panics only when no block of the disk is free. Else
-- neither is so, and the file then has the `n` bytes at `off`, and the bytes it had everywhere else;
-- its size grows to cover them, also on the disk; and no used block of another file changes.
pub writei-Ok :
    (has_write : ℕ → Bool) (fs : Fs) (inum : ℕ) (ip : Dinode) (src : ℕ → ℕ) (off n : ℕ)
    → Owned fs ip
    → ip.type ≢ 3
    → ip.size ≤ 140 * bsize
    → off < 2 ^ 32
    → n < 2 ^ 32
    → WriteOk fs inum ip src off n (writei has_write fs inum ip src off n)
unfolding writei
writei-Ok has_write fs inum ip src off n o regular size lo ln =
    let kind : (ip.type == 3) ≡ false = ground (arith, regular) in
    rw kind (
      if_intro (WriteOk fs inum ip src off n) (ltb ip.size off || ltb ((off + n) % 2 ^ 32) off)
        (λ bad. elim (Bool-cases (ltb ip.size off)) [
          | inl behind ↦ inl (ltb→lt ip.size off behind)
          | inr ahead ↦ inr (wraps off n lo ln (ground (arith, bad, ahead)))
        ])
        (λ good.
          let whole : (off + n) % 2 ^ 32 ≡ off + n = no_wrap off n lo ln (ground (arith, good)) in
          rw whole (
            if_intro (WriteOk fs inum ip src off n) (ltb (140 * bsize) (off + n))
              (λ long. inr (ltb→lt (140 * bsize) (off + n) long))
              (λ short.
                write_end-Ok fs inum ip src off n (write_loop fs ip src off n n)
                  (ground (arith, good)) (ground (arith, short))
                  (write_loop-Wrote fs ip src off n n o (ground (arith, short)) (omega arith))))))

overflows :
    (off n : ℕ) → off < 2 ^ 32 → n < 2 ^ 32 → ltb ((off + n) % 2 ^ 32) off ≡ true → 2 ^ 32 ≤ off + n
overflows off n lo ln h =
    let x : (off + n) % 2 ^ 32 < off = ltb→lt ((off + n) % 2 ^ 32) off h in omega (arith, x)

abbrev pub ReadOk : Fs → Dinode → ℕ → ℕ → Io → Type 0
ReadOk fs ip off n failed = (ip.size < off) ⊎ (2 ^ 32 ≤ off + n)
ReadOk fs ip off n panicked = (fs' : Fs) × (ip' : Dinode) × Grows fs ip fs' ip' × Full fs'
ReadOk fs ip off n (device major) = ⊥
ReadOk fs ip off n (done fs' ip' out) =
    (off ≤ ip.size) × (off + n < 2 ^ 32) × DidRead fs ip off (min n (ip.size - off)) fs' ip' out

read_end-Ok :
    (fs : Fs) (ip : Dinode) (off n m : ℕ) (r : Option (Fs × Dinode × List ℕ))
    → off ≤ ip.size
    → off + n < 2 ^ 32
    → m ≡ min n (ip.size - off)
    → ReadOr fs ip off m r
    → ReadOk fs ip off n (read_end r)
read_end-Ok fs ip off n m none le fits e d = d
read_end-Ok fs ip off n m (some (fs', ip', out)) le fits e d = (le, fits, rw e at d)

-- `readi` of `n` bytes at `off` from a regular file fails only if `off` is behind its end or `off + n`
-- is no 32-bit number, and panics only when no block of the disk is free. Else neither is so, and it
-- returns the bytes from `off` on, `n` of them or those up to the end of the file; every byte of the
-- file and every used block of others is as before.
pub readi-Ok :
    (has_read : ℕ → Bool) (fs : Fs) (ip : Dinode) (off n : ℕ)
    → Owned fs ip
    → ip.type ≢ 3
    → ip.size ≤ 140 * bsize
    → off < 2 ^ 32
    → n < 2 ^ 32
    → ReadOk fs ip off n (readi has_read fs ip off n)
unfolding readi
readi-Ok has_read fs ip off n o regular size lo ln =
    let kind : (ip.type == 3) ≡ false = ground (arith, regular) in
    rw kind (
      if_intro (ReadOk fs ip off n) (ltb ip.size off || ltb ((off + n) % 2 ^ 32) off)
        (λ bad. elim (Bool-cases (ltb ip.size off)) [
          | inl behind ↦ inl (ltb→lt ip.size off behind)
          | inr ahead ↦ inr (overflows off n lo ln (ground (arith, bad, ahead)))
        ])
        (λ good.
          let whole : (off + n) % 2 ^ 32 ≡ off + n = no_wrap off n lo ln (ground (arith, good)) in
          let le : off ≤ ip.size = ground (arith, good) in
          let m = if ltb ip.size ((off + n) % 2 ^ 32) then ip.size - off else n in
          let e : m ≡ min n (ip.size - off) =
            ap (λ x. if ltb ip.size x then ip.size - off else n) whole ∙ ground (arith, le) in
          read_end-Ok fs ip off n m (read_loop fs ip off m m) le (omega (arith, whole)) e
            (read_loop-DidRead fs ip off m m o (omega (arith, e, size, le)) (omega arith))))
