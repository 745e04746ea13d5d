-- ===== src/Fs/Content/Map.antt =====
-- `bmap` of xv6/fs.c.
use operation_system.Base.{
  ℕ, ◌+◌, ◌-◌, ◌*◌, ◌≤◌, ◌<◌, ◌≡◌, refl, sym, ap, ◌∙◌, ◌≢◌, ◌⊎◌, inl, inr, true, Option, none, some,
  arith, ltb, ◌==◌, ==_iff, if_intro,
}
use operation_system.Fs.{Dinode, Fs, bsize, ndirect, nindirect, word}
use operation_system.Fs.Alloc.{used, balloc}
use operation_system.Fs.Alloc.Lowest.{Allocates, balloc-Allocates}
use operation_system.Fs.Content.{
  Mapped, set_addr, got_addr, ensure, got_entry, ensure_entry, then_entry, bmap,
}
use operation_system.Fs.Content.Owned.{
  blk, byte_of, Owned, Grows, Grows-refl, Grows-trans, Granted, Granted_ne_zero, Granted-Grows,
  Granted-Owned, Granted_bytes,
}
use operation_system.Fs.Content.Grant.{
  blk-entry, direct-Granted, indirect-Granted, with_entry, entry-Granted,
}

-- What `bmap` has done for block `bn` of the file: it is block `a`, allocated if need be. Every byte
-- of the file reads as before.
pub record Maps (fs : Fs) (ip : Dinode) (bn : ℕ) (fs' : Fs) (ip' : Dinode) (a : ℕ) : Type 0 where
  pub owned : Owned fs' ip'
  pub grows : Grows fs ip fs' ip'
  pub at : blk fs' ip' bn ≡ a
  pub there : a ≢ 0
  pub bytes : (i : ℕ) → i < 140 * bsize → byte_of fs' ip' i ≡ byte_of fs ip i

Granted-Maps :
    (fs : Fs) (ip : Dinode) (k b : ℕ) (fs' : Fs) (ip' : Dinode)
    → Owned fs ip
    → k ≤ 140
    → Granted fs ip k b fs' ip'
    → Maps fs ip k fs' ip' b
Granted-Maps fs ip k b fs' ip' o le g = record {
  owned = Granted-Owned fs ip k b fs' ip' g le o;
  grows = Granted-Grows fs ip k b fs' ip' g le o;
  at = g.slot;
  there = Granted_ne_zero fs ip k b fs' ip' g le o;
  bytes = λ i lt. Granted_bytes fs ip k b fs' ip' g le o i (omega (arith, lt));
}

stays-Maps :
    (fs : Fs) (ip : Dinode) (k a : ℕ) → Owned fs ip → blk fs ip k ≡ a → a ≢ 0 → Maps fs ip k fs ip a
stays-Maps fs ip k a o e nz = record {
  owned = o;
  grows = Grows-refl fs ip;
  at = e;
  there = nz;
  bytes = λ i lt. refl;
}

-- Only a file system with no free block makes them panic.
abbrev pub Full : Fs → Type 0
Full fs = (k : ℕ) → k < fs.sb.size → used fs k ≡ true

abbrev pub MapsOr : Fs → Dinode → ℕ → Mapped → Type 0
MapsOr fs ip k none = (fs' : Fs) × (ip' : Dinode) × Grows fs ip fs' ip' × Full fs'
MapsOr fs ip k (some (fs', ip', a)) = Maps fs ip k fs' ip' a

got_addr-Maps :
    (fs : Fs) (ip : Dinode) (i k : ℕ) (r : Option (Fs × ℕ))
    → Owned fs ip
    → (i < 12) × (k ≡ i) ⊎ (i ≡ 12) × (k ≡ 140)
    → ip.addrs i ≡ 0
    → Allocates fs r
    → MapsOr fs ip k (got_addr ip i r)
got_addr-Maps fs ip i k none o kind z full = (fs, ip, Grows-refl fs ip, full)
got_addr-Maps fs ip i k (some (fs1, b)) o (inl (lt, e)) z t = rw e (
    Granted-Maps fs ip i b fs1 (set_addr ip i b) o (omega (arith, lt))
      (direct-Granted fs ip fs1 b o t i lt z))
got_addr-Maps fs ip i k (some (fs1, b)) o (inr (top, e)) z t =
    rw (e, top)
      (Granted-Maps fs ip 140 b fs1 (set_addr ip 12 b) o (omega arith)
        (indirect-Granted fs ip fs1 b o t (ap ip.addrs (sym top) ∙ z)))

kind_slot :
    (fs : Fs) (ip : Dinode) (i k : ℕ)
    → (i < 12) × (k ≡ i) ⊎ (i ≡ 12) × (k ≡ 140)
    → blk fs ip k ≡ ip.addrs i
kind_slot fs ip i k (inl (lt, e)) = ground (arith, lt, e)
kind_slot fs ip i k (inr (top, e)) = ground (arith, top, e)

ensure-Maps :
    (fs : Fs) (ip : Dinode) (i k : ℕ)
    → Owned fs ip
    → (i < 12) × (k ≡ i) ⊎ (i ≡ 12) × (k ≡ 140)
    → MapsOr fs ip k (ensure fs ip i)
unfolding ensure
ensure-Maps fs ip i k o kind =
    if_intro (MapsOr fs ip k) (ip.addrs i == 0)
      (λ z.
        got_addr-Maps fs ip i k (balloc fs) o kind ((==_iff (ip.addrs i) 0).0 z)
          (balloc-Allocates fs))
      (λ nz.
        stays-Maps fs ip k (ip.addrs i) o (kind_slot fs ip i k kind) (λ z. ground (arith, nz, z)))

got_entry-Maps :
    (fs : Fs) (ip : Dinode) (i : ℕ) (r : Option (Fs × ℕ))
    → Owned fs ip
    → i < 128
    → ip.addrs 12 ≢ 0
    → word (fs.byte (ip.addrs 12)) i ≡ 0
    → Allocates fs r
    → MapsOr fs ip (i + 12) (got_entry ip (ip.addrs 12) i r)
got_entry-Maps fs ip i none o lt nz z full = (fs, ip, Grows-refl fs ip, full)
got_entry-Maps fs ip i (some (fs1, b)) o lt nz z t =
    Granted-Maps fs ip (i + 12) b (with_entry fs ip fs1 b o t i) ip o (omega (arith, lt))
      (entry-Granted fs ip fs1 b o t i lt nz z)

ensure_entry-Maps :
    (fs : Fs) (ip : Dinode) (i : ℕ)
    → Owned fs ip
    → i < 128
    → ip.addrs 12 ≢ 0
    → MapsOr fs ip (i + 12) (ensure_entry fs ip (ip.addrs 12) i)
unfolding ensure_entry
ensure_entry-Maps fs ip i o lt nz =
    let w = word (fs.byte (ip.addrs 12)) i in
    if_intro (MapsOr fs ip (i + 12)) (w == 0)
      (λ z. got_entry-Maps fs ip i (balloc fs) o lt nz ((==_iff w 0).0 z) (balloc-Allocates fs))
      (λ more.
        stays-Maps fs ip (i + 12) w o (blk-entry fs ip (i + 12) i refl (omega (arith, lt)) nz)
          (λ z. let x = (==_iff w 0).1 z in cc))

Maps-trans :
    (fs : Fs) (ip : Dinode) (j : ℕ) (fs1 : Fs) (ip1 : Dinode) (a k : ℕ) (r : Mapped)
    → Maps fs ip j fs1 ip1 a
    → MapsOr fs1 ip1 k r
    → MapsOr fs ip k r
Maps-trans fs ip j fs1 ip1 a k none m (fs2, ip2, g, full) =
    (fs2, ip2, Grows-trans fs ip fs1 ip1 fs2 ip2 m.grows g, full)
Maps-trans fs ip j fs1 ip1 a k (some (fs2, ip2, b)) m n = record {
  owned = n.owned;
  grows = Grows-trans fs ip fs1 ip1 fs2 ip2 m.grows n.grows;
  at = n.at;
  there = n.there;
  bytes = λ i lt. n.bytes i lt ∙ m.bytes i lt;
}

then_entry-Maps :
    (fs : Fs) (ip : Dinode) (i : ℕ) (r : Mapped)
    → i < 128
    → MapsOr fs ip 140 r
    → MapsOr fs ip (i + 12) (then_entry i r)
then_entry-Maps fs ip i none lt m = m
then_entry-Maps fs ip i (some (fs1, ip1, a)) lt m =
    let e : ip1.addrs 12 ≡ a = ground (arith, m.at) in
    Maps-trans fs ip 140 fs1 ip1 a (i + 12) (ensure_entry fs1 ip1 a i) m
      (rw (← e) (ensure_entry-Maps fs1 ip1 i m.owned lt (λ z. m.there (sym e ∙ z))))

-- `bmap` of a block number below MAXFILE finds the file's block, or gives it a free one that reads as
-- zeros, through the indirect block if need be; every byte of the file reads as before, its blocks
-- stay distinct and marked, and every block in use by others stays as it is. It panics only when no
-- block of the disk is free.
pub bmap-Maps :
    (fs : Fs) (ip : Dinode) (bn : ℕ) → Owned fs ip → bn < 140 → MapsOr fs ip bn (bmap fs ip bn)
unfolding bmap
bmap-Maps fs ip bn o lt =
    if_intro (MapsOr fs ip bn) (ltb bn ndirect)
      (λ low. ensure-Maps fs ip bn bn o (inl (ground (arith, low), refl)))
      (λ high.
        let inside : ltb (bn - ndirect) nindirect ≡ true = ground (arith, high, lt) in
        let e : bn ≡ bn - ndirect + 12 = ground (arith, high) in
        rw inside (
          let m =
            then_entry-Maps fs ip (bn - ndirect) (ensure fs ip ndirect) (ground (arith, inside))
              (ensure-Maps fs ip 12 140 o (inr (refl, refl))) in
          rw (← e) at m))
