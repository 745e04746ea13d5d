-- ===== src/Fs/Alloc.antt =====
-- `balloc`, `bfree` and `bzero` of xv6/fs.c.
pub mod Lowest
use operation_system.Base.{
  ℕ, zero, suc, ◌+◌, ◌-◌, ◌/◌, ◌%◌, Bool, true, false, Option, none, some, [], ltb, ◌==◌,
  if◌then◌else◌,
}
use operation_system.Fs.{Fs, bpb, bblock, put2}

-- The inner loop of `balloc` from bit `bi` on, with `n` bits of the bitmap block left.
unfoldable pub scan_bits : (ℕ → Bool) → ℕ → ℕ → ℕ → ℕ → Option ℕ
scan_bits row b size bi zero = none
scan_bits row b size bi (suc n) =
    let rest = scan_bits row b size (bi + 1) n in
    if ltb (b + bi) size then if row bi then rest else some bi else none

-- The outer loop from block `b` on; `n` rounds at most.
unfoldable pub scan_map : Fs → ℕ → ℕ → Option ℕ
scan_map fs b zero = none
scan_map fs b (suc n) =
    let rest = scan_map fs (b + bpb) n in
    if ltb b fs.sb.size
    then elim (scan_bits (fs.bits (bblock b fs.sb)) b fs.sb.size 0 bpb) [
      | some bi ↦ some (b + bi)
      | none ↦ rest
    ]
    else none

abbrev pub bzero : ℕ → Fs → Fs
bzero b fs = record fs { byte = λ c j. if b == c then 0 else fs.byte c j }

abbrev pub put_bit : ℕ → Bool → Fs → Fs
put_bit b v fs = record fs { bits = put2 fs.bits (bblock b fs.sb) (b % bpb) v }

abbrev pub used : Fs → ℕ → Bool
used fs b = fs.bits (bblock b fs.sb) (b % bpb)

abbrev pub take_block : Fs → Option ℕ → Option (Fs × ℕ)
take_block fs none = none
take_block fs (some b) = some (bzero b (put_bit b true fs), b)

-- `none` is the panic.
unfoldable pub balloc : Fs → Option (Fs × ℕ)
balloc fs = take_block fs (scan_map fs 0 (fs.sb.size / bpb + 1))

-- `none` is the panic. `readsb` reads the superblock again, which nobody writes.
pub bfree : ℕ → Fs → Option Fs
bfree b fs = if used fs b then some (put_bit b false fs) else none
