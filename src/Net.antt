-- ===== src/Net.antt =====
-- The kernel's network code: byte order (xv6/eth.c) and checksums (xv6/icmp.c, xv6/ipv4.c).
pub mod Order
pub mod Arp
pub mod Checksum
pub mod Tests
use operation_system.Base.{
  ℕ, ◌+◌, ◌-◌, ◌*◌, ◌/◌, ◌%◌, ◌^◌, not, List, [], ◌∷◌, sum, ltb, if◌then◌else◌, get_or, take,
}

-- `N2H_ushort` and `H2N_ushort`, on a 16-bit value; the result is cut to 16 bits.
pub n2h_ushort : ℕ → ℕ
n2h_ushort v = (v % 2 ^ 8 * 2 ^ 8 + v / 2 ^ 8) % 2 ^ 16

pub h2n_ushort : ℕ → ℕ
h2n_ushort v = (v % 2 ^ 8 * 2 ^ 8 + v / 2 ^ 8) % 2 ^ 16

-- `N2H_uint`, `v & 0xFF00` being byte 1 of the value in its place, and so on.
pub n2h_uint : ℕ → ℕ
n2h_uint v =
    (v % 2 ^ 8 * 2 ^ 24
      + v / 2 ^ 8 % 2 ^ 8 * 2 ^ 8 * 2 ^ 8
      + v / 2 ^ 16 % 2 ^ 8 * 2 ^ 16 / 2 ^ 8
      + v / 2 ^ 24 % 2 ^ 8 * 2 ^ 24 / 2 ^ 24)
    % 2 ^ 32

-- `H2N_uint`, whose masks `0xF`, `0xF0`, `0xF00` and `0xF000` pick four bits each.
pub h2n_uint : ℕ → ℕ
h2n_uint v =
    (v % 2 ^ 4 * 2 ^ 24
      + v / 2 ^ 4 % 2 ^ 4 * 2 ^ 4 * 2 ^ 8
      + v / 2 ^ 8 % 2 ^ 4 * 2 ^ 8 / 2 ^ 8
      + v / 2 ^ 12 % 2 ^ 4 * 2 ^ 12 / 2 ^ 24)
    % 2 ^ 32

-- The loops of `icmp_chksum` and `ipv4_chksum` over the byte pairs of the list; a last single byte
-- is not reached.
pub chksum_loop : ℕ → List ℕ → ℕ
chksum_loop sum [] = sum
chksum_loop sum (hi ∷ []) = sum
chksum_loop sum (hi ∷ lo ∷ bytes) =
    let s = sum + (hi * 2 ^ 8 + lo) in
    chksum_loop (if ltb 0xFFFF s then s % 2 ^ 16 + 1 else s) bytes

-- `~chk_sum` as a `ushort`.
abbrev pub complement : ℕ → ℕ
complement s = 2 ^ 16 - 1 - s % 2 ^ 16

-- 64 bytes of an ICMP echo packet.
pub icmp_chksum : List ℕ → ℕ
unfolding chksum_loop
icmp_chksum bytes = complement (chksum_loop 0 (take 64 bytes))

-- As many 32-bit words as the low half of the first byte says.
pub ipv4_chksum : List ℕ → ℕ
unfolding chksum_loop
ipv4_chksum bytes = complement (chksum_loop 0 (take (get_or bytes 0 0 % 2 ^ 4 * 4) bytes))
