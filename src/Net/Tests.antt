-- ===== src/Net/Tests.antt =====
-- The network code at concrete inputs, and its theorems there.
use operation_system.Base.{
  ℕ, ◌+◌, ◌-◌, ◌*◌, ◌%◌, ◌^◌, ◌≡◌, refl, ◌≢◌, true, List, [], ◌∷◌, arith, get_or, take,
}
use operation_system.Net.Checksum.{word_sum, chksum_checks}
use operation_system.Net.{n2h_uint, h2n_uint, chksum_loop, icmp_chksum, ipv4_chksum}
use operation_system.Net.Arp.{ArpEntry, arp_table_update, arp_table_update-full}
use operation_system.Net.Order.{h2n_uint-ne}

-- The checksum of the bytes 0x0001, 0xFFFF: the sum 0x10000 wraps to 1.
chksum_wraps : chksum_loop 0 (0 ∷ 1 ∷ 255 ∷ 255 ∷ []) ≡ 1
unfolding chksum_loop
chksum_wraps = refl

h2n_uint-ne_example : n2h_uint (h2n_uint 100) ≢ 100
h2n_uint-ne_example = h2n_uint-ne 100 (omega arith) (omega arith)

abbrev router : ArpEntry
router = record { ip = 10 ∷ 0 ∷ 1 ∷ 1 ∷ []; mac = 1 ∷ 2 ∷ 3 ∷ 4 ∷ 5 ∷ 6 ∷ []; used = true }

arp_table_update-full_example :
    arp_table_update (router ∷ []) (10 ∷ 0 ∷ 1 ∷ 9 ∷ []) (9 ∷ 9 ∷ 9 ∷ 9 ∷ 9 ∷ 9 ∷ [])
    ≡ record router { mac = 9 ∷ 9 ∷ 9 ∷ 9 ∷ 9 ∷ 9 ∷ [] } ∷ []
arp_table_update-full_example =
    arp_table_update-full (router ∷ []) (10 ∷ 0 ∷ 1 ∷ 9 ∷ []) (9 ∷ 9 ∷ 9 ∷ 9 ∷ 9 ∷ 9 ∷ [])
      ((refl, refl), tt)

abbrev packet : List ℕ
packet = 0x41 ∷ 0 ∷ 255 ∷ 200 ∷ 7 ∷ []

-- One 32-bit word of the packet is covered: its two halves are 0x4100 and 0xFFC8.
checked : ipv4_chksum packet ≡ 0xFFFF - 0x40C9
unfolding ipv4_chksum chksum_loop
checked = refl

chksum_checks_example :
    ((k : ℕ) × (word_sum (take 64 packet) + icmp_chksum packet ≡ k * 0xFFFF))
    × ((k : ℕ) × (word_sum (take (get_or packet 0 0 % 2 ^ 4 * 4) packet) + ipv4_chksum packet
          ≡ k * 0xFFFF))
chksum_checks_example =
    chksum_checks packet
      (omega arith, (omega arith, (omega arith, (omega arith, (omega arith, tt)))))
