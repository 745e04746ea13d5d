-- ===== src/Net/Arp.antt =====
-- The ARP table (xv6/arp.c).
use operation_system.Base.{
  ℕ, ◌+◌, ◌≡◌, refl, ap, Bool, true, false, ◌&&◌, Option, none, some, List, [], ◌∷◌, ◌==◌,
  if◌then◌else◌, get_or, set, All,
}

-- `struct arp_entry`: `ip` and `mac` hold four and six bytes.
pub record ArpEntry : Type 0 where
  pub ip : List ℕ
  pub mac : List ℕ
  pub used : Bool

-- `memcmp(a, b, n) == 0` over two arrays of `n` bytes.
abbrev pub same_bytes : List ℕ → List ℕ → Bool
same_bytes [] [] = true
same_bytes (x ∷ xs) (y ∷ ys) = (x == y) && same_bytes xs ys
same_bytes _ _ = false

-- What `arp_table_search` returns: the index of the entry, or -(i + 1) for a free entry `i`, which
-- it keeps in `empty` as -i, starting from 1.
pub data Found : Type 0 where
  entry : ℕ → Found
  free : ℕ → Found

-- The loop from entry `i` on. `empty` is `some e` once it holds `-e`. A full table leaves `empty` at
-- 1, so that the function returns 0.
pub search_from : List ℕ → List ArpEntry → ℕ → Option ℕ → Found
search_from ip [] i none = entry 0
search_from ip [] i (some e) = free e
search_from ip (x ∷ xs) i empty =
    let empty' : Option ℕ = elim empty [
      | none ↦ if x.used then none else some i
      | some e ↦ some e
    ] in
    let rest = search_from ip xs (i + 1) empty' in if same_bytes x.ip ip then entry i else rest

pub arp_table_search : List ArpEntry → List ℕ → Found
unfolding search_from
arp_table_search table ip = search_from ip table 0 none

abbrev pub blank : ArpEntry
blank = record { ip = []; mac = []; used = false }

abbrev pub put_found : List ArpEntry → List ℕ → List ℕ → Found → List ArpEntry
put_found table ip mac (entry i) = set table i (record (get_or table i blank) { mac = mac })
put_found table ip mac (free i) = set table i (record { ip = ip; mac = mac; used = true })

-- `arp_table_update`, for a packet's `src_ip` and `src_mac`.
pub arp_table_update : List ArpEntry → List ℕ → List ℕ → List ArpEntry
unfolding arp_table_search
arp_table_update table ip mac = put_found table ip mac (arp_table_search table ip)

search_from-full :
    (ip : List ℕ) (table : List ArpEntry) (i : ℕ)
    → All (λ x. (x.used ≡ true) × (same_bytes x.ip ip ≡ false)) table
    → search_from ip table i none ≡ entry 0
unfolding search_from
search_from-full ip [] i h = refl
search_from-full ip (x ∷ xs) i h =
    let rest = search_from-full ip xs (i + 1) h.1 in rw (h.0.0, h.0.1, rest)

-- On a table all of whose entries are used, none of them for the packet's IP address, the update
-- gives entry 0 the MAC address of the packet, leaves that entry its IP address, and changes no other
-- entry.
pub arp_table_update-full :
    (table : List ArpEntry) (ip mac : List ℕ)
    → All (λ x. (x.used ≡ true) × (same_bytes x.ip ip ≡ false)) table
    → arp_table_update table ip mac ≡ set table 0 (record (get_or table 0 blank) { mac = mac })
unfolding arp_table_update arp_table_search
arp_table_update-full table ip mac h = ap (put_found table ip mac) (search_from-full ip table 0 h)
