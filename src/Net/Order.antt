-- ===== src/Net/Order.antt =====
-- Byte order and checksums.
use operation_system.Base.{ℕ, ◌+◌, ◌*◌, ◌^◌, ◌≤◌, ◌<◌, ◌≡◌, ◌≢◌, arith}
use operation_system.Net.{n2h_ushort, h2n_ushort, n2h_uint, h2n_uint}

-- Converting a 16-bit value to network order and back gives it back.
n2h_ushort-h2n_ushort : (v : ℕ) → v < 2 ^ 16 → n2h_ushort (h2n_ushort v) ≡ v
unfolding n2h_ushort h2n_ushort
n2h_ushort-h2n_ushort v h = omega arith

-- `N2H_uint` reverses the four bytes of a 32-bit value.
n2h_uint-bytes :
    (a b c d : ℕ)
    → a < 2 ^ 8
    → b < 2 ^ 8
    → c < 2 ^ 8
    → d < 2 ^ 8
    → n2h_uint (a * 2 ^ 24 + b * 2 ^ 16 + c * 2 ^ 8 + d) ≡ d * 2 ^ 24 + c * 2 ^ 16 + b * 2 ^ 8 + a
unfolding n2h_uint
n2h_uint-bytes a b c d ha hb hc hd = omega arith

-- `H2N_uint` is not its inverse: of every value from 16 to 255, what `N2H_uint` gives back differs.
pub h2n_uint-ne : (v : ℕ) → 16 ≤ v → v < 2 ^ 8 → n2h_uint (h2n_uint v) ≢ v
unfolding n2h_uint h2n_uint
h2n_uint-ne v lo hi = omega arith
