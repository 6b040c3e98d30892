-- ===== src/Wire/Network.antt =====
-- Which bytes the conversions of src/util.h put on the wire.
use data_spinner.Base.{ℕ, ◌+◌, ◌*◌, ◌/◌, ◌<◌, ◌≡◌, ◌≢◌, List, ◌++◌, arith}
use data_spinner.Wire.{htons, htonl, hton64, le_bytes, u32}
use data_spinner.Wire.Order.{htonl-lt, hton64_halves}
use mathlib.Core.List.{reverse}

-- Network byte order: the highest byte first.
abbrev pub network_bytes : ℕ → ℕ → List ℕ
unfolding le_bytes
network_bytes k v = reverse (le_bytes k v)

pub htons-network : (v : ℕ) → le_bytes 2 (htons v) ≡ network_bytes 2 v
unfolding le_bytes htons
htons-network v = ground arith

pub htonl-network : (v : ℕ) → le_bytes 4 (htonl v) ≡ network_bytes 4 v
unfolding le_bytes htonl
htonl-network v = ground arith

le_bytes_halves :
    (a b : ℕ) → b < 4294967296 → le_bytes 8 (a * 4294967296 + b) ≡ le_bytes 4 b ++ le_bytes 4 a
unfolding le_bytes
le_bytes_halves a b h = ground arith

-- The wire image of hton64 is the low word in network order and then the high word.
pub hton64_words :
    (v : ℕ)
    → le_bytes 8 (hton64 v) ≡ network_bytes 4 (u32 v) ++ network_bytes 4 (u32 (v / 4294967296))
hton64_words v =
    let hi = htonl (u32 (v / 4294967296)) in
    rw (
      hton64_halves v,
      le_bytes_halves hi (htonl (u32 v)) (htonl-lt (u32 v)),
      htonl-network (u32 v),
      htonl-network (u32 (v / 4294967296)),
    )

-- hton64 does not give network byte order on a uint64_t whose two 32-bit words differ.
pub hton64-ne-network :
    (v : ℕ)
    → v < 18446744073709551616
    → u32 v ≢ v / 4294967296
    → le_bytes 8 (hton64 v) ≢ network_bytes 8 v
unfolding le_bytes
hton64-ne-network v h ne e = ne (ground (arith, hton64_words v))
