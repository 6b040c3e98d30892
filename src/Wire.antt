-- ===== src/Wire.antt =====
-- The byte order functions of src/util.h, and the memory images of integers that memcpy moves.
-- The host is little-endian, as on the x86 machines the program is built for; htons and htonl of
-- the C library reverse the bytes there, and ntohs and ntohl are the same functions.
pub mod Order
pub mod Network
use data_spinner.Base.{ℕ, zero, suc, ◌+◌, ◌*◌, ◌/◌, ◌%◌, ◌^◌, List, [], ◌∷◌}

-- uint16_t htons(uint16_t)
unfoldable pub htons : ℕ → ℕ
htons v = v % 256 * 256 + v / 256 % 256

-- uint32_t htonl(uint32_t)
unfoldable pub htonl : ℕ → ℕ
htonl v = v % 256 * 16777216 + v / 256 % 256 * 65536 + v / 65536 % 256 * 256 + v / 16777216 % 256

-- The conversion of a uint64_t to uint32_t, by argument passing or by a cast.
abbrev pub u32 : ℕ → ℕ
u32 v = v % 4294967296

abbrev pub u64 : ℕ → ℕ
u64 v = v % 18446744073709551616

-- `rv = upper_n; rv = (rv << 32) + lower_n`
unfoldable pub hton64 : ℕ → ℕ
unfolding htonl
hton64 v =
    let upper_n = htonl (u32 (v / 4294967296)) in
    let lower_n = htonl (u32 v) in u64 (u64 (upper_n * 4294967296) + lower_n)

unfoldable pub ntoh64 : ℕ → ℕ
unfolding htonl
ntoh64 v =
    let upper_h = htonl (u32 (v / 4294967296)) in
    let lower_h = htonl (u32 v) in u64 (u64 (upper_h * 4294967296) + lower_h)

-- The bytes of an integer of `k` bytes in memory, lowest address first.
unfoldable pub le_bytes : ℕ → ℕ → List ℕ
le_bytes zero v = []
le_bytes (suc k) v = v % 256 ∷ le_bytes k (v / 256)

-- The integer that a run of bytes in memory stands for.
unfoldable pub of_le : List ℕ → ℕ
of_le [] = 0
of_le (b ∷ bs) = b + 256 * of_le bs
