-- ===== src/Wire/Order.antt =====
-- Bytes on the wire and back: the conversions of src/util.h undo one another.
use data_spinner.Base.{ℕ, zero, suc, ◌+◌, ◌*◌, ◌/◌, ◌^◌, ◌<◌, ◌≡◌, refl, ap, arith, All, length}
use data_spinner.Wire.{htons, htonl, hton64, ntoh64, le_bytes, of_le, u32}
use native.Mathlib.Nat.{pow-suc}

abbrev pub IsByte : ℕ → Type 0
IsByte b = b < 256

pub htons-lt : (v : ℕ) → htons v < 65536
unfolding htons
htons-lt v = omega arith

pub htonl-lt : (v : ℕ) → htonl v < 4294967296
unfolding htonl
htonl-lt v = omega arith

pub hton64-lt : (v : ℕ) → hton64 v < 18446744073709551616
unfolding hton64
hton64-lt v = omega arith

pub htons_involutive : (v : ℕ) → v < 65536 → htons (htons v) ≡ v
unfolding htons
htons_involutive v h = omega arith

pub htonl_involutive : (v : ℕ) → v < 4294967296 → htonl (htonl v) ≡ v
unfolding htonl
htonl_involutive v h = omega arith

-- The halves of a converted 64-bit value.
ntoh64_halves :
    (a b : ℕ)
    → a < 4294967296
    → b < 4294967296
    → ntoh64 (a * 4294967296 + b) ≡ htonl a * 4294967296 + htonl b
unfolding ntoh64
ntoh64_halves a b ha hb =
    let hi : u32 ((a * 4294967296 + b) / 4294967296) ≡ a = omega arith in
    let lo : u32 (a * 4294967296 + b) ≡ b = omega arith in
    rw (hi, lo) (omega (arith, htonl-lt a, htonl-lt b))

pub hton64_halves : (v : ℕ) → hton64 v ≡ htonl (u32 (v / 4294967296)) * 4294967296 + htonl (u32 v)
unfolding hton64
hton64_halves v = omega (arith, htonl-lt (u32 (v / 4294967296)), htonl-lt (u32 v))

-- ntoh64 undoes hton64 on every uint64_t.
pub ntoh64-hton64 : (v : ℕ) → v < 18446744073709551616 → ntoh64 (hton64 v) ≡ v
ntoh64-hton64 v h =
    let hi = htonl (u32 (v / 4294967296)) in
    let lo = htonl (u32 v) in
    rw
      (
        hton64_halves v,
        ntoh64_halves hi lo (htonl-lt (u32 (v / 4294967296))) (htonl-lt (u32 v)),
        htonl_involutive (u32 (v / 4294967296)) (omega arith),
        htonl_involutive (u32 v) (omega arith),
      )
      (omega arith)

pub length-le_bytes : (k v : ℕ) → length (le_bytes k v) ≡ k
unfolding le_bytes
length-le_bytes zero v = refl
length-le_bytes (suc k) v = ap suc (length-le_bytes k (v / 256))

pub le_bytes-IsByte : (k v : ℕ) → All IsByte (le_bytes k v)
unfolding le_bytes
le_bytes-IsByte zero v = tt
le_bytes-IsByte (suc k) v = (omega arith, le_bytes-IsByte k (v / 256))

-- A memory image reads back as the integer.
pub of_le-le_bytes : (k v : ℕ) → v < 256 ^ k → of_le (le_bytes k v) ≡ v
unfolding le_bytes of_le
of_le-le_bytes zero v h = omega arith
of_le-le_bytes (suc k) v h =
    omega (arith, of_le-le_bytes k (v / 256) (omega (arith, rw pow-suc at h)))
