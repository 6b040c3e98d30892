-- ===== src/Ref/Forms.antt =====
-- The wire form of reference data, and its length.
use data_spinner.Base.{
  ℕ, ◌+◌, ◌*◌, ◌≤◌, ◌<◌, ◌≡◌, ◌∙◌, sym, arith, Bool, true, false, List, [], ◌∷◌, ◌++◌, length, All,
  length-append,
}
use data_spinner.Wire.{htons, htonl, hton64}
use data_spinner.Wire.Order.{length-le_bytes}
use data_spinner.Archive.Writing.{bytes_u16, bytes_u32, bytes_u64, bytes_str}
use data_spinner.Records.{Str, u16, str_archive_len}
use data_spinner.Records.Length.{length-bytes_str, str_archive_len_lem}
use data_spinner.Records.RoundTrip.{IsStr}
use data_spinner.Ref.{MdRef, count_bits, strings_len, ref_calc_len, snapshot_fields_num}

unfoldable pub bytes_indices : ℕ → List Bool → List ℕ
bytes_indices i [] = []
bytes_indices i (true ∷ fs) = bytes_u16 i ++ bytes_indices (i + 1) fs
bytes_indices i (false ∷ fs) = bytes_indices (i + 1) fs

unfoldable pub bytes_bitset : List Bool → List ℕ
bytes_bitset fs = bytes_u16 (u16 (count_bits fs)) ++ bytes_indices 0 fs

unfoldable pub bytes_fields : {T : Type 0} → (T → List ℕ) → List Bool → List T → List ℕ
bytes_fields bytes [] vs = []
bytes_fields bytes (f ∷ fs) [] = []
bytes_fields bytes (true ∷ fs) (v ∷ vs) = bytes v ++ bytes_fields bytes fs vs
bytes_fields bytes (false ∷ fs) (v ∷ vs) = bytes_fields bytes fs vs

unfoldable pub bytes_ref : MdRef → List ℕ
bytes_ref r =
    bytes_str r.symbol
    ++ (bytes_bitset r.int_fields
        ++ (bytes_bitset r.dbl_fields
            ++ (bytes_bitset r.str_fields
                ++ (bytes_fields bytes_u32 r.int_fields r.intdata
                    ++ (bytes_fields bytes_u64 r.dbl_fields r.dbldata
                        ++ bytes_fields bytes_str r.str_fields r.strdata)))))

-- `new` where a field is set, `old` elsewhere.
unfoldable pub merge_fields : {T : Type 0} → List Bool → List T → List T → List T
merge_fields [] new old = old
merge_fields (f ∷ fs) [] old = old
merge_fields (f ∷ fs) (v ∷ vs) [] = []
merge_fields (true ∷ fs) (v ∷ vs) (w ∷ ws) = v ∷ merge_fields fs vs ws
merge_fields (false ∷ fs) (v ∷ vs) (w ∷ ws) = w ∷ merge_fields fs vs ws

-- What a receiver that reads `new` into `old` holds.
unfoldable pub received_ref : MdRef → MdRef → MdRef
received_ref old new = record new {
  intdata = merge_fields new.int_fields new.intdata old.intdata;
  dbldata = merge_fields new.dbl_fields new.dbldata old.dbldata;
  strdata = merge_fields new.str_fields new.strdata old.strdata;
}

pub record HasSlots {T : Type 0} (P : T → Type 0) (fields : List Bool) (values : List T)
    : Type 0 where
  pub bits_full : length fields ≡ snapshot_fields_num
  pub values_full : length values ≡ snapshot_fields_num
  pub in_range : All P values

pub record IsRef (r : MdRef) : Type 0 where
  pub symbol_fits : IsStr r.symbol
  pub ints : HasSlots (λ x. x < 4294967296) r.int_fields r.intdata
  pub dbls : HasSlots (λ x. x < 18446744073709551616) r.dbl_fields r.dbldata
  pub strs : HasSlots IsStr r.str_fields r.strdata

pub count_bits-le : (fs : List Bool) → count_bits fs ≤ length fs
unfolding count_bits
count_bits-le [] = omega arith
count_bits-le (true ∷ fs) = omega (arith, count_bits-le fs)
count_bits-le (false ∷ fs) = omega (arith, count_bits-le fs)

length-bytes_indices : (i : ℕ) (fs : List Bool) → length (bytes_indices i fs) ≡ 2 * count_bits fs
unfolding bytes_indices count_bits
length-bytes_indices i [] = omega arith
length-bytes_indices i (true ∷ fs) = omega (
  arith,
  length-append (bytes_u16 i) (bytes_indices (i + 1) fs),
  length-le_bytes 2 (htons i),
  length-bytes_indices (i + 1) fs,
)
length-bytes_indices i (false ∷ fs) = length-bytes_indices (i + 1) fs

length-bytes_bitset : (fs : List Bool) → length (bytes_bitset fs) ≡ 2 + 2 * count_bits fs
unfolding bytes_bitset
length-bytes_bitset fs = omega (
  arith,
  length-append (bytes_u16 (u16 (count_bits fs))) (bytes_indices 0 fs),
  length-le_bytes 2 (htons (u16 (count_bits fs))),
  length-bytes_indices 0 fs,
)

length-bytes_fields :
    (bytes : ℕ → List ℕ) (size : ℕ) (h : (d : ℕ) → length (bytes d) ≡ size) (fs : List Bool)
    (vs : List ℕ)
    → length fs ≡ length vs
    → length (bytes_fields bytes fs vs) ≡ size * count_bits fs
unfolding bytes_fields count_bits
length-bytes_fields bytes size h [] vs e = omega arith
length-bytes_fields bytes size h (true ∷ fs) [] e = absurd (omega arith)
length-bytes_fields bytes size h (false ∷ fs) [] e = absurd (omega arith)
length-bytes_fields bytes size h (true ∷ fs) (v ∷ vs) e = omega (
  arith,
  h v,
  length-append (bytes v) (bytes_fields bytes fs vs),
  length-bytes_fields bytes size h fs vs (omega arith),
)
length-bytes_fields bytes size h (false ∷ fs) (v ∷ vs) e =
    length-bytes_fields bytes size h fs vs (omega arith)

strings_len_lem :
    (fs : List Bool) (vs : List Str) (rv : ℕ)
    → rv < 65536
    → strings_len rv fs vs ≡ u16 (rv + length (bytes_fields bytes_str fs vs))
unfolding strings_len bytes_fields
strings_len_lem [] vs rv h = omega arith
strings_len_lem (true ∷ fs) [] rv h = omega arith
strings_len_lem (false ∷ fs) [] rv h = omega arith
strings_len_lem (true ∷ fs) (v ∷ vs) rv h = omega (
  arith,
  strings_len_lem fs vs (u16 (rv + (2 + length v))) (omega arith),
  length-bytes_str v,
  length-append (bytes_str v) (bytes_fields bytes_str fs vs),
)
strings_len_lem (false ∷ fs) (v ∷ vs) rv h = strings_len_lem fs vs rv h

-- calc_len of reference data is the number of bytes that its operator << writes, as a uint16_t.
pub ref_calc_len_lem : (r : MdRef) → IsRef r → ref_calc_len r ≡ u16 (length (bytes_ref r))
unfolding ref_calc_len bytes_ref
ref_calc_len_lem r v =
    let strs = bytes_fields bytes_str r.str_fields r.strdata in
    let dbls = bytes_fields bytes_u64 r.dbl_fields r.dbldata ++ strs in
    let ints = bytes_fields bytes_u32 r.int_fields r.intdata ++ dbls in
    let sbits = bytes_bitset r.str_fields ++ ints in
    let dbits = bytes_bitset r.dbl_fields ++ sbits in
    let ibits = bytes_bitset r.int_fields ++ dbits in
    let rv₁ = u16 (str_archive_len r.symbol + (2 + count_bits r.int_fields * 2)) in
    let rv₂ = u16 (rv₁ + (2 + count_bits r.dbl_fields * 2)) in
    let rv₃ = u16 (rv₂ + (2 + count_bits r.str_fields * 2)) in
    let rv₄ = u16 (rv₃ + 4 * count_bits r.int_fields) in
    let rv₅ = u16 (rv₄ + 8 * count_bits r.dbl_fields) in
    omega (
      arith,
      str_archive_len_lem r.symbol,
      strings_len_lem r.str_fields r.strdata rv₅ (omega arith),
      length-append (bytes_str r.symbol) ibits,
      length-append (bytes_bitset r.int_fields) dbits,
      length-append (bytes_bitset r.dbl_fields) sbits,
      length-append (bytes_bitset r.str_fields) ints,
      length-append (bytes_fields bytes_u32 r.int_fields r.intdata) dbls,
      length-append (bytes_fields bytes_u64 r.dbl_fields r.dbldata) strs,
      length-bytes_bitset r.int_fields,
      length-bytes_bitset r.dbl_fields,
      length-bytes_bitset r.str_fields,
      length-bytes_fields bytes_u32 4 (λ x. length-le_bytes 4 (htonl x)) r.int_fields r.intdata
          (v.ints.bits_full ∙ sym v.ints.values_full),
      length-bytes_fields bytes_u64 8 (λ x. length-le_bytes 8 (hton64 x)) r.dbl_fields r.dbldata
          (v.dbls.bits_full ∙ sym v.dbls.values_full),
    )
