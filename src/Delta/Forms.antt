-- ===== src/Delta/Forms.antt =====
-- The wire form of a delta, its length, and what a receiver holds after reading it.
use data_spinner.Base.{
  ℕ, ◌+◌, ◌*◌, ◌≤◌, ◌<◌, ◌≡◌, ◌∙◌, arith, List, ◌++◌, length, take, drop, length-append,
  length-take, All, take-append,
}
use data_spinner.Wire.{htons, htonl, hton64}
use data_spinner.Wire.Order.{length-le_bytes}
use data_spinner.Archive.Writing.{bytes_u16, bytes_u32, bytes_u64, bytes_str, bytes_all}
use data_spinner.Records.{Str, u16}
use data_spinner.Records.Length.{length-bytes_all_nums, str_archive_len_lem}
use data_spinner.Records.RoundTrip.{IsStr}
use data_spinner.Delta.{
  SorData, DeltaSize, MdDelta, size_word, word_size, delta_calc_len, int_delta_size, dbl_delta_size,
  stamp_delta_size,
}

-- The first `n` entries.
abbrev pub sor_take : ℕ → SorData → SorData
sor_take n d = record { idx = take n d.idx; val = take n d.val }

-- `new` copied over the front of `old`.
abbrev pub overlay : ℕ → List ℕ → List ℕ → List ℕ
overlay n new old = take n new ++ drop n old

abbrev pub sor_overlay : ℕ → SorData → SorData → SorData
sor_overlay n new old = record { idx = overlay n new.idx old.idx; val = overlay n new.val old.val }

unfoldable pub bytes_sor : (ℕ → List ℕ) → ℕ → SorData → List ℕ
bytes_sor bytes n d = bytes_all bytes_u16 (take n d.idx) ++ bytes_all bytes (take n d.val)

unfoldable pub bytes_delta : MdDelta → List ℕ
bytes_delta d =
    bytes_str d.symbol
    ++ (bytes_u32 (size_word d.size)
        ++ (bytes_sor bytes_u32 d.size.intdata_len d.intdata
            ++ (bytes_sor bytes_u64 d.size.dbldata_len d.dbldata
                ++ bytes_all bytes_u64 (take d.size.stamps_len d.stamps))))

-- What a receiver that reads `new` into `old` holds: the entries beyond the lengths stay.
unfoldable pub received_delta : MdDelta → MdDelta → MdDelta
received_delta old new = record {
  symbol = new.symbol;
  size = new.size;
  intdata = sor_overlay new.size.intdata_len new.intdata old.intdata;
  dbldata = sor_overlay new.size.dbldata_len new.dbldata old.dbldata;
  stamps = overlay new.size.stamps_len new.stamps old.stamps;
}

-- What a delta says: nothing beyond the lengths counts.
pub record DeltaView : Type 0 where
  pub symbol : Str
  pub size : DeltaSize
  pub ints : SorData
  pub dbls : SorData
  pub times : List ℕ

abbrev pub delta_view : MdDelta → DeltaView
delta_view d = record {
  symbol = d.symbol;
  size = d.size;
  ints = sor_take d.size.intdata_len d.intdata;
  dbls = sor_take d.size.dbldata_len d.dbldata;
  times = take d.size.stamps_len d.stamps;
}

-- An array of `n` elements below `bound`.
pub record IsArray (n bound : ℕ) (xs : List ℕ) : Type 0 where
  pub full : length xs ≡ n
  pub in_range : All (λ x. x < bound) xs

pub record IsSor (n bound : ℕ) (d : SorData) : Type 0 where
  pub idx_array : IsArray n 65536 d.idx
  pub val_array : IsArray n bound d.val

-- The arrays of a MdDelta have their declared sizes.
pub record HasArrays (d : MdDelta) : Type 0 where
  pub ints : IsSor int_delta_size 4294967296 d.intdata
  pub dbls : IsSor dbl_delta_size 18446744073709551616 d.dbldata
  pub times : IsArray stamp_delta_size 18446744073709551616 d.stamps

pub record IsDelta (d : MdDelta) : Type 0 where
  pub arrays : HasArrays d
  pub symbol_fits : IsStr d.symbol
  pub ints_fit : d.size.intdata_len ≤ int_delta_size
  pub dbls_fit : d.size.dbldata_len ≤ dbl_delta_size
  pub stamps_fit : d.size.stamps_len ≤ stamp_delta_size
  pub reserved_fits : d.size.reserved < 256

pub word_size-size_word :
    (s : DeltaSize)
    → s.intdata_len < 256
    → s.dbldata_len < 256
    → s.reserved < 256
    → s.stamps_len < 256
    → word_size (size_word s) ≡ s
unfolding word_size size_word
word_size-size_word s h₁ h₂ h₃ h₄ = ground arith

take-overlay : (n : ℕ) (new old : List ℕ) → n ≤ length new → take n (overlay n new old) ≡ take n new
take-overlay n new old h =
    let e : length (take n new) ≡ n = omega (arith, length-take n new) in
    rw e at (take-append (take n new) (drop n old))

-- The two forms agree on what counts.
pub delta_view-received :
    (old new : MdDelta) → IsDelta new → delta_view (received_delta old new) ≡ delta_view new
unfolding received_delta
delta_view-received old new v =
    let n = new.size.intdata_len in
    let m = new.size.dbldata_len in
    let i : n ≤ 6 = v.ints_fit in
    let d : m ≤ 18 = v.dbls_fit in
    rw (
      take-overlay n new.intdata.idx old.intdata.idx (omega (arith, v.arrays.ints.idx_array.full)),
      take-overlay n new.intdata.val old.intdata.val (omega (arith, v.arrays.ints.val_array.full)),
      take-overlay m new.dbldata.idx old.dbldata.idx (omega (arith, v.arrays.dbls.idx_array.full)),
      take-overlay m new.dbldata.val old.dbldata.val (omega (arith, v.arrays.dbls.val_array.full)),
      take-overlay new.size.stamps_len new.stamps old.stamps
          (omega (arith, v.stamps_fit, v.arrays.times.full)),
    )

length-bytes_sor :
    (bytes : ℕ → List ℕ) (size : ℕ) (h : (d : ℕ) → length (bytes d) ≡ size) (n : ℕ) (d : SorData)
    → n ≤ length d.idx
    → n ≤ length d.val
    → length (bytes_sor bytes n d) ≡ 2 * n + size * n
unfolding bytes_sor
length-bytes_sor bytes size h n d hi hv =
    let ei : length (take n d.idx) ≡ n = omega (arith, length-take n d.idx) in
    let ev : length (take n d.val) ≡ n = omega (arith, length-take n d.val) in
    length-append (bytes_all bytes_u16 (take n d.idx)) (bytes_all bytes (take n d.val))
    ∙ rw (
      length-bytes_all_nums bytes_u16 2 (λ x. length-le_bytes 2 (htons x)) (take n d.idx),
      length-bytes_all_nums bytes size h (take n d.val),
      ei,
      ev,
    )

-- calc_len of a delta is the number of bytes that its operator << writes, as a uint16_t.
pub delta_calc_len_lem : (m : MdDelta) → IsDelta m → delta_calc_len m ≡ u16 (length (bytes_delta m))
unfolding delta_calc_len bytes_delta
delta_calc_len_lem m v =
    let times = bytes_all bytes_u64 (take m.size.stamps_len m.stamps) in
    let dbls = bytes_sor bytes_u64 m.size.dbldata_len m.dbldata in
    let ints = bytes_sor bytes_u32 m.size.intdata_len m.intdata in
    omega (
      arith,
      str_archive_len_lem m.symbol,
      v.ints_fit,
      v.dbls_fit,
      v.stamps_fit,
      length-le_bytes 4 (htonl (size_word m.size)),
      length-bytes_sor bytes_u32 4 (λ x. length-le_bytes 4 (htonl x)) m.size.intdata_len m.intdata
          (omega (arith, v.ints_fit, v.arrays.ints.idx_array.full))
          (omega (arith, v.ints_fit, v.arrays.ints.val_array.full)),
      length-bytes_sor bytes_u64 8 (λ x. length-le_bytes 8 (hton64 x)) m.size.dbldata_len m.dbldata
          (omega (arith, v.dbls_fit, v.arrays.dbls.idx_array.full))
          (omega (arith, v.dbls_fit, v.arrays.dbls.val_array.full)),
      length-bytes_all_nums bytes_u64 8 (λ x. length-le_bytes 8 (hton64 x))
          (take m.size.stamps_len m.stamps),
      length-take m.size.stamps_len m.stamps,
      v.arrays.times.full,
      length-append (bytes_str m.symbol)
          (bytes_u32 (size_word m.size) ++ (ints ++ (dbls ++ times))),
      length-append (bytes_u32 (size_word m.size)) (ints ++ (dbls ++ times)),
      length-append ints (dbls ++ times),
      length-append dbls times,
    )
