-- ===== src/Delta.antt =====
-- MdDelta of src/spinner_core/md_ref.h with SOR_Data and UDeltaSize of spnr.h, its methods in
-- md_ref.cpp, and its operators << and >> in src/archive.cpp.
-- An array is the list of all its elements; the values of doubles are their 64 bits.
pub mod Forms
pub mod RoundTrip
use data_spinner.Base.{ℕ, ◌+◌, ◌*◌, ◌/◌, ◌%◌, Bool, true, false, List, ltb, leb, if◌then◌else◌, set}
use data_spinner.Archive.{
  Writer, Reader, ◌>>=◌, pure, ◌then_write◌, set_invalid_archive, put_u16, get_u16, put_u32,
  get_u32, put_u64, get_u64, put_str, get_str, store_arr, load_arr,
}
use data_spinner.Records.{Str, u16, str_archive_len}

abbrev pub int_delta_size : ℕ
int_delta_size = 6

abbrev pub dbl_delta_size : ℕ
dbl_delta_size = 18

abbrev pub stamp_delta_size : ℕ
stamp_delta_size = 2

pub record SorData : Type 0 where
  pub idx : List ℕ
  pub val : List ℕ

pub record DeltaSize : Type 0 where
  pub intdata_len : ℕ
  pub dbldata_len : ℕ
  pub reserved : ℕ
  pub stamps_len : ℕ

-- UDeltaSize: the four bytes as the uint32_t `d`, and back.
unfoldable pub size_word : DeltaSize → ℕ
size_word s = s.intdata_len + s.dbldata_len * 256 + s.reserved * 65536 + s.stamps_len * 16777216

unfoldable pub word_size : ℕ → DeltaSize
word_size d = record {
  intdata_len = d % 256;
  dbldata_len = d / 256 % 256;
  reserved = d / 65536 % 256;
  stamps_len = d / 16777216 % 256;
}

pub record MdDelta : Type 0 where
  pub symbol : Str
  pub size : DeltaSize
  pub intdata : SorData
  pub dbldata : SorData
  pub stamps : List ℕ

unfoldable pub delta_calc_len : MdDelta → ℕ
delta_calc_len m =
    let rv₁ = u16 (4 + str_archive_len m.symbol) in
    let rv₂ = u16 (rv₁ + (2 + 4) * m.size.intdata_len) in
    let rv₃ = u16 (rv₂ + (2 + 8) * m.size.dbldata_len) in u16 (rv₃ + 8 * m.size.stamps_len)

-- bool add_time_stamp(): `now` is spnr::time_stamp(). The sum is stored in a uint8_t.
unfoldable pub add_time_stamp : ℕ → MdDelta → MdDelta × Bool
add_time_stamp now m = if leb stamp_delta_size m.size.stamps_len then (m, false) else (
  record m {
    stamps = set m.stamps m.size.stamps_len now;
    size = record (m.size) { stamps_len = (m.size.stamps_len + 1) % 256 };
  },
  true,
)

-- The template store_sor_data, for the operator on its values.
unfoldable pub store_sor_data : (ℕ → Writer) → ℕ → SorData → Writer
store_sor_data put len d = store_arr put_u16 len d.idx then_write store_arr put len d.val

-- load_sor_data has no test for the array's end; `operator>>` makes it before the call.
unfoldable pub load_sor_data : (ℕ → Reader ℕ) → ℕ → SorData → Reader SorData
load_sor_data get len d = do
  i ← load_arr get_u16 len d.idx
  v ← load_arr get len d.val
  pure (record { idx = i.1; val = v.1 })

unfoldable pub put_delta : MdDelta → Writer
put_delta d =
    put_str d.symbol
    then_write put_u32 (size_word d.size)
    then_write store_sor_data put_u32 d.size.intdata_len d.intdata
    then_write store_sor_data put_u64 d.size.dbldata_len d.dbldata
    then_write store_arr put_u64 d.size.stamps_len d.stamps

-- The part of `operator>>` behind the two tests.
unfoldable pub get_delta_body : MdDelta → Reader MdDelta
get_delta_body d = do
  ints ← load_sor_data get_u32 d.size.intdata_len d.intdata
  dbls ← load_sor_data get_u64 d.size.dbldata_len d.dbldata
  s ← load_arr get_u64 d.size.stamps_len d.stamps
  λ ar. (
    record d { intdata = ints; dbldata = dbls; stamps = s.1 },
    if s.0 then ar else set_invalid_archive ar,
  )

unfoldable pub get_delta : MdDelta → Reader MdDelta
get_delta d₀ = do
  s ← get_str d₀.symbol
  w ← get_u32 (size_word d₀.size)
  let d = record d₀ { symbol = s; size = word_size w }
  if ltb int_delta_size d.size.intdata_len
      then (λ ar. (d, set_invalid_archive ar))
      else if ltb dbl_delta_size d.size.dbldata_len
      then (λ ar. (d, set_invalid_archive ar))
      else get_delta_body d
