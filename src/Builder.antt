-- ===== src/Builder.antt =====
-- MdDeltaBuilder of src/spinner_core/delta_builder.h: it gathers values into deltas and publishes a
-- delta when it is full. The publisher, a template argument there, is a parameter here.
pub mod Entries
pub mod Adds
pub mod Values
use data_spinner.Base.{ℕ, ◌+◌, ◌%◌, Bool, true, false, List, [], ◌∷◌, ◌==◌, if◌then◌else◌, set}
use data_spinner.Records.{Str, u16}
use data_spinner.Delta.{SorData, DeltaSize, MdDelta, int_delta_size, dbl_delta_size}

-- The publisher: its `publish` says whether it took the delta.
pub record Publisher (P : Type 0) : Type 0 where
  pub publish : MdDelta → P → Bool × P

pub record MdDeltaBuilder : Type 0 where
  pub symbol : Str
  pub delta : MdDelta
  pub int_idx : ℕ
  pub dbl_idx : ℕ
  pub str_idx : ℕ

-- void init_delta()
unfoldable pub init_delta : MdDeltaBuilder → MdDeltaBuilder
init_delta b = record b {
  delta = record (b.delta) { symbol = b.symbol };
  int_idx = 0;
  dbl_idx = 0;
  str_idx = 0;
}

-- void begin(const std::string& symbol)
unfoldable pub begin_delta : Str → MdDeltaBuilder → MdDeltaBuilder
unfolding init_delta
begin_delta symbol b = init_delta (record b { symbol = symbol })

-- The delta that flush_delta publishes at time `now`; the lengths are uint8_t.
unfoldable pub full_delta : ℕ → MdDeltaBuilder → MdDelta
full_delta now b = record (b.delta) {
  size = record {
    intdata_len = b.int_idx % 256;
    dbldata_len = b.dbl_idx % 256;
    reserved = 0;
    stamps_len = 1;
  };
  stamps = set (b.delta.stamps) 0 now;
}

-- The assignments that end add_intdata and add_dbldata.
unfoldable pub write_intdata : ℕ → ℕ → MdDeltaBuilder → MdDeltaBuilder
write_intdata i v b = record b {
  delta = record (b.delta) {
    intdata = record {
      idx = set (b.delta.intdata.idx) b.int_idx i;
      val = set (b.delta.intdata.val) b.int_idx v;
    };
  };
  int_idx = u16 (b.int_idx + 1);
}

unfoldable pub write_dbldata : ℕ → ℕ → MdDeltaBuilder → MdDeltaBuilder
write_dbldata i v b = record b {
  delta = record (b.delta) {
    dbldata = record {
      idx = set (b.delta.dbldata.idx) b.dbl_idx i;
      val = set (b.delta.dbldata.val) b.dbl_idx v;
    };
  };
  dbl_idx = u16 (b.dbl_idx + 1);
}

module _ {P : Type 0} (pub_ : Publisher P) where
  -- bool flush_delta()
  unfoldable pub flush_delta : ℕ → MdDeltaBuilder → P → Bool × MdDeltaBuilder × P
  flush_delta now b p =
      let d = full_delta now b in let r = pub_.publish d p in (r.0, record b { delta = d }, r.1)

  -- bool flush_and_begin()
  unfoldable pub flush_and_begin : ℕ → MdDeltaBuilder → P → Bool × MdDeltaBuilder × P
  flush_and_begin now b p =
      let r = flush_delta now b p in if r.0 then (true, init_delta r.1, r.2) else (false, r.1, r.2)

  -- bool add_intdata(uint16_t i, const int32_t& v), at time `now`
  unfoldable pub add_intdata : ℕ → ℕ → ℕ → MdDeltaBuilder → P → Bool × MdDeltaBuilder × P
  add_intdata now i v b p =
      let r = flush_and_begin now b p in
      if b.int_idx == int_delta_size
      then (if r.0 then (true, write_intdata i v r.1, r.2) else (false, r.1, r.2))
      else (true, write_intdata i v b, p)

  -- bool add_dbldata(uint16_t i, const double& v), at time `now`
  unfoldable pub add_dbldata : ℕ → ℕ → ℕ → MdDeltaBuilder → P → Bool × MdDeltaBuilder × P
  add_dbldata now i v b p =
      let r = flush_and_begin now b p in
      if b.dbl_idx == dbl_delta_size
      then (if r.0 then (true, write_dbldata i v r.1, r.2) else (false, r.1, r.2))
      else (true, write_dbldata i v b, p)

  -- bool end()
  unfoldable pub end_delta : ℕ → MdDeltaBuilder → P → Bool × MdDeltaBuilder × P
  end_delta now b p =
      let r = flush_delta now b p in
      if r.0
      then (true, record (r.1) { int_idx = 0; dbl_idx = 0; str_idx = 0; symbol = [] }, r.2)
      else (false, r.1, r.2)
