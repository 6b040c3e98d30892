-- ===== src/Generator.antt =====
-- The generators of deltas: make_one_delta and make_n_int_delta of src/spinner_core/spinner_core_util.h,
-- send_generated_delta and send_generated_subtype_delta of src/simulator.h. `times i` is the double i * 100.1
-- by its bits, and `now` the clock. The results of the builder are not looked at.
pub mod Whole
pub mod Symbols
pub mod Subtype
use data_spinner.Base.{
  ℕ, zero, suc, ◌+◌, ◌*◌, ◌==◌, Bool, true, false, ◌||◌, List, [], ◌∷◌, if◌then◌else◌,
}
use data_spinner.Wire.{u32}
use data_spinner.Records.{Str, u16}
use data_spinner.Delta.{MdDelta, int_delta_size, dbl_delta_size}
use data_spinner.Builder.{
  Publisher, MdDeltaBuilder, begin_delta, add_intdata, add_dbldata, end_delta,
}

-- MdDeltaBuilder(pub), with the delta as its memory is.
abbrev pub new_builder : MdDelta → MdDeltaBuilder
new_builder d = record { symbol = []; delta = d; int_idx = 0; dbl_idx = 0; str_idx = 0 }

module _ {P : Type 0} (publisher : Publisher P) (times : ℕ → ℕ) (now : ℕ) where
  -- `for (i = ...) bld.add_intdata(i, i * 10)` for that many rounds.
  unfoldable pub add_ints : ℕ → ℕ → MdDeltaBuilder → P → MdDeltaBuilder × P
  add_ints zero i b p = (b, p)
  add_ints (suc n) i b p =
      let r = add_intdata publisher now (u16 i) (u32 (i * 10)) b p in add_ints n (i + 1) r.1 r.2

  unfoldable pub add_dbls : ℕ → ℕ → MdDeltaBuilder → P → MdDeltaBuilder × P
  add_dbls zero i b p = (b, p)
  add_dbls (suc n) i b p =
      let r = add_dbldata publisher now (u16 i) (times i) b p in add_dbls n (i + 1) r.1 r.2

  -- begin, so many integers and doubles, end.
  unfoldable pub send_symbol : ℕ → ℕ → Str → MdDeltaBuilder → P → MdDeltaBuilder × P
  send_symbol ints dbls symbol b p =
      let r = add_ints ints 1 (begin_delta symbol b) p in
      let s = add_dbls dbls 1 r.0 r.1 in let e = end_delta publisher now s.0 s.1 in (e.1, e.2)

  unfoldable pub make_one_delta : MdDelta → Str → P → P
  make_one_delta d symbol p = (send_symbol int_delta_size dbl_delta_size symbol (new_builder d) p).1

  unfoldable pub make_n_int_delta : MdDelta → Str → ℕ → P → P
  make_n_int_delta d symbol n p = (send_symbol (int_delta_size * n) 0 symbol (new_builder d) p).1

  -- The loop of send_generated_delta over the symbols.
  unfoldable pub send_symbols : ℕ → List Str → MdDeltaBuilder → P → MdDeltaBuilder × P
  send_symbols num [] b p = (b, p)
  send_symbols num (s ∷ ss) b p = let r = send_symbol num num s b p in send_symbols num ss r.0 r.1

  unfoldable pub send_generated_delta : MdDelta → List Str → ℕ → P → P
  send_generated_delta d symbols num p = (send_symbols num symbols (new_builder d) p).1

  -- The `switch (dtype)`.
  unfoldable pub add_subtype : ℕ → ℕ → MdDeltaBuilder → P → MdDeltaBuilder × P
  add_subtype num dtype b p =
      if dtype == 105
      then add_ints num 1 b p
      else if dtype == 108
      then add_dbls num 1 b p
      else (b, p)

  -- The loop of send_generated_subtype_delta: `end` is called behind it.
  unfoldable pub begin_symbols : ℕ → ℕ → List Str → MdDeltaBuilder → P → MdDeltaBuilder × P
  begin_symbols num dtype [] b p = (b, p)
  begin_symbols num dtype (s ∷ ss) b p =
      let r = add_subtype num dtype (begin_delta s b) p in begin_symbols num dtype ss r.0 r.1

  unfoldable pub send_generated_subtype_delta : MdDelta → List Str → ℕ → ℕ → P → P
  send_generated_subtype_delta d symbols num dtype p =
      let r = begin_symbols num dtype symbols (new_builder d) p in
      if (dtype == 105) || (dtype == 108) || (dtype == 115)
      then (end_delta publisher now r.0 r.1).2
      else p
