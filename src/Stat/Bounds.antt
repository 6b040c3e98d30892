-- ===== src/Stat/Bounds.antt =====
-- The bounds of WireReaderStat of src/spinner_core/spinner_core_util.cpp.
use data_spinner.Base.{ℕ, ◌≤◌, ◌<◌, arith, Option}
use data_spinner.Header.{EMsgType}
use data_spinner.Stat.{WireReaderStat, on_reader_progress}

pub record IsStat (s : WireReaderStat) : Type 0 where
  pub last_le_max : s.last_msg_wire_latency ≤ s.max_msg_wire_latency
  pub max_fits : s.max_msg_wire_latency < 65536
  pub base_fits : s.base_latency < 65536

-- A packet whose latency is a uint16_t keeps the last latency at or below the maximum, and the
-- maximum and the base below 65536.
pub on_reader_progress-IsStat :
    (upd_every now num : ℕ) (mt : Option EMsgType) (wire_latency : ℕ) (s : WireReaderStat)
    → wire_latency < 65536
    → IsStat s
    → IsStat (on_reader_progress upd_every now num mt wire_latency s)
unfolding on_reader_progress
on_reader_progress-IsStat upd_every now num mt wire_latency s small v = ground arith
