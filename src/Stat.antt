-- ===== src/Stat.antt =====
-- WireReaderStat of src/spinner_core/spinner_core_util.h, with on_reader_progress and
-- start_reader_stat of spinner_core_util.cpp. What is logged is not modelled, and neither is
-- calc_reader_throughput, which only the log line uses.
pub mod Bounds
use data_spinner.Base.{
  ℕ, ◌+◌, ◌-◌, ◌/◌, ◌%◌, Bool, true, false, Option, some, none, ltb, if◌then◌else◌,
}
use data_spinner.Wire.{u32, u64}
use data_spinner.Header.{EMsgType, login_reply}
use data_spinner.Records.{u16}

pub record WireReaderStat : Type 0 where
  pub stat_total_progress : ℕ
  pub stat_start : ℕ
  pub stat_log_time : ℕ
  pub total_packets_progress : ℕ
  pub last_msg_wire_len : ℕ
  pub last_msg_wire_latency : ℕ
  pub avg_msg_wire_latency : ℕ
  pub total_msg_wire_latency : ℕ
  pub max_msg_wire_latency : ℕ
  pub base_latency : ℕ

-- `now` is time(nullptr).
unfoldable pub start_reader_stat : ℕ → WireReaderStat → WireReaderStat
start_reader_stat now s = record s { stat_start = now; stat_total_progress = 0 }

abbrev pub is_login_reply : Option EMsgType → Bool
is_login_reply (some login_reply) = true
is_login_reply (some t) = false
is_login_reply none = false

-- The first `if`: the base, and the latency that the rest goes on with, a uint16_t.
unfoldable pub sync_clock : Option EMsgType → ℕ → ℕ → ℕ × ℕ
sync_clock mt base wire_latency =
    if is_login_reply mt
    then (wire_latency, wire_latency)
    else if ltb wire_latency base
    then (wire_latency, wire_latency)
    else (base, u16 (wire_latency - base))

-- `num` and `wire_latency` come as uint16_t; `upd_every` is stat_upd_every_nsec_ of the
-- configuration and `now` is time(nullptr), which does not go back.
unfoldable pub on_reader_progress :
    ℕ → ℕ → ℕ → Option EMsgType → ℕ → WireReaderStat → WireReaderStat
unfolding sync_clock
on_reader_progress upd_every now num mt wire_latency s =
    let (base, latency) = sync_clock mt s.base_latency wire_latency in
    let total_latency = u64 (s.total_msg_wire_latency + latency) in
    let packets = u64 (s.total_packets_progress + 1) in
    let due = ltb upd_every (now - s.stat_log_time) in
    record s {
      base_latency = base;
      last_msg_wire_len = num;
      last_msg_wire_latency = latency;
      total_msg_wire_latency = total_latency;
      max_msg_wire_latency =
          if ltb s.max_msg_wire_latency latency then latency else s.max_msg_wire_latency;
      total_packets_progress = packets;
      stat_total_progress = u64 (s.stat_total_progress + num);
      avg_msg_wire_latency =
          if due
          then (if ltb 0 packets then u16 (total_latency / packets) else s.avg_msg_wire_latency)
          else s.avg_msg_wire_latency;
      stat_log_time = if due then now else s.stat_log_time;
    }
