-- ===== src/Tick.antt =====
-- TickMetric, MetricsObserver and HB_Observer of src/spinner_core/spinner_core_util.h and
-- spinner_core_util.cpp. `now` is time(nullptr), which does not go back. What is logged is not modelled.
pub mod Due
use data_spinner.Base.{
  ℕ, ◌+◌, ◌-◌, ◌/◌, ◌%◌, Bool, true, false, ◌||◌, List, ltb, ◌==◌, if◌then◌else◌,
}
use data_spinner.Wire.{u64}
use data_spinner.Records.{Str}

pub record TickMetric : Type 0 where
  pub count : ℕ
  pub start_time : ℕ
  pub curr_count : ℕ
  pub updates_per_sec : ℕ

unfoldable pub start_tick_metric : ℕ → TickMetric → TickMetric
start_tick_metric now t = record t { start_time = now }

-- uint64_t TickMetric::next_tick_metric()
unfoldable pub next_tick : TickMetric → ℕ × TickMetric
next_tick t = let n = u64 (t.curr_count + 1) in (n, record t { curr_count = n })

-- The quotient is of doubles and cut to a size_t: for counts below 2 ^ 53 it is the quotient of integers.
unfoldable pub calc_tick_metric_speed : ℕ → TickMetric → ℕ × TickMetric
calc_tick_metric_speed now t =
    let total_duration = now - t.start_time in
    let upd_psec = t.curr_count / total_duration in
    if ltb 0 total_duration
    then (upd_psec, record t { updates_per_sec = upd_psec; count = t.curr_count })
    else (0, t)

pub record MetricsObserver : Type 0 where
  pub mtick : TickMetric
  pub check_every_n_tick : ℕ
  pub recalc_every_n_sec : ℕ
  pub check_time : ℕ
  pub observer_name : Str

-- MetricsObserver(size_t check_every_n_tick, size_t recalc_every_n_sec)
unfoldable pub new_observer : ℕ → ℕ → MetricsObserver
new_observer check_every_n_tick recalc_every_n_sec = record {
  mtick = record { count = 0; start_time = 0; curr_count = 0; updates_per_sec = 0 };
  check_every_n_tick = check_every_n_tick;
  recalc_every_n_sec = recalc_every_n_sec;
  check_time = 0;
  observer_name = List.[];
}

unfoldable pub reset_tick_observer : Str → ℕ → MetricsObserver → MetricsObserver
reset_tick_observer name now o = record o {
  observer_name = name;
  mtick = start_tick_metric now o.mtick;
  check_time = now;
}

-- `!every || !(tick % every)`
abbrev pub is_due : ℕ → ℕ → Bool
is_due every tick = (every == 0) || (tick % every == 0)

-- The part of next_tick_metric under both tests, up to the call of on_recalc.
unfoldable pub recalc : ℕ → MetricsObserver → MetricsObserver
recalc now o = record o { mtick = (calc_tick_metric_speed now o.mtick).1; check_time = now }

-- size_t MetricsObserver::next_tick_metric(on_recalc); the second component says whether on_recalc is
-- called. next_tick_publisher_metrics is this with a callback that logs.
unfoldable pub next_tick_metric : ℕ → MetricsObserver → ℕ × Bool × MetricsObserver
unfolding next_tick
next_tick_metric now o =
    let t = next_tick o.mtick in
    let o₁ = record o { mtick = t.1 } in
    let tdelta = now - o.check_time in
    if is_due o.check_every_n_tick t.0
    then (if ltb o.recalc_every_n_sec tdelta then (t.0, true, recalc now o₁) else (t.0, false, o₁))
    else (t.0, false, o₁)

-- size_t HB_Observer::next_hb_check(uint64_t tick_num): `last` is last_hb_time() of the watched
-- connection; 0 says that no timeout was found.
unfoldable pub next_hb_check : ℕ → ℕ → ℕ → ℕ → ℕ → ℕ
next_hb_check check_every_n_tick hb_timeout_sec now last tick_num =
    let hb_delta = now - last in
    if is_due check_every_n_tick tick_num
    then (if ltb hb_timeout_sec hb_delta then hb_delta else 0)
    else 0
