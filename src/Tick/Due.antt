-- ===== src/Tick/Due.antt =====
-- When MetricsObserver and HB_Observer of src/spinner_core/spinner_core_util.cpp act.
use data_spinner.Base.{ℕ, ◌-◌, ◌≤◌, ◌<◌, ◌≡◌, arith, true}
use data_spinner.Tick.{is_due, next_hb_check}

-- A check that is made at tick `t` names the seconds since the last heartbeat exactly when they are too many.
pub next_hb_check_due :
    (every timeout now last tick : ℕ)
    → is_due every tick ≡ true
    → timeout < now - last
    → next_hb_check every timeout now last tick ≡ now - last
unfolding next_hb_check
next_hb_check_due every timeout now last tick d h = ground (arith, d)

pub next_hb_check_in_time :
    (every timeout now last tick : ℕ)
    → now - last ≤ timeout
    → next_hb_check every timeout now last tick ≡ 0
unfolding next_hb_check
next_hb_check_in_time every timeout now last tick h = ground arith
