-- ===== src/Config.antt =====
-- Cfg of src/spinner_core/config.h and load_cfg of config.cpp. The file is its text; what is printed is not
-- modelled.
pub mod Settings
pub mod Keys
pub mod Load
use Prim.Native.String.{String}
use data_spinner.Base.{
  ℕ, zero, suc, ◌+◌, ◌-◌, ◌==◌, ltb, Bool, true, false, ◌||◌, Option, none, some, List, [], ◌∷◌,
  ◌++◌, if◌then◌else◌, length,
}
use data_spinner.Records.{Str}
use data_spinner.Text.{codes, same_str, getline, split, ℤ, pos, negsuc, stoi}

pub data LogLevel : Type 0 where
  laconic info debug verbose : LogLevel

pub record Cfg : Type 0 where
  pub host : Str
  pub udp_host : Str
  pub port : ℤ
  pub admin_port : ℤ
  pub udp_port : ℤ
  pub emulate_slow_client : Bool
  pub debug_log : Str
  pub stat_log : Str
  pub client_context : Str
  pub client_user : Str
  pub client_sub : List Str
  pub svr_spin_symbols : List Str
  pub log_level : LogLevel
  pub stat_upd_every_nsec : ℕ
  pub stat_check_every_n_tick : ℕ
  pub publisher_spin_sleep_ns : ℕ
  pub hb_period_sec : ℕ
  pub hb_timeout_sec : ℕ
  pub idle_on_delta : Bool

-- The static object before anything is loaded: members with no initialiser are zero.
abbrev pub initial_cfg : Cfg
initial_cfg = record {
  host = [];
  udp_host = [];
  port = pos 0;
  admin_port = pos 0;
  udp_port = pos 0;
  emulate_slow_client = false;
  debug_log = [];
  stat_log = [];
  client_context = [];
  client_user = [];
  client_sub = [];
  svr_spin_symbols = [];
  log_level = laconic;
  stat_upd_every_nsec = 2;
  stat_check_every_n_tick = 10000;
  publisher_spin_sleep_ns = 1;
  hb_period_sec = 10;
  hb_timeout_sec = 30;
  idle_on_delta = false;
}

-- bool is_verbose_log_level() and its two siblings
unfoldable pub is_verbose_log_level : Cfg → Bool
is_verbose_log_level c = elim (c.log_level) [ verbose ↦ true | _ ↦ false ]

unfoldable pub is_debug_log_level : Cfg → Bool
is_debug_log_level c = elim (c.log_level) [ verbose ↦ true | debug ↦ true | _ ↦ false ]

unfoldable pub is_info_log_level : Cfg → Bool
is_info_log_level c = elim (c.log_level) [ laconic ↦ false | _ ↦ true ]

-- `std::getline(iss, k, '='); std::getline(iss, v);`
abbrev pub value_of : Option (Str × Str) → Str
value_of none = []
value_of (some (v, rest)) = v

abbrev pub key_value_of : Option (Str × Str) → Str × Str
key_value_of none = ([], [])
key_value_of (some (k, rest)) = (k, value_of (getline 10 rest))

unfoldable pub key_value : Str → Str × Str
key_value line = key_value_of (getline 61 line)

-- The exception of std::stoi leaves load_cfg.
abbrev pub with_int : Option ℤ → (ℤ → Cfg) → Option Cfg
with_int none f = none
with_int (some z) f = some (f z)

-- The conversion of an int to size_t.
abbrev pub to_size : ℤ → ℕ
to_size (pos n) = n
to_size (negsuc n) = 18446744073709551615 - n

abbrev pub is_positive : ℤ → Bool
is_positive (pos n) = ltb 0 n
is_positive (negsuc n) = false

unfoldable pub set_log_level : Str → Cfg → Cfg
set_log_level v c =
    if same_str v (codes "i")
    then record c { log_level = info }
    else if same_str v (codes "d")
    then record c { log_level = debug }
    else if same_str v (codes "v")
    then record c { log_level = verbose }
    else c

-- The last `else`: the keys that carry the prefix of the user.
unfoldable pub set_user : Str → Str → Str → Cfg → Cfg
set_user [] k v c = c
set_user (p ∷ ps) k v c =
    if same_str k (codes "user_" ++ (p ∷ ps))
    then record c { client_user = v }
    else if same_str k (codes "sub_" ++ (p ∷ ps))
    then record c { client_sub = c.client_sub ++ (v ∷ []) }
    else c

-- The chain of tests on the key.
unfoldable pub set_value : Str → Str → Str → Cfg → Option Cfg
set_value prefix k v c =
    if same_str k (codes "host")
    then some (record c { host = v })
    else if same_str k (codes "port")
    then with_int (stoi v) (λ z. record c { port = z })
    else if same_str k (codes "admin_port")
    then with_int (stoi v) (λ z. record c { admin_port = z })
    else if same_str k (codes "udp_port")
    then with_int (stoi v) (λ z. record c { udp_port = z })
    else if same_str k (codes "udp_host")
    then some (record c { udp_host = v })
    else if same_str k (codes "svr_spin_symbols")
    then some (record c { svr_spin_symbols = split v 44 })
    else if same_str k (codes "debug_log")
    then some (record c { debug_log = v })
    else if same_str k (codes "stat_log")
    then some (record c { stat_log = v })
    else if same_str k (codes "client_context")
    then some (record c { client_context = v })
    else if same_str k (codes "emulate_slow_client")
    then with_int (stoi v) (λ z. record c { emulate_slow_client = is_positive z })
    else if same_str k (codes "idle_on_delta")
    then with_int (stoi v) (λ z. record c { idle_on_delta = is_positive z })
    else if same_str k (codes "publisher_spin_sleep_ns")
    then with_int (stoi v) (λ z. record c { publisher_spin_sleep_ns = to_size z })
    else if same_str k (codes "stat_check_every_n_tick")
    then with_int (stoi v) (λ z. record c { stat_check_every_n_tick = to_size z })
    else if same_str k (codes "stat_upd_every_nsec")
    then with_int (stoi v)
        (λ z. record c { stat_upd_every_nsec = if to_size z == 0 then 2 else to_size z })
    else if same_str k (codes "log_level")
    then some (set_log_level v c)
    else some (set_user prefix k v c)

-- A line of the file: an empty line and a comment are skipped.
unfoldable pub load_line : Str → Str → Cfg → Option Cfg
load_line prefix [] c = some c
load_line prefix (b ∷ line) c =
    let (k, v) = key_value (b ∷ line) in if b == 35 then some c else set_value prefix k v c

-- The loop over the lines.
unfoldable pub load_lines : Str → List Str → Cfg → Option Cfg
load_lines prefix [] c = some c
load_lines prefix (line ∷ lines) c = elim (load_line prefix line c) [
  | none ↦ none
  | some c' ↦ load_lines prefix lines c'
]

abbrev pub loaded : Option Cfg → Option (Bool × Cfg)
loaded none = none
loaded (some c) = some (true, c)

-- bool load_cfg(file_name, cfg_prefix): the file by its text, `none` if it does not exist. The lines are
-- those that `while (std::getline(file, line))` takes; `none` is an exception.
unfoldable pub load_cfg : Option Str → Str → Cfg → Option (Bool × Cfg)
load_cfg none prefix c = some (false, c)
load_cfg (some content) prefix c = loaded (load_lines prefix (split content 10) c)
