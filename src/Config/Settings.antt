-- ===== src/Config/Settings.antt =====
-- The lines of a file of settings, and what load_cfg (src/spinner_core/config.cpp) makes of a line.
use data_spinner.Base.{◌==◌, ◌≡◌, ◌≢◌, refl, false, some, List, [], ◌∷◌, ◌++◌, if◌then◌else◌, All}
use data_spinner.Records.{Str}
use data_spinner.Text.{codes, join, ℤ, to_string}
use data_spinner.Text.Split.{Lacks, HasEnd, getline_part, getline_last}
use data_spinner.Text.Numbers.{IsInt}
use data_spinner.Config.{
  LogLevel, info, debug, verbose, Cfg, key_value, set_value, load_line, is_positive, to_size,
}

-- A value that is not empty and has no line end is read back behind its key.
key_value_line : (k v : Str) → Lacks 61 k → Lacks 10 v → v ≢ [] → key_value (k ++ (61 ∷ v)) ≡ (k, v)
unfolding key_value
key_value_line k v hk hv n = rw (getline_part 61 k v hk, getline_last 10 v hv n) refl

-- A key: a line that starts with it is no comment, and it has no '='.
abbrev pub IsKey : Str → Type 0
IsKey [] = ⊥
IsKey (b ∷ k) = ((b == 35) ≡ false) × Lacks 61 (b ∷ k)

-- A value on a line of its own.
abbrev pub IsValue : Str → Type 0
IsValue v = Lacks 10 v × (v ≢ [])

pub load_line_set :
    (prefix k v : Str) (c : Cfg)
    → IsKey k
    → IsValue v
    → load_line prefix (k ++ (61 ∷ v)) c ≡ set_value prefix k v c
unfolding load_line
load_line_set prefix [] v c hk hv = absurd hk
load_line_set prefix (b ∷ k) v c hk hv = rw (key_value_line (b ∷ k) v hk.1 hv.0 hv.1, hk.0) refl

-- The keys of texts and of numbers.
pub data TextKey : Type 0 where
  host udp_host debug_log stat_log client_context : TextKey

pub data NumberKey : Type 0 where
  port admin_port udp_port emulate_slow_client idle_on_delta : NumberKey
  publisher_spin_sleep_ns stat_check_every_n_tick stat_upd_every_nsec : NumberKey

-- The levels that a file can set; the fourth is the one before.
pub data Level : Type 0 where
  at_info at_debug at_verbose : Level

abbrev pub level_name : Level → Str
level_name at_info = codes "i"
level_name at_debug = codes "d"
level_name at_verbose = codes "v"

abbrev pub log_level_of : Level → LogLevel
log_level_of at_info = info
log_level_of at_debug = debug
log_level_of at_verbose = verbose

-- A line of the file: a comment, an empty line, or a setting.
pub data Setting : Type 0 where
  comment : Str → Setting
  empty : Setting
  text : TextKey → Str → Setting
  number : NumberKey → ℤ → Setting
  symbols : Str → List Str → Str → Setting
  level : Level → Setting
  user sub : Str → Setting

abbrev pub text_name : TextKey → Str
text_name host = codes "host"
text_name udp_host = codes "udp_host"
text_name debug_log = codes "debug_log"
text_name stat_log = codes "stat_log"
text_name client_context = codes "client_context"

abbrev pub number_name : NumberKey → Str
number_name port = codes "port"
number_name admin_port = codes "admin_port"
number_name udp_port = codes "udp_port"
number_name emulate_slow_client = codes "emulate_slow_client"
number_name idle_on_delta = codes "idle_on_delta"
number_name publisher_spin_sleep_ns = codes "publisher_spin_sleep_ns"
number_name stat_check_every_n_tick = codes "stat_check_every_n_tick"
number_name stat_upd_every_nsec = codes "stat_upd_every_nsec"

-- The line as it stands in the file; `symbols p ps s` has the symbols and their text.
unfoldable pub line_of : Str → Setting → Str
line_of prefix (comment s) = 35 ∷ s
line_of prefix empty = []
line_of prefix (text k v) = text_name k ++ (61 ∷ v)
line_of prefix (number k z) = number_name k ++ (61 ∷ to_string z)
line_of prefix (symbols p ps s) = codes "svr_spin_symbols" ++ (61 ∷ s)
line_of prefix (level l) = codes "log_level" ++ (61 ∷ level_name l)
line_of prefix (user v) = (codes "user_" ++ prefix) ++ (61 ∷ v)
line_of prefix (sub v) = (codes "sub_" ++ prefix) ++ (61 ∷ v)

-- What the line means.
abbrev pub set_text : TextKey → Str → Cfg → Cfg
set_text host v c = record c { host = v }
set_text udp_host v c = record c { udp_host = v }
set_text debug_log v c = record c { debug_log = v }
set_text stat_log v c = record c { stat_log = v }
set_text client_context v c = record c { client_context = v }

abbrev pub set_number : NumberKey → ℤ → Cfg → Cfg
set_number port z c = record c { port = z }
set_number admin_port z c = record c { admin_port = z }
set_number udp_port z c = record c { udp_port = z }
set_number emulate_slow_client z c = record c { emulate_slow_client = is_positive z }
set_number idle_on_delta z c = record c { idle_on_delta = is_positive z }
set_number publisher_spin_sleep_ns z c = record c { publisher_spin_sleep_ns = to_size z }
set_number stat_check_every_n_tick z c = record c { stat_check_every_n_tick = to_size z }
set_number stat_upd_every_nsec z c = record c {
  stat_upd_every_nsec = if to_size z == 0 then 2 else to_size z;
}

unfoldable pub meaning : Setting → Cfg → Cfg
meaning (comment s) c = c
meaning empty c = c
meaning (text k v) c = set_text k v c
meaning (number k z) c = set_number k z c
meaning (symbols p ps s) c = record c { svr_spin_symbols = p ∷ ps }
meaning (level l) c = record c { log_level = log_level_of l }
meaning (user v) c = record c { client_user = v }
meaning (sub v) c = record c { client_sub = c.client_sub ++ (v ∷ []) }

abbrev pub IsSetting : Setting → Type 0
IsSetting (comment s) = Lacks 10 s
IsSetting empty = Unit
IsSetting (text k v) = IsValue v
IsSetting (number k z) = IsInt z
IsSetting (symbols p ps s) =
    All (Lacks 44) (p ∷ ps) × HasEnd (p ∷ ps) × (join (p ∷ ps) 44 ≡ some s) × IsValue s
IsSetting (level l) = Unit
IsSetting (user v) = IsValue v
IsSetting (sub v) = IsValue v
