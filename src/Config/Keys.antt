-- ===== src/Config/Keys.antt =====
-- The keys of load_cfg (src/spinner_core/config.cpp), one after the other.
use data_spinner.Base.{ℕ, ◌≡◌, refl, ap, ◌∙◌, arith, false, some, List, [], ◌∷◌, ◌++◌, All}
use data_spinner.Records.{Str}
use data_spinner.Text.{codes, same_str, join, ℤ, stoi}
use data_spinner.Text.Split.{Lacks, HasEnd, split-join}
use data_spinner.Text.Equal.{same_str_refl}
use data_spinner.Config.{set_log_level, Cfg, set_user, set_value}
use data_spinner.Config.Settings.{
  IsKey, IsValue, TextKey, NumberKey, Level, level_name, log_level_of, text_name, number_name,
  set_text, set_number, host, udp_host, debug_log, stat_log, client_context, port, admin_port,
  udp_port, emulate_slow_client, idle_on_delta, publisher_spin_sleep_ns, stat_check_every_n_tick,
  stat_upd_every_nsec, at_info, at_debug, at_verbose,
}

pub text_name-IsKey : (k : TextKey) → IsKey (text_name k)
text_name-IsKey host = (refl, omega arith)
text_name-IsKey udp_host = (refl, omega arith)
text_name-IsKey debug_log = (refl, omega arith)
text_name-IsKey stat_log = (refl, omega arith)
text_name-IsKey client_context = (refl, omega arith)

pub number_name-IsKey : (k : NumberKey) → IsKey (number_name k)
number_name-IsKey port = (refl, omega arith)
number_name-IsKey admin_port = (refl, omega arith)
number_name-IsKey udp_port = (refl, omega arith)
number_name-IsKey emulate_slow_client = (refl, omega arith)
number_name-IsKey idle_on_delta = (refl, omega arith)
number_name-IsKey publisher_spin_sleep_ns = (refl, omega arith)
number_name-IsKey stat_check_every_n_tick = (refl, omega arith)
number_name-IsKey stat_upd_every_nsec = (refl, omega arith)

pub set_value_text :
    (prefix : Str) (k : TextKey) (v : Str) (c : Cfg)
    → set_value prefix (text_name k) v c ≡ some (set_text k v c)
unfolding set_value same_str
set_value_text prefix host v c = refl
set_value_text prefix udp_host v c = refl
set_value_text prefix debug_log v c = refl
set_value_text prefix stat_log v c = refl
set_value_text prefix client_context v c = refl

pub set_value_number :
    (prefix : Str) (k : NumberKey) (v : Str) (z : ℤ) (c : Cfg)
    → stoi v ≡ some z
    → set_value prefix (number_name k) v c ≡ some (set_number k z c)
unfolding set_value same_str
set_value_number prefix port v z c h = rw h refl
set_value_number prefix admin_port v z c h = rw h refl
set_value_number prefix udp_port v z c h = rw h refl
set_value_number prefix emulate_slow_client v z c h = rw h refl
set_value_number prefix idle_on_delta v z c h = rw h refl
set_value_number prefix publisher_spin_sleep_ns v z c h = rw h refl
set_value_number prefix stat_check_every_n_tick v z c h = rw h refl
set_value_number prefix stat_upd_every_nsec v z c h = rw h refl

pub set_value_symbols :
    (prefix p : Str) (ps : List Str) (s : Str) (c : Cfg)
    → All (Lacks 44) (p ∷ ps)
    → HasEnd (p ∷ ps)
    → join (p ∷ ps) 44 ≡ some s
    → set_value prefix (codes "svr_spin_symbols") s c
      ≡ some (record c { svr_spin_symbols = p ∷ ps })
unfolding set_value same_str
set_value_symbols prefix p ps s c h e j =
    ap (λ t. some (record c { svr_spin_symbols = t })) (split-join p ps 44 s h e j)

pub level_name-IsValue : (l : Level) → IsValue (level_name l)
level_name-IsValue at_info = (omega arith, λ e. cc)
level_name-IsValue at_debug = (omega arith, λ e. cc)
level_name-IsValue at_verbose = (omega arith, λ e. cc)

pub set_value_level :
    (prefix : Str) (l : Level) (c : Cfg)
    → set_value prefix (codes "log_level") (level_name l) c
      ≡ some (record c { log_level = log_level_of l })
unfolding set_value set_log_level same_str
set_value_level prefix at_info c = refl
set_value_level prefix at_debug c = refl
set_value_level prefix at_verbose c = refl

set_user_user :
    (p : ℕ) (ps v : Str) (c : Cfg)
    → set_user (p ∷ ps) (codes "user_" ++ (p ∷ ps)) v c ≡ record c { client_user = v }
unfolding set_user
set_user_user p ps v c = rw (same_str_refl (codes "user_" ++ (p ∷ ps))) refl

set_user_sub :
    (p : ℕ) (ps v : Str) (c : Cfg)
    → set_user (p ∷ ps) (codes "sub_" ++ (p ∷ ps)) v c
      ≡ record c { client_sub = c.client_sub ++ (v ∷ []) }
unfolding set_user
set_user_sub p ps v c =
    let other : same_str (codes "sub_" ++ (p ∷ ps)) (codes "user_" ++ (p ∷ ps)) ≡ false =
      unfold same_str in refl in
    rw (other, same_str_refl (codes "sub_" ++ (p ∷ ps))) refl

-- No other key begins like these two.
set_value_prefixed :
    (prefix v : Str) (c : Cfg)
    → (set_value prefix (codes "user_" ++ prefix) v c
        ≡ some (set_user prefix (codes "user_" ++ prefix) v c))
      × (set_value prefix (codes "sub_" ++ prefix) v c
          ≡ some (set_user prefix (codes "sub_" ++ prefix) v c))
unfolding set_value same_str
set_value_prefixed prefix v c = (refl, refl)

pub set_value_user :
    (p : ℕ) (ps v : Str) (c : Cfg)
    → set_value (p ∷ ps) (codes "user_" ++ (p ∷ ps)) v c ≡ some (record c { client_user = v })
set_value_user p ps v c = (set_value_prefixed (p ∷ ps) v c).0 ∙ ap some (set_user_user p ps v c)

pub set_value_sub :
    (p : ℕ) (ps v : Str) (c : Cfg)
    → set_value (p ∷ ps) (codes "sub_" ++ (p ∷ ps)) v c
      ≡ some (record c { client_sub = c.client_sub ++ (v ∷ []) })
set_value_sub p ps v c = (set_value_prefixed (p ∷ ps) v c).1 ∙ ap some (set_user_sub p ps v c)
