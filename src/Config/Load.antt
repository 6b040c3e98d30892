-- ===== src/Config/Load.antt =====
-- What load_cfg (src/spinner_core/config.cpp) makes of a file of settings.
use data_spinner.Base.{ℕ, ◌≡◌, refl, ◌∙◌, arith, true, some, List, [], ◌∷◌, ◌++◌, All}
use data_spinner.Records.{Str}
use data_spinner.Text.{codes, to_string}
use data_spinner.Text.Split.{Lacks, terminated, split-terminated, Lacks-append}
use data_spinner.Text.Numbers.{stoi-to_string, to_string-IsLine}
use data_spinner.Config.{Cfg, load_line, load_lines, load_cfg}
use data_spinner.Config.Settings.{
  level, level_name, TextKey, host, udp_host, debug_log, stat_log, client_context, NumberKey, port,
  admin_port, udp_port, emulate_slow_client, idle_on_delta, publisher_spin_sleep_ns,
  stat_check_every_n_tick, stat_upd_every_nsec, Setting, comment, empty, text, number, symbols,
  user, sub, text_name, number_name, line_of, meaning, IsSetting, IsKey, load_line_set,
}
use data_spinner.Config.Keys.{
  level_name-IsValue, set_value_level, text_name-IsKey, number_name-IsKey, set_value_text,
  set_value_number, set_value_symbols, set_value_user, set_value_sub,
}

-- The settings of a file, one after the other.
unfoldable pub meanings : List Setting → Cfg → Cfg
meanings [] c = c
meanings (s ∷ ss) c = meanings ss (meaning s c)

unfoldable pub lines_of : Str → List Setting → List Str
lines_of prefix [] = []
lines_of prefix (s ∷ ss) = line_of prefix s ∷ lines_of prefix ss

text_name-Lacks : (k : TextKey) → Lacks 10 (text_name k)
text_name-Lacks host = omega arith
text_name-Lacks udp_host = omega arith
text_name-Lacks debug_log = omega arith
text_name-Lacks stat_log = omega arith
text_name-Lacks client_context = omega arith

number_name-Lacks : (k : NumberKey) → Lacks 10 (number_name k)
number_name-Lacks port = omega arith
number_name-Lacks admin_port = omega arith
number_name-Lacks udp_port = omega arith
number_name-Lacks emulate_slow_client = omega arith
number_name-Lacks idle_on_delta = omega arith
number_name-Lacks publisher_spin_sleep_ns = omega arith
number_name-Lacks stat_check_every_n_tick = omega arith
number_name-Lacks stat_upd_every_nsec = omega arith

module _ (p : ℕ) (ps : Str) (no_equals : Lacks 61 (p ∷ ps)) where
  prefixed-IsKey : IsKey (codes "user_" ++ (p ∷ ps)) × IsKey (codes "sub_" ++ (p ∷ ps))
  prefixed-IsKey = (
    (refl, (omega arith, (omega arith, (omega arith, (omega arith, (omega arith, no_equals)))))),
    (refl, (omega arith, (omega arith, (omega arith, (omega arith, no_equals))))),
  )

  load_line-meaning :
      (s : Setting) (c : Cfg)
      → IsSetting s
      → load_line (p ∷ ps) (line_of (p ∷ ps) s) c ≡ some (meaning s c)
  unfolding line_of meaning
  load_line-meaning (comment s) c v = unfold load_line in refl
  load_line-meaning empty c v = unfold load_line in refl
  load_line-meaning (text k t) c v =
      load_line_set (p ∷ ps) (text_name k) t c (text_name-IsKey k) v ∙ set_value_text (p ∷ ps) k t c
  load_line-meaning (number k z) c v =
      load_line_set (p ∷ ps) (number_name k) (to_string z) c (number_name-IsKey k)
        (to_string-IsLine z)
      ∙ set_value_number (p ∷ ps) k (to_string z) z c (stoi-to_string z v)
  load_line-meaning (symbols q qs s) c (l, e, j, v) =
      load_line_set (p ∷ ps) (codes "svr_spin_symbols") s c (refl, omega arith) v
      ∙ set_value_symbols (p ∷ ps) q qs s c l e j
  load_line-meaning (level l) c v =
      load_line_set (p ∷ ps) (codes "log_level") (level_name l) c (refl, omega arith)
        (level_name-IsValue l)
      ∙ set_value_level (p ∷ ps) l c
  load_line-meaning (user t) c v =
      load_line_set (p ∷ ps) (codes "user_" ++ (p ∷ ps)) t c prefixed-IsKey.0 v
      ∙ set_value_user p ps t c
  load_line-meaning (sub t) c v =
      load_line_set (p ∷ ps) (codes "sub_" ++ (p ∷ ps)) t c prefixed-IsKey.1 v
      ∙ set_value_sub p ps t c

  load_lines-meanings :
      (ss : List Setting) (c : Cfg)
      → All IsSetting ss
      → load_lines (p ∷ ps) (lines_of (p ∷ ps) ss) c ≡ some (meanings ss c)
  unfolding load_lines meanings lines_of
  load_lines-meanings [] c v = refl
  load_lines-meanings (s ∷ ss) c v =
      rw (load_line-meaning s c v.0, load_lines) (load_lines-meanings ss (meaning s c) v.1)

  line_of-Lacks : (s : Setting) → Lacks 10 (p ∷ ps) → IsSetting s → Lacks 10 (line_of (p ∷ ps) s)
  unfolding line_of
  line_of-Lacks (comment s) h v = (omega arith, v)
  line_of-Lacks empty h v = tt
  line_of-Lacks (text k t) h v =
      Lacks-append 10 (text_name k) (61 ∷ t) (text_name-Lacks k) (omega arith, v.0)
  line_of-Lacks (number k z) h v =
      Lacks-append 10 (number_name k) (61 ∷ to_string z) (number_name-Lacks k)
        (omega arith, (to_string-IsLine z).0)
  line_of-Lacks (symbols q qs s) h (l, e, j, v) =
      Lacks-append 10 (codes "svr_spin_symbols") (61 ∷ s) (omega arith) (omega arith, v.0)
  line_of-Lacks (level l) h v =
      Lacks-append 10 (codes "log_level") (61 ∷ level_name l) (omega arith)
        (omega arith, (level_name-IsValue l).0)
  line_of-Lacks (user t) h v =
      Lacks-append 10 (codes "user_" ++ (p ∷ ps)) (61 ∷ t)
        (Lacks-append 10 (codes "user_") (p ∷ ps) (omega arith) h) (omega arith, v.0)
  line_of-Lacks (sub t) h v =
      Lacks-append 10 (codes "sub_" ++ (p ∷ ps)) (61 ∷ t)
        (Lacks-append 10 (codes "sub_") (p ∷ ps) (omega arith) h) (omega arith, v.0)

  lines_of-Lacks :
      (ss : List Setting)
      → Lacks 10 (p ∷ ps)
      → All IsSetting ss
      → All (Lacks 10) (lines_of (p ∷ ps) ss)
  unfolding lines_of
  lines_of-Lacks [] h v = tt
  lines_of-Lacks (s ∷ ss) h v = (line_of-Lacks s h v.0, lines_of-Lacks ss h v.1)

  -- A file of comments, empty lines and settings, each on its line, is loaded: the result is what the
  -- settings mean, one after the other. The texts are not empty and have no line end, the numbers are ints,
  -- the symbols have no comma, the last of them is not empty, and the prefix of the user is not empty
  -- and has no '=' and no line end.
  pub load_cfg-meanings :
      (ss : List Setting) (c : Cfg)
      → Lacks 10 (p ∷ ps)
      → All IsSetting ss
      → load_cfg (some (terminated 10 (lines_of (p ∷ ps) ss))) (p ∷ ps) c
        ≡ some (true, meanings ss c)
  unfolding load_cfg
  load_cfg-meanings ss c h v =
      rw
        (
          split-terminated (lines_of (p ∷ ps) ss) 10 (lines_of-Lacks ss h v),
          load_lines-meanings ss c v,
        )
        refl
