-- ===== src/Records/RoundTrip.antt =====
-- The operators << and >> of the messages of src/archive.cpp, against their wire forms.
use data_spinner.Base.{ℕ, ◌%◌, ◌<◌, ◌≡◌, arith, List, [], length, All}
use data_spinner.Archive.{Writer, Reader, put_u8, put_u16, put_str, get_str, put_vec, get_vec}
use data_spinner.Archive.Writing.{
  Writes, then_write-Writes, bytes_str, bytes_vec, put_u8-Writes, put_u16-Writes, put_u32-Writes,
  put_str-Writes, put_vec-Writes,
}
use data_spinner.Archive.Reading.{
  Reads, >>=-Reads, map-Reads, get_u8-Reads, get_u16-Reads, get_u32-Reads, get_str-Reads,
  get_vec-Reads,
}
use data_spinner.Records.{
  Str, TextMsg, HbMsg, SubscribeMsg, LoginMsg, LoginReplyMsg, StrData, MenuMsg, CommandMsg,
  NumVecMsg,
}
use data_spinner.Records.Codec.{
  put_text, get_text, put_hb, get_hb, put_subscribe, get_subscribe, put_login, get_login,
  put_login_reply, get_login_reply, put_str_data, get_str_data, put_menu, get_menu, put_command,
  get_command, put_num_vec, get_num_vec,
}
use data_spinner.Records.Forms.{
  bytes_text, bytes_hb, bytes_subscribe, bytes_login, bytes_login_reply, bytes_str_data, bytes_menu,
  bytes_command, bytes_num_vec,
}

-- A string, or a list of strings, whose lengths fit a uint16_t.
abbrev pub IsStr : Str → Type 0
IsStr s = length s < 65536

abbrev pub IsStrs : List Str → Type 0
IsStrs v = All IsStr v × (length v < 65536)

put_strs-Writes : (v : List Str) → Writes (put_vec put_str v) (bytes_vec bytes_str v)
put_strs-Writes = put_vec-Writes put_str-Writes

get_strs-Reads : (v : List Str) → IsStrs v → Reads (get_vec get_str [] []) (bytes_vec bytes_str v) v
get_strs-Reads v h = get_vec-Reads bytes_str IsStr get_str-Reads v [] h.0 h.1

pub put_text-Writes : (m : TextMsg) → Writes (put_text m) (bytes_text m)
unfolding put_text bytes_text
put_text-Writes m = put_str-Writes m.m_text

pub get_text-Reads : (m : TextMsg) → IsStr m.m_text → Reads get_text (bytes_text m) m
unfolding get_text bytes_text
get_text-Reads m h = map-Reads (λ s. record { m_text = s }) (get_str-Reads [] m.m_text h)

pub put_hb-Writes : (m : HbMsg) → Writes (put_hb m) (bytes_hb m)
unfolding put_hb bytes_hb
put_hb-Writes m = put_u32-Writes m.counter

pub get_hb-Reads :
    (old : ℕ) (m : HbMsg) → m.counter < 4294967296 → Reads (get_hb old) (bytes_hb m) m
unfolding get_hb bytes_hb
get_hb-Reads old m h = map-Reads (λ c. record { counter = c }) (get_u32-Reads old m.counter h)

pub put_subscribe-Writes : (m : SubscribeMsg) → Writes (put_subscribe m) (bytes_subscribe m)
unfolding put_subscribe bytes_subscribe
put_subscribe-Writes m = put_strs-Writes m.symbols

pub get_subscribe-Reads :
    (m : SubscribeMsg) → IsStrs m.symbols → Reads get_subscribe (bytes_subscribe m) m
unfolding get_subscribe bytes_subscribe
get_subscribe-Reads m h = map-Reads (λ v. record { symbols = v }) (get_strs-Reads m.symbols h)

pub record IsLogin (m : LoginMsg) : Type 0 where
  pub version_fits : m.version < 65536
  pub user_fits : IsStr m.user
  pub token_fits : IsStr m.token
  pub params_fit : IsStrs m.params

pub put_login-Writes : (m : LoginMsg) → Writes (put_login m) (bytes_login m)
unfolding put_login bytes_login
put_login-Writes m = then_write-Writes {f = put_u16 m.version} (put_u16-Writes m.version) (
    then_write-Writes {f = put_str m.user} (put_str-Writes m.user) (
      then_write-Writes {f = put_str m.token} {g = put_vec put_str m.params}
        (put_str-Writes m.token) (put_strs-Writes m.params)))

pub get_login-Reads : (m : LoginMsg) → IsLogin m → Reads get_login (bytes_login m) m
unfolding get_login bytes_login
get_login-Reads m h = >>=-Reads _ (get_u16-Reads 1 m.version h.version_fits) (
    >>=-Reads _ (get_str-Reads [] m.user h.user_fits) (
      >>=-Reads _ (get_str-Reads [] m.token h.token_fits) (
        map-Reads (λ p. record { version = m.version; user = m.user; token = m.token; params = p })
          (get_strs-Reads m.params h.params_fit))))

pub record IsLoginReply (m : LoginReplyMsg) : Type 0 where
  pub version_fits : m.version < 65536
  pub code_fits : m.reply_code < 65536
  pub desc_fits : IsStr m.reply_desc
  pub params_fit : IsStrs m.params

pub put_login_reply-Writes : (m : LoginReplyMsg) → Writes (put_login_reply m) (bytes_login_reply m)
unfolding put_login_reply bytes_login_reply
put_login_reply-Writes m = then_write-Writes {f = put_u16 m.version} (put_u16-Writes m.version) (
    then_write-Writes {f = put_u16 m.reply_code} (put_u16-Writes m.reply_code) (
      then_write-Writes {f = put_str m.reply_desc} {g = put_vec put_str m.params}
        (put_str-Writes m.reply_desc) (put_strs-Writes m.params)))

pub get_login_reply-Reads :
    (m : LoginReplyMsg) → IsLoginReply m → Reads get_login_reply (bytes_login_reply m) m
unfolding get_login_reply bytes_login_reply
get_login_reply-Reads m h = >>=-Reads _ (get_u16-Reads 0 m.version h.version_fits) (
    >>=-Reads _ (get_u16-Reads 0 m.reply_code h.code_fits) (
      >>=-Reads _ (get_str-Reads [] m.reply_desc h.desc_fits) (
        map-Reads
          (λ p. record {
            version = m.version;
            reply_code = m.reply_code;
            reply_desc = m.reply_desc;
            params = p;
          })
          (get_strs-Reads m.params h.params_fit))))

pub record IsStrData (s : StrData) : Type 0 where
  pub idx_fits : s.idx < 65536
  pub val_fits : IsStr s.val

put_str_data-Writes : (s : StrData) → Writes (put_str_data s) (bytes_str_data s)
unfolding put_str_data bytes_str_data
put_str_data-Writes s =
    then_write-Writes {f = put_u16 s.idx} {g = put_str s.val} (put_u16-Writes s.idx)
      (put_str-Writes s.val)

get_str_data-Reads : (old s : StrData) → IsStrData s → Reads (get_str_data old) (bytes_str_data s) s
unfolding get_str_data bytes_str_data
get_str_data-Reads old s h =
    >>=-Reads _ (get_u16-Reads old.idx s.idx h.idx_fits)
      (map-Reads (λ v. record { idx = s.idx; val = v }) (get_str-Reads old.val s.val h.val_fits))

pub put_menu-Writes : (m : MenuMsg) → Writes (put_menu m) (bytes_menu m)
unfolding put_menu bytes_menu
put_menu-Writes m = put_vec-Writes put_str_data-Writes m.menu

pub get_menu-Reads :
    (old : ℕ) (m : MenuMsg)
    → All IsStrData m.menu
    → length m.menu < 65536
    → Reads (get_menu old) (bytes_menu m) m
unfolding get_menu bytes_menu
get_menu-Reads old m h few =
    map-Reads (λ v. record { menu = v })
      (get_vec-Reads bytes_str_data IsStrData get_str_data-Reads m.menu
        (record { idx = old; val = [] }) h few)

pub record IsCommand (m : CommandMsg) : Type 0 where
  pub cmd_fits : m.cmd < 256
  pub ctx_fits : IsStr m.client_ctx
  pub params_fit : IsStrs m.parameters

pub put_command-Writes : (m : CommandMsg) → Writes (put_command m) (bytes_command m)
unfolding put_command bytes_command
put_command-Writes m = then_write-Writes {f = put_u8 (m.cmd % 256)} (put_u8-Writes (m.cmd % 256)) (
    then_write-Writes {f = put_str m.client_ctx} {g = put_vec put_str m.parameters}
      (put_str-Writes m.client_ctx) (put_strs-Writes m.parameters))

pub get_command-Reads : (m : CommandMsg) → IsCommand m → Reads get_command (bytes_command m) m
unfolding get_command bytes_command
get_command-Reads m h =
    let e : m.cmd % 256 ≡ m.cmd = omega (arith, h.cmd_fits) in
    rw e (
      >>=-Reads _ (get_u8-Reads 0 m.cmd h.cmd_fits) (
        >>=-Reads _ (get_str-Reads [] m.client_ctx h.ctx_fits) (
          map-Reads (λ p. record { cmd = m.cmd; client_ctx = m.client_ctx; parameters = p })
            (get_strs-Reads m.parameters h.params_fit))))

-- The numerical vectors, for any operators << and >> on their numbers.
module _ (put : ℕ → Writer) (get : ℕ → Reader ℕ) (bytes : ℕ → List ℕ) (bound : ℕ) where
  pub put_num_vec-Writes :
      ((d : ℕ) → Writes (put d) (bytes d))
      → (m : NumVecMsg) → Writes (put_num_vec put m) (bytes_num_vec bytes m)
  unfolding put_num_vec bytes_num_vec
  put_num_vec-Writes p m =
      then_write-Writes {f = put_str m.client_ctx} {g = put_vec put m.nums}
        (put_str-Writes m.client_ctx) (put_vec-Writes p m.nums)

  pub get_num_vec-Reads :
      ((old d : ℕ) → d < bound → Reads (get old) (bytes d) d)
      → (m : NumVecMsg) → IsStr m.client_ctx
      → All (λ d. d < bound) m.nums
      → length m.nums < 65536
      → Reads (get_num_vec get) (bytes_num_vec bytes m) m
  unfolding get_num_vec bytes_num_vec
  get_num_vec-Reads p m ctx all few = >>=-Reads _ (get_str-Reads [] m.client_ctx ctx) (
      map-Reads (λ v. record { client_ctx = m.client_ctx; nums = v })
        (get_vec-Reads bytes (λ d. d < bound) p m.nums 0 all few))
