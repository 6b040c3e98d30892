-- ===== src/Records.antt =====
-- The message classes of src/spinner_core/records.h, with the methods of records.cpp.
-- A std::string is the list of its bytes.
pub mod Codec
pub mod Forms
pub mod RoundTrip
pub mod Length
use data_spinner.Base.{
  ℕ, ◌+◌, ◌*◌, ◌%◌, Bool, true, false, List, [], ◌∷◌, ◌++◌, ltb, if◌then◌else◌, length,
}
use data_spinner.Header.{
  EMsgType, text, heartbeat, subscribe, login, login_reply, interactive_menu, intvec, bytevec,
  doublevec, command,
}
use mathlib.Core.List.{foldl}

abbrev pub Str : Type 0
Str = List ℕ

-- The conversion to uint16_t that every length goes through.
abbrev pub u16 : ℕ → ℕ
u16 n = n % 65536

-- str_archive_len, str_arr_archive_len and num_arr_archive_len of spnr.h
unfoldable pub str_archive_len : Str → ℕ
str_archive_len s = u16 (2 + length s)

unfoldable pub str_arr_archive_len : List Str → ℕ
str_arr_archive_len = foldl (λ r v. u16 (r + (length v + 2))) 2

unfoldable pub num_arr_archive_len : {T : Type 0} → ℕ → List T → ℕ
num_arr_archive_len size arr = u16 (2 + size * length arr)

pub record TextMsg : Type 0 where
  pub m_text : Str

unfoldable pub text_calc_len : TextMsg → ℕ
text_calc_len m = str_archive_len m.m_text

pub record HbMsg : Type 0 where
  pub counter : ℕ

unfoldable pub hb_calc_len : HbMsg → ℕ
hb_calc_len m = 4

pub record SubscribeMsg : Type 0 where
  pub symbols : List Str

unfoldable pub add_symbols : List Str → SubscribeMsg → SubscribeMsg
add_symbols sym m = record m { symbols = m.symbols ++ sym }

unfoldable pub add_symbol : Str → SubscribeMsg → SubscribeMsg
add_symbol s m = record m { symbols = m.symbols ++ (s ∷ []) }

unfoldable pub subscribe_calc_len : SubscribeMsg → ℕ
subscribe_calc_len m = str_arr_archive_len m.symbols

pub record LoginMsg : Type 0 where
  pub version : ℕ
  pub user : Str
  pub token : Str
  pub params : List Str

-- LoginMsg(), then set_user and set_token
unfoldable pub new_login : Str → Str → LoginMsg
new_login user token = record { version = 1; user = user; token = token; params = [] }

unfoldable pub add_login_parameters : List Str → LoginMsg → LoginMsg
add_login_parameters params m = record m { params = m.params ++ params }

unfoldable pub login_calc_len : LoginMsg → ℕ
login_calc_len m =
    let rv₁ = u16 (2 + str_archive_len m.user) in
    let rv₂ = u16 (rv₁ + str_archive_len m.token) in u16 (rv₂ + str_arr_archive_len m.params)

pub record LoginReplyMsg : Type 0 where
  pub version : ℕ
  pub reply_code : ℕ
  pub reply_desc : Str
  pub params : List Str

-- LoginReplyMsg(), then set_reply_code and set_reply_description
unfoldable pub new_login_reply : ℕ → Str → LoginReplyMsg
new_login_reply code desc = record {
  version = 0;
  reply_code = code;
  reply_desc = desc;
  params = [];
}

unfoldable pub add_reply_parameters : List Str → LoginReplyMsg → LoginReplyMsg
add_reply_parameters params m = record m { params = m.params ++ params }

unfoldable pub login_reply_calc_len : LoginReplyMsg → ℕ
login_reply_calc_len m =
    let rv₁ = u16 (4 + str_archive_len m.reply_desc) in u16 (rv₁ + str_arr_archive_len m.params)

pub record StrData : Type 0 where
  pub idx : ℕ
  pub val : Str

-- ECommand, by its uint8_t value.
abbrev pub cmd_none : ℕ
cmd_none = 0

pub record MenuMsg : Type 0 where
  pub menu : List StrData

unfoldable pub add_menu_option : ℕ → Str → MenuMsg → MenuMsg
add_menu_option c s m = record m { menu = m.menu ++ (record { idx = u16 c; val = s } ∷ []) }

-- The loop of MenuMsg::calc_len
unfoldable pub menu_calc_len : MenuMsg → ℕ
menu_calc_len m = foldl (λ rv s. u16 (u16 (rv + str_archive_len s.val) + 2)) 2 m.menu

pub record CommandMsg : Type 0 where
  pub cmd : ℕ
  pub client_ctx : Str
  pub parameters : List Str

unfoldable pub new_command : ℕ → Str → CommandMsg
new_command c client_ctx = record { cmd = c; client_ctx = client_ctx; parameters = [] }

unfoldable pub add_parameter : Str → CommandMsg → CommandMsg × Bool
add_parameter s m = (record m { parameters = m.parameters ++ (s ∷ []) }, true)

unfoldable pub add_command_parameters : List Str → CommandMsg → CommandMsg × Bool
add_command_parameters v m = (record m { parameters = m.parameters ++ v }, true)

unfoldable pub command_calc_len : CommandMsg → ℕ
command_calc_len m =
    let rv₁ = u16 (1 + str_archive_len m.client_ctx) in u16 (rv₁ + str_arr_archive_len m.parameters)

-- NumVecMsg: IntVecMsg of uint32_t, ByteVecMsg of uint8_t, DoubleVecMsg of the bits of a double.
pub record NumVecMsg : Type 0 where
  pub client_ctx : Str
  pub nums : List ℕ

abbrev pub max_num_vec_size : ℕ
max_num_vec_size = 200

unfoldable pub add_num : ℕ → NumVecMsg → NumVecMsg × Bool
add_num d m =
    if ltb max_num_vec_size (length m.nums)
    then (m, false)
    else (record m { nums = m.nums ++ (d ∷ []) }, true)

-- `size` is sizeof(NUM)
unfoldable pub num_vec_calc_len : ℕ → NumVecMsg → ℕ
num_vec_calc_len size m = u16 (str_archive_len m.client_ctx + num_arr_archive_len size m.nums)
