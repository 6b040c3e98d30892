-- ===== src/Records/Codec.antt =====
-- The operators << and >> of src/archive.cpp on the messages, and those of src/archive.h on the
-- numerical vectors. A message is loaded into an object as its constructor leaves it; where that
-- does not initialise a member, the member's value is an argument.
use data_spinner.Base.{ℕ, ◌%◌, []}
use data_spinner.Archive.{
  Writer, Reader, ◌>>=◌, pure, ◌then_write◌, put_u8, get_u8, put_u16, get_u16, put_u32, get_u32,
  put_str, get_str, put_vec, get_vec,
}
use data_spinner.Records.{
  TextMsg, HbMsg, SubscribeMsg, LoginMsg, LoginReplyMsg, StrData, MenuMsg, CommandMsg, NumVecMsg,
}

unfoldable pub put_text : TextMsg → Writer
put_text d = put_str d.m_text

unfoldable pub get_text : Reader TextMsg
get_text = do s ← get_str []; pure (record { m_text = s })

unfoldable pub put_hb : HbMsg → Writer
put_hb d = put_u32 d.counter

unfoldable pub get_hb : ℕ → Reader HbMsg
get_hb old = do c ← get_u32 old; pure (record { counter = c })

unfoldable pub put_subscribe : SubscribeMsg → Writer
put_subscribe d = put_vec put_str d.symbols

unfoldable pub get_subscribe : Reader SubscribeMsg
get_subscribe = do v ← get_vec get_str [] []; pure (record { symbols = v })

unfoldable pub put_login : LoginMsg → Writer
put_login d =
    put_u16 d.version
    then_write put_str d.user
    then_write put_str d.token
    then_write put_vec put_str d.params

unfoldable pub get_login : Reader LoginMsg
get_login = do
  v ← get_u16 1
  u ← get_str []
  t ← get_str []
  p ← get_vec get_str [] []
  pure (record { version = v; user = u; token = t; params = p })

unfoldable pub put_login_reply : LoginReplyMsg → Writer
put_login_reply d =
    put_u16 d.version
    then_write put_u16 d.reply_code
    then_write put_str d.reply_desc
    then_write put_vec put_str d.params

unfoldable pub get_login_reply : Reader LoginReplyMsg
get_login_reply = do
  v ← get_u16 0
  c ← get_u16 0
  s ← get_str []
  p ← get_vec get_str [] []
  pure (record { version = v; reply_code = c; reply_desc = s; params = p })

unfoldable pub put_str_data : StrData → Writer
put_str_data s = put_u16 s.idx then_write put_str s.val

unfoldable pub get_str_data : StrData → Reader StrData
get_str_data s = do i ← get_u16 s.idx; v ← get_str s.val; pure (record { idx = i; val = v })

unfoldable pub put_menu : MenuMsg → Writer
put_menu d = put_vec put_str_data d.menu

-- `old_idx` is the uninitialised idx_ of the loop's StrData.
unfoldable pub get_menu : ℕ → Reader MenuMsg
get_menu old_idx = do
  v ← get_vec get_str_data (record { idx = old_idx; val = [] }) []
  pure (record { menu = v })

unfoldable pub put_command : CommandMsg → Writer
put_command d =
    put_u8 (d.cmd % 256) then_write put_str d.client_ctx then_write put_vec put_str d.parameters

unfoldable pub get_command : Reader CommandMsg
get_command = do
  c ← get_u8 0
  s ← get_str []
  p ← get_vec get_str [] []
  pure (record { cmd = c; client_ctx = s; parameters = p })

-- The operators on NumVecMsg, over those on its numbers.
unfoldable pub put_num_vec : (ℕ → Writer) → NumVecMsg → Writer
put_num_vec put d = put_str d.client_ctx then_write put_vec put d.nums

unfoldable pub get_num_vec : (ℕ → Reader ℕ) → Reader NumVecMsg
get_num_vec get = do
  s ← get_str []
  v ← get_vec get 0 []
  pure (record { client_ctx = s; nums = v })
