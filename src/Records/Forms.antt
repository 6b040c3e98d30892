-- ===== src/Records/Forms.antt =====
-- The wire form of each message class, which the operators << and >> are compared with.
use data_spinner.Base.{ℕ, ◌%◌, List, ◌++◌}
use data_spinner.Archive.Writing.{bytes_u8, bytes_u16, bytes_u32, bytes_str, bytes_vec}
use data_spinner.Records.{
  TextMsg, HbMsg, SubscribeMsg, LoginMsg, LoginReplyMsg, StrData, MenuMsg, CommandMsg, NumVecMsg,
}

unfoldable pub bytes_text : TextMsg → List ℕ
bytes_text d = bytes_str d.m_text

unfoldable pub bytes_hb : HbMsg → List ℕ
bytes_hb d = bytes_u32 d.counter

unfoldable pub bytes_subscribe : SubscribeMsg → List ℕ
bytes_subscribe d = bytes_vec bytes_str d.symbols

unfoldable pub bytes_login : LoginMsg → List ℕ
bytes_login d =
    bytes_u16 d.version ++ (bytes_str d.user ++ (bytes_str d.token ++ bytes_vec bytes_str d.params))

unfoldable pub bytes_login_reply : LoginReplyMsg → List ℕ
bytes_login_reply d =
    bytes_u16 d.version
    ++ (bytes_u16 d.reply_code ++ (bytes_str d.reply_desc ++ bytes_vec bytes_str d.params))

unfoldable pub bytes_str_data : StrData → List ℕ
bytes_str_data s = bytes_u16 s.idx ++ bytes_str s.val

unfoldable pub bytes_menu : MenuMsg → List ℕ
bytes_menu d = bytes_vec bytes_str_data d.menu

unfoldable pub bytes_command : CommandMsg → List ℕ
bytes_command d =
    bytes_u8 (d.cmd % 256) ++ (bytes_str d.client_ctx ++ bytes_vec bytes_str d.parameters)

unfoldable pub bytes_num_vec : (ℕ → List ℕ) → NumVecMsg → List ℕ
bytes_num_vec bytes d = bytes_str d.client_ctx ++ bytes_vec bytes d.nums
