-- ===== src/Message.antt =====
-- The messages of src/spinner_core/records.h and md_ref.h as one type, with the members that
-- TcpConnection::send_message (src/tcp_connection.h) uses of each, and stream_in_archive of
-- src/tcp_connection.cpp.
pub mod RoundTrip
use data_spinner.Base.{ℕ, Bool, true, false, Option, none, some, List}
use data_spinner.Header.{
  EMsgType, no_type, login, login_reply, text, heartbeat, subscribe, md_refference, md_delta,
  interactive_menu, intvec, bytevec, doublevec, command,
}
use data_spinner.Archive.{
  BuffMsgArchive, Writer, Reader, put_u8, get_u8, put_u32, get_u32, put_u64, get_u64,
}
use data_spinner.Archive.Writing.{bytes_u8, bytes_u32, bytes_u64}
use data_spinner.Records.{
  TextMsg, HbMsg, SubscribeMsg, LoginMsg, LoginReplyMsg, MenuMsg, CommandMsg, NumVecMsg,
  text_calc_len, hb_calc_len, subscribe_calc_len, login_calc_len, login_reply_calc_len,
  menu_calc_len, command_calc_len, num_vec_calc_len,
}
use data_spinner.Records.Codec.{
  put_text, get_text, put_hb, get_hb, put_subscribe, get_subscribe, put_login, get_login,
  put_login_reply, get_login_reply, put_menu, get_menu, put_command, get_command, put_num_vec,
  get_num_vec,
}
use data_spinner.Records.Forms.{
  bytes_text, bytes_hb, bytes_subscribe, bytes_login, bytes_login_reply, bytes_menu, bytes_command,
  bytes_num_vec,
}
use data_spinner.Delta.{MdDelta, delta_calc_len, put_delta, get_delta}
use data_spinner.Delta.Forms.{bytes_delta, received_delta}
use data_spinner.Ref.{MdRef, ref_calc_len, put_ref, get_ref}
use data_spinner.Ref.Forms.{bytes_ref, received_ref}

pub data Message : Type 0 where
  login_msg : LoginMsg → Message
  login_reply_msg : LoginReplyMsg → Message
  text_msg : TextMsg → Message
  hb_msg : HbMsg → Message
  subscribe_msg : SubscribeMsg → Message
  ref_msg : MdRef → Message
  delta_msg : MdDelta → Message
  menu_msg : MenuMsg → Message
  intvec_msg bytevec_msg doublevec_msg : NumVecMsg → Message
  command_msg : CommandMsg → Message

-- msgtype()
unfoldable pub msgtype : Message → EMsgType
msgtype (login_msg m) = login
msgtype (login_reply_msg m) = login_reply
msgtype (text_msg m) = text
msgtype (hb_msg m) = heartbeat
msgtype (subscribe_msg m) = subscribe
msgtype (ref_msg m) = md_refference
msgtype (delta_msg m) = md_delta
msgtype (menu_msg m) = interactive_menu
msgtype (intvec_msg m) = intvec
msgtype (bytevec_msg m) = bytevec
msgtype (doublevec_msg m) = doublevec
msgtype (command_msg m) = command

-- calc_len()
unfoldable pub calc_len : Message → ℕ
calc_len (login_msg m) = login_calc_len m
calc_len (login_reply_msg m) = login_reply_calc_len m
calc_len (text_msg m) = text_calc_len m
calc_len (hb_msg m) = hb_calc_len m
calc_len (subscribe_msg m) = subscribe_calc_len m
calc_len (ref_msg m) = ref_calc_len m
calc_len (delta_msg m) = delta_calc_len m
calc_len (menu_msg m) = menu_calc_len m
calc_len (intvec_msg m) = num_vec_calc_len 4 m
calc_len (bytevec_msg m) = num_vec_calc_len 1 m
calc_len (doublevec_msg m) = num_vec_calc_len 8 m
calc_len (command_msg m) = command_calc_len m

-- `ar << m`
unfoldable pub put_message : Message → Writer
put_message (login_msg m) = put_login m
put_message (login_reply_msg m) = put_login_reply m
put_message (text_msg m) = put_text m
put_message (hb_msg m) = put_hb m
put_message (subscribe_msg m) = put_subscribe m
put_message (ref_msg m) = put_ref m
put_message (delta_msg m) = put_delta m
put_message (menu_msg m) = put_menu m
put_message (intvec_msg m) = put_num_vec put_u32 m
put_message (bytevec_msg m) = put_num_vec put_u8 m
put_message (doublevec_msg m) = put_num_vec put_u64 m
put_message (command_msg m) = put_command m

unfoldable pub bytes_message : Message → List ℕ
bytes_message (login_msg m) = bytes_login m
bytes_message (login_reply_msg m) = bytes_login_reply m
bytes_message (text_msg m) = bytes_text m
bytes_message (hb_msg m) = bytes_hb m
bytes_message (subscribe_msg m) = bytes_subscribe m
bytes_message (ref_msg m) = bytes_ref m
bytes_message (delta_msg m) = bytes_delta m
bytes_message (menu_msg m) = bytes_menu m
bytes_message (intvec_msg m) = bytes_num_vec bytes_u32 m
bytes_message (bytevec_msg m) = bytes_num_vec bytes_u8 m
bytes_message (doublevec_msg m) = bytes_num_vec bytes_u64 m
bytes_message (command_msg m) = bytes_command m

-- What the local objects of stream_in_archive hold before they are read into, where their
-- constructors do not say: HBMsg::counter_, StrData::idx_ in the vector's loop, and the arrays.
pub record Blanks : Type 0 where
  pub hb_counter : ℕ
  pub menu_idx : ℕ
  pub delta : MdDelta
  pub ref : MdRef

-- The message that a receiver sees.
unfoldable pub received : Blanks → Message → Message
received z (ref_msg m) = ref_msg (received_ref z.ref m)
received z (delta_msg m) = delta_msg (received_delta z.delta m)
received z m = m

-- `return false`, an exception, the call of a handler with its message, or none for a type that
-- has no enumerator or no case.
pub data StreamIn : Type 0 where
  rejected thrown unrecognized : StreamIn
  delivered : Message → StreamIn

-- `if (!ar()) return false; on_..._msg(m);`
abbrev pub deliver : {A : Type 0} → (A → Message) → A × BuffMsgArchive → StreamIn × BuffMsgArchive
deliver wrap (m, ar) = elim (ar.is_valid) [
  | true ↦ (delivered (wrap m), ar)
  | false ↦ (rejected, ar)
]

abbrev pub deliver_ref : Option MdRef × BuffMsgArchive → StreamIn × BuffMsgArchive
deliver_ref (none, ar) = (thrown, ar)
deliver_ref (some m, ar) = deliver ref_msg (m, ar)

unfoldable pub stream_in_archive :
    Blanks → Option EMsgType → BuffMsgArchive → StreamIn × BuffMsgArchive
stream_in_archive z none ar = (unrecognized, ar)
stream_in_archive z (some no_type) ar = (unrecognized, ar)
stream_in_archive z (some login) ar = deliver login_msg (get_login ar)
stream_in_archive z (some login_reply) ar = deliver login_reply_msg (get_login_reply ar)
stream_in_archive z (some text) ar = deliver text_msg (get_text ar)
stream_in_archive z (some heartbeat) ar = deliver hb_msg (get_hb z.hb_counter ar)
stream_in_archive z (some subscribe) ar = deliver subscribe_msg (get_subscribe ar)
stream_in_archive z (some md_refference) ar = deliver_ref (get_ref z.ref ar)
stream_in_archive z (some md_delta) ar = deliver delta_msg (get_delta z.delta ar)
stream_in_archive z (some interactive_menu) ar = deliver menu_msg (get_menu z.menu_idx ar)
stream_in_archive z (some intvec) ar = deliver intvec_msg (get_num_vec get_u32 ar)
stream_in_archive z (some bytevec) ar = deliver bytevec_msg (get_num_vec get_u8 ar)
stream_in_archive z (some doublevec) ar = deliver doublevec_msg (get_num_vec get_u64 ar)
stream_in_archive z (some command) ar = deliver command_msg (get_command ar)
