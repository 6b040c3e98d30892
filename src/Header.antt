-- ===== src/Header.antt =====
-- The record header of src/util.h (MsgHeader, UMsgHeader), EMsgType of src/spinner_core/spnr.h and
-- start_header of src/archive.h.
pub mod Words
use data_spinner.Base.{ℕ, suc, ◌+◌, ◌*◌, ◌/◌, ◌%◌, Option, none, some, ◌==◌, if◌then◌else◌}

-- enum class EMsgType : uint8_t
pub data EMsgType : Type 0 where
  no_type login login_reply text heartbeat subscribe md_refference md_delta : EMsgType
  interactive_menu intvec bytevec doublevec command : EMsgType

-- static_cast<uint8_t>(mtype)
abbrev pub type_code : EMsgType → ℕ
type_code no_type = 0
type_code login = 1
type_code login_reply = 2
type_code text = 3
type_code heartbeat = 4
type_code subscribe = 5
type_code md_refference = 6
type_code md_delta = 7
type_code interactive_menu = 8
type_code intvec = 9
type_code bytevec = 10
type_code doublevec = 11
type_code command = 12

-- static_cast<EMsgType>(code); `none` is a value of the enumeration with no enumerator.
unfoldable pub type_of_code : ℕ → Option EMsgType
type_of_code c =
    if c == 0
    then some no_type
    else if c == 1
    then some login
    else if c == 2
    then some login_reply
    else if c == 3
    then some text
    else if c == 4
    then some heartbeat
    else if c == 5
    then some subscribe
    else if c == 6
    then some md_refference
    else if c == 7
    then some md_delta
    else if c == 8
    then some interactive_menu
    else if c == 9
    then some intvec
    else if c == 10
    then some bytevec
    else if c == 11
    then some doublevec
    else if c == 12
    then some command
    else none

pub record MsgHeader : Type 0 where
  pub pfix : ℕ
  pub mtype : ℕ
  pub len : ℕ
  pub session_idx : ℕ

-- The member `d` of UMsgHeader, read after `h` was written, and `h` after `d` was: the four
-- fields lie one behind the other with no padding, lowest byte first.
unfoldable pub header_word : MsgHeader → ℕ
header_word h = h.pfix + h.mtype * 256 + h.len * 65536 + h.session_idx * 4294967296

unfoldable pub word_header : ℕ → MsgHeader
word_header d = record {
  pfix = d % 256;
  mtype = d / 256 % 256;
  len = d / 65536 % 65536;
  session_idx = d / 4294967296 % 4294967296;
}

abbrev pub tag_soh : ℕ
tag_soh = 1

abbrev pub wire_tstamp_len : ℕ
wire_tstamp_len = 8

-- sizeof(UMsgHeader)
abbrev pub hdr_len : ℕ
hdr_len = 8

unfoldable pub start_header : EMsgType → MsgHeader
start_header t = record {
  pfix = tag_soh;
  mtype = type_code t;
  len = wire_tstamp_len;
  session_idx = 0;
}
