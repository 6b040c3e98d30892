-- ===== src/Header/Words.antt =====
-- MsgHeader and the 64-bit word of UMsgHeader of src/util.h.
use data_spinner.Base.{◌<◌, ◌≡◌, refl, arith, some}
use data_spinner.Header.{
  EMsgType, MsgHeader, type_code, type_of_code, header_word, word_header, no_type, login,
}

-- The fields fit their types: uint8_t, uint8_t, uint16_t and uint32_t.
pub record IsHeader (h : MsgHeader) : Type 0 where
  pub pfix_fits : h.pfix < 256
  pub mtype_fits : h.mtype < 256
  pub len_fits : h.len < 65536
  pub session_fits : h.session_idx < 4294967296

-- A header whose fields fit their types is read back from its 64-bit word.
pub word_header-header_word : (h : MsgHeader) → IsHeader h → word_header (header_word h) ≡ h
unfolding word_header header_word
word_header-header_word h v = ground arith

pub header_word-lt : (h : MsgHeader) → IsHeader h → header_word h < 18446744073709551616
unfolding header_word
header_word-lt h v = omega arith

pub type_of_code-type_code : (t : EMsgType) → type_of_code (type_code t) ≡ some t
unfolding type_of_code
type_of_code-type_code no_type = refl
type_of_code-type_code login = refl
type_of_code-type_code _ = refl

pub type_code-lt : (t : EMsgType) → type_code t < 256
type_code-lt no_type = omega arith
type_code-lt _ = omega arith
