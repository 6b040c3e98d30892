-- ===== src/Message/RoundTrip.antt =====
-- The operators of all messages of src/archive.cpp together, calc_len, and stream_in_archive of
-- src/tcp_connection.cpp.
use data_spinner.Base.{ℕ, ◌<◌, ◌≡◌, refl, true, List, [], ◌++◌, length, All, Option, some, ◌∙◌}
use data_spinner.Wire.{htonl, hton64}
use data_spinner.Wire.Order.{length-le_bytes}
use data_spinner.Buffer.Views.{unread, IsReadable}
use data_spinner.Archive.{
  BuffMsgArchive, Reader, put_u8, get_u8, put_u32, get_u32, put_u64, get_u64,
}
use data_spinner.Archive.Writing.{
  Writes, bytes_u8, bytes_u32, bytes_u64, put_u8-Writes, put_u32-Writes, put_u64-Writes,
}
use data_spinner.Archive.Reading.{Reads, get_u8-Reads, get_u32-Reads, get_u64-Reads}
use data_spinner.Records.{u16, NumVecMsg}
use data_spinner.Records.Length.{
  text_calc_len_lem, hb_calc_len_lem, subscribe_calc_len_lem, login_calc_len_lem,
  login_reply_calc_len_lem, menu_calc_len_lem, command_calc_len_lem, num_vec_calc_len_lem,
}
use data_spinner.Records.RoundTrip.{
  IsStr, IsStrs, IsStrData, IsLogin, IsLoginReply, IsCommand, put_text-Writes, get_text-Reads,
  put_hb-Writes, get_hb-Reads, put_subscribe-Writes, get_subscribe-Reads, put_login-Writes,
  get_login-Reads, put_login_reply-Writes, get_login_reply-Reads, put_menu-Writes, get_menu-Reads,
  put_command-Writes, get_command-Reads, put_num_vec-Writes, get_num_vec-Reads,
}
use data_spinner.Delta.Forms.{HasArrays, IsDelta, delta_calc_len_lem, received_delta}
use data_spinner.Delta.RoundTrip.{put_delta-Writes, get_delta-Reads}
use data_spinner.Ref.{MdRef}
use data_spinner.Ref.Forms.{IsRef, ref_calc_len_lem, received_ref}
use data_spinner.Ref.RoundTrip.{IsBlankRef, put_ref-Writes, get_ref-Reads}
use data_spinner.Message.{
  Message, login_msg, login_reply_msg, text_msg, hb_msg, subscribe_msg, ref_msg, delta_msg,
  menu_msg, intvec_msg, bytevec_msg, doublevec_msg, command_msg, msgtype, calc_len, put_message,
  bytes_message, Blanks, received, StreamIn, delivered, deliver, deliver_ref, stream_in_archive,
}

abbrev pub IsNumVec : ℕ → NumVecMsg → Type 0
IsNumVec bound m = IsStr m.client_ctx × All (λ d. d < bound) m.nums × (length m.nums < 65536)

-- The members fit their types, and the lengths fit the uint16_t that they are sent in.
abbrev pub IsMessage : Message → Type 0
IsMessage (login_msg m) = IsLogin m
IsMessage (login_reply_msg m) = IsLoginReply m
IsMessage (text_msg m) = IsStr m.m_text
IsMessage (hb_msg m) = m.counter < 4294967296
IsMessage (subscribe_msg m) = IsStrs m.symbols
IsMessage (ref_msg m) = IsRef m
IsMessage (delta_msg m) = IsDelta m
IsMessage (menu_msg m) = All IsStrData m.menu × (length m.menu < 65536)
IsMessage (intvec_msg m) = IsNumVec 4294967296 m
IsMessage (bytevec_msg m) = IsNumVec 256 m
IsMessage (doublevec_msg m) = IsNumVec 18446744073709551616 m
IsMessage (command_msg m) = IsCommand m

pub record IsBlank (z : Blanks) : Type 0 where
  pub delta_arrays : HasArrays z.delta
  pub ref_blank : IsBlankRef z.ref

-- `ar << m` appends the wire form of any message that fits.
pub put_message-Writes : (m : Message) → IsMessage m → Writes (put_message m) (bytes_message m)
unfolding put_message bytes_message
put_message-Writes (login_msg m) v = put_login-Writes m
put_message-Writes (login_reply_msg m) v = put_login_reply-Writes m
put_message-Writes (text_msg m) v = put_text-Writes m
put_message-Writes (hb_msg m) v = put_hb-Writes m
put_message-Writes (subscribe_msg m) v = put_subscribe-Writes m
put_message-Writes (ref_msg m) v = put_ref-Writes m
put_message-Writes (delta_msg m) v = put_delta-Writes m v
put_message-Writes (menu_msg m) v = put_menu-Writes m
put_message-Writes (intvec_msg m) v =
    put_num_vec-Writes put_u32 get_u32 bytes_u32 4294967296 put_u32-Writes m
put_message-Writes (bytevec_msg m) v = put_num_vec-Writes put_u8 get_u8 bytes_u8 256 put_u8-Writes m
put_message-Writes (doublevec_msg m) v =
    put_num_vec-Writes put_u64 get_u64 bytes_u64 18446744073709551616 put_u64-Writes m
put_message-Writes (command_msg m) v = put_command-Writes m

-- If the members of a message fit their types and lengths, its calc_len is the length of its
-- wire form, which operator<< writes, as a uint16_t.
pub calc_len_lem : (m : Message) → IsMessage m → calc_len m ≡ u16 (length (bytes_message m))
unfolding calc_len bytes_message
calc_len_lem (login_msg m) v = login_calc_len_lem m
calc_len_lem (login_reply_msg m) v = login_reply_calc_len_lem m
calc_len_lem (text_msg m) v = text_calc_len_lem m
calc_len_lem (hb_msg m) v = hb_calc_len_lem m
calc_len_lem (subscribe_msg m) v = subscribe_calc_len_lem m
calc_len_lem (ref_msg m) v = ref_calc_len_lem m v
calc_len_lem (delta_msg m) v = delta_calc_len_lem m v
calc_len_lem (menu_msg m) v = menu_calc_len_lem m
calc_len_lem (intvec_msg m) v =
    num_vec_calc_len_lem bytes_u32 4 (λ x. length-le_bytes 4 (htonl x)) m
calc_len_lem (bytevec_msg m) v = num_vec_calc_len_lem bytes_u8 1 (λ x. length-le_bytes 1 x) m
calc_len_lem (doublevec_msg m) v =
    num_vec_calc_len_lem bytes_u64 8 (λ x. length-le_bytes 8 (hton64 x)) m
calc_len_lem (command_msg m) v = command_calc_len_lem m

-- The archive is valid and holds `bytes`, and `rest` behind them.
pub record Holds (bytes rest : List ℕ) (ar : BuffMsgArchive) : Type 0 where
  pub valid : ar.is_valid ≡ true
  pub readable : IsReadable ar.bytebuff
  pub holds : unread ar.bytebuff ≡ bytes ++ rest

-- `m` was delivered, and the archive holds `rest`.
pub record Delivers (m : Message) (rest : List ℕ) (ar : BuffMsgArchive)
    (r : StreamIn × BuffMsgArchive) : Type 0 where
  pub outcome : r.0 ≡ delivered m
  pub left : Holds [] rest r.1
  pub same_start : r.1.bytebuff.start_pos ≡ ar.bytebuff.start_pos

deliver-Delivers :
    {A : Type 0} (wrap : A → Message) (get : Reader A) (bytes : List ℕ) (a : A)
    → Reads get bytes a
    → (rest : List ℕ) (ar : BuffMsgArchive) → Holds bytes rest ar
    → Delivers (wrap a) rest ar (deliver wrap (get ar))
deliver-Delivers wrap get bytes a p rest ar h =
    let t = p.takes ar rest h.readable h.holds in
    let ok : (get ar).1.is_valid ≡ true = t.still_valid ∙ h.valid in
    rw (ok, t.result)
      (record {
        outcome = refl;
        left = record { valid = refl; readable = t.readable; holds = t.remaining };
        same_start = t.same_start;
      })

deliver_ref-Delivers :
    (get : Reader (Option MdRef)) (bytes : List ℕ) (a : MdRef)
    → Reads get bytes (some a)
    → (rest : List ℕ) (ar : BuffMsgArchive) → Holds bytes rest ar
    → Delivers (ref_msg a) rest ar (deliver_ref (get ar))
deliver_ref-Delivers get bytes a p rest ar h =
    let t = p.takes ar rest h.readable h.holds in
    let ok : (get ar).1.is_valid ≡ true = t.still_valid ∙ h.valid in
    rw (t.result, ok)
      (record {
        outcome = refl;
        left = record { valid = ok; readable = t.readable; holds = t.remaining };
        same_start = t.same_start;
      })

-- If the archive holds the wire form of a message whose members fit, and more bytes behind it,
-- stream_in_archive hands the handler of its type that message, as a receiver sees it, and
-- leaves those bytes, for each of the twelve message types.
pub stream_in-Delivers :
    (z : Blanks) (m : Message) (rest : List ℕ) (ar : BuffMsgArchive)
    → IsBlank z
    → IsMessage m
    → Holds (bytes_message m) rest ar
    → Delivers (received z m) rest ar (stream_in_archive z (some (msgtype m)) ar)
unfolding stream_in_archive msgtype bytes_message received
stream_in-Delivers z (login_msg m) rest ar b v h =
    deliver-Delivers login_msg _ _ m (get_login-Reads m v) rest ar h
stream_in-Delivers z (login_reply_msg m) rest ar b v h =
    deliver-Delivers login_reply_msg _ _ m (get_login_reply-Reads m v) rest ar h
stream_in-Delivers z (text_msg m) rest ar b v h =
    deliver-Delivers text_msg _ _ m (get_text-Reads m v) rest ar h
stream_in-Delivers z (hb_msg m) rest ar b v h =
    deliver-Delivers hb_msg _ _ m (get_hb-Reads z.hb_counter m v) rest ar h
stream_in-Delivers z (subscribe_msg m) rest ar b v h =
    deliver-Delivers subscribe_msg _ _ m (get_subscribe-Reads m v) rest ar h
stream_in-Delivers z (ref_msg m) rest ar b v h =
    deliver_ref-Delivers _ _ (received_ref z.ref m) (get_ref-Reads z.ref m b.ref_blank v) rest ar h
stream_in-Delivers z (delta_msg m) rest ar b v h =
    deliver-Delivers delta_msg _ _ (received_delta z.delta m)
      (get_delta-Reads z.delta m b.delta_arrays v) rest ar h
stream_in-Delivers z (menu_msg m) rest ar b v h =
    deliver-Delivers menu_msg _ _ m (get_menu-Reads z.menu_idx m v.0 v.1) rest ar h
stream_in-Delivers z (intvec_msg m) rest ar b v h =
    deliver-Delivers intvec_msg _ _ m
      (get_num_vec-Reads put_u32 get_u32 bytes_u32 4294967296 get_u32-Reads m v.0 v.1 v.2) rest ar h
stream_in-Delivers z (bytevec_msg m) rest ar b v h =
    deliver-Delivers bytevec_msg _ _ m
      (get_num_vec-Reads put_u8 get_u8 bytes_u8 256 get_u8-Reads m v.0 v.1 v.2) rest ar h
stream_in-Delivers z (doublevec_msg m) rest ar b v h =
    deliver-Delivers doublevec_msg _ _ m
      (get_num_vec-Reads put_u64 get_u64 bytes_u64 18446744073709551616 get_u64-Reads m v.0 v.1 v.2)
      rest ar h
stream_in-Delivers z (command_msg m) rest ar b v h =
    deliver-Delivers command_msg _ _ m (get_command-Reads m v) rest ar h
