-- ===== src/Frame/Layout.antt =====
-- What a built record looks like on the wire, if the message fits into one.
use data_spinner.Base.{
  ℕ, ◌+◌, ◌≤◌, ◌<◌, ◌≡◌, refl, ap, ◌∙◌, arith, true, ◌==◌, some, List, ◌++◌, length, take,
  length-append, append_assoc,
}
use data_spinner.Wire.{hton64}
use data_spinner.Wire.Order.{length-le_bytes}
use data_spinner.Header.{MsgHeader, type_code, tag_soh, start_header, header_word}
use data_spinner.Header.Words.{IsHeader, type_code-lt}
use data_spinner.Buffer.{SingleRecordBuffer, capacity, send_bytes, send_len}
use data_spinner.Buffer.Views.{contents, IsWritable}
use data_spinner.Archive.{BuffMsgArchive, fresh_archive, put_bytes, store_header}
use data_spinner.Archive.Writing.{
  Appended, put_bytes-Writes, buffer_write-true, then_write-Writes, bytes_u64,
}
use data_spinner.Message.{Message, msgtype, put_message, bytes_message}
use data_spinner.Message.RoundTrip.{IsMessage, put_message-Writes, calc_len_lem}
use data_spinner.Frame.{message_header, build_record}

-- A message with the time stamp and the session index that it is sent with.
pub record Packet : Type 0 where
  pub stamp : ℕ
  pub session_idx : ℕ
  pub message : Message

-- Header, time stamp and message fit into one record.
pub record IsPacket (p : Packet) : Type 0 where
  pub stamp_fits : p.stamp < 18446744073709551616
  pub session_fits : p.session_idx < 4294967296
  pub message_valid : IsMessage p.message
  pub record_fits : 16 + length (bytes_message p.message) ≤ capacity

unfoldable pub bytes_packet : Packet → List ℕ
bytes_packet p =
    bytes_u64 (header_word (message_header p.session_idx p.message))
    ++ (bytes_u64 p.stamp ++ bytes_message p.message)

pub length-bytes_packet :
    (p : Packet) → length (bytes_packet p) ≡ 16 + length (bytes_message p.message)
unfolding bytes_packet
length-bytes_packet p =
    let w = header_word (message_header p.session_idx p.message) in
    omega (
      arith,
      length-append (bytes_u64 w) (bytes_u64 p.stamp ++ bytes_message p.message),
      length-append (bytes_u64 p.stamp) (bytes_message p.message),
      length-le_bytes 8 (hton64 w),
      length-le_bytes 8 (hton64 p.stamp),
    )

-- The header announces what follows it.
pub message_header_len :
    (p : Packet)
    → IsPacket p
    → (message_header p.session_idx p.message).len ≡ 8 + length (bytes_message p.message)
unfolding message_header start_header
message_header_len p v = omega (arith, calc_len_lem p.message v.message_valid, v.record_fits)

pub message_header-IsHeader :
    (p : Packet) → IsPacket p → IsHeader (message_header p.session_idx p.message)
unfolding message_header start_header
message_header-IsHeader p v = omega (arith, v.session_fits, type_code-lt (msgtype p.message))

-- The other fields of a header.
pub message_header_fields :
    (session_idx : ℕ) (m : Message)
    → let h = message_header session_idx m in
      ((h.pfix == tag_soh) ≡ true)
      × (h.mtype ≡ type_code (msgtype m))
      × (h.session_idx ≡ session_idx)
unfolding message_header start_header
message_header_fields session_idx m = (refl, refl, refl)

-- The two writes of store_header.
store_header_lem :
    (h : MsgHeader) (stamp : ℕ) (ar : BuffMsgArchive)
    → IsWritable ar.bytebuff
    → ar.is_valid ≡ true
    → ar.bytebuff.len + 16 ≤ capacity
    → ((store_header h stamp ar).0 ≡ true)
      × Appended (bytes_u64 (header_word h) ++ bytes_u64 stamp) ar (store_header h stamp ar).1
unfolding store_header
store_header_lem h stamp ar v ok room =
    let bs = bytes_u64 (header_word h) in
    let cs = bytes_u64 stamp in
    let lb : length bs ≡ 8 = length-le_bytes 8 (hton64 (header_word h)) in
    let lc : length cs ≡ 8 = length-le_bytes 8 (hton64 stamp) in
    let a = put_bytes-Writes bs ar v (omega arith) in
    let w₁ = buffer_write-true bs ar v (omega arith) in
    let w₂ = buffer_write-true cs (put_bytes bs ar) a.writable (omega (arith, a.longer)) in
    let both =
      then_write-Writes {f = put_bytes bs} {g = put_bytes cs} (put_bytes-Writes bs)
        (put_bytes-Writes cs) ar v (omega (arith, length-append bs cs)) in
    rw (w₁, w₂) (both.still_valid ∙ ok, both)

take-send : (b : SingleRecordBuffer) → IsWritable b → b.start_pos ≡ 0 → send_bytes b ≡ contents b
unfolding send_bytes send_len
take-send b v h = rw h (ap (λ n. take n b.buff) (omega (arith, v.fits)))

-- send_message builds, for a message that fits, a record that starts at 0, lies in the array,
-- and whose bytes to send are header, time stamp and wire form.
pub build_record_layout :
    (garbage : List ℕ) (p : Packet)
    → length garbage ≡ capacity
    → IsPacket p
    → (b : SingleRecordBuffer) × (build_record garbage p.stamp p.session_idx p.message ≡ some b)
      × (send_bytes b ≡ bytes_packet p)
      × (b.start_pos ≡ 0)
      × IsWritable b
unfolding build_record bytes_packet
build_record_layout garbage p full v =
    let ar₀ = fresh_archive garbage in
    let w₀ : IsWritable ar₀.bytebuff = record { whole = full; fits = omega arith } in
    let h = message_header p.session_idx p.message in
    let bs = bytes_u64 (header_word h) in
    let cs = bytes_u64 p.stamp in
    let head = store_header_lem h p.stamp ar₀ w₀ refl (omega arith) in
    let ar₁ = (store_header h p.stamp ar₀).1 in
    let n : length (bs ++ cs) ≡ 16 = omega (
      arith,
      length-append bs cs,
      length-le_bytes 8 (hton64 (header_word h)),
      length-le_bytes 8 (hton64 p.stamp),
    ) in
    let body =
      put_message-Writes p.message v.message_valid ar₁ head.1.writable
        (omega (arith, head.1.longer, v.record_fits)) in
    let b = (put_message p.message ar₁).bytebuff in
    (
      b,
      rw head.0,
      take-send b body.writable (body.same_start ∙ head.1.same_start)
          ∙ body.appended
          ∙ ap (λ t. t ++ bytes_message p.message) head.1.appended
          ∙ append_assoc bs cs (bytes_message p.message),
      body.same_start ∙ head.1.same_start,
      body.writable,
    )
