-- ===== src/Udp/Delivery.antt =====
-- From send_message_to to the handlers of udp_subscriber_readcb (src/udp_connection.h and
-- src/udp_connection.cpp).
use data_spinner.Base.{
  ℕ, ◌-◌, ◌≤◌, ◌≡◌, refl, ap, sym, ◌∙◌, arith, false, ◌&&◌, some, List, [], ◌∷◌, ◌++◌, ltb,
  if◌then◌else◌, length, drop, length-append, length-drop, take-append_at, drop-append_at,
  append_assoc, append-nil, take-all, Bool-cases, inl, inr, le→ltb_false,
}
use data_spinner.Wire.Order.{length-le_bytes}
use data_spinner.Wire.{hton64}
use data_spinner.Header.{header_word, type_of_code}
use data_spinner.Header.Words.{type_of_code-type_code}
use data_spinner.Buffer.{capacity}
use data_spinner.Archive.Writing.{bytes_u64}
use data_spinner.Archive.Reading.{get_u64-Reads}
use data_spinner.Stat.{WireReaderStat}
use data_spinner.Message.{Message, msgtype, bytes_message, received}
use data_spinner.Message.RoundTrip.{IsBlank, Holds, stream_in-Delivers}
use data_spinner.Frame.{message_header}
use data_spinner.Frame.Layout.{
  Packet, IsPacket, bytes_packet, length-bytes_packet, message_header_len, message_header_fields,
  message_header-IsHeader,
}
use data_spinner.Receive.{is_delta}
use data_spinner.Receive.Packet.{decode_header}
use data_spinner.Udp.{
  SockAddr, datagram, RecvEnv, recv_buff, datagram_header, datagram_archive, read_stamp, Outcome,
  handled,
}
use data_spinner.Udp.Subscriber.{
  UdpSubscriber, deliver_datagram, read_datagram, take_datagram, udp_subscriber_readcb,
}

-- What the handlers see of a message.
unfoldable pub udp_seen : RecvEnv → SockAddr → Message → List (SockAddr × Message)
udp_seen env sin m =
    if env.idle_on_delta && is_delta (some (msgtype m))
    then []
    else (sin, received env.blanks m) ∷ []

-- The datagram of `p` was taken.
pub record TookDatagram (env : RecvEnv) (sin : SockAddr) (p : Packet) (c : UdpSubscriber)
    (r : Outcome × UdpSubscriber) : Type 0 where
  pub outcome : r.0 ≡ handled
  pub inbox : r.1.inbox ≡ c.inbox ++ udp_seen env sin p.message
  pub session : r.1.reader_session_index ≡ p.session_idx

pub datagram_header_lem :
    (p : Packet) (rest : List ℕ)
    → IsPacket p
    → datagram_header (bytes_packet p ++ rest) ≡ message_header p.session_idx p.message
unfolding datagram_header bytes_packet
datagram_header_lem p rest v =
    let h = message_header p.session_idx p.message in
    let w = bytes_u64 (header_word h) in
    let tail = bytes_u64 p.stamp ++ bytes_message p.message in
    rw
      (
        append_assoc w tail rest,
        take-append_at 8 w (tail ++ rest) (length-le_bytes 8 (hton64 (header_word h))),
      )
      (decode_header h (message_header-IsHeader p v))

-- The archive that the callback reads holds the time stamp and the message.
datagram_archive-Holds :
    (p : Packet) (rest : List ℕ)
    → IsPacket p
    → length (bytes_packet p ++ rest) ≡ capacity
    → Holds
        (bytes_u64 p.stamp ++ bytes_message p.message)
        []
        (datagram_archive (bytes_packet p ++ rest) (message_header p.session_idx p.message))
unfolding datagram_archive bytes_packet
datagram_archive-Holds p rest v full =
    let h = message_header p.session_idx p.message in
    let w = bytes_u64 (header_word h) in
    let tail = bytes_u64 p.stamp ++ bytes_message p.message in
    let n : length tail ≡ h.len = omega (
      arith,
      length-append (bytes_u64 p.stamp) (bytes_message p.message),
      length-le_bytes 8 (hton64 p.stamp),
      message_header_len p v,
    ) in
    let z : h.len - 0 ≡ h.len = omega arith in
    record {
      valid = refl;
      readable = record { whole = full; before_end = omega arith; in_array = omega arith };
      holds =
          rw
            (
              z,
              append_assoc w tail rest,
              drop-append_at 8 w (tail ++ rest) (length-le_bytes 8 (hton64 (header_word h))),
              take-append_at h.len tail rest n,
              append-nil tail,
            )
            refl;
    }

-- Behind the time stamp the archive holds the message.
pub read_stamp-Holds :
    (env : RecvEnv) (p : Packet) (rest : List ℕ) (stat : WireReaderStat)
    → IsPacket p
    → length (bytes_packet p ++ rest) ≡ capacity
    → Holds
        (bytes_message p.message)
        []
        (read_stamp env
          (message_header p.session_idx p.message)
          (datagram_archive (bytes_packet p ++ rest) (message_header p.session_idx p.message))
          stat).0
unfolding read_stamp
read_stamp-Holds env p rest stat v full =
    let h = message_header p.session_idx p.message in
    let ar₀ = datagram_archive (bytes_packet p ++ rest) h in
    let holds = datagram_archive-Holds p rest v full in
    let t =
      (get_u64-Reads 0 p.stamp v.stamp_fits).takes ar₀ (bytes_message p.message) holds.readable
        (holds.holds ∙ append-nil (bytes_u64 p.stamp ++ bytes_message p.message)) in
    record {
      valid = t.still_valid ∙ holds.valid;
      readable = t.readable;
      holds = t.remaining ∙ sym (append-nil (bytes_message p.message));
    }

pub message_header-type :
    (p : Packet)
    → type_of_code (message_header p.session_idx p.message).mtype ≡ some (msgtype p.message)
message_header-type p =
    ap type_of_code (message_header_fields p.session_idx p.message).1
    ∙ type_of_code-type_code (msgtype p.message)

read_datagram_packet :
    (env : RecvEnv) (sin : SockAddr) (p : Packet) (rest : List ℕ) (c : UdpSubscriber)
    → IsPacket p
    → IsBlank env.blanks
    → length (bytes_packet p ++ rest) ≡ capacity
    → c.reader_session_index ≡ p.session_idx
    → TookDatagram env sin p c
        (read_datagram env sin (bytes_packet p ++ rest) (message_header p.session_idx p.message) c)
unfolding read_datagram udp_seen deliver_datagram
read_datagram_packet env sin p rest c v blank full session =
    let h = message_header p.session_idx p.message in
    let ar = (read_stamp env h (datagram_archive (bytes_packet p ++ rest) h) c.stat).0 in
    let body = read_stamp-Holds env p rest c.stat v full in
    let d = stream_in-Delivers env.blanks p.message [] ar blank v.message_valid body in
    let e = message_header-type p in
    elim (Bool-cases (env.idle_on_delta && is_delta (some (msgtype p.message)))) [
      | inl skip ↦
          rw (e, skip)
            (record {
              outcome = refl;
              inbox = rw skip (sym (append-nil c.inbox));
              session = session;
            })
      | inr look ↦
          rw (e, look, d.outcome)
            (record { outcome = refl; inbox = rw look refl; session = session })
    ]

-- The array starts with the packet, whatever part of it the datagram brought.
pub take_datagram_packet :
    (env : RecvEnv) (sin : SockAddr) (p : Packet) (rest : List ℕ) (c : UdpSubscriber)
    → IsPacket p
    → IsBlank env.blanks
    → length (bytes_packet p ++ rest) ≡ capacity
    → TookDatagram env sin p c (take_datagram env sin (bytes_packet p ++ rest) c)
unfolding take_datagram
take_datagram_packet env sin p rest c v blank full =
    let h = message_header p.session_idx p.message in
    let fields = message_header_fields p.session_idx p.message in
    let short : ltb capacity h.len ≡ false =
      le→ltb_false h.len capacity (omega (arith, message_header_len p v, v.record_fits)) in
    let c₁ : UdpSubscriber = record c { reader_session_index = h.session_idx } in
    let r = read_datagram_packet env sin p rest c₁ v blank full fields.2 in
    rw (datagram_header_lem p rest v, fields.0, short)
      (record { outcome = r.outcome; inbox = r.inbox; session = r.session })

pub recv_buff_whole :
    (p : Packet) (garbage : List ℕ)
    → IsPacket p
    → recv_buff garbage (bytes_packet p) ≡ bytes_packet p ++ drop (length (bytes_packet p)) garbage
unfolding recv_buff
recv_buff_whole p garbage v =
    let fits : length (bytes_packet p) ≤ capacity =
      omega (arith, length-bytes_packet p, v.record_fits) in
    rw (take-all capacity (bytes_packet p) fits)
      (ap (λ n. bytes_packet p ++ drop n garbage) (omega arith))

-- A datagram with a whole packet that fits a record is handled: the handler gets the message as a
-- receiver sees it, unless it is a delta and deltas are skipped, and the session index is the packet's.
pub udp_subscriber_readcb-TookDatagram :
    (env : RecvEnv) (sin : SockAddr) (p : Packet) (c : UdpSubscriber)
    → IsPacket p
    → IsBlank env.blanks
    → length env.garbage ≡ capacity
    → TookDatagram env sin p c (udp_subscriber_readcb env (datagram sin (bytes_packet p)) c)
unfolding udp_subscriber_readcb
udp_subscriber_readcb-TookDatagram env sin p c v blank full =
    let rest = drop (length (bytes_packet p)) env.garbage in
    let whole : length (bytes_packet p ++ rest) ≡ capacity = omega (
      arith,
      full,
      length-append (bytes_packet p) rest,
      length-drop (length (bytes_packet p)) env.garbage,
      length-bytes_packet p,
      v.record_fits,
    ) in
    rw (recv_buff_whole p env.garbage v) (take_datagram_packet env sin p rest c v blank whole)
