-- ===== src/Udp/Subscriber.antt =====
-- udp_subscriber_readcb, send_hb and the login of run_udp_subscriber, of src/udp_connection.cpp.
use data_spinner.Base.{
  ℕ, Bool, true, false, ◌&&◌, not, List, [], ◌∷◌, ◌++◌, ltb, ◌==◌, if◌then◌else◌, Option, none,
  some,
}
use data_spinner.Header.{MsgHeader, type_of_code, tag_soh}
use data_spinner.Buffer.{capacity}
use data_spinner.Stat.{WireReaderStat, start_reader_stat}
use data_spinner.Records.{Str, new_login}
use data_spinner.Message.{
  Message, login_msg, login_reply_msg, hb_msg, StreamIn, rejected, thrown, unrecognized, delivered,
}
use data_spinner.Receive.{is_delta}
use data_spinner.Udp.{
  SockAddr, Received, recv_error, recv_closed, datagram, RecvEnv, recv_buff, datagram_header,
  datagram_archive, read_stamp, udp_stream_in_archive, Network, SendEnv, send_message_to, Outcome,
  dropped, handled, threw,
}

-- The subscriber's end; `inbox` has the messages that the handlers were called with.
pub record UdpSubscriber : Type 0 where
  pub reader_session_index : ℕ
  pub stat : WireReaderStat
  pub inbox : List (SockAddr × Message)

-- What the handlers do to the statistics: on_login_reply_msg starts them anew; the others only log.
abbrev pub handler_stat : ℕ → Message → WireReaderStat → WireReaderStat
handler_stat now (login_reply_msg m) stat =
    if m.reply_code == 0 then stat else start_reader_stat now stat
handler_stat now m stat = stat

unfoldable pub deliver_datagram : ℕ → SockAddr → StreamIn → UdpSubscriber → Outcome × UdpSubscriber
deliver_datagram now sin rejected c = (dropped, c)
deliver_datagram now sin thrown c = (threw, c)
deliver_datagram now sin unrecognized c = (handled, c)
deliver_datagram now sin (delivered m) c =
    (handled, record c { inbox = c.inbox ++ ((sin, m) ∷ []); stat = handler_stat now m c.stat })

-- The part behind the test of h.h.len.
unfoldable pub read_datagram :
    RecvEnv → SockAddr → List ℕ → MsgHeader → UdpSubscriber → Outcome × UdpSubscriber
read_datagram env sin buff h c =
    let mt = type_of_code h.mtype in
    let (ar, stat) = read_stamp env h (datagram_archive buff h) c.stat in
    let c₁ = record c { stat = stat } in
    if env.idle_on_delta && is_delta mt
    then (handled, c₁)
    else deliver_datagram env.sec sin (udp_stream_in_archive env.blanks mt ar).0 c₁

-- The part behind recvfrom, with what it put into the array. That the datagram is shorter than its
-- header says is only logged, and so is a gap between session indices.
unfoldable pub take_datagram : RecvEnv → SockAddr → List ℕ → UdpSubscriber → Outcome × UdpSubscriber
take_datagram env sin buff c =
    let h = datagram_header buff in
    let c₁ = record c { reader_session_index = h.session_idx } in
    if not (h.pfix == tag_soh)
    then (dropped, c)
    else if ltb capacity h.len
    then (dropped, c₁)
    else read_datagram env sin buff h c₁

unfoldable pub udp_subscriber_readcb : RecvEnv → Received → UdpSubscriber → Outcome × UdpSubscriber
udp_subscriber_readcb env (recv_error a) c = (dropped, c)
udp_subscriber_readcb env recv_closed c = (dropped, c)
udp_subscriber_readcb env (datagram sin bytes) c =
    take_datagram env sin (recv_buff env.garbage bytes) c

-- The part of run_udp_subscriber that logs in, with "user-token_1" as bytes: `false` is the return of 1.
module _ (sendto : ℕ → ℕ → Option ℕ) where
  unfoldable pub login_to_publisher : SendEnv → SockAddr → Str → Network → Bool × Network
  login_to_publisher env sin user net =
      let token : Str = 117 ∷ 115 ∷ 101 ∷ 114 ∷ 45 ∷ 116 ∷ 111 ∷ 107 ∷ 101 ∷ 110 ∷ 95 ∷ 49 ∷ [] in
      let r = send_message_to sendto env sin (login_msg (new_login user token)) 0 net in
      (elim (r.0) [ none ↦ false | some n ↦ true ], r.1)

  -- bool send_hb(): the number of bytes sent, or -1, is converted to bool.
  unfoldable pub send_hb : SendEnv → SockAddr → UdpSubscriber → Network → Bool × Network
  send_hb env sin c net =
      let m = hb_msg (record { counter = c.reader_session_index }) in
      let r = send_message_to sendto env sin m c.reader_session_index net in
      (elim (r.0) [ none ↦ true | some n ↦ if n == 0 then false else true ], r.1)
