-- ===== src/Udp/Login.antt =====
-- What udp_publisher_readcb (src/udp_connection.cpp) does with a login, and what the subscriber's send_hb
-- returns.
use data_spinner.Base.{
  ℕ, ◌≡◌, refl, ◌∙◌, arith, false, Option, none, some, List, [], ◌∷◌, ◌++◌, ltb, length, drop,
  length-append, length-drop, Option-cases, inl, inr, le→ltb_false, true, Bool-cases, if◌then◌else◌,
}
use data_spinner.Buffer.{capacity}
use data_spinner.Archive.{BuffMsgArchive}
use data_spinner.Records.{LoginMsg, new_login_reply}
use data_spinner.Records.RoundTrip.{IsLogin, get_login-Reads}
use data_spinner.Message.{Message, login_msg, login_reply_msg, bytes_message}
use data_spinner.Wire.{le_bytes}
use data_spinner.Archive.Writing.{bytes_str, bytes_all, bytes_vec}
use data_spinner.Records.Forms.{bytes_login_reply}
use data_spinner.Message.{msgtype}
use data_spinner.Message.RoundTrip.{Holds}
use data_spinner.Frame.{message_header}
use data_spinner.Frame.Layout.{
  Packet, IsPacket, bytes_packet, length-bytes_packet, message_header_len, message_header_fields,
}
use data_spinner.Udp.{
  SockAddr, Network, SendEnv, datagram, RecvEnv, datagram_archive, read_stamp, Outcome, handled,
}
use data_spinner.Udp.Delivery.{
  datagram_header_lem, recv_buff_whole, read_stamp-Holds, message_header-type,
}
use data_spinner.Udp.Publisher.{
  Cfg, UdpConnInfo, Subscribers, UdpPublisher, same_addr, find_subscriber, new_conn_info,
  register_found, register_udp_subscriber, after_reply, on_login_datagram, publisher_datagram,
  udp_publisher_readcb,
}
use data_spinner.Udp.Table.{same_addr_refl, find-append, find-append_other}
use data_spinner.Udp.Sends.{IsEnv, IsSmall, packet_at, send_message_to_lem}

-- The client's entry after a login: a client that is known keeps its state.
abbrev pub logged_in : Cfg → ℕ → LoginMsg → Option UdpConnInfo → UdpConnInfo
logged_in cfg now m none = new_conn_info cfg now m.user
logged_in cfg now m (some ci) = ci

-- LoginReplyMsg with code 1 and "accepted"
abbrev pub accepted : Message
accepted = login_reply_msg (new_login_reply 1 (97 ∷ 99 ∷ 99 ∷ 101 ∷ 112 ∷ 116 ∷ 101 ∷ 100 ∷ []))

abbrev pub login_packet : ℕ → ℕ → LoginMsg → Packet
login_packet stamp session_index m = record {
  stamp = stamp;
  session_idx = session_index;
  message = login_msg m;
}

-- The sender of a login has its reply and its entry, and the other entries are as before.
pub record LoggedIn (cfg : Cfg) (senv : SendEnv) (now : ℕ) (sin : SockAddr) (m : LoginMsg)
    (c : UdpPublisher) (net : Network) (r : Outcome × UdpPublisher × Network) : Type 0 where
  pub outcome : r.0 ≡ handled
  pub replied :
      r.2.sent ≡ net.sent ++ ((sin, bytes_packet (packet_at senv net.calls 0 accepted)) ∷ [])
  pub table :
      (a : SockAddr)
      → find_subscriber a r.1.subscribers ≡ (
          if same_addr a sin
          then some (logged_in cfg now m (find_subscriber sin c.subscribers))
          else find_subscriber a c.subscribers)

find_subscriber_same :
    (a b : SockAddr) (xs : Subscribers)
    → same_addr a b ≡ true
    → find_subscriber a xs ≡ find_subscriber b xs
unfolding find_subscriber
find_subscriber_same a b [] e = refl
find_subscriber_same a b (x ∷ xs) e = ground (arith, e, find_subscriber_same a b xs e)

accepted-IsSmall : IsSmall accepted
unfolding bytes_message bytes_login_reply bytes_str bytes_all le_bytes bytes_vec new_login_reply
accepted-IsSmall = record { message_valid = omega arith; record_fits = omega arith }

module _ (sendto : ℕ → ℕ → Option ℕ) (takes : (i n : ℕ) → sendto i n ≡ some n) (senv : SendEnv)
    (good : IsEnv senv) (cfg : Cfg) (sin : SockAddr) (m : LoginMsg) (net : Network) where
  register_udp_subscriber_table :
      (now : ℕ) (c : UdpPublisher) (a : SockAddr)
      → find_subscriber a (register_udp_subscriber cfg now sin m c).subscribers ≡ (
          if same_addr a sin
          then some (logged_in cfg now m (find_subscriber sin c.subscribers))
          else find_subscriber a c.subscribers)
  unfolding register_udp_subscriber register_found
  register_udp_subscriber_table now c a = elim (Option-cases (find_subscriber sin c.subscribers)) [
    | inl e ↦ elim (Bool-cases (same_addr a sin)) [
      | inl s ↦
          rw (e, s)
            (find_subscriber_same a sin _ s
              ∙ find-append sin c.subscribers _ e
              ∙ unfold find_subscriber in rw (same_addr_refl sin) refl)
      | inr n ↦ rw (e, n) (find-append_other a sin (new_conn_info cfg now m.user) c.subscribers n)
    ]
    | inr (ci, e) ↦ elim (Bool-cases (same_addr a sin)) [
      | inl s ↦ rw (e, s) (find_subscriber_same a sin _ s ∙ e)
      | inr n ↦ rw (e, n) refl
    ]
  ]

  on_login_datagram-LoggedIn :
      (now : ℕ) (ar : BuffMsgArchive) (c : UdpPublisher)
      → IsLogin m
      → Holds (bytes_message (login_msg m)) [] ar
      → LoggedIn cfg senv now sin m c net (on_login_datagram sendto cfg senv now sin ar c net)
  unfolding on_login_datagram after_reply bytes_message
  on_login_datagram-LoggedIn now ar c v h =
      let t = (get_login-Reads m v).takes ar [] h.readable h.holds in
      let reg = register_udp_subscriber_table now c in
      rw
        (
          t.still_valid ∙ h.valid,
          t.result,
          send_message_to_lem sendto takes senv good accepted accepted-IsSmall sin 0 net
              (omega arith),
        )
        (record { outcome = refl; replied = refl; table = reg })

  publisher_datagram-LoggedIn :
      (env : RecvEnv) (rest : List ℕ) (stamp session_index : ℕ) (c : UdpPublisher)
      → IsPacket (login_packet stamp session_index m)
      → length (bytes_packet (login_packet stamp session_index m) ++ rest) ≡ capacity
      → LoggedIn cfg senv env.sec sin m c net (
          publisher_datagram sendto cfg env senv sin
            (bytes_packet (login_packet stamp session_index m) ++ rest)
            (message_header session_index (login_msg m))
            c
            net)
  unfolding publisher_datagram msgtype
  publisher_datagram-LoggedIn env rest stamp session_index c v full =
      let p = login_packet stamp session_index m in
      let body = read_stamp-Holds env p rest c.stat v full in
      let r =
        on_login_datagram-LoggedIn env.sec _
          (record c {
            stat =
                (read_stamp env (message_header session_index (login_msg m))
                  (datagram_archive (bytes_packet p ++ rest)
                    (message_header session_index (login_msg m)))
                  c.stat).1;
          })
          v.message_valid body in
      rw (message_header-type p)
        (record { outcome = r.outcome; replied = r.replied; table = r.table })

  -- A datagram with a whole login is answered by one datagram, the reply "accepted" under session index
  -- 0, and its sender is in the table: with a new entry, or with the one that it had before; no other
  -- entry changes. sendto takes every datagram.
  pub udp_publisher_readcb-LoggedIn :
      (env : RecvEnv) (stamp session_index : ℕ) (c : UdpPublisher)
      → IsPacket (login_packet stamp session_index m)
      → length env.garbage ≡ capacity
      → LoggedIn cfg senv env.sec sin m c net (
          udp_publisher_readcb sendto cfg env senv
            (datagram sin (bytes_packet (login_packet stamp session_index m)))
            c
            net)
  unfolding udp_publisher_readcb
  udp_publisher_readcb-LoggedIn env stamp session_index c v full =
      let p = login_packet stamp session_index m in
      let h = message_header session_index (login_msg m) in
      let rest = drop (length (bytes_packet p)) env.garbage in
      let whole : length (bytes_packet p ++ rest) ≡ capacity = omega (
        arith,
        full,
        length-append (bytes_packet p) rest,
        length-drop (length (bytes_packet p)) env.garbage,
        length-bytes_packet p,
        v.record_fits,
      ) in
      let short : ltb capacity h.len ≡ false =
        le→ltb_false h.len capacity (omega (arith, message_header_len p v, v.record_fits)) in
      rw
        (
          recv_buff_whole p env.garbage v,
          datagram_header_lem p rest v,
          (message_header_fields session_index (login_msg m)).0,
          short,
        )
        (publisher_datagram-LoggedIn env rest stamp session_index c v whole)
