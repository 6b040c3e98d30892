-- ===== src/Udp/Publisher.antt =====
-- UdpPublisherConnection of src/udp_publisher.cpp and udp_publisher_readcb of src/udp_connection.cpp.
-- The mutex and the condition variable are not modelled: an operation is one step. The subscribers are in
-- the order in which the unordered_map is traversed.
use data_spinner.Base.{
  ℕ, Bool, true, false, ◌&&◌, not, Option, none, some, List, [], ◌∷◌, ◌++◌, ltb, ◌==◌,
  if◌then◌else◌, length,
}
use data_spinner.Header.{EMsgType, MsgHeader, login, type_of_code, tag_soh}
use data_spinner.Buffer.{capacity}
use data_spinner.Archive.{BuffMsgArchive}
use data_spinner.Records.{Str, u16, LoginMsg, new_login_reply}
use data_spinner.Records.Codec.{get_login}
use data_spinner.Stat.{WireReaderStat}
use data_spinner.Tick.{MetricsObserver, new_observer, reset_tick_observer}
use data_spinner.Message.{
  hb_msg, login_reply_msg, StreamIn, rejected, thrown, unrecognized, delivered,
}
use data_spinner.Udp.{
  SockAddr, Network, SendEnv, send_message_to, Received, recv_error, recv_closed, datagram, RecvEnv,
  recv_buff, datagram_header, datagram_archive, read_stamp, udp_stream_in_archive, Outcome, dropped,
  handled, threw,
}

-- The settings stat_check_every_n_tick_, stat_upd_every_nsec_ and hb_timeout_sec_.
pub record Cfg : Type 0 where
  pub check_every_n_tick : ℕ
  pub upd_every_nsec : ℕ
  pub hb_timeout_sec : ℕ

-- The address of the client is kept with it in the table; its text is only logged.
pub record UdpConnInfo : Type 0 where
  pub client_user_name : Str
  pub writer_session_index : ℕ
  pub last_hb_time : ℕ
  pub observer : MetricsObserver

-- UdpConnInfo(ip, port, user), at time `now`
unfoldable pub new_conn_info : Cfg → ℕ → Str → UdpConnInfo
new_conn_info cfg now user = record {
  client_user_name = user;
  writer_session_index = 0;
  last_hb_time = now;
  observer = reset_tick_observer user now (new_observer cfg.check_every_n_tick cfg.upd_every_nsec);
}

-- operator == (const sockaddr_in&, const sockaddr_in&). The hash has the family too, which is AF_INET for
-- every sender.
abbrev pub same_addr : SockAddr → SockAddr → Bool
same_addr a b = (a.sin_port == b.sin_port) && (a.sin_addr == b.sin_addr)

abbrev pub Subscribers : Type 0
Subscribers = List (SockAddr × UdpConnInfo)

-- subscribers_.find(addr)
unfoldable pub find_subscriber : SockAddr → Subscribers → Option UdpConnInfo
find_subscriber a [] = none
find_subscriber a (e ∷ es) = if same_addr a e.0 then some e.1 else find_subscriber a es

unfoldable pub erase_subscriber : SockAddr → Subscribers → Subscribers
erase_subscriber a [] = []
erase_subscriber a (e ∷ es) = if same_addr a e.0 then es else e ∷ erase_subscriber a es

pub record UdpPublisher : Type 0 where
  pub subscribers_count : ℕ
  pub subscribers : Subscribers
  pub stat : WireReaderStat

-- What register_udp_subscriber does with the entry that it finds.
unfoldable pub register_found :
    Cfg → ℕ → SockAddr → LoginMsg → UdpPublisher → Option UdpConnInfo → UdpPublisher
register_found cfg now addr m c none =
    let subs = c.subscribers ++ ((addr, new_conn_info cfg now m.user) ∷ []) in
    record c { subscribers = subs; subscribers_count = u16 (length subs) }
register_found cfg now addr m c (some ci) = c

-- void register_udp_subscriber(client_addr, m)
unfoldable pub register_udp_subscriber : Cfg → ℕ → SockAddr → LoginMsg → UdpPublisher → UdpPublisher
register_udp_subscriber cfg now addr m c =
    register_found cfg now addr m c (find_subscriber addr c.subscribers)

-- What do_unregister_udp_subscriber does with the entry that it finds.
unfoldable pub unregister_found : SockAddr → UdpPublisher → Option UdpConnInfo → UdpPublisher
unregister_found addr c none = c
unregister_found addr c (some ci) =
    let subs = erase_subscriber addr c.subscribers in
    record c { subscribers = subs; subscribers_count = u16 (length subs) }

-- void do_unregister_udp_subscriber(client_addr), which unregister_udp_subscriber calls
unfoldable pub unregister_udp_subscriber : SockAddr → UdpPublisher → UdpPublisher
unregister_udp_subscriber addr c = unregister_found addr c (find_subscriber addr c.subscribers)

unfoldable pub touch_subscriber : ℕ → SockAddr → Subscribers → Subscribers
touch_subscriber now a [] = []
touch_subscriber now a (e ∷ es) =
    if same_addr a e.0
    then (e.0, record (e.1) { last_hb_time = now }) ∷ es
    else e ∷ touch_subscriber now a es

-- The handlers: on_hb_msg changes the table; the others only log.
unfoldable pub on_udp_msg : ℕ → SockAddr → StreamIn → UdpPublisher → Outcome × UdpPublisher
on_udp_msg now sin rejected c = (dropped, c)
on_udp_msg now sin thrown c = (threw, c)
on_udp_msg now sin unrecognized c = (handled, c)
on_udp_msg now sin (delivered (hb_msg m)) c =
    (handled, record c { subscribers = touch_subscriber now sin c.subscribers })
on_udp_msg now sin (delivered m) c = (handled, c)

abbrev pub is_login : Option EMsgType → Bool
is_login (some login) = true
is_login (some t) = false
is_login none = false

module _ (sendto : ℕ → ℕ → Option ℕ) (cfg : Cfg) where
  -- What follows the reply to a login.
  unfoldable pub after_reply :
      ℕ → SockAddr → LoginMsg → UdpPublisher → Option ℕ × Network → Outcome × UdpPublisher × Network
  after_reply now sin m c (none, net) = (dropped, c, net)
  after_reply now sin m c (some n, net) = (handled, register_udp_subscriber cfg now sin m c, net)

  -- `if (mt == EMsgType::login)`; "accepted" as bytes.
  unfoldable pub on_login_datagram :
      SendEnv
      → ℕ
      → SockAddr
      → BuffMsgArchive
      → UdpPublisher
      → Network
      → Outcome × UdpPublisher × Network
  on_login_datagram senv now sin ar c net =
      let (m, ar₁) = get_login ar in
      let reply = new_login_reply 1 (97 ∷ 99 ∷ 99 ∷ 101 ∷ 112 ∷ 116 ∷ 101 ∷ 100 ∷ []) in
      if ar₁.is_valid
      then after_reply now sin m c (send_message_to sendto senv sin (login_reply_msg reply) 0 net)
      else (dropped, c, net)

  unfoldable pub publisher_datagram :
      RecvEnv
      → SendEnv
      → SockAddr
      → List ℕ
      → MsgHeader
      → UdpPublisher
      → Network
      → Outcome × UdpPublisher × Network
  publisher_datagram env senv sin buff h c net =
      let mt = type_of_code h.mtype in
      let (ar, stat) = read_stamp env h (datagram_archive buff h) c.stat in
      let c₁ = record c { stat = stat } in
      let other = on_udp_msg env.sec sin (udp_stream_in_archive env.blanks mt ar).0 c₁ in
      if is_login mt then on_login_datagram senv env.sec sin ar c₁ net else (other.0, other.1, net)

  unfoldable pub udp_publisher_readcb :
      RecvEnv → SendEnv → Received → UdpPublisher → Network → Outcome × UdpPublisher × Network
  udp_publisher_readcb env senv (recv_error a) c net = (dropped, unregister_udp_subscriber a c, net)
  udp_publisher_readcb env senv recv_closed c net = (dropped, c, net)
  udp_publisher_readcb env senv (datagram sin bytes) c net =
      let buff = recv_buff env.garbage bytes in
      let h = datagram_header buff in
      if not (h.pfix == tag_soh)
      then (dropped, c, net)
      else if ltb capacity h.len
      then (dropped, c, net)
      else publisher_datagram env senv sin buff h c net
