-- ===== src/Session.antt =====
-- The handlers of a TCP connection: TcpConnection::on_login_msg, on_hb_msg, send_text_msg, send_hb and eventcb
-- of src/tcp_connection.cpp, and those of MdClientConnection of src/tcp_subscriber.cpp. A handler is one step.
pub mod Sending
use data_spinner.Base.{
  ℕ, ◌==◌, Bool, true, false, not, Option, none, some, List, [], ◌∷◌, if◌then◌else◌,
}
use data_spinner.Records.{Str, LoginMsg, LoginReplyMsg, new_login, new_login_reply, add_symbols}
use data_spinner.Stat.{WireReaderStat, start_reader_stat}
use data_spinner.Message.{Message, login_msg, login_reply_msg, text_msg, hb_msg, subscribe_msg}
use data_spinner.Queue.{SendResult, Socket}
use data_spinner.Connection.{TcpConnection, Call, send_message, close_connection}

-- A connection with its socket. `name` is loged_in_user_ and name_, which are set together.
pub record Peer : Type 0 where
  pub conn : TcpConnection
  pub socket : Socket
  pub name : Str
  pub reader_session_index : ℕ
  pub last_hb_time : ℕ
  pub stat : WireReaderStat

-- bool is_logged_in()
unfoldable pub is_logged_in : Peer → Bool
is_logged_in c = elim (c.name) [ [] ↦ false | b ∷ bs ↦ true ]

-- void reset_hb_time(), and on_hb_msg, at time `now`
unfoldable pub reset_hb_time : ℕ → Peer → Peer
reset_hb_time now c = record c { last_hb_time = now }

unfoldable pub close_peer : Peer → Peer
unfolding close_connection
close_peer c = record c { conn = close_connection c.conn }

abbrev pub with_sent : Peer → Option (Bool × TcpConnection × Socket) → Option (Bool × Peer)
with_sent c none = none
with_sent c (some (ok, t, k)) = some (ok, record c { conn = t; socket = k })

-- For a call whose result is not looked at.
abbrev pub sent_peer : Option (Bool × Peer) → Option Peer
sent_peer none = none
sent_peer (some (ok, c)) = some c

-- on_login_msg behind the call of send_message, up to the call of on_login_accepted.
abbrev pub after_login_reply : ℕ → Option (Bool × Peer) → Option Peer
after_login_reply now none = none
after_login_reply now (some (ok, c)) = some (record c { stat = start_reader_stat now c.stat })

-- The events of eventcb.
pub record Events : Type 0 where
  pub connected : Bool
  pub eof : Bool
  pub error : Bool

-- Whether eventcb calls on_connected, and whether it closes and disposes of the connection. A timeout is
-- only logged.
unfoldable pub event_actions : Events → Bool × Bool
event_actions e =
    if e.connected then (true, false) else if e.eof then (false, true) else (false, e.error)

-- The settings client_user and client_sub.
pub record ClientCfg : Type 0 where
  pub client_user : Str
  pub client_sub : List Str

module _ (answer : ℕ → ℕ → SendResult) (fuel : ℕ) where
  -- send_message on the connection with its socket; `none`: the fuel of send_cache ran out.
  unfoldable pub send_to : Call → Message → Peer → Option (Bool × Peer)
  send_to call m c = with_sent c (send_message answer fuel call m c.conn c.socket)

  -- bool send_text_msg(const std::string& text)
  unfoldable pub send_text_msg : Call → Str → Peer → Option (Bool × Peer)
  send_text_msg call text c = send_to call (text_msg (record { m_text = text })) c

  -- bool send_hb()
  unfoldable pub send_hb : Call → Peer → Option (Bool × Peer)
  send_hb call c = send_to call (hb_msg (record { counter = c.reader_session_index })) c

  -- void on_login_msg(const LoginMsg& m), up to on_login_accepted; "accepted" as bytes.
  unfoldable pub on_login_msg : Call → ℕ → LoginMsg → Peer → Option Peer
  on_login_msg call now m c =
      let reply = new_login_reply 1 (97 ∷ 99 ∷ 99 ∷ 101 ∷ 112 ∷ 116 ∷ 101 ∷ 100 ∷ []) in
      after_login_reply now (send_to call (login_reply_msg reply) (record c { name = m.user }))

  -- MdClientConnection::on_connected; "user-token_1" as bytes. AdminClientConnection has the same.
  unfoldable pub on_connected : ClientCfg → Call → Peer → Option Peer
  on_connected cfg call c =
      let token : Str = 117 ∷ 115 ∷ 101 ∷ 114 ∷ 45 ∷ 116 ∷ 111 ∷ 107 ∷ 101 ∷ 110 ∷ 95 ∷ 49 ∷ [] in
      sent_peer (send_to call (login_msg (new_login cfg.client_user token)) c)

  -- MdClientConnection::on_login_reply_msg
  unfoldable pub on_login_reply_msg : ClientCfg → Call → ℕ → LoginReplyMsg → Peer → Option Peer
  on_login_reply_msg cfg call now m c =
      let sub = add_symbols cfg.client_sub (record { symbols = [] }) in
      let c₁ = record c { stat = start_reader_stat now c.stat } in
      if m.reply_code == 0
      then some (close_peer c)
      else sent_peer (send_to call (subscribe_msg sub) c₁)
