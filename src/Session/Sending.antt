-- ===== src/Session/Sending.antt =====
-- What a connection's send_message (src/tcp_connection.h) does to its peer state.
use data_spinner.Base.{
  ℕ, ◌+◌, ◌<◌, ◌≡◌, ◌⊎◌, inl, inr, refl, Bool, true, false, Option, none, some, ◌++◌, length,
}
use data_spinner.Wire.{u32}
use data_spinner.Buffer.{capacity}
use data_spinner.Message.{Message}
use data_spinner.Frame.Layout.{IsPacket, bytes_packet}
use data_spinner.Queue.{SendResult, Socket}
use data_spinner.Queue.Stream.{stream, IsWhole}
use data_spinner.Queue.Cache.{AllSendable}
use data_spinner.Queue.Send.{Throttling}
use data_spinner.Connection.{TcpConnection, Call, send_message}
use data_spinner.Connection.Sending.{next_packet, Sent, Returns, send_message-Sent}
use data_spinner.Session.{Peer, send_to, with_sent}

-- The message fits into one record, and there is fuel for each cached record and one more round.
pub record CanSend (fuel : ℕ) (call : Call) (m : Message) (c : Peer) : Type 0 where
  pub array : length call.garbage ≡ capacity
  pub packet_valid : IsPacket (next_packet call m c.conn)
  pub sendable : AllSendable c.conn.skt
  pub enough_fuel : length c.conn.skt.buffers < fuel

-- The packet follows the stream of the connection, or the queue was throttled and drops it whole.
pub record Got (call : Call) (m : Message) (before after : Peer) : Type 0 where
  pub fate :
      (stream after.conn.skt after.socket
        ≡ stream before.conn.skt before.socket ++ bytes_packet (next_packet call m before.conn))
      ⊎ ((stream after.conn.skt after.socket ≡ stream before.conn.skt before.socket)
          × Throttling before.conn.skt)
  pub index : after.conn.writer_session_index ≡ u32 (before.conn.skt.session_index + 1)

-- send_message returns: `true`, and the peer got the message, or `false`, and the connection is closed.
abbrev pub Sends : Call → Message → Peer → Option (Bool × Peer) → Type 0
Sends call m c none = ⊥
Sends call m c (some (true, c')) = Got call m c c'
Sends call m c (some (false, c')) = c'.conn.is_valid ≡ false

with_sent-Sends :
    (call : Call) (m : Message) (c : Peer) (o : Option (Bool × TcpConnection × Socket))
    → Returns (Sent call m c.conn c.socket) o
    → Sends call m c (with_sent c o)
with_sent-Sends call m c none h = h
with_sent-Sends call m c (some (false, t, k)) h = elim (h.open_or_closed) [ inl e ↦ cc | inr e ↦ e ]
with_sent-Sends call m c (some (true, t, k)) h = record {
  fate = elim (h.fate) [
    | inl e ↦ inl e
    | inr (e, why) ↦ elim why [ inl f ↦ cc | inr f ↦ inr (e, f) ]
  ];
  index = h.index;
}

pub send_to-Sends :
    (answer : ℕ → ℕ → SendResult)
    → ((i n : ℕ) → IsWhole n (answer i n))
    → (fuel : ℕ) (call : Call) (m : Message) (c : Peer) → CanSend fuel call m c
    → Sends call m c (send_to answer fuel call m c)
unfolding send_to
send_to-Sends answer whole fuel call m c v =
    with_sent-Sends call m c (send_message answer fuel call m c.conn c.socket) (
      send_message-Sent answer whole fuel call m c.conn c.socket v.array v.packet_valid v.sendable
        v.enough_fuel)

pub Sends-cases :
    (call : Call) (m : Message) (c : Peer) (o : Option (Bool × Peer))
    → Sends call m c o
    → ((c' : Peer) × (o ≡ some (true, c')) × Got call m c c')
      ⊎ ((c' : Peer) × (o ≡ some (false, c')) × (c'.conn.is_valid ≡ false))
Sends-cases call m c none h = absurd h
Sends-cases call m c (some (true, c')) h = inl (c', refl, h)
Sends-cases call m c (some (false, c')) h = inr (c', refl, h)
