-- ===== src/Connection/Sending.antt =====
-- What send_message does with a message that fits into one record.
use data_spinner.Base.{
  ℕ, ◌+◌, ◌<◌, ◌≡◌, refl, arith, Bool, true, false, Option, none, some, ◌++◌, length, ◌⊎◌, inl, inr,
}
use data_spinner.Wire.{u32}
use data_spinner.Buffer.{SingleRecordBuffer, capacity}
use data_spinner.Buffer.Views.{IsWritable}
use data_spinner.Message.{Message}
use data_spinner.Frame.Layout.{Packet, IsPacket, bytes_packet, build_record_layout}
use data_spinner.Queue.{TcpSocketQueue, Socket, SendResult, next_session_index, send_buffer}
use data_spinner.Queue.Stream.{IsSendable, stream, IsWhole}
use data_spinner.Queue.Cache.{AllSendable, Ends}
use data_spinner.Queue.Send.{Throttling, Fate, send_buffer-Fate}
use data_spinner.Connection.{
  TcpConnection, Call, close_connection, after_send_buffer, after_build, send_message,
}

-- The packet that a connection makes of a message.
abbrev pub next_packet : Call → Message → TcpConnection → Packet
next_packet call m c = record {
  stamp = call.time_stamp;
  session_idx = u32 (c.skt.session_index + 1);
  message = m;
}

-- The packet follows the stream, or it is dropped whole, and then send_message failed or the queue
-- was throttled. A connection that failed is closed.
pub record Sent (call : Call) (m : Message) (c : TcpConnection) (k : Socket)
    (r : Bool × TcpConnection × Socket) : Type 0 where
  pub fate :
      (stream r.1.skt r.2 ≡ stream c.skt k ++ bytes_packet (next_packet call m c))
      ⊎ ((stream r.1.skt r.2 ≡ stream c.skt k) × ((r.0 ≡ false) ⊎ Throttling c.skt))
  pub open_or_closed : (r.0 ≡ true) ⊎ (r.1.is_valid ≡ false)
  pub index : r.1.writer_session_index ≡ u32 (c.skt.session_index + 1)

-- A call that must return.
abbrev pub Returns :
    (Bool × TcpConnection × Socket → Type 0) → Option (Bool × TcpConnection × Socket) → Type 0
Returns P none = ⊥
Returns P (some r) = P r

pub written-IsSendable : (b : SingleRecordBuffer) → IsWritable b → b.start_pos ≡ 0 → IsSendable b
written-IsSendable b v z = record { whole = v.whole; fits = v.fits; before_end = omega arith }

module _ (answer : ℕ → ℕ → SendResult) (whole : (i n : ℕ) → IsWhole n (answer i n)) where
  after_send_buffer-Sent :
      (call : Call) (m : Message) (c : TcpConnection) (k : Socket)
      (o : Option (Bool × TcpSocketQueue × Socket))
      → Ends (Fate c.skt k (bytes_packet (next_packet call m c))) o
      → Returns (Sent call m c k) (
          after_send_buffer
            (record c {
              skt = (next_session_index c.skt).0;
              writer_session_index = (next_session_index c.skt).1;
            })
            o)
  unfolding after_send_buffer close_connection next_session_index
  after_send_buffer-Sent call m c k none h = h
  after_send_buffer-Sent call m c k (some (true, q, k₁)) h = record {
    fate = h;
    open_or_closed = inl refl;
    index = refl;
  }
  after_send_buffer-Sent call m c k (some (false, q, k₁)) h = record {
    fate = h;
    open_or_closed = inr refl;
    index = refl;
  }

  -- On a socket that takes a record whole or not at all, send_message with a message that fits
  -- and fuel for each cached record and one more round returns: its packet, with the next
  -- session index, follows the stream or is dropped whole, and then the call failed or the queue
  -- was throttled; if the call fails the connection is closed.
  pub send_message-Sent :
      (fuel : ℕ) (call : Call) (m : Message) (c : TcpConnection) (k : Socket)
      → length call.garbage ≡ capacity
      → IsPacket (next_packet call m c)
      → AllSendable c.skt
      → length c.skt.buffers < fuel
      → Returns (Sent call m c k) (send_message answer fuel call m c k)
  unfolding send_message after_build next_session_index
  send_message-Sent fuel call m c k full v w l =
      let (b, built, bytes, start, writable) =
        build_record_layout call.garbage (next_packet call m c) full v in
      let q : TcpSocketQueue = (next_session_index c.skt).0 in
      let fate =
        send_buffer-Fate answer whole fuel call.upd_every call.now b q k
          (written-IsSendable b writable start) start w l in
      rw built (
        after_send_buffer-Sent call m c k (send_buffer answer fuel call.upd_every call.now b q k)
          (rw bytes at fate))
