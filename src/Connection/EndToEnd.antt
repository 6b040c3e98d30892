-- ===== src/Connection/EndToEnd.antt =====
-- From send_message of src/tcp_connection.h to the handlers of read_connection_buffer of
-- src/tcp_connection.cpp, over a socket that takes what it is given.
use data_spinner.Base.{
  ℕ, ◌+◌, ◌≡◌, refl, ap, sym, ◌∙◌, arith, Bool, true, false, Option, none, some, List, [], ◌∷◌,
  ◌++◌, length, All, take-all, append_assoc, append-nil, le→ltb_false,
}
use data_spinner.Wire.{u32}
use data_spinner.Buffer.{SingleRecordBuffer, capacity, send_len, send_bytes}
use data_spinner.Message.{Message}
use data_spinner.Message.RoundTrip.{IsBlank}
use data_spinner.Frame.Layout.{Packet, IsPacket, bytes_packet, build_record_layout}
use data_spinner.Queue.{
  TcpSocketQueue, Socket, SendResult, sent, next_session_index, send, send_direct, after_direct,
  after_cache, on_cache_send_stat, send_cache, send_buffer,
}
use data_spinner.Queue.Stream.{IsSendable, length-send_bytes}
use data_spinner.EvBuffer.{EvBuffer, IsEvBuffer}
use data_spinner.Receive.{Env, Reading, waiting, read_connection_buffer}
use data_spinner.Receive.Packet.{IsArchive}
use data_spinner.Receive.Stream.{bytes_packets, seen_all, nothing, read_connection_buffer_stream}
use data_spinner.Connection.{TcpConnection, Call, after_send_buffer, after_build, send_message}
use data_spinner.Connection.Sending.{next_packet, written-IsSendable}

-- The packets of messages that follow session index `i`.
unfoldable pub packets : ℕ → List (Call × Message) → List Packet
packets i [] = []
packets i ((call, m) ∷ ms) =
    record { stamp = call.time_stamp; session_idx = u32 (i + 1); message = m }
    ∷ packets (u32 (i + 1)) ms

-- Messages that are sent one after the other, as long as send_message returns true.
unfoldable pub send_next :
    (TcpConnection → Socket → Option (Bool × TcpConnection × Socket))
    → Option (Bool × TcpConnection × Socket)
    → Option (Bool × TcpConnection × Socket)
send_next go none = none
send_next go (some (false, c, k)) = some (false, c, k)
send_next go (some (true, c, k)) = go c k

unfoldable pub send_all :
    (ℕ → ℕ → SendResult)
    → ℕ
    → List (Call × Message)
    → TcpConnection
    → Socket
    → Option (Bool × TcpConnection × Socket)
send_all answer fuel [] c k = some (true, c, k)
send_all answer fuel ((call, m) ∷ ms) c k =
    send_next (send_all answer fuel ms) (send_message answer fuel call m c k)

-- The arrays of the calls are as large as those of the program.
abbrev pub FullArrays : List (Call × Message) → Type 0
FullArrays ms = All (λ cm. length cm.0.garbage ≡ capacity) ms

after_direct_all :
    (b : SingleRecordBuffer) (q : TcpSocketQueue) (k : Socket)
    → after_direct b q k (sent (send_len b)) ≡ (true, q, k)
unfolding after_direct
after_direct_all b q k = rw (le→ltb_false (send_len b) (send_len b) (omega arith)) refl

module _ (answer : ℕ → ℕ → SendResult) (takes : (i n : ℕ) → answer i n ≡ sent n) where
  send_direct_all :
      (b : SingleRecordBuffer) (q : TcpSocketQueue) (k : Socket)
      → IsSendable b
      → send_direct answer b q k
        ≡ (true, q, record { calls = k.calls + 1; wire = k.wire ++ send_bytes b })
  unfolding send_direct send
  send_direct_all b q k v =
      rw
        (
          takes k.calls (send_len b),
          take-all (send_len b) (send_bytes b) (omega (arith, length-send_bytes b v)),
          after_direct_all b q (record { calls = k.calls + 1; wire = k.wire ++ send_bytes b }),
        )
        refl

  send_buffer_all :
      (fuel upd_every now : ℕ) (b : SingleRecordBuffer) (q : TcpSocketQueue) (k : Socket)
      → IsSendable b
      → q.buffers ≡ []
      → send_buffer answer fuel upd_every now b q k
        ≡ some (true, q, record { calls = k.calls + 1; wire = k.wire ++ send_bytes b })
  unfolding send_buffer
  send_buffer_all fuel upd_every now b q k v e =
      ap
        (λ bs. elim bs as (λ _. Option (Bool × TcpSocketQueue × Socket)) [
          | [] ↦ some (send_direct answer b q k)
          | x ∷ rest ↦
              after_cache answer b
                (send_cache answer fuel (on_cache_send_stat upd_every now (length q.buffers) q) k)
        ])
        e
      ∙ ap some (send_direct_all b q k v)

  send_message_all :
      (fuel : ℕ) (call : Call) (m : Message) (c : TcpConnection) (k : Socket)
      → length call.garbage ≡ capacity
      → IsPacket (next_packet call m c)
      → c.skt.buffers ≡ []
      → send_message answer fuel call m c k
        ≡ some (
          true,
          record c {
            skt = (next_session_index c.skt).0;
            writer_session_index = (next_session_index c.skt).1;
          },
          record { calls = k.calls + 1; wire = k.wire ++ bytes_packet (next_packet call m c) },
        )
  unfolding send_message after_build next_session_index after_send_buffer
  send_message_all fuel call m c k full v e =
      let (b, built, bytes, start, writable) =
        build_record_layout call.garbage (next_packet call m c) full v in
      let q : TcpSocketQueue = (next_session_index c.skt).0 in
      let s =
        send_buffer_all fuel call.upd_every call.now b q k (written-IsSendable b writable start)
          e in
      rw (built, s, bytes) refl

  -- All messages are sent, and the wire has their packets.
  send_all_wire :
      (fuel : ℕ) (ms : List (Call × Message)) (c : TcpConnection) (k : Socket)
      → FullArrays ms
      → All IsPacket (packets c.skt.session_index ms)
      → c.skt.buffers ≡ []
      → (c' : TcpConnection) × (k' : Socket) × (send_all answer fuel ms c k ≡ some (true, c', k'))
        × (k'.wire ≡ k.wire ++ bytes_packets (packets c.skt.session_index ms))
  unfolding send_all send_next packets bytes_packets next_session_index
  send_all_wire fuel [] c k full v e = (c, k, refl, sym (append-nil k.wire))
  send_all_wire fuel ((call, m) ∷ ms) c k full v e =
      let c₁ : TcpConnection = record c {
        skt = (next_session_index c.skt).0;
        writer_session_index = (next_session_index c.skt).1;
      } in
      let bytes : List ℕ = bytes_packet (next_packet call m c) in
      let k₁ : Socket = record { calls = k.calls + 1; wire = k.wire ++ bytes } in
      let (c', k', result, wire) = send_all_wire fuel ms c₁ k₁ full.1 v.1 e in
      (
        c',
        k',
        ap (send_next (send_all answer fuel ms)) (send_message_all fuel call m c k full.0 v.0 e)
            ∙ result,
        wire
            ∙ append_assoc k.wire bytes
                (bytes_packets (packets (u32 (c.skt.session_index + 1)) ms)),
      )

-- What the socket took during calls that returned.
abbrev pub sent_wire : Option (Bool × TcpConnection × Socket) → List ℕ
sent_wire none = []
sent_wire (some r) = r.2.wire

abbrev pub succeeded : Option (Bool × TcpConnection × Socket) → Bool
succeeded none = false
succeeded (some r) = r.0

module _ (answer : ℕ → ℕ → SendResult) (takes : (i n : ℕ) → answer i n ≡ sent n) (e : EvBuffer)
    (b : IsEvBuffer e) (env : Env) where
  open e use {Buf}
  open b use {bytes}

  -- Messages that fit are sent one after the other by send_message on an empty queue, over a
  -- socket that takes what it is given and has taken nothing yet, and the receiver has what the
  -- socket took: all calls succeed, and read_connection_buffer delivers the messages in order,
  -- as their receiver sees them, and leaves nothing.
  pub read_connection_buffer-send_all :
      (fuel : ℕ) (ms : List (Call × Message)) (c : TcpConnection) (k : Socket) (s : Reading Buf)
      → FullArrays ms
      → All IsPacket (packets c.skt.session_index ms)
      → c.skt.buffers ≡ []
      → k.wire ≡ []
      → ((i : ℕ) → IsBlank (env.blanks i))
      → IsArchive s.ar
      → bytes s.buf ≡ sent_wire (send_all answer fuel ms c k)
      → (succeeded (send_all answer fuel ms c k) ≡ true)
        × ((read_connection_buffer e env s).0 ≡ waiting)
        × (bytes ((read_connection_buffer e env s).1.buf) ≡ [])
        × ((read_connection_buffer e env s).1.inbox
            ≡ s.inbox ++ seen_all env s.round (packets c.skt.session_index ms))
  read_connection_buffer-send_all fuel ms c k s full v empty no_wire blank ready arrived =
      let (c', k', result, wire) = send_all_wire answer takes fuel ms c k full v empty in
      let ps : List Packet = packets c.skt.session_index ms in
      let whole_input : bytes s.buf ≡ bytes_packets ps ++ [] =
        arrived
        ∙ ap sent_wire result
        ∙ wire
        ∙ ap (λ w. w ++ bytes_packets ps) no_wire
        ∙ sym (append-nil (bytes_packets ps)) in
      let d =
        read_connection_buffer_stream e b env ps [] s v (nothing refl) blank ready whole_input in
      (ap succeeded result, d.status, d.left, d.inbox)
