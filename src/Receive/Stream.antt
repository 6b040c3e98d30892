-- ===== src/Receive/Stream.antt =====
-- The whole loop of read_connection_buffer of src/tcp_connection.cpp, on a stream of records.
use data_spinner.Base.{
  ℕ, zero, suc, ◌+◌, ◌≤◌, ◌<◌, ◌≡◌, ◌≢◌, refl, ap, sym, ◌∙◌, arith, List, [], ◌∷◌, ◌++◌, length,
  length-append, append_assoc, append-nil, All,
}
use data_spinner.Message.{Message}
use data_spinner.Message.RoundTrip.{IsBlank}
use data_spinner.Frame.Layout.{Packet, IsPacket, bytes_packet, length-bytes_packet}
use data_spinner.EvBuffer.{EvBuffer, IsEvBuffer}
use data_spinner.Receive.{
  Status, waiting, Env, Reading, stop, read_record, read_loop, read_connection_buffer,
}
use data_spinner.Receive.Round.{read_record_whole, read_record_part}
use data_spinner.Receive.Packet.{IsArchive, seen}

-- Packets one behind the other.
unfoldable pub bytes_packets : List Packet → List ℕ
bytes_packets [] = []
bytes_packets (p ∷ ps) = bytes_packet p ++ bytes_packets ps

-- What the handlers see of packets that are taken from round `k` on.
unfoldable pub seen_all : Env → ℕ → List Packet → List Message
seen_all env k [] = []
seen_all env k (p ∷ ps) = seen env k p.message ++ seen_all env (k + 1) ps

-- The session index after the packets.
unfoldable pub last_session : ℕ → List Packet → ℕ
last_session i [] = i
last_session i (p ∷ ps) = last_session p.session_idx ps

-- The end of an input: nothing, or a part of a record whose other part is still to come.
pub data IsPart (part : List ℕ) : Type 0 where
  nothing : part ≡ [] → IsPart part
  cut :
      (p : Packet) (missing : List ℕ)
      → IsPacket p
      → missing ≢ []
      → bytes_packet p ≡ part ++ missing
      → IsPart part

module _ (e : EvBuffer) (b : IsEvBuffer e) (env : Env) where
  open e use {Buf}
  open b use {bytes}

  -- All packets were delivered, and `part` is left.
  pub record Drained (ps : List Packet) (part : List ℕ) (s : Reading Buf) (r : Status × Reading Buf)
      : Type 0 where
    pub status : r.0 ≡ waiting
    pub left : bytes (r.1.buf) ≡ part
    pub inbox : r.1.inbox ≡ s.inbox ++ seen_all env s.round ps
    pub session : r.1.reader_session_index ≡ last_session s.reader_session_index ps
    pub ready : IsArchive r.1.ar
    pub rounds : r.1.round ≡ s.round + length ps

  read_record_end :
      (s : Reading Buf) (part : List ℕ)
      → IsPart part
      → bytes s.buf ≡ part
      → read_record e env s ≡ stop waiting s
  unfolding read_record
  read_record_end s part (nothing no_part) eq =
      let empty : e.evbuffer_get_length s.buf ≡ 0 = b.get_length s.buf ∙ ap length (eq ∙ no_part) in
      rw empty
  read_record_end s part (cut p missing v ne split) eq =
      read_record_part e b env s p part missing v ne split eq

  read_loop_stream :
      (ps : List Packet) (part : List ℕ) (fuel : ℕ) (s : Reading Buf)
      → All IsPacket ps
      → IsPart part
      → ((k : ℕ) → IsBlank (env.blanks k))
      → IsArchive s.ar
      → bytes s.buf ≡ bytes_packets ps ++ part
      → length ps < fuel
      → Drained ps part s (read_loop e env fuel s)
  unfolding read_loop bytes_packets seen_all last_session
  read_loop_stream ps part zero s v end blank ready eq enough = absurd (omega arith)
  read_loop_stream [] part (suc fuel) s v end blank ready eq enough =
      rw (read_loop, read_record_end s part end eq)
        (record {
          status = refl;
          left = eq;
          inbox = sym (append-nil s.inbox);
          session = refl;
          ready = ready;
          rounds = omega arith;
        })
  read_loop_stream (p ∷ ps) part (suc fuel) s v end blank ready eq enough =
      let (s', taken, left, after) =
        read_record_whole e b env s p (bytes_packets ps ++ part) v.0 (blank s.round) ready
          (eq ∙ append_assoc (bytes_packet p) (bytes_packets ps) part) in
      let rest = read_loop_stream ps part fuel s' v.1 end blank after.ready left (omega arith) in
      rw (read_loop, taken)
        (record {
          status = rest.status;
          left = rest.left;
          inbox =
              rest.inbox
              ∙ rw (after.inbox_grew, after.next_round)
                  (append_assoc s.inbox (seen env s.round p.message)
                    (seen_all env (s.round + 1) ps));
          session = rest.session ∙ ap (λ i. last_session i ps) after.session;
          ready = rest.ready;
          rounds = omega (arith, rest.rounds, after.next_round);
        })

  length-bytes_packets_ge : (ps : List Packet) → length ps ≤ length (bytes_packets ps)
  unfolding bytes_packets
  length-bytes_packets_ge [] = omega arith
  length-bytes_packets_ge (p ∷ ps) = omega (
    arith,
    length-bytes_packets_ge ps,
    length-append (bytes_packet p) (bytes_packets ps),
    length-bytes_packet p,
  )

  -- On an input of whole packets that fit a record, followed by nothing or by a part of one,
  -- read_connection_buffer delivers the messages in order, each as its receiver sees it, leaves
  -- exactly the part in the buffer, and waits.
  pub read_connection_buffer_stream :
      (ps : List Packet) (part : List ℕ) (s : Reading Buf)
      → All IsPacket ps
      → IsPart part
      → ((k : ℕ) → IsBlank (env.blanks k))
      → IsArchive s.ar
      → bytes s.buf ≡ bytes_packets ps ++ part
      → Drained ps part s (read_connection_buffer e env s)
  unfolding read_connection_buffer
  read_connection_buffer_stream ps part s v end blank ready eq =
      read_loop_stream ps part (suc (e.evbuffer_get_length s.buf)) s v end blank ready eq (
        omega (
          arith,
          b.get_length s.buf,
          ap length eq,
          length-append (bytes_packets ps) part,
          length-bytes_packets_ge ps,
        ))
