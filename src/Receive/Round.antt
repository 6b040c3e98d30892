-- ===== src/Receive/Round.antt =====
-- One round of the loop: on a whole record, on a part of one, and on any input.
use data_spinner.Base.{
  le→ltb_false, ℕ, ◌+◌, ◌≤◌, ◌<◌, ◌≡◌, ◌≢◌, ap, sym, ◌∙◌, arith, List, [], ◌++◌, length, take, drop,
  length-append, append_assoc, take-append_at, drop-append_at, subst, ltb, lt→ltb, ltb→lt,
  take-prefix, length-pos, Bool-cases, inl, inr,
}
use data_spinner.Wire.{hton64, u32}
use data_spinner.Wire.Order.{length-le_bytes}
use data_spinner.Header.{MsgHeader, header_word, type_code}
use data_spinner.Header.Words.{IsHeader}
use data_spinner.Buffer.{capacity}
use data_spinner.Archive.Writing.{bytes_u64}
use data_spinner.Message.{Message, msgtype, bytes_message}
use data_spinner.Message.RoundTrip.{IsMessage, IsBlank, Holds}
use data_spinner.Frame.{message_header}
use data_spinner.Frame.Layout.{
  Packet, IsPacket, bytes_packet, length-bytes_packet, message_header_len, message_header_fields,
  message_header-IsHeader,
}
use data_spinner.EvBuffer.{EvBuffer, IsEvBuffer}
use data_spinner.Receive.{
  waiting, Env, Reading, stop, again, fill, peek_header, take_body, read_record,
}
use data_spinner.Receive.Packet.{IsArchive, decode_header, fill-Holds, seen, take_packet-Took}

-- What holds after the round that takes `p` off a buffer.
pub record After {Buf : Type 0} (env : Env) (p : Packet) (s s' : Reading Buf) : Type 0 where
  pub inbox_grew : s'.inbox ≡ s.inbox ++ seen env s.round p.message
  pub next_round : s'.round ≡ s.round + 1
  pub session : s'.reader_session_index ≡ p.session_idx
  pub ready : IsArchive s'.ar

module _ (e : EvBuffer) (b : IsEvBuffer e) (env : Env) where
  open e use {Buf}
  open b use {bytes}

  -- The eight bytes at the front are a header.
  peek_header_lem :
      (buf : Buf) (h : MsgHeader)
      → IsHeader h
      → 8 ≤ length (bytes buf)
      → take 8 (bytes buf) ≡ bytes_u64 (header_word h)
      → peek_header e env buf ≡ h
  unfolding peek_header
  peek_header_lem buf h v room front = rw (b.copyout 8 buf room, front) (decode_header h v)

  -- The part of a round that copies the body and hands it on.
  take_body_whole :
      (h : MsgHeader) (s : Reading Buf) (stamp : ℕ) (m : Message) (rest : List ℕ)
      → h.mtype ≡ type_code (msgtype m)
      → h.len ≡ 8 + length (bytes_message m)
      → h.len ≤ capacity
      → stamp < 18446744073709551616
      → IsMessage m
      → IsBlank (env.blanks s.round)
      → IsArchive s.ar
      → bytes s.buf ≡ (bytes_u64 stamp ++ bytes_message m) ++ rest
      → (s' : Reading Buf) × (take_body e env h s ≡ again s')
        × (bytes s'.buf ≡ rest)
        × (s'.inbox ≡ s.inbox ++ seen env s.round m)
        × (s'.round ≡ s.round + 1)
        × (s'.reader_session_index ≡ s.reader_session_index)
        × IsArchive s'.ar
  unfolding take_body
  take_body_whole h s stamp m rest mt hl room small v blank ready eq =
      let body = bytes_u64 stamp ++ bytes_message m in
      let l : length body ≡ h.len = omega (
        arith,
        length-append (bytes_u64 stamp) (bytes_message m),
        length-le_bytes 8 (hton64 stamp),
      ) in
      let enough : h.len ≤ length (bytes s.buf) =
        omega (arith, ap length eq, length-append body rest) in
      let (buf, removed, left) = b.remove h.len s.buf enough in
      let front : take h.len (bytes s.buf) ≡ body =
        ap (take h.len) eq ∙ take-append_at h.len body rest l in
      let back : drop h.len (bytes s.buf) ≡ rest =
        ap (drop h.len) eq ∙ drop-append_at h.len body rest l in
      let filled : Holds body [] (fill h.len body s.ar) =
        subst (λ n. Holds body [] (fill n body s.ar)) l
          (fill-Holds s.ar body ready (omega arith)) in
      let (s', taken, t) =
        take_packet-Took env h (record s { buf = buf; ar = fill h.len body s.ar }) stamp m mt small
          v blank ready.no_start filled in
      (
        s',
        rw (le→ltb_false h.len capacity room, removed, front) taken,
        ap bytes t.same_buf ∙ left ∙ back,
        t.inbox_grew,
        t.next_round,
        t.same_session,
        t.ready,
      )

  -- A whole record at the front of the buffer is taken, and the rest stays.
  pub read_record_whole :
      (s : Reading Buf) (p : Packet) (rest : List ℕ)
      → IsPacket p
      → IsBlank (env.blanks s.round)
      → IsArchive s.ar
      → bytes s.buf ≡ bytes_packet p ++ rest
      → (s' : Reading Buf) × (read_record e env s ≡ again s')
        × (bytes s'.buf ≡ rest)
        × After env p s s'
  unfolding read_record
  read_record_whole s p rest v blank ready eq =
      let m = p.message in
      let h = message_header p.session_idx m in
      let body = bytes_u64 p.stamp ++ bytes_message m in
      let buf = e.evbuffer_drain 8 s.buf in
      let fields = message_header_fields p.session_idx m in
      let hl : h.len ≡ 8 + length (bytes_message m) = message_header_len p v in
      let w : length (bytes_u64 (header_word h)) ≡ 8 = length-le_bytes 8 (hton64 (header_word h)) in
      let split : bytes s.buf ≡ bytes_u64 (header_word h) ++ (body ++ rest) =
        eq ∙ unfold bytes_packet in append_assoc (bytes_u64 (header_word h)) body rest in
      let long : length (bytes s.buf) ≡ 16 + length (bytes_message m) + length rest =
        omega (arith, ap length eq, length-append (bytes_packet p) rest, length-bytes_packet p) in
      let drained : bytes buf ≡ body ++ rest =
        b.drain 8 s.buf (omega arith)
        ∙ ap (drop 8) split
        ∙ drop-append_at 8 (bytes_u64 (header_word h)) (body ++ rest) w in
      let (s', taken, left, inbox, round, session, done) =
        take_body_whole h (record s { buf = buf; reader_session_index = h.session_idx }) p.stamp m
          rest fields.1 hl (omega (arith, v.record_fits)) v.stamp_fits v.message_valid blank ready
          drained in
      (
        s',
        rw
            (
              b.get_length s.buf,
              peek_header_lem s.buf h (message_header-IsHeader p v) (omega arith) (
                  ap (take 8) split
                  ∙ take-append_at 8 (bytes_u64 (header_word h)) (body ++ rest) w),
              lt→ltb 8 (length (bytes s.buf)) (omega arith),
              fields.0,
              le→ltb_false (u32 (h.len + 8)) (length (bytes s.buf)) (omega (arith, v.record_fits)),
            )
            taken,
        left,
        record {
          inbox_grew = inbox;
          next_round = round;
          session = session ∙ fields.2;
          ready = done;
        },
      )

  -- If the buffer has a proper prefix of a packet, a round leaves it alone and waits.
  pub read_record_part :
      (s : Reading Buf) (p : Packet) (part missing : List ℕ)
      → IsPacket p
      → missing ≢ []
      → bytes_packet p ≡ part ++ missing
      → bytes s.buf ≡ part
      → read_record e env s ≡ stop waiting s
  unfolding read_record
  read_record_part s p part missing v ne split eq =
      let h = message_header p.session_idx p.message in
      let w = bytes_u64 (header_word h) in
      let body = bytes_u64 p.stamp ++ bytes_message p.message in
      let l : length w ≡ 8 = length-le_bytes 8 (hton64 (header_word h)) in
      let fields = message_header_fields p.session_idx p.message in
      let hl : h.len ≡ 8 + length (bytes_message p.message) = message_header_len p v in
      let lengths : length part + length missing ≡ 16 + length (bytes_message p.message) =
        omega (arith, ap length split, length-append part missing, length-bytes_packet p) in
      let some_missing : 0 < length missing = length-pos missing ne in
      elim (Bool-cases (ltb 8 (length part))) [
        | inr short ↦ rw (b.get_length s.buf, eq, short)
        | inl long ↦
            let room : 8 ≤ length part = omega (arith, ltb→lt 8 (length part) long) in
            let front : take 8 (bytes s.buf) ≡ w =
              ap (take 8) eq
              ∙ sym (take-prefix 8 part missing room)
              ∙ ap (take 8) (sym split)
              ∙ unfold bytes_packet in take-append_at 8 w body l in
            rw (
              b.get_length s.buf,
              peek_header_lem s.buf h (message_header-IsHeader p v) (omega (arith, ap length eq))
                  front,
              eq,
              long,
              fields.0,
              lt→ltb (length part) (u32 (h.len + 8)) (omega (arith, v.record_fits)),
            )
      ]
