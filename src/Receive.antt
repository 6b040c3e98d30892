-- ===== src/Receive.antt =====
-- TcpConnection::read_connection_buffer of src/tcp_connection.cpp: the records that have arrived
-- whole are taken off libevent's input buffer and delivered in order.
pub mod Packet
pub mod Round
pub mod Stream
pub mod Total
pub mod Chunks
use data_spinner.Base.{
  ℕ, zero, suc, ◌+◌, ◌-◌, ◌%◌, Bool, true, false, ◌&&◌, not, Option, none, some, List, [], ◌∷◌,
  ◌++◌, ltb, ◌==◌, if◌then◌else◌, length, splice,
}
use data_spinner.Wire.{ntoh64, of_le, u32, u64}
use data_spinner.Header.{EMsgType, md_delta, MsgHeader, word_header, type_of_code, tag_soh, hdr_len}
use data_spinner.Buffer.{capacity}
use data_spinner.Archive.{BuffMsgArchive, get_u64}
use data_spinner.Records.{u16}
use data_spinner.Stat.{WireReaderStat, on_reader_progress}
use data_spinner.Message.{
  Message, Blanks, StreamIn, rejected, thrown, unrecognized, delivered, stream_in_archive,
}
use data_spinner.EvBuffer.{EvBuffer}

-- `true` (the rest has not arrived), `false` (the caller closes the connection), or an exception;
-- `out_of_fuel` has no counterpart in the program.
pub data Status : Type 0 where
  waiting failed threw out_of_fuel : Status

-- What a call reads besides the connection: the clocks and the uninitialised locals at each round,
-- idle_on_delta_ and stat_upd_every_nsec_ of the configuration.
pub record Env : Type 0 where
  pub blanks : ℕ → Blanks
  pub usec : ℕ → ℕ
  pub sec : ℕ → ℕ
  pub idle_on_delta : Bool
  pub upd_every : ℕ

-- The state of the loop; `inbox` has the messages that the handlers were called with, in order.
pub record Reading (Buf : Type 0) : Type 0 where
  pub buf : Buf
  pub ar : BuffMsgArchive
  pub reader_session_index : ℕ
  pub stat : WireReaderStat
  pub inbox : List Message
  pub round : ℕ

pub data Step (Buf : Type 0) : Type 0 where
  stop : Status → Reading Buf → Step Buf
  again : Reading Buf → Step Buf

abbrev pub is_delta : Option EMsgType → Bool
is_delta (some md_delta) = true
is_delta (some t) = false
is_delta none = false

-- `evbuffer_remove(b, bb.buff_, len); bb.len_ = len; bb.read_ = 0;`
abbrev pub fill : ℕ → List ℕ → BuffMsgArchive → BuffMsgArchive
fill len bytes ar = record ar {
  bytebuff = record (ar.bytebuff) {
    buff = splice 0 bytes (ar.bytebuff.buff);
    len = len;
    read_pos = 0;
  };
}

abbrev pub after_stream_in : {Buf : Type 0} → StreamIn → Reading Buf → Step Buf
after_stream_in rejected s = stop failed s
after_stream_in thrown s = stop threw s
after_stream_in unrecognized s = again s
after_stream_in (delivered m) s = again (record s { inbox = s.inbox ++ (m ∷ []) })

-- A record with header `h` lies in the archive's buffer.
unfoldable pub take_packet : {Buf : Type 0} → Env → MsgHeader → Reading Buf → Step Buf
take_packet env h s =
    let mt = type_of_code h.mtype in
    let (wire_tstamp, ar) = get_u64 0 s.ar in
    let latency = u64 (env.usec s.round + 18446744073709551616 - wire_tstamp) in
    let stat = on_reader_progress env.upd_every (env.sec s.round) h.len mt (u16 latency) s.stat in
    let s₁ = record s { ar = ar; stat = stat; round = s.round + 1 } in
    let (r, ar₁) = stream_in_archive (env.blanks s.round) mt ar in
    if env.idle_on_delta && is_delta mt
    then again s₁
    else after_stream_in r (record s₁ { ar = ar₁ })

module _ (e : EvBuffer) (env : Env) where
  open e use {Buf, evbuffer_get_length, evbuffer_copyout, evbuffer_drain, evbuffer_remove}

  -- The header at the front of the buffer.
  unfoldable pub peek_header : Buf → MsgHeader
  peek_header b = word_header (ntoh64 (of_le (evbuffer_copyout hdr_len b)))

  -- The part of a round behind the drain of the header.
  unfoldable pub take_body : MsgHeader → Reading Buf → Step Buf
  take_body h s = if ltb capacity h.len then stop failed s else elim (evbuffer_remove h.len s.buf) [
    | none ↦ stop failed s
    | some (bytes, b) ↦ take_packet env h (record s { buf = b; ar = fill h.len bytes s.ar })
  ]

  -- One round of the `while`. The gap between session indices is only logged.
  unfoldable pub read_record : Reading Buf → Step Buf
  read_record s =
      let buff_len = evbuffer_get_length s.buf in
      let h = peek_header s.buf in
      let drained = record s {
        buf = evbuffer_drain hdr_len s.buf;
        reader_session_index = h.session_idx;
      } in
      if not (ltb hdr_len buff_len)
      then stop waiting s
      else if not (h.pfix == tag_soh)
      then stop failed s
      else if ltb buff_len (u32 (h.len + hdr_len))
      then stop waiting s
      else take_body h drained

  unfoldable pub read_loop : ℕ → Reading Buf → Status × Reading Buf
  read_loop zero s = (out_of_fuel, s)
  read_loop (suc fuel) s = elim (read_record s) [
    | stop r s' ↦ (r, s')
    | again s' ↦ read_loop fuel s'
  ]

  -- Each round takes a header at least off the buffer, so its length is enough fuel.
  unfoldable pub read_connection_buffer : Reading Buf → Status × Reading Buf
  unfolding read_loop
  read_connection_buffer s = read_loop (suc (evbuffer_get_length s.buf)) s
