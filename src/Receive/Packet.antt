-- ===== src/Receive/Packet.antt =====
-- A record that lies in the archive of read_connection_buffer of src/tcp_connection.cpp.
use data_spinner.Base.{
  ℕ, ◌+◌, ◌-◌, ◌≤◌, ◌<◌, ◌≡◌, refl, ap, sym, ◌∙◌, arith, true, ◌&&◌, some, List, [], ◌∷◌, ◌++◌,
  length, drop, length-splice, append-nil, if◌then◌else◌, take-append, Bool-cases, inl, inr,
}
use data_spinner.Wire.{hton64, ntoh64, of_le}
use data_spinner.Wire.Order.{of_le-le_bytes, hton64-lt, ntoh64-hton64}
use data_spinner.Header.{MsgHeader, header_word, word_header, type_of_code, type_code}
use data_spinner.Header.Words.{
  IsHeader, word_header-header_word, header_word-lt, type_of_code-type_code,
}
use data_spinner.Buffer.{capacity}
use data_spinner.Archive.{BuffMsgArchive, get_u64}
use data_spinner.Archive.Writing.{bytes_u64}
use data_spinner.Archive.Reading.{get_u64-Reads}
use data_spinner.Message.{Message, msgtype, bytes_message, received}
use data_spinner.Message.RoundTrip.{IsMessage, IsBlank, Holds, stream_in-Delivers}
use data_spinner.Receive.{Env, Reading, again, is_delta, fill, take_packet}

pub sub-zero : (n : ℕ) → n - 0 ≡ n
sub-zero n = omega arith

-- The archive between two rounds.
pub record IsArchive (ar : BuffMsgArchive) : Type 0 where
  pub valid : ar.is_valid ≡ true
  pub whole : length ar.bytebuff.buff ≡ capacity
  pub no_start : ar.bytebuff.start_pos ≡ 0

-- The eight bytes of a header are decoded to it.
pub decode_header :
    (h : MsgHeader) → IsHeader h → word_header (ntoh64 (of_le (bytes_u64 (header_word h)))) ≡ h
decode_header h v =
    rw
      (
        of_le-le_bytes 8 (hton64 (header_word h)) (hton64-lt (header_word h)),
        ntoh64-hton64 (header_word h) (header_word-lt h v),
      )
      (word_header-header_word h v)

-- After the body was copied in, the archive holds it.
pub fill-Holds :
    (ar : BuffMsgArchive) (bytes : List ℕ)
    → IsArchive ar
    → length bytes ≤ capacity
    → Holds bytes [] (fill (length bytes) bytes ar)
fill-Holds ar bytes v h =
    let others = drop (0 + length bytes) ar.bytebuff.buff in
    record {
      valid = v.valid;
      readable = record {
        whole = length-splice 0 bytes ar.bytebuff.buff (omega (arith, v.whole)) ∙ v.whole;
        before_end = omega arith;
        in_array = omega (arith, v.no_start);
      };
      holds = rw (v.no_start, sub-zero, append-nil) (take-append bytes others);
    }

-- What the handlers see of a message in round `k`.
unfoldable pub seen : Env → ℕ → Message → List Message
seen env k m =
    if env.idle_on_delta && is_delta (some (msgtype m)) then [] else received (env.blanks k) m ∷ []

-- `m` was taken: the handlers saw it, and the archive is ready for the next round.
pub record Took {Buf : Type 0} (env : Env) (m : Message) (s s' : Reading Buf) : Type 0 where
  pub inbox_grew : s'.inbox ≡ s.inbox ++ seen env s.round m
  pub next_round : s'.round ≡ s.round + 1
  pub same_buf : s'.buf ≡ s.buf
  pub same_session : s'.reader_session_index ≡ s.reader_session_index
  pub ready : IsArchive s'.ar

pub take_packet-Took :
    {Buf : Type 0} (env : Env) (h : MsgHeader) (s : Reading Buf) (stamp : ℕ) (m : Message)
    → h.mtype ≡ type_code (msgtype m)
    → stamp < 18446744073709551616
    → IsMessage m
    → IsBlank (env.blanks s.round)
    → s.ar.bytebuff.start_pos ≡ 0
    → Holds (bytes_u64 stamp ++ bytes_message m) [] s.ar
    → (s' : Reading Buf) × (take_packet env h s ≡ again s') × Took env m s s'
unfolding take_packet seen
take_packet-Took env h s stamp m mt small v blank start holds =
    let t =
      (get_u64-Reads 0 stamp small).takes s.ar (bytes_message m) holds.readable
        (holds.holds ∙ append-nil (bytes_u64 stamp ++ bytes_message m)) in
    let ar = (get_u64 0 s.ar).1 in
    let body : Holds (bytes_message m) [] ar = record {
      valid = t.still_valid ∙ holds.valid;
      readable = t.readable;
      holds = t.remaining ∙ sym (append-nil (bytes_message m));
    } in
    let d = stream_in-Delivers (env.blanks s.round) m [] ar blank v body in
    let e : type_of_code h.mtype ≡ some (msgtype m) =
      ap type_of_code mt ∙ type_of_code-type_code (msgtype m) in
    let no_start : ar.bytebuff.start_pos ≡ 0 = t.same_start ∙ start in
    elim (Bool-cases (env.idle_on_delta && is_delta (some (msgtype m)))) [
      | inl skip ↦
          rw (e, skip)
            (
              _,
              refl,
              record {
                inbox_grew = rw (seen, skip) (sym (append-nil s.inbox));
                next_round = refl;
                same_buf = refl;
                same_session = refl;
                ready = record {
                  valid = body.valid;
                  whole = t.readable.whole;
                  no_start = no_start;
                };
              },
            )
      | inr look ↦
          rw (e, look, d.outcome)
            (
              _,
              refl,
              record {
                inbox_grew = rw (seen, look) refl;
                next_round = refl;
                same_buf = refl;
                same_session = refl;
                ready = record {
                  valid = d.left.valid;
                  whole = d.left.readable.whole;
                  no_start = d.same_start ∙ no_start;
                };
              },
            )
    ]
