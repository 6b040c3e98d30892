-- ===== src/Udp.antt =====
-- UdpConnection of src/udp_connection.h and src/udp_connection.cpp: what one datagram does.
-- What is logged is not modelled.
pub mod Subscriber
pub mod Publisher
pub mod Publish
pub mod Delivery
pub mod Stale
pub mod Table
pub mod Invariant
pub mod Sends
pub mod Unregister
pub mod Login
pub mod EndToEnd
use data_spinner.Base.{
  ℕ, zero, suc, ◌+◌, ◌-◌, Bool, true, false, ◌&&◌, Option, none, some, List, [], ◌∷◌, ◌++◌, ltb,
  ◌==◌, if◌then◌else◌, length, take, splice,
}
use data_spinner.Wire.{ntoh64, of_le, u64}
use data_spinner.Header.{EMsgType, MsgHeader, word_header, type_of_code, hdr_len, start_header}
use data_spinner.Buffer.{SingleRecordBuffer, capacity, send_bytes}
use data_spinner.Archive.{BuffMsgArchive, fresh_archive, get_u64, store_header}
use data_spinner.Records.{u16}
use data_spinner.Stat.{WireReaderStat, on_reader_progress}
use data_spinner.Frame.{build_record}
use data_spinner.Message.{
  Message, Blanks, StreamIn, stream_in_archive, put_message, msgtype, calc_len,
}

-- The fields of sockaddr_in.
pub record SockAddr : Type 0 where
  pub sin_family : ℕ
  pub sin_port : ℕ
  pub sin_addr : ℕ

-- The network as a sender sees it: how often sendto was called, and the datagrams that it took.
pub record Network : Type 0 where
  pub calls : ℕ
  pub sent : List (SockAddr × List ℕ)

-- What the `i`-th call of send_message_to finds: the clock, and the uninitialised array of its archive.
pub record SendEnv : Type 0 where
  pub time_stamp : ℕ → ℕ
  pub garbage : ℕ → List ℕ

-- The result of sendto for its `i`-th call with that many bytes: `none` is -1.
module _ (sendto : ℕ → ℕ → Option ℕ) where
  -- sendto(fd, ob.buff(), ob.len(), 0, addr): a datagram is taken whole or not at all.
  unfoldable pub send_datagram : SockAddr → List ℕ → Network → Option ℕ × Network
  send_datagram addr bytes net =
      let r = sendto net.calls (length bytes) in
      (
        r,
        record {
          calls = net.calls + 1;
          sent = elim r [ none ↦ net.sent | some n ↦ net.sent ++ ((addr, bytes) ∷ []) ];
        },
      )

  -- The end of send_message_to.
  unfoldable pub after_datagram :
      SockAddr → Option SingleRecordBuffer → Network → Option ℕ × Network
  after_datagram addr none net = (none, net)
  after_datagram addr (some b) net = send_datagram addr (send_bytes b) net

  -- int send_message_to(const sockaddr_in& addr, const T& m, uint32_t session_index): `none` is a
  -- negative result.
  unfoldable pub send_message_to : SendEnv → SockAddr → Message → ℕ → Network → Option ℕ × Network
  send_message_to env addr m session_index net =
      after_datagram addr
        (build_record (env.garbage net.calls) (env.time_stamp net.calls) session_index m) net

-- What recvfrom gives: -1 (the address is not filled in, and is what the memory holds), 0, or a datagram.
pub data Received : Type 0 where
  recv_error : SockAddr → Received
  recv_closed : Received
  datagram : SockAddr → List ℕ → Received

-- What the callback finds besides the connection: the clocks, the uninitialised array of its archive and
-- locals, and idle_on_delta_ and stat_upd_every_nsec_ of the configuration.
pub record RecvEnv : Type 0 where
  pub garbage : List ℕ
  pub blanks : Blanks
  pub usec : ℕ
  pub sec : ℕ
  pub idle_on_delta : Bool
  pub upd_every : ℕ

-- bb.buff_ after recvfrom: a datagram longer than the array is cut.
unfoldable pub recv_buff : List ℕ → List ℕ → List ℕ
recv_buff garbage bytes = splice 0 (take capacity bytes) garbage

-- `h.d = spnr::ntoh64(*hdr_data)`
unfoldable pub datagram_header : List ℕ → MsgHeader
datagram_header buff = word_header (ntoh64 (of_le (take hdr_len buff)))

-- `bb.len_ = h.h.len; bb.read_ = 0; bb.start_pos_ = hdr_len;`
unfoldable pub datagram_archive : List ℕ → MsgHeader → BuffMsgArchive
datagram_archive buff h = record {
  is_valid = true;
  bytebuff = record { buff = buff; len = h.len; read_pos = 0; start_pos = hdr_len };
}

-- The read of the time stamp, and the statistics after it.
unfoldable pub read_stamp :
    RecvEnv → MsgHeader → BuffMsgArchive → WireReaderStat → BuffMsgArchive × WireReaderStat
read_stamp env h ar stat =
    let (wire_tstamp, ar₁) = get_u64 0 ar in
    let latency = u64 (env.usec + 18446744073709551616 - wire_tstamp) in
    (ar₁, on_reader_progress env.upd_every env.sec h.len (type_of_code h.mtype) (u16 latency) stat)

-- bool udp_stream_in_archive(sin, mt, ar): the cases are those of TcpConnection::stream_in_archive, with
-- handlers that are given the address too.
abbrev pub udp_stream_in_archive :
    Blanks → Option EMsgType → BuffMsgArchive → StreamIn × BuffMsgArchive
udp_stream_in_archive = stream_in_archive

-- How a callback ends: it drops the datagram, handles it, or an exception leaves it.
pub data Outcome : Type 0 where
  dropped handled threw : Outcome
