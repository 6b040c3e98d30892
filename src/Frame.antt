-- ===== src/Frame.antt =====
-- The record that TcpConnection::send_message (src/tcp_connection.h) and
-- UdpConnection::send_message_to (src/udp_connection.h) build for a message, up to the call that
-- sends it.
pub mod Layout
use data_spinner.Base.{ℕ, ◌+◌, Bool, true, false, Option, none, some, List, if◌then◌else◌}
use data_spinner.Header.{MsgHeader, start_header}
use data_spinner.Buffer.{SingleRecordBuffer}
use data_spinner.Archive.{fresh_archive, store_header}
use data_spinner.Records.{u16}
use data_spinner.Message.{Message, msgtype, calc_len, put_message}

-- `h.h.len += m.calc_len(); h.h.session_idx = ..;`
unfoldable pub message_header : ℕ → Message → MsgHeader
message_header session_idx m =
    let h = start_header (msgtype m) in
    record h { len = u16 (h.len + calc_len m); session_idx = session_idx }

-- `garbage` is the uninitialised array of `ar`. `none`: the header could not be stored, and nothing
-- is sent. Whether `ar << m` fits is not asked.
unfoldable pub build_record : List ℕ → ℕ → ℕ → Message → Option SingleRecordBuffer
build_record garbage time_stamp session_idx m =
    let (stored, ar) =
      store_header (message_header session_idx m) time_stamp (fresh_archive garbage) in
    if stored then some (put_message m ar).bytebuff else none
