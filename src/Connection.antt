-- ===== src/Connection.antt =====
-- TcpConnection of src/tcp_connection.h and src/tcp_connection.cpp as a sender: send_message and
-- close_connection, on the queue of its socket. What is logged is not modelled.
pub mod Sending
pub mod EndToEnd
use data_spinner.Base.{ℕ, Bool, true, false, Option, none, some, List}
use data_spinner.Buffer.{SingleRecordBuffer}
use data_spinner.Message.{Message}
use data_spinner.Frame.{build_record}
use data_spinner.Queue.{TcpSocketQueue, Socket, SendResult, next_session_index, send_buffer}

-- `is_valid` says that bev_ is not null.
pub record TcpConnection : Type 0 where
  pub skt : TcpSocketQueue
  pub is_valid : Bool
  pub writer_session_index : ℕ

-- void close_connection(); the calls that close the socket are not modelled.
unfoldable pub close_connection : TcpConnection → TcpConnection
close_connection c = record c { is_valid = false }

-- What send_message does with the result of send_buffer.
unfoldable pub after_send_buffer :
    TcpConnection → Option (Bool × TcpSocketQueue × Socket) → Option (Bool × TcpConnection × Socket)
after_send_buffer c none = none
after_send_buffer c (some (true, q, k)) = some (true, record c { skt = q }, k)
after_send_buffer c (some (false, q, k)) = some (false, close_connection (record c { skt = q }), k)

-- The clock, the configuration, and the uninitialised array of the archive of one call.
pub record Call : Type 0 where
  pub upd_every : ℕ
  pub now : ℕ
  pub time_stamp : ℕ
  pub garbage : List ℕ

module _ (answer : ℕ → ℕ → SendResult) where
  -- The part of send_message behind the header, from `ar << m` on.
  unfoldable pub after_build :
      ℕ
      → Call
      → TcpConnection
      → Socket
      → Option SingleRecordBuffer
      → Option (Bool × TcpConnection × Socket)
  after_build fuel call c k none = some (false, close_connection c, k)
  after_build fuel call c k (some b) =
      after_send_buffer c (send_buffer answer fuel call.upd_every call.now b c.skt k)

  -- bool send_message(const T& m); `none`: the fuel of send_cache ran out.
  unfoldable pub send_message :
      ℕ → Call → Message → TcpConnection → Socket → Option (Bool × TcpConnection × Socket)
  send_message fuel call m c k =
      let next = next_session_index c.skt in
      let c₁ = record c { skt = next.0; writer_session_index = next.1 } in
      after_build fuel call c₁ k (build_record call.garbage call.time_stamp next.1 m)
