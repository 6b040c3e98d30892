-- ===== src/Tests/Links.antt =====
-- A sender and a receiver, over a socket that takes all.
use data_spinner.Base.{ℕ, ◌≡◌, refl, arith, true, List, [], ◌∷◌, ◌++◌, All}
use data_spinner.Buffer.{capacity}
use data_spinner.Message.{Message, hb_msg, text_msg}
use data_spinner.Frame.Layout.{IsPacket}
use data_spinner.EvBuffer.{list_buffer, list_buffer_laws}
use data_spinner.Receive.{waiting, Reading, read_connection_buffer}
use data_spinner.Receive.Stream.{seen_all}
use data_spinner.Connection.{TcpConnection, Call, send_message}
use data_spinner.Connection.Sending.{Sent, Returns, send_message-Sent}
use data_spinner.Connection.EndToEnd.{
  packets, send_all, sent_wire, succeeded, read_connection_buffer-send_all,
}
use data_spinner.Tests.Data.{
  sevens, three_packets-IsPacket, blanks-IsBlank, an_env, reading, ready, length-replicate,
}
use data_spinner.Tests.Queues.{a_queue, a_socket, takes_all, takes_all-IsWhole}

abbrev pub a_connection : TcpConnection
a_connection = record { skt = a_queue []; is_valid = true; writer_session_index = 0 }

abbrev pub first_call : Call
first_call = record { upd_every = 10; now = 100; time_stamp = 12; garbage = sevens }

abbrev second_call : Call
second_call = record { upd_every = 10; now = 100; time_stamp = 13; garbage = sevens }

abbrev two_messages : List (Call × Message)
two_messages =
    (first_call, hb_msg (record { counter = 5 }))
    ∷ (second_call, text_msg (record { m_text = 104 ∷ 105 ∷ [] }))
    ∷ []

send_message-Sent_example :
    Returns
      (Sent first_call (hb_msg (record { counter = 5 })) a_connection a_socket)
      (send_message takes_all 1 first_call (hb_msg (record { counter = 5 })) a_connection a_socket)
send_message-Sent_example =
    send_message-Sent takes_all takes_all-IsWhole 1 first_call (hb_msg (record { counter = 5 }))
      a_connection a_socket (length-replicate {A = ℕ} capacity 7) three_packets-IsPacket.0 tt
      (omega arith)

two_messages-IsPacket : All IsPacket (packets 0 two_messages)
unfolding packets
two_messages-IsPacket = (three_packets-IsPacket.0, (three_packets-IsPacket.1.0, tt))

abbrev sent_two : Reading (List ℕ)
sent_two = reading (sent_wire (send_all takes_all 1 two_messages a_connection a_socket))

read_connection_buffer-send_all_example :
    (succeeded (send_all takes_all 1 two_messages a_connection a_socket) ≡ true)
    × ((read_connection_buffer list_buffer an_env sent_two).0 ≡ waiting)
    × ((read_connection_buffer list_buffer an_env sent_two).1.buf ≡ [])
    × ((read_connection_buffer list_buffer an_env sent_two).1.inbox
        ≡ [] ++ seen_all an_env 0 (packets 0 two_messages))
read_connection_buffer-send_all_example =
    read_connection_buffer-send_all takes_all (λ i n. refl) list_buffer list_buffer_laws an_env 1
      two_messages a_connection a_socket sent_two
      (length-replicate {A = ℕ} capacity 7, (length-replicate {A = ℕ} capacity 7, tt))
      two_messages-IsPacket refl refl (λ i. blanks-IsBlank) ready refl
