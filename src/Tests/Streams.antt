-- ===== src/Tests/Streams.antt =====
-- The receiver on three packets and a part of a fourth, on two pieces, and on bytes that are no record.
use data_spinner.Base.{
  ℕ, ◌≡◌, ◌≢◌, refl, ap, sym, arith, List, [], ◌++◌, length, take, drop, replicate,
  take-append-drop, length-drop,
}
use data_spinner.Frame.Layout.{bytes_packet, length-bytes_packet}
use data_spinner.EvBuffer.{list_buffer, list_buffer_laws}
use data_spinner.Receive.{waiting, out_of_fuel, Reading, stop, read_record, read_connection_buffer}
use data_spinner.Receive.Round.{read_record_part}
use data_spinner.Receive.Stream.{
  bytes_packets, IsPart, cut, Drained, seen_all, read_connection_buffer_stream,
}
use data_spinner.Receive.Chunks.{read_connection_buffer_chunks}
use data_spinner.Receive.Total.{read_connection_buffer-ends}
use data_spinner.Tests.Data.{
  a_packet, three_packets, three_packets-IsPacket, blanks-IsBlank, an_env, reading, ready,
}

abbrev a_part : List ℕ
a_part = take 3 (bytes_packet a_packet)

abbrev its_rest : List ℕ
its_rest = drop 3 (bytes_packet a_packet)

its_rest-ne : its_rest ≢ []
its_rest-ne e = absurd (
    omega (arith, ap length e, length-drop 3 (bytes_packet a_packet), length-bytes_packet a_packet))

a_part-split : bytes_packet a_packet ≡ a_part ++ its_rest
a_part-split = sym (take-append-drop 3 (bytes_packet a_packet))

a_part-IsPart : IsPart a_part
a_part-IsPart = cut a_packet its_rest three_packets-IsPacket.0 its_rest-ne a_part-split

read_record_part_example :
    read_record list_buffer an_env (reading a_part) ≡ stop waiting (reading a_part)
read_record_part_example =
    read_record_part list_buffer list_buffer_laws an_env (reading a_part) a_packet a_part its_rest
      three_packets-IsPacket.0 its_rest-ne a_part-split refl

abbrev arrived : Reading (List ℕ)
arrived = reading (bytes_packets three_packets ++ a_part)

read_connection_buffer_stream_example :
    Drained list_buffer list_buffer_laws an_env three_packets a_part arrived
      (read_connection_buffer list_buffer an_env arrived)
read_connection_buffer_stream_example =
    read_connection_buffer_stream list_buffer list_buffer_laws an_env three_packets a_part arrived
      three_packets-IsPacket a_part-IsPart (λ k. blanks-IsBlank) ready refl

abbrev first_piece : List ℕ
first_piece = take 20 (bytes_packets three_packets)

abbrev second_piece : List ℕ
second_piece = drop 20 (bytes_packets three_packets)

abbrev after_first : Reading (List ℕ)
after_first = (read_connection_buffer list_buffer an_env (reading first_piece)).1

abbrev resumed : Reading (List ℕ)
resumed = record after_first { buf = after_first.buf ++ second_piece }

read_connection_buffer_chunks_example :
    ((read_connection_buffer list_buffer an_env (reading first_piece)).0 ≡ waiting)
    × (((read_connection_buffer list_buffer an_env resumed).0 ≡ waiting)
        × ((read_connection_buffer list_buffer an_env resumed).1.buf ≡ [])
        × ((read_connection_buffer list_buffer an_env resumed).1.inbox
            ≡ seen_all an_env 0 three_packets))
read_connection_buffer_chunks_example =
    read_connection_buffer_chunks list_buffer list_buffer_laws an_env three_packets first_piece
      second_piece (reading first_piece) (after_first.buf ++ second_piece) three_packets-IsPacket
      (λ k. blanks-IsBlank) ready (sym (take-append-drop 20 (bytes_packets three_packets))) refl
      refl

read_connection_buffer-ends_example :
    (read_connection_buffer list_buffer an_env (reading (replicate 30 1))).0 ≢ out_of_fuel
read_connection_buffer-ends_example =
    read_connection_buffer-ends list_buffer list_buffer_laws an_env (reading (replicate 30 1))
