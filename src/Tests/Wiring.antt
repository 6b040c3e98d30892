-- ===== src/Tests/Wiring.antt =====
-- Byte order, headers, buffers, messages and statistics.
use data_spinner.Base.{ℕ, ◌≡◌, ◌≢◌, ◌≤◌, refl, arith, true, some, List, [], length}
use data_spinner.Wire.{hton64, ntoh64, le_bytes}
use data_spinner.Wire.Order.{ntoh64-hton64}
use data_spinner.Wire.Network.{network_bytes, hton64-ne-network}
use data_spinner.Header.{login_reply}
use data_spinner.Buffer.{SingleRecordBuffer, capacity, send_bytes}
use data_spinner.Buffer.Views.{IsWritable, contents, unread, length-contents}
use data_spinner.Archive.{fresh_archive, BuffMsgArchive}
use data_spinner.Stat.{on_reader_progress}
use data_spinner.Stat.Bounds.{IsStat, on_reader_progress-IsStat}
use data_spinner.Delta.{put_delta, get_delta}
use data_spinner.Delta.Forms.{delta_view, bytes_delta, bytes_sor}
use data_spinner.Delta.RoundTrip.{put_delta-Writes, get_delta-put_delta}
use data_spinner.Archive.Writing.{bytes_str, bytes_all}
use data_spinner.Message.{
  Message, hb_msg, calc_len, msgtype, bytes_message, received, stream_in_archive,
}
use data_spinner.Message.RoundTrip.{Holds, Delivers, calc_len_lem, stream_in-Delivers}
use data_spinner.Records.{u16}
use data_spinner.Records.Forms.{bytes_hb}
use data_spinner.Frame.{build_record}
use data_spinner.Frame.Layout.{build_record_layout, bytes_packet}
use data_spinner.Receive.{fill}
use data_spinner.Receive.Packet.{fill-Holds}
use data_spinner.Tests.Data.{
  sevens, a_delta, a_delta-IsDelta, a_delta-HasArrays, blanks, blanks-IsBlank, a_packet,
  three_packets-IsPacket, no_stat, ready, length-replicate,
}

ntoh64-hton64_example : ntoh64 (hton64 81985529216486895) ≡ 81985529216486895
ntoh64-hton64_example = ntoh64-hton64 81985529216486895 (omega arith)

hton64-ne-network_example : le_bytes 8 (hton64 1) ≢ network_bytes 8 1
hton64-ne-network_example = hton64-ne-network 1 (omega arith) (λ e. absurd (omega (arith, e)))

on_reader_progress-IsStat_example :
    IsStat (on_reader_progress 10 100 20 (some login_reply) 300 no_stat)
on_reader_progress-IsStat_example =
    on_reader_progress-IsStat 10 100 20 (some login_reply) 300 no_stat (omega arith)
      (record { last_le_max = omega arith; max_fits = omega arith; base_fits = omega arith })

abbrev a_heartbeat : Message
a_heartbeat = hb_msg (record { counter = 5 })

calc_len_lem_example : calc_len a_heartbeat ≡ u16 (length (bytes_message a_heartbeat))
calc_len_lem_example = calc_len_lem a_heartbeat (omega arith)

abbrev hb_archive : BuffMsgArchive
hb_archive =
    fill (length (bytes_message a_heartbeat)) (bytes_message a_heartbeat) (fresh_archive sevens)

hb_archive-Holds : Holds (bytes_message a_heartbeat) [] hb_archive
unfolding bytes_message bytes_hb le_bytes
hb_archive-Holds = fill-Holds (fresh_archive sevens) (bytes_message a_heartbeat) ready (omega arith)

stream_in-Delivers_example :
    Delivers
      (received blanks a_heartbeat)
      []
      hb_archive
      (stream_in_archive blanks (some (msgtype a_heartbeat)) hb_archive)
stream_in-Delivers_example =
    stream_in-Delivers blanks a_heartbeat [] hb_archive blanks-IsBlank (omega arith)
      hb_archive-Holds

build_record_layout_example :
    (b : SingleRecordBuffer) × (build_record sevens a_packet.stamp a_packet.session_idx
        a_packet.message
      ≡ some b)
    × (send_bytes b ≡ bytes_packet a_packet)
    × (b.start_pos ≡ 0)
    × IsWritable b
build_record_layout_example =
    build_record_layout sevens a_packet (length-replicate {A = ℕ} capacity 7)
      three_packets-IsPacket.0

-- An archive with the bytes that were written for a delta.
abbrev delta_bytes : List ℕ
delta_bytes = contents (put_delta a_delta (fresh_archive sevens)).bytebuff

empty_archive-IsWritable : IsWritable (fresh_archive sevens).bytebuff
empty_archive-IsWritable = record {
  whole = length-replicate {A = ℕ} capacity 7;
  fits = omega arith;
}

delta-fits : length (bytes_delta a_delta) ≤ capacity
unfolding bytes_delta bytes_sor bytes_all bytes_str le_bytes
delta-fits = omega arith

delta_bytes-fit : length delta_bytes ≤ capacity
delta_bytes-fit =
    let written =
      put_delta-Writes a_delta a_delta-IsDelta (fresh_archive sevens) empty_archive-IsWritable
        (omega (arith, delta-fits)) in
    omega (arith, length-contents written.writable, written.longer, delta-fits)

delta_archive-Holds :
    Holds delta_bytes [] (fill (length delta_bytes) delta_bytes (fresh_archive sevens))
delta_archive-Holds = fill-Holds (fresh_archive sevens) delta_bytes ready delta_bytes-fit

abbrev delta_archive : BuffMsgArchive
delta_archive = fill (length delta_bytes) delta_bytes (fresh_archive sevens)

get_delta-put_delta_example :
    (delta_view (get_delta blanks.delta delta_archive).0 ≡ delta_view a_delta)
    × (unread (get_delta blanks.delta delta_archive).1.bytebuff ≡ [])
    × ((put_delta a_delta (fresh_archive sevens)).is_valid ≡ true)
    × ((get_delta blanks.delta delta_archive).1.is_valid ≡ true)
get_delta-put_delta_example =
    get_delta-put_delta blanks.delta a_delta (fresh_archive sevens) delta_archive []
      a_delta-HasArrays a_delta-IsDelta empty_archive-IsWritable refl delta-fits
      delta_archive-Holds.readable delta_archive-Holds.holds
