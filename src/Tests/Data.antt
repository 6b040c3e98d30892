-- ===== src/Tests/Data.antt =====
-- The records, messages and packets that the tests use.
use data_spinner.Base.{
  ℕ, ◌≡◌, refl, ap, arith, false, List, [], ◌∷◌, length, replicate, All, zero, suc,
}
use data_spinner.Buffer.{capacity}
use data_spinner.Archive.{fresh_archive}
use data_spinner.Delta.{MdDelta}
use data_spinner.Delta.Forms.{HasArrays, IsDelta, bytes_delta, bytes_sor}
use data_spinner.Ref.{MdRef, snapshot_fields_num}
use data_spinner.Ref.RoundTrip.{clear_bits}
use data_spinner.Message.{Blanks, hb_msg, delta_msg, text_msg, bytes_message}
use data_spinner.Message.RoundTrip.{IsBlank}
use data_spinner.Wire.{le_bytes}
use data_spinner.Archive.Writing.{bytes_str, bytes_all}
use data_spinner.Records.Forms.{bytes_hb, bytes_text}
use data_spinner.Frame.Layout.{Packet, IsPacket}
use data_spinner.Stat.{WireReaderStat}
use data_spinner.Receive.{Env, Reading}
use data_spinner.Receive.Packet.{IsArchive}

pub length-replicate : {A : Type 0} (n : ℕ) (x : A) → length (replicate n x) ≡ n
length-replicate zero x = refl
length-replicate (suc n) x = ap suc (length-replicate n x)

-- An array of a record whose bytes are all 7.
abbrev pub sevens : List ℕ
sevens = replicate capacity 7

abbrev pub zeros : ℕ → List ℕ
zeros n = replicate n 0

-- A delta of one integer and two doubles.
abbrev pub a_delta : MdDelta
a_delta = record {
  symbol = 77 ∷ 83 ∷ [];
  size = record { intdata_len = 1; dbldata_len = 2; reserved = 0; stamps_len = 1 };
  intdata = record { idx = 3 ∷ zeros 5; val = 9 ∷ zeros 5 };
  dbldata = record { idx = 1 ∷ 2 ∷ zeros 16; val = 100 ∷ 200 ∷ zeros 16 };
  stamps = 55 ∷ 0 ∷ [];
}

pub a_delta-HasArrays : HasArrays a_delta
a_delta-HasArrays = record {
  ints = record {
    idx_array = record { full = refl; in_range = ground arith };
    val_array = record { full = refl; in_range = ground arith };
  };
  dbls = record {
    idx_array = record { full = refl; in_range = ground arith };
    val_array = record { full = refl; in_range = ground arith };
  };
  times = record { full = refl; in_range = ground arith };
}

pub a_delta-IsDelta : IsDelta a_delta
a_delta-IsDelta = record {
  arrays = a_delta-HasArrays;
  symbol_fits = omega arith;
  ints_fit = omega arith;
  dbls_fit = omega arith;
  stamps_fit = omega arith;
  reserved_fits = omega arith;
}

abbrev pub blank_ref : MdRef
blank_ref = record {
  symbol = [];
  intdata = zeros snapshot_fields_num;
  dbldata = zeros snapshot_fields_num;
  strdata = replicate snapshot_fields_num [];
  int_fields = clear_bits;
  dbl_fields = clear_bits;
  str_fields = clear_bits;
}

abbrev pub blanks : Blanks
blanks = record { hb_counter = 4; menu_idx = 0; delta = a_delta; ref = blank_ref }

pub blanks-IsBlank : IsBlank blanks
blanks-IsBlank = record {
  delta_arrays = a_delta-HasArrays;
  ref_blank = record {
    no_ints = refl;
    no_dbls = refl;
    no_strs = refl;
    ints_full = length-replicate {A = ℕ} snapshot_fields_num 0;
    dbls_full = length-replicate {A = ℕ} snapshot_fields_num 0;
    strs_full = length-replicate {A = List ℕ} snapshot_fields_num [];
  };
}

abbrev pub a_packet : Packet
a_packet = record { stamp = 12; session_idx = 1; message = hb_msg (record { counter = 5 }) }

-- A heartbeat, a text and a delta.
abbrev pub three_packets : List Packet
three_packets =
    a_packet
    ∷ record {
      stamp = 13;
      session_idx = 2;
      message = text_msg (record { m_text = 104 ∷ 105 ∷ [] });
    }
    ∷ record { stamp = 14; session_idx = 3; message = delta_msg a_delta }
    ∷ []

abbrev pub an_env : Env
an_env = record {
  blanks = λ k. blanks;
  usec = λ k. 100;
  sec = λ k. 1;
  idle_on_delta = false;
  upd_every = 10;
}

abbrev pub no_stat : WireReaderStat
no_stat = record {
  stat_total_progress = 0;
  stat_start = 0;
  stat_log_time = 0;
  total_packets_progress = 0;
  last_msg_wire_len = 0;
  last_msg_wire_latency = 0;
  avg_msg_wire_latency = 0;
  total_msg_wire_latency = 0;
  max_msg_wire_latency = 0;
  base_latency = 0;
}

abbrev pub reading : List ℕ → Reading (List ℕ)
reading bytes = record {
  buf = bytes;
  ar = fresh_archive sevens;
  reader_session_index = 0;
  stat = no_stat;
  inbox = [];
  round = 0;
}

pub ready : IsArchive (fresh_archive sevens)
ready = record { valid = refl; whole = length-replicate {A = ℕ} capacity 7; no_start = refl }

pub three_packets-IsPacket : All IsPacket three_packets
unfolding bytes_message bytes_hb bytes_text bytes_delta bytes_sor bytes_all bytes_str le_bytes
three_packets-IsPacket = (
  record {
    stamp_fits = omega arith;
    session_fits = omega arith;
    message_valid = omega arith;
    record_fits = omega arith;
  },
  (
    record {
      stamp_fits = omega arith;
      session_fits = omega arith;
      message_valid = omega arith;
      record_fits = omega arith;
    },
    (
      record {
        stamp_fits = omega arith;
        session_fits = omega arith;
        message_valid = a_delta-IsDelta;
        record_fits = omega arith;
      },
      tt,
    ),
  ),
)
