-- ===== src/Buffer.antt =====
-- SingleRecordBuffer of src/socket_buffer.h: the bytes of one packet, written or read in order.
-- A length of a list stands for that of an object in memory, so a sum of such a length and an
-- index into the array cannot wrap a size_t; the subtraction of len() is written out.
pub mod Views
use data_spinner.Base.{
  ℕ, ◌+◌, ◌-◌, ◌%◌, ◌≤◌, Bool, true, false, Option, none, some, List, [], ltb, if◌then◌else◌,
  length, take, drop, splice,
}
use data_spinner.Wire.{ntoh64, of_le, u64}
use data_spinner.Header.{MsgHeader, word_header, hdr_len}

-- ARCHIVE_BUFF_CAPACITY
abbrev pub capacity : ℕ
capacity = 2048

-- `buff` is the array buff_, all of its `capacity` bytes.
pub record SingleRecordBuffer : Type 0 where
  pub buff : List ℕ
  pub len : ℕ
  pub read_pos : ℕ
  pub start_pos : ℕ

-- bool write(const void* data, size_t size)
unfoldable pub write : List ℕ → SingleRecordBuffer → Bool × SingleRecordBuffer
write bytes b =
    let new_len = b.len + length bytes in
    if ltb capacity new_len
    then (false, b)
    else (true, record b { buff = splice b.len bytes b.buff; len = new_len })

-- bool read(void* data, size_t size): the bytes copied out, or `none` for `return false`, which
-- changes neither the buffer nor `data`.
unfoldable pub read : ℕ → SingleRecordBuffer → Option (List ℕ × SingleRecordBuffer)
read size b =
    let new_read = b.read_pos + size in
    if ltb b.len new_read
    then none
    else if ltb capacity (new_read + b.start_pos)
    then none
    else some (take size (drop (b.read_pos + b.start_pos) b.buff), record b { read_pos = new_read })

unfoldable pub set_start : ℕ → SingleRecordBuffer → SingleRecordBuffer
set_start val b = record b { start_pos = val }

-- size_t len()
unfoldable pub send_len : SingleRecordBuffer → ℕ
send_len b = u64 (b.len + 18446744073709551616 - b.start_pos)

-- What `send(fd_, b.buff(), b.len(), 0)` is given.
unfoldable pub send_bytes : SingleRecordBuffer → List ℕ
unfolding send_len
send_bytes b = take (send_len b) (drop b.start_pos b.buff)

-- uint32_t read_session_index(): from the array's first bytes, whatever start_pos_ is.
unfoldable pub read_session_index : SingleRecordBuffer → ℕ
unfolding word_header ntoh64
read_session_index b = (word_header (ntoh64 (of_le (take hdr_len b.buff)))).session_idx
