-- ===== src/Buffer/Views.antt =====
-- The buffer as a writer sees it, the bytes written so far, and as a reader does, those to come.
use data_spinner.Base.{
  ℕ, ◌+◌, ◌-◌, ◌≤◌, ◌<◌, ◌≡◌, true, false, none, some, List, ◌++◌, arith, length, take, drop,
  length-take, length-drop, length-splice, take-splice, drop-drop, drop-take, take-take,
}
use Prim.Native.Nat.{min}
use mathlib.Core.Path.{ap₂}
use data_spinner.Buffer.{SingleRecordBuffer, capacity, write, read}

abbrev pub contents : SingleRecordBuffer → List ℕ
contents b = take b.len b.buff

abbrev pub unread : SingleRecordBuffer → List ℕ
unread b = take (b.len - b.read_pos) (drop (b.read_pos + b.start_pos) b.buff)

pub record IsWritable (b : SingleRecordBuffer) : Type 0 where
  pub whole : length b.buff ≡ capacity
  pub fits : b.len ≤ capacity

pub record IsReadable (b : SingleRecordBuffer) : Type 0 where
  pub whole : length b.buff ≡ capacity
  pub before_end : b.read_pos ≤ b.len
  pub in_array : b.read_pos + b.start_pos ≤ capacity

pub length-contents : {b : SingleRecordBuffer} → IsWritable b → length (contents b) ≡ b.len
length-contents {b} v = omega (arith, length-take b.len b.buff)

-- If the bytes fit behind those in the buffer, write returns true, appends them to its contents
-- and adds their number to the length.
pub write_fits :
    (bytes : List ℕ) {b : SingleRecordBuffer}
    → IsWritable b
    → b.len + length bytes ≤ capacity
    → ((write bytes b).0 ≡ true)
      × (contents (write bytes b).1 ≡ contents b ++ bytes)
      × ((write bytes b).1.len ≡ b.len + length bytes)
      × IsWritable (write bytes b).1
unfolding write
write_fits bytes {b} v h = (
  ground arith,
  ground (arith, take-splice b.len bytes b.buff (omega arith)),
  ground arith,
  ground (arith, length-splice b.len bytes b.buff (omega arith)),
)

pub start_pos-write :
    (bytes : List ℕ) (b : SingleRecordBuffer) → (write bytes b).1.start_pos ≡ b.start_pos
unfolding write
start_pos-write bytes b = ground arith

-- `write` refuses what does not fit, and leaves the buffer alone.
pub write_full :
    (bytes : List ℕ) (b : SingleRecordBuffer)
    → capacity < b.len + length bytes
    → write bytes b ≡ (false, b)
unfolding write
write_full bytes b h = ground arith

pub write-IsWritable :
    (bytes : List ℕ) {b : SingleRecordBuffer} → IsWritable b → IsWritable (write bytes b).1
unfolding write
write-IsWritable bytes {b} v = ground (arith, length-splice b.len bytes b.buff)

pub length-unread :
    {b : SingleRecordBuffer}
    → IsReadable b
    → length (unread b) ≡ min (b.len - b.read_pos) (capacity - (b.read_pos + b.start_pos))
length-unread {b} v = omega (
  arith,
  length-take (b.len - b.read_pos) (drop (b.read_pos + b.start_pos) b.buff),
  length-drop (b.read_pos + b.start_pos) b.buff,
)

-- If as many unread bytes are left, read hands out the next ones and moves the read position.
pub read_ready :
    (size : ℕ) {b : SingleRecordBuffer}
    → IsReadable b
    → size ≤ length (unread b)
    → read size b ≡ some (take size (unread b), record b { read_pos = b.read_pos + size })
unfolding read
read_ready size {b} v h = ground (
  arith,
  length-unread v,
  take-take size (b.len - b.read_pos) (drop (b.read_pos + b.start_pos) b.buff),
)

-- If fewer unread bytes are left than asked for, read fails.
pub read_short :
    (size : ℕ) {b : SingleRecordBuffer}
    → IsReadable b
    → length (unread b) < size
    → read size b ≡ none
unfolding read
read_short size {b} v h = ground (arith, length-unread v)

pub unread-advance :
    (size : ℕ) (b : SingleRecordBuffer)
    → unread (record b { read_pos = b.read_pos + size }) ≡ drop size (unread b)
unread-advance size b =
    rw
      (
        drop-take size (b.len - b.read_pos) (drop (b.read_pos + b.start_pos) b.buff),
        drop-drop (b.read_pos + b.start_pos) size b.buff,
      )
      (ap₂ (λ n k. take n (drop k b.buff)) (omega arith) (omega arith))

pub advance-IsReadable :
    (size : ℕ) {b : SingleRecordBuffer}
    → IsReadable b
    → size ≤ length (unread b)
    → IsReadable (record b { read_pos = b.read_pos + size })
advance-IsReadable size {b} v h = omega (arith, length-unread v)
