-- ===== src/Queue/Stream.antt =====
-- Which bytes reach the socket, and in which order.
use data_spinner.Base.{
  ℕ, ◌+◌, ◌-◌, ◌≤◌, ◌≡◌, refl, ap, sym, arith, List, [], ◌∷◌, ◌++◌, length, length-take,
  length-drop, ◌==◌, take, drop, append_assoc, append-nil, take-append-drop, drop-take, drop-drop,
  take-all, ==_iff, Bool-cases, inl, inr, ◌⊎◌,
}
use mathlib.Core.Path.{ap₂}
use data_spinner.Buffer.{SingleRecordBuffer, set_start, send_len, send_bytes, capacity}
use data_spinner.Queue.{
  TcpSocketQueue, Socket, SendResult, closed, would_block, broken, sent, Round, more, done,
  pop_front, after_send, send, send_front, bytes_sent,
}

-- A record with something left to send.
pub record IsSendable (b : SingleRecordBuffer) : Type 0 where
  pub whole : length b.buff ≡ capacity
  pub fits : b.len ≤ capacity
  pub before_end : b.start_pos ≤ b.len

pub send_len_lem : (b : SingleRecordBuffer) → IsSendable b → send_len b ≡ b.len - b.start_pos
unfolding send_len
send_len_lem b v = omega (arith, v.fits, v.before_end)

pub length-send_bytes : (b : SingleRecordBuffer) → IsSendable b → length (send_bytes b) ≡ send_len b
unfolding send_bytes
length-send_bytes b v = omega (
  arith,
  length-take (send_len b) (drop b.start_pos b.buff),
  length-drop b.start_pos b.buff,
  send_len_lem b v,
  v.whole,
  v.fits,
  v.before_end,
)

-- The bytes of the cached records that are still to be sent.
unfoldable pub pending : List SingleRecordBuffer → List ℕ
pending [] = []
pending (b ∷ bs) = send_bytes b ++ pending bs

-- What the peer has received and will receive.
abbrev pub stream : TcpSocketQueue → Socket → List ℕ
stream q k = k.wire ++ pending q.buffers

-- A record that was not started, cut at `n`: what is left of it.
pub set_start-send_bytes :
    (b : SingleRecordBuffer) (n : ℕ)
    → IsSendable b
    → b.start_pos ≡ 0
    → n ≤ send_len b
    → send_bytes (set_start n b) ≡ drop n (send_bytes b)
unfolding send_bytes set_start
set_start-send_bytes b n v z h =
    let cut : SingleRecordBuffer = set_start n b in
    let l : send_len b ≡ b.len - b.start_pos = send_len_lem b v in
    let l' : send_len (set_start n b) ≡ b.len - n =
      unfold set_start in
      send_len_lem (set_start n b)
        (record { whole = v.whole; fits = v.fits; before_end = omega arith }) in
    rw (drop-take n (send_len b) (drop b.start_pos b.buff), drop-drop b.start_pos n b.buff)
      (ap₂ (λ i j. take i (drop j b.buff)) (omega arith) (omega arith))

-- What a round, and a whole call, leave of the stream.
abbrev pub RoundStream : List ℕ → Round → Type 0
RoundStream bytes (more q k) = stream q k ≡ bytes
RoundStream bytes (done r q k) = stream q k ≡ bytes

-- The answer to a send of `n` bytes takes all of them or none.
unfoldable pub IsWhole : ℕ → SendResult → Type 0
IsWhole n closed = Unit
IsWhole n would_block = Unit
IsWhole n broken = Unit
IsWhole n (sent m) = m ≡ n

-- The answer takes no more bytes than were offered, and a record that was started before whole.
unfoldable pub IsFirstCut : SingleRecordBuffer → SendResult → Type 0
IsFirstCut b closed = Unit
IsFirstCut b would_block = Unit
IsFirstCut b broken = Unit
IsFirstCut b (sent m) = (m ≤ send_len b) × ((m ≡ send_len b) ⊎ (b.start_pos ≡ 0))

pub took_none : (k : Socket) (bytes : List ℕ) → (k.wire ++ []) ++ bytes ≡ k.wire ++ bytes
took_none k bytes = ap (λ w. w ++ bytes) (append-nil k.wire)

pub whole_stream :
    (b : SingleRecordBuffer) (rest : List SingleRecordBuffer) (q : TcpSocketQueue) (k : Socket)
    (n : ℕ)
    → IsSendable b
    → q.buffers ≡ b ∷ rest
    → n ≡ send_len b
    → (k.wire ++ take n (send_bytes b)) ++ pending rest ≡ stream q k
unfolding pending
whole_stream b rest q k n v e z =
    rw
      (
        e,
        take-all n (send_bytes b) (omega (arith, length-send_bytes b v)),
        append_assoc k.wire (send_bytes b) (pending rest),
      )
      refl

cut_stream :
    (b : SingleRecordBuffer) (rest : List SingleRecordBuffer) (q : TcpSocketQueue) (k : Socket)
    (n : ℕ)
    → IsSendable b
    → q.buffers ≡ b ∷ rest
    → n ≤ send_len b
    → b.start_pos ≡ 0
    → (k.wire ++ take n (send_bytes b)) ++ pending (set_start n b ∷ rest) ≡ stream q k
unfolding pending
cut_stream b rest q k n v e h z =
    rw
      (
        e,
        set_start-send_bytes b n v z h,
        append_assoc k.wire (take n (send_bytes b)) (drop n (send_bytes b) ++ pending rest),
        sym (append_assoc (take n (send_bytes b)) (drop n (send_bytes b)) (pending rest)),
        take-append-drop n (send_bytes b),
      )
      refl

after_send-stream :
    (b : SingleRecordBuffer) (rest : List SingleRecordBuffer) (q : TcpSocketQueue) (k : Socket)
    (r : SendResult)
    → IsSendable b
    → q.buffers ≡ b ∷ rest
    → IsFirstCut b r
    → RoundStream (stream q k) (
        after_send b rest q
          (record { calls = k.calls + 1; wire = k.wire ++ bytes_sent r (send_bytes b) })
          r)
unfolding after_send IsFirstCut pop_front
after_send-stream b rest q k closed v e h = took_none k (pending q.buffers)
after_send-stream b rest q k would_block v e h = took_none k (pending q.buffers)
after_send-stream b rest q k broken v e h = took_none k (pending q.buffers)
after_send-stream b rest q k (sent n) v e h = elim (Bool-cases (n == send_len b)) [
  | inl y ↦ rw y (whole_stream b rest q k n v e ((==_iff n (send_len b)).0 y))
  | inr y ↦ rw y (elim (h.1) [
    | inl w ↦ absurd (ground (arith, y, w))
    | inr z ↦ cut_stream b rest q k n v e h.0 z
  ])
]

module _ (answer : ℕ → ℕ → SendResult) where
  -- A round of send_cache keeps the stream of bytes, if the socket takes no more than offered
  -- and a record that was started before only whole.
  pub send_front-stream :
      (b : SingleRecordBuffer) (rest : List SingleRecordBuffer) (q : TcpSocketQueue) (k : Socket)
      → IsSendable b
      → q.buffers ≡ b ∷ rest
      → IsFirstCut b (answer k.calls (send_len b))
      → RoundStream (stream q k) (send_front answer b rest q k)
  unfolding send_front send
  send_front-stream b rest q k v e h =
      after_send-stream b rest q k (answer k.calls (send_len b)) v e h
