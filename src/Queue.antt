-- ===== src/Queue.antt =====
-- TcpSocketQueue of src/socket_buffer.h and src/socket_buffer.cpp: records that the socket did not
-- take are cached, and a slow client is throttled. What is logged is not modelled.
pub mod Throttle
pub mod Stream
pub mod Cache
pub mod Send
pub mod Resend
use data_spinner.Base.{
  ℕ, zero, suc, ◌+◌, ◌-◌, ◌/◌, ◌%◌, Bool, true, false, Option, none, some, List, [], ◌∷◌, ◌++◌, ltb,
  leb, ◌==◌, if◌then◌else◌, length, take,
}
use data_spinner.Wire.{u32, u64}
use data_spinner.Buffer.{SingleRecordBuffer, set_start, send_len, send_bytes}

-- SOCKET_OUT_Q_MAX_SIZE, and 0.7 and 0.01 times it
abbrev pub socket_out_q_max_size : ℕ
socket_out_q_max_size = 1024000

abbrev pub high_water_mark : ℕ
high_water_mark = 716800

abbrev pub low_water_mark : ℕ
low_water_mark = 10240

pub record TcpSocketQueue : Type 0 where
  pub buffers : List SingleRecordBuffer
  pub session_index : ℕ
  pub throttle_on : Bool
  pub stat_log_time : ℕ
  pub stat_send_num : ℕ
  pub stat_curr_len : ℕ
  pub stat_avg_len : ℕ
  pub stat_max_len : ℕ
  pub stat_total_len : ℕ

-- uint32_t next_session_index()
unfoldable pub next_session_index : TcpSocketQueue → TcpSocketQueue × ℕ
next_session_index q = let i = u32 (q.session_index + 1) in (record q { session_index = i }, i)

-- The outcomes of send(2): 0, -1 with EAGAIN or EWOULDBLOCK, -1 with another error, or the number
-- of bytes taken.
pub data SendResult : Type 0 where
  closed would_block broken : SendResult
  sent : ℕ → SendResult

-- The socket: how often send was called, and the bytes that it took.
pub record Socket : Type 0 where
  pub calls : ℕ
  pub wire : List ℕ

abbrev pub bytes_sent : SendResult → List ℕ → List ℕ
bytes_sent (sent n) bytes = take n bytes
bytes_sent r bytes = []

-- void on_cache_send_stat(size_t cache_size); `now` is time(nullptr), which does not go back, and
-- `upd_every` is stat_upd_every_nsec_ of the configuration.
unfoldable pub on_cache_send_stat : ℕ → ℕ → ℕ → TcpSocketQueue → TcpSocketQueue
on_cache_send_stat upd_every now cache_size q =
    let num = u64 (q.stat_send_num + 1) in
    let total = u64 (q.stat_total_len + cache_size) in
    let due = ltb upd_every (now - q.stat_log_time) in
    record q {
      stat_send_num = num;
      stat_curr_len = cache_size;
      stat_total_len = total;
      stat_max_len = if ltb q.stat_max_len cache_size then cache_size else q.stat_max_len;
      stat_avg_len = if due then total / num else q.stat_avg_len;
      stat_log_time = if due then now else q.stat_log_time;
    }

-- The end of add_to_cache: the record joins the queue, at the size that was read at the start.
unfoldable pub push_back : SingleRecordBuffer → ℕ → TcpSocketQueue → Bool × TcpSocketQueue
push_back buff start q =
    let qsize = length q.buffers in
    (
      if leb socket_out_q_max_size qsize then false else true,
      record q { buffers = q.buffers ++ (set_start start buff ∷ []) },
    )

-- bool add_to_cache(const SingleRecordBuffer& buff, size_t start)
unfoldable pub add_to_cache : SingleRecordBuffer → ℕ → TcpSocketQueue → Bool × TcpSocketQueue
unfolding push_back
add_to_cache buff start q =
    let qsize = length q.buffers in
    if q.throttle_on
    then (if ltb qsize low_water_mark
        then push_back buff start (record q { throttle_on = false })
        else (true, q))
    else if ltb high_water_mark qsize
    then (true, record q { throttle_on = true })
    else push_back buff start q

-- A round of the loop of send_cache goes on, or the function returns.
pub data Round : Type 0 where
  more : TcpSocketQueue → Socket → Round
  done : Bool → TcpSocketQueue → Socket → Round

-- `buffers_.pop_front()` and the test that follows it.
unfoldable pub pop_front : List SingleRecordBuffer → TcpSocketQueue → TcpSocketQueue
pop_front rest q = record q {
  buffers = rest;
  throttle_on =
      if q.throttle_on then (if ltb (length rest) low_water_mark then false else true) else false;
}

-- What follows the send of the front `b` of the cache.
unfoldable pub after_send :
    SingleRecordBuffer → List SingleRecordBuffer → TcpSocketQueue → Socket → SendResult → Round
after_send b rest q k closed = done false q k
after_send b rest q k would_block = done true q k
after_send b rest q k broken = done false q k
after_send b rest q k (sent n) =
    if n == send_len b
    then more (pop_front rest q) k
    else more (record q { buffers = set_start n b ∷ rest }) k

-- What follows the send of a new record with nothing cached.
unfoldable pub after_direct :
    SingleRecordBuffer → TcpSocketQueue → Socket → SendResult → Bool × TcpSocketQueue × Socket
after_direct ob q k closed = (false, q, k)
after_direct ob q k would_block = let keep = add_to_cache ob 0 q in (keep.0, keep.1, k)
after_direct ob q k broken = (false, q, k)
after_direct ob q k (sent n) =
    let keep = add_to_cache ob n q in
    if ltb n (send_len ob) then (keep.0, keep.1, k) else (true, q, k)

-- What the socket answers to its `k`-th call with `n` bytes.
module _ (answer : ℕ → ℕ → SendResult) where
  -- ssize_t send(fd_, b.buff(), b.len(), 0)
  unfoldable pub send : SingleRecordBuffer → Socket → SendResult × Socket
  send b k =
      let r = answer k.calls (send_len b) in
      (r, record { calls = k.calls + 1; wire = k.wire ++ bytes_sent r (send_bytes b) })

  -- One round of `while (!empty())`, with `b` in front of `rest`.
  unfoldable pub send_front :
      SingleRecordBuffer → List SingleRecordBuffer → TcpSocketQueue → Socket → Round
  unfolding send
  send_front b rest q k = let (r, k') = send b k in after_send b rest q k' r

  abbrev pub cache_round : List SingleRecordBuffer → TcpSocketQueue → Socket → Round
  cache_round [] q k = done true q k
  cache_round (b ∷ rest) q k = send_front b rest q k

  -- bool send_cache(); `none`: the fuel ran out.
  unfoldable pub send_cache : ℕ → TcpSocketQueue → Socket → Option (Bool × TcpSocketQueue × Socket)
  send_cache zero q k = none
  send_cache (suc fuel) q k = elim (cache_round q.buffers q k) [
    | more q' k' ↦ send_cache fuel q' k'
    | done r q' k' ↦ some (r, q', k')
  ]

  -- The part of send_buffer behind the cache.
  unfoldable pub send_direct :
      SingleRecordBuffer → TcpSocketQueue → Socket → Bool × TcpSocketQueue × Socket
  unfolding send
  send_direct ob q k = let (r, k') = send ob k in after_direct ob q k' r

  -- What send_buffer does once send_cache has returned.
  unfoldable pub after_cache :
      SingleRecordBuffer
      → Option (Bool × TcpSocketQueue × Socket)
      → Option (Bool × TcpSocketQueue × Socket)
  after_cache ob none = none
  after_cache ob (some (false, q, k)) = some (false, q, k)
  after_cache ob (some (true, q, k)) = elim (q.buffers) [
    | [] ↦ some (send_direct ob q k)
    | b ∷ rest ↦ let keep = add_to_cache ob 0 q in some (keep.0, keep.1, k)
  ]

  -- bool send_buffer(const SingleRecordBuffer& ob)
  unfoldable pub send_buffer :
      ℕ
      → ℕ
      → ℕ
      → SingleRecordBuffer
      → TcpSocketQueue
      → Socket
      → Option (Bool × TcpSocketQueue × Socket)
  send_buffer fuel upd_every now ob q k = elim (q.buffers) [
    | [] ↦ some (send_direct ob q k)
    | b ∷ rest ↦
        after_cache ob (send_cache fuel (on_cache_send_stat upd_every now (length q.buffers) q) k)
  ]
