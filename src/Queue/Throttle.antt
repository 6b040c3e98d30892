-- ===== src/Queue/Throttle.antt =====
-- The throttle and the size of the queue.
use data_spinner.Base.{
  ℕ, zero, suc, ◌+◌, ◌≤◌, ◌≡◌, refl, ap, arith, subst, ◌⊎◌, Bool, true, false, Option, none, some,
  List, [], ◌∷◌, length, length-append,
}
use data_spinner.Buffer.{SingleRecordBuffer, set_start}
use data_spinner.Queue.{
  TcpSocketQueue, Socket, SendResult, closed, would_block, broken, sent, Round, more, done,
  high_water_mark, low_water_mark, on_cache_send_stat, add_to_cache, pop_front, after_send,
  after_direct, send, send_front, cache_round, send_cache, send_direct, after_cache, send_buffer,
}

-- The queue is throttled only while it is long, and it never outgrows the high mark by more than one.
pub record IsQueue (q : TcpSocketQueue) : Type 0 where
  pub bounded : length q.buffers ≤ high_water_mark + 1
  pub throttled_long : (q.throttle_on ≡ false) ⊎ (low_water_mark ≤ length q.buffers)

-- On a queue at most one longer than the high mark, that is throttled only from the low mark on,
-- add_to_cache returns true and keeps both bounds.
pub add_to_cache-IsQueue :
    (buff : SingleRecordBuffer) (start : ℕ) (q : TcpSocketQueue)
    → IsQueue q
    → ((add_to_cache buff start q).0 ≡ true) × IsQueue (add_to_cache buff start q).1
unfolding add_to_cache
add_to_cache-IsQueue buff start q v =
    ground (arith, v.throttled_long, length-append q.buffers (set_start start buff ∷ []))

on_cache_send_stat-IsQueue :
    (upd_every now cache_size : ℕ) (q : TcpSocketQueue)
    → IsQueue q
    → IsQueue (on_cache_send_stat upd_every now cache_size q)
unfolding on_cache_send_stat
on_cache_send_stat-IsQueue upd_every now cache_size q v = record {
  bounded = v.bounded;
  throttled_long = v.throttled_long;
}

pop_front-IsQueue :
    (b : SingleRecordBuffer) (rest : List SingleRecordBuffer) (q : TcpSocketQueue)
    → q.buffers ≡ b ∷ rest
    → IsQueue q
    → IsQueue (pop_front rest q)
unfolding pop_front
pop_front-IsQueue b rest q e v = ground (arith, ap length e, v.bounded, v.throttled_long)

replace_front-IsQueue :
    (b b' : SingleRecordBuffer) (rest : List SingleRecordBuffer) (q : TcpSocketQueue)
    → q.buffers ≡ b ∷ rest
    → IsQueue q
    → IsQueue (record q { buffers = b' ∷ rest })
replace_front-IsQueue b b' rest q e v = record {
  bounded = omega (arith, ap length e, v.bounded);
  throttled_long =
      subst (λ n. (q.throttle_on ≡ false) ⊎ (low_water_mark ≤ n)) (ap length e) v.throttled_long;
}

-- The queue that a round leaves satisfies `P`.
abbrev pub RoundKeeps : (TcpSocketQueue → Type 0) → Round → Type 0
RoundKeeps P (more q k) = P q
RoundKeeps P (done r q k) = P q

abbrev pub Keeps : (TcpSocketQueue → Type 0) → Option (Bool × TcpSocketQueue × Socket) → Type 0
Keeps P none = Unit
Keeps P (some r) = P r.1

after_send-IsQueue :
    (b : SingleRecordBuffer) (rest : List SingleRecordBuffer) (q : TcpSocketQueue) (k : Socket)
    (r : SendResult)
    → q.buffers ≡ b ∷ rest
    → IsQueue q
    → RoundKeeps IsQueue (after_send b rest q k r)
unfolding after_send
after_send-IsQueue b rest q k closed e v = v
after_send-IsQueue b rest q k would_block e v = v
after_send-IsQueue b rest q k broken e v = v
after_send-IsQueue b rest q k (sent n) e v =
    ground
      (arith, pop_front-IsQueue b rest q e v, replace_front-IsQueue b (set_start n b) rest q e v)

after_direct-IsQueue :
    (ob : SingleRecordBuffer) (q : TcpSocketQueue) (k : Socket) (r : SendResult)
    → IsQueue q
    → IsQueue (after_direct ob q k r).1
unfolding after_direct
after_direct-IsQueue ob q k closed v = v
after_direct-IsQueue ob q k would_block v = (add_to_cache-IsQueue ob 0 q v).1
after_direct-IsQueue ob q k broken v = v
after_direct-IsQueue ob q k (sent n) v = ground (arith, add_to_cache-IsQueue ob n q v)

module _ (answer : ℕ → ℕ → SendResult) where
  -- A round of send_cache keeps the queue at most one longer than the high mark, and throttled
  -- only from the low mark on, whatever the socket answers.
  pub cache_round-IsQueue :
      (bs : List SingleRecordBuffer) (q : TcpSocketQueue) (k : Socket)
      → q.buffers ≡ bs
      → IsQueue q
      → RoundKeeps IsQueue (cache_round answer bs q k)
  unfolding send_front
  cache_round-IsQueue [] q k e v = v
  cache_round-IsQueue (b ∷ rest) q k e v =
      let (r, k') = send answer b k in after_send-IsQueue b rest q k' r e v

  send_cache-IsQueue :
      (fuel : ℕ) (q : TcpSocketQueue) (k : Socket)
      → IsQueue q
      → Keeps IsQueue (send_cache answer fuel q k)
  unfolding send_cache
  send_cache-IsQueue zero q k v = tt
  send_cache-IsQueue (suc fuel) q k v =
      go (cache_round answer q.buffers q k) (cache_round-IsQueue q.buffers q k refl v)
        (send_cache-IsQueue fuel)
    where
      go :
          (r : Round)
          → RoundKeeps IsQueue r
          → ((q' : TcpSocketQueue) (k' : Socket)
              → IsQueue q'
              → Keeps IsQueue (send_cache answer fuel q' k'))
          → Keeps IsQueue (elim r as (λ _. Option (Bool × TcpSocketQueue × Socket)) [
            | more q' k' ↦ send_cache answer fuel q' k'
            | done r' q' k' ↦ some (r', q', k')
          ])
      go (more q' k') h rec = rec q' k' h
      go (done r' q' k') h rec = h

  send_direct-IsQueue :
      (ob : SingleRecordBuffer) (q : TcpSocketQueue) (k : Socket)
      → IsQueue q
      → IsQueue (send_direct answer ob q k).1
  unfolding send_direct
  send_direct-IsQueue ob q k v = let (r, k') = send answer ob k in after_direct-IsQueue ob q k' r v

  after_cache-IsQueue :
      (ob : SingleRecordBuffer) (r : Option (Bool × TcpSocketQueue × Socket))
      → Keeps IsQueue r
      → Keeps IsQueue (after_cache answer ob r)
  unfolding after_cache
  after_cache-IsQueue ob none h = tt
  after_cache-IsQueue ob (some (false, q, k)) h = h
  after_cache-IsQueue ob (some (true, q, k)) h = go q.buffers
    where
      go :
          (bs : List SingleRecordBuffer)
          → Keeps IsQueue (elim bs as (λ _. Option (Bool × TcpSocketQueue × Socket)) [
            | [] ↦ some (send_direct answer ob q k)
            | b ∷ rest ↦ some ((add_to_cache ob 0 q).0, (add_to_cache ob 0 q).1, k)
          ])
      go [] = send_direct-IsQueue ob q k h
      go (b ∷ rest) = (add_to_cache-IsQueue ob 0 q h).1

  -- Whatever the socket answers, send_buffer keeps the queue within its bounds.
  pub send_buffer-IsQueue :
      (fuel upd_every now : ℕ) (ob : SingleRecordBuffer) (q : TcpSocketQueue) (k : Socket)
      → IsQueue q
      → Keeps IsQueue (send_buffer answer fuel upd_every now ob q k)
  unfolding send_buffer
  send_buffer-IsQueue fuel upd_every now ob q k v = go q.buffers
    where
      q₁ : TcpSocketQueue
      q₁ = on_cache_send_stat upd_every now (length q.buffers) q

      go :
          (bs : List SingleRecordBuffer)
          → Keeps IsQueue (elim bs as (λ _. Option (Bool × TcpSocketQueue × Socket)) [
            | [] ↦ some (send_direct answer ob q k)
            | b ∷ rest ↦ after_cache answer ob (send_cache answer fuel q₁ k)
          ])
      go [] = send_direct-IsQueue ob q k v
      go (b ∷ rest) = after_cache-IsQueue ob (send_cache answer fuel q₁ k) (
          send_cache-IsQueue fuel q₁ k
            (on_cache_send_stat-IsQueue upd_every now (length q.buffers) q v))
