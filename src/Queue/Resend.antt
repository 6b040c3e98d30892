-- ===== src/Queue/Resend.antt =====
-- A record of src/socket_buffer.cpp that the socket takes in more than two parts: send_cache sets the
-- start of what is left to the size of the last part.
use data_spinner.Base.{
  ℕ, zero, suc, ◌+◌, ◌-◌, ◌≤◌, ◌<◌, ◌≡◌, refl, ap, sym, ◌∙◌, arith, Bool, Option, none, some, List,
  ◌∷◌, ◌++◌, length, length-append, length-take, ◌==◌, take, ==_iff, Bool-cases, inl, inr,
}
use data_spinner.Buffer.{SingleRecordBuffer, set_start, send_len, send_bytes}
use data_spinner.Queue.{
  TcpSocketQueue, Socket, SendResult, sent, Round, more, done, after_send, send, send_front,
  cache_round, send_cache,
}
use data_spinner.Queue.Stream.{IsSendable, send_len_lem, length-send_bytes, pending, stream}

-- The length of the stream after a round.
abbrev pub round_length : Round → ℕ
round_length (more q k) = length (stream q k)
round_length (done r q k) = length (stream q k)

length-stream :
    (b : SingleRecordBuffer) (rest : List SingleRecordBuffer) (q : TcpSocketQueue) (k : Socket)
    → IsSendable b
    → q.buffers ≡ b ∷ rest
    → length (stream q k) ≡ length k.wire + (send_len b + length (pending rest))
unfolding pending
length-stream b rest q k v e = rw e (
    omega (
      arith,
      length-append k.wire (send_bytes b ++ pending rest),
      length-append (send_bytes b) (pending rest),
      length-send_bytes b v,
    ))

set_start-IsSendable :
    (b : SingleRecordBuffer) (n : ℕ) → IsSendable b → n ≤ b.len → IsSendable (set_start n b)
unfolding set_start
set_start-IsSendable b n v h = record { whole = v.whole; fits = v.fits; before_end = h }

set_start-send_len :
    (b : SingleRecordBuffer) (n : ℕ)
    → IsSendable b
    → n ≤ b.len
    → send_len (set_start n b) ≡ b.len - n
unfolding set_start
set_start-send_len b n v h =
    unfold set_start in send_len_lem (set_start n b) (set_start-IsSendable b n v h)

after_send_part :
    (b : SingleRecordBuffer) (rest : List SingleRecordBuffer) (q : TcpSocketQueue) (k : Socket)
    (n : ℕ)
    → n < send_len b
    → after_send b rest q k (sent n) ≡ more (record q { buffers = set_start n b ∷ rest }) k
unfolding after_send
after_send_part b rest q k n h = elim (Bool-cases (n == send_len b)) [
  | inl y ↦ absurd (omega (arith, (==_iff n (send_len b)).0 y))
  | inr y ↦ rw y refl
]

set_start_same : (b : SingleRecordBuffer) (n : ℕ) → b.start_pos ≡ n → set_start n b ≡ b
unfolding set_start
set_start_same b n z = ap (λ s. record b { start_pos = s }) (sym z)

module _ (answer : ℕ → ℕ → SendResult) where
  send_front_part :
      (b : SingleRecordBuffer) (rest : List SingleRecordBuffer) (q : TcpSocketQueue) (k : Socket)
      (n : ℕ)
      → answer k.calls (send_len b) ≡ sent n
      → n < send_len b
      → send_front answer b rest q k
        ≡ more
            (record q { buffers = set_start n b ∷ rest })
            (record { calls = k.calls + 1; wire = k.wire ++ take n (send_bytes b) })
  unfolding send_front send
  send_front_part b rest q k n a h =
      rw
        (
          a,
          after_send_part b rest q
              (record { calls = k.calls + 1; wire = k.wire ++ take n (send_bytes b) }) n h,
        )
        refl

  -- When the socket takes only a part of what is left of a cached record, the stream, which is what was
  -- taken and then what waits, grows by the start position that the record had before the send.
  pub send_front_resends :
      (b : SingleRecordBuffer) (rest : List SingleRecordBuffer) (q : TcpSocketQueue) (k : Socket)
      (n : ℕ)
      → IsSendable b
      → q.buffers ≡ b ∷ rest
      → answer k.calls (send_len b) ≡ sent n
      → n < send_len b
      → round_length (send_front answer b rest q k) ≡ length (stream q k) + b.start_pos
  unfolding pending
  send_front_resends b rest q k n v e a h = rw (send_front_part b rest q k n a h) (
      omega (
        arith,
        length-stream b rest q k v e,
        length-append (k.wire ++ take n (send_bytes b))
            (send_bytes (set_start n b) ++ pending rest),
        length-append k.wire (take n (send_bytes b)),
        length-take n (send_bytes b),
        length-append (send_bytes (set_start n b)) (pending rest),
        length-send_bytes b v,
        send_len_lem b v,
        length-send_bytes (set_start n b)
            (set_start-IsSendable b n v (omega (arith, send_len_lem b v, v.before_end))),
        set_start-send_len b n v (omega (arith, send_len_lem b v)),
        v.before_end,
      ))

  -- With a socket that takes n bytes of every send, send_cache does not end with any fuel, once
  -- the front record was cut at n and has more than n bytes left.
  pub send_cache_stuck :
      (fuel : ℕ) (b : SingleRecordBuffer) (rest : List SingleRecordBuffer) (q : TcpSocketQueue)
      (k : Socket) (n : ℕ)
      → ((i m : ℕ) → answer i m ≡ sent n)
      → q.buffers ≡ b ∷ rest
      → b.start_pos ≡ n
      → n < send_len b
      → send_cache answer fuel q k ≡ none
  unfolding send_cache
  send_cache_stuck zero b rest q k n a e z h = refl
  send_cache_stuck (suc fuel) b rest q k n a e z h =
      let k' : Socket = record { calls = k.calls + 1; wire = k.wire ++ take n (send_bytes b) } in
      let q' : TcpSocketQueue = record q { buffers = set_start n b ∷ rest } in
      ap
        (λ round. elim round as (λ _. Option (Bool × TcpSocketQueue × Socket)) [
          | more q₁ k₁ ↦ send_cache answer fuel q₁ k₁
          | done r q₁ k₁ ↦ some (r, q₁, k₁)
        ])
        (ap (λ bs. cache_round answer bs q k) e
          ∙ send_front_part b rest q k n (a k.calls (send_len b)) h)
      ∙ send_cache_stuck fuel b rest q' k' n a (ap (λ x. x ∷ rest) (set_start_same b n z)) z h
