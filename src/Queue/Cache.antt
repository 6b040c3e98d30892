-- ===== src/Queue/Cache.antt =====
-- A whole call of send_cache of src/socket_buffer.cpp, on a socket that takes a record whole or not at all.
use data_spinner.Base.{
  ℕ, zero, suc, ◌+◌, ◌≤◌, ◌<◌, ◌≡◌, refl, ap, ◌∙◌, arith, subst, Bool, true, false, Option, none,
  some, List, [], ◌∷◌, ◌++◌, length, ==_iff, Bool-cases, inl, inr, All, ◌⊎◌,
}
use data_spinner.Buffer.{SingleRecordBuffer, send_len, send_bytes}
use data_spinner.Queue.{
  TcpSocketQueue, Socket, SendResult, closed, would_block, broken, sent, Round, more, done,
  pop_front, after_send, send, send_front, cache_round, send_cache, bytes_sent,
}
use data_spinner.Queue.Stream.{IsSendable, pending, stream, IsWhole, took_none, whole_stream}

-- Every cached record has something to send.
abbrev pub AllSendable : TcpSocketQueue → Type 0
AllSendable q = All IsSendable q.buffers

-- The call left `q'` and `k'` of `q` and `k`: no byte of the stream is lost, repeated or moved, the
-- queue did not grow, and the throttle was not switched on.
pub record Settled (q : TcpSocketQueue) (k : Socket) (q' : TcpSocketQueue) (k' : Socket)
    : Type 0 where
  pub same_stream : stream q' k' ≡ stream q k
  pub no_longer : length q'.buffers ≤ length q.buffers
  pub still_open : (q.throttle_on ≡ true) ⊎ (q'.throttle_on ≡ false)
  pub still_sendable : AllSendable q'

pub Settled-trans :
    {q q₁ q₂ : TcpSocketQueue} {k k₁ k₂ : Socket}
    → Settled q k q₁ k₁
    → Settled q₁ k₁ q₂ k₂
    → Settled q k q₂ k₂
Settled-trans v w = record {
  same_stream = w.same_stream ∙ v.same_stream;
  no_longer = omega (arith, w.no_longer, v.no_longer);
  still_open = elim v.still_open [
    | inl t ↦ inl t
    | inr t ↦ elim w.still_open [ inl u ↦ inr (absurd (ground (arith, t, u))) | inr u ↦ inr u ]
  ];
  still_sendable = w.still_sendable;
}

-- A round of a socket that takes records whole: it ends the call, or leaves `rest`.
abbrev pub Shrinks : TcpSocketQueue → Socket → List SingleRecordBuffer → Round → Type 0
Shrinks q k rest (more q' k') = (q'.buffers ≡ rest) × Settled q k q' k'
Shrinks q k rest (done r q' k') = Settled q k q' k'

idle-Settled :
    (q : TcpSocketQueue) (k : Socket) (n : ℕ)
    → AllSendable q
    → Settled q k q (record { calls = n; wire = k.wire ++ [] })
idle-Settled q k n v = record {
  same_stream = took_none k (pending q.buffers);
  no_longer = omega arith;
  still_open = Bool-cases q.throttle_on;
  still_sendable = v;
}

after_send-Shrinks :
    (b : SingleRecordBuffer) (rest : List SingleRecordBuffer) (q : TcpSocketQueue) (k : Socket)
    (r : SendResult)
    → IsSendable b
    → All IsSendable rest
    → AllSendable q
    → q.buffers ≡ b ∷ rest
    → IsWhole (send_len b) r
    → Shrinks q k rest (
        after_send b rest q
          (record { calls = k.calls + 1; wire = k.wire ++ bytes_sent r (send_bytes b) })
          r)
unfolding after_send IsWhole pop_front
after_send-Shrinks b rest q k closed v vs w e h = idle-Settled q k (k.calls + 1) w
after_send-Shrinks b rest q k would_block v vs w e h = idle-Settled q k (k.calls + 1) w
after_send-Shrinks b rest q k broken v vs w e h = idle-Settled q k (k.calls + 1) w
after_send-Shrinks b rest q k (sent n) v vs w e h = rw ((==_iff n (send_len b)).1 h) (
  refl,
  record {
    same_stream = whole_stream b rest q k n v e h;
    no_longer = omega (arith, ap length e);
    still_open = elim (Bool-cases q.throttle_on) [ inl t ↦ inl t | inr t ↦ inr (rw t refl) ];
    still_sendable = vs;
  },
)

-- How a call ends that must not run out of fuel.
abbrev pub Ends :
    (Bool × TcpSocketQueue × Socket → Type 0) → Option (Bool × TcpSocketQueue × Socket) → Type 0
Ends P none = ⊥
Ends P (some r) = P r

Ends-map :
    {P Q : Bool × TcpSocketQueue × Socket → Type 0} (o : Option (Bool × TcpSocketQueue × Socket))
    → ((r : Bool × TcpSocketQueue × Socket) → P r → Q r)
    → Ends P o
    → Ends Q o
Ends-map none f h = h
Ends-map (some r) f h = f r h

module _ (answer : ℕ → ℕ → SendResult) where
  send_front-Shrinks :
      (b : SingleRecordBuffer) (rest : List SingleRecordBuffer) (q : TcpSocketQueue) (k : Socket)
      → AllSendable q
      → q.buffers ≡ b ∷ rest
      → IsWhole (send_len b) (answer k.calls (send_len b))
      → Shrinks q k rest (send_front answer b rest q k)
  unfolding send_front send
  send_front-Shrinks b rest q k w e h =
      let (v, vs) : IsSendable b × All IsSendable rest = subst (All IsSendable) e w in
      after_send-Shrinks b rest q k (answer k.calls (send_len b)) v vs w e h

  module _ (whole : (i n : ℕ) → IsWhole n (answer i n)) where
    -- On a socket that takes a record whole or not at all, with every cached record within its
    -- array, send_cache ends within one round for each cached record and one more, keeps the
    -- stream, and neither lengthens the queue nor switches the throttle on.
    pub send_cache-Settled :
        (fuel : ℕ) (q : TcpSocketQueue) (k : Socket)
        → AllSendable q
        → length q.buffers < fuel
        → Ends (λ r. Settled q k r.1 r.2) (send_cache answer fuel q k)
    unfolding send_cache
    send_cache-Settled zero q k v h = absurd (omega arith)
    send_cache-Settled (suc fuel) q k v h =
        front q.buffers refl (λ q' k' w l. send_cache-Settled fuel q' k' w l)
      where
        Again : Type 0
        Again =
            (q' : TcpSocketQueue) (k' : Socket)
            → AllSendable q'
            → length q'.buffers < fuel
            → Ends (λ r. Settled q' k' r.1 r.2) (send_cache answer fuel q' k')

        step :
            (rest : List SingleRecordBuffer) (round : Round)
            → Again
            → length rest < fuel
            → Shrinks q k rest round
            → Ends
                (λ r. Settled q k r.1 r.2)
                (elim round [
                  | more q' k' ↦ send_cache answer fuel q' k'
                  | done r q' k' ↦ some (r, q', k')
                ])
        step rest (done r q' k') again l s = s
        step rest (more q' k') again l (e, s) =
            Ends-map (send_cache answer fuel q' k') (λ r t. Settled-trans s t)
              (again q' k' s.still_sendable (omega (arith, ap length e)))

        front :
            (bs : List SingleRecordBuffer)
            → q.buffers ≡ bs
            → Again
            → Ends
                (λ r. Settled q k r.1 r.2)
                (elim (cache_round answer bs q k) [
                  | more q' k' ↦ send_cache answer fuel q' k'
                  | done r q' k' ↦ some (r, q', k')
                ])
        front [] e again = record {
          same_stream = refl;
          no_longer = omega arith;
          still_open = Bool-cases q.throttle_on;
          still_sendable = v;
        }
        front (b ∷ rest) e again =
            step rest (send_front answer b rest q k) again (omega (arith, ap length e))
              (send_front-Shrinks b rest q k v e (whole k.calls (send_len b)))
