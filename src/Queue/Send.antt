-- ===== src/Queue/Send.antt =====
-- What send_buffer of src/socket_buffer.cpp does with a new record.
use data_spinner.Base.{
  ℕ, ◌+◌, ◌≤◌, ◌<◌, ◌≡◌, refl, ap, ◌∙◌, arith, Bool, true, false, Option, none, some, List, [], ◌∷◌,
  ◌++◌, length, ltb, take, drop, append_assoc, append-nil, take-append-drop, take-all, Bool-cases,
  ltb_false→le, inl, inr, ◌⊎◌,
}
use data_spinner.Buffer.{SingleRecordBuffer, set_start, send_len, send_bytes}
use data_spinner.Queue.{
  TcpSocketQueue, Socket, SendResult, closed, would_block, broken, sent, high_water_mark,
  on_cache_send_stat, push_back, add_to_cache, after_direct, send, send_cache, send_direct,
  after_cache, send_buffer, bytes_sent,
}
use data_spinner.Queue.Stream.{
  IsSendable, length-send_bytes, pending, stream, set_start-send_bytes, IsWhole,
}
use data_spinner.Queue.Cache.{AllSendable, Settled, Ends, send_cache-Settled}

-- Why a queue drops a record.
abbrev pub Throttling : TcpSocketQueue → Type 0
Throttling q = (q.throttle_on ≡ true) ⊎ (high_water_mark < length q.buffers)

-- What became of the bytes of a new record: they follow the stream, or none of them is sent, and
-- then the call failed or the queue was throttled.
abbrev pub Fate : TcpSocketQueue → Socket → List ℕ → Bool × TcpSocketQueue × Socket → Type 0
Fate q k bytes r =
    (stream r.1 r.2 ≡ stream q k ++ bytes)
    ⊎ ((stream r.1 r.2 ≡ stream q k) × ((r.0 ≡ false) ⊎ Throttling q))

-- The answer takes no more bytes than were offered.
unfoldable pub IsOffered : ℕ → SendResult → Type 0
IsOffered n closed = Unit
IsOffered n would_block = Unit
IsOffered n broken = Unit
IsOffered n (sent m) = m ≤ n

IsWhole-IsOffered : (n : ℕ) (r : SendResult) → IsWhole n r → IsOffered n r
unfolding IsWhole IsOffered
IsWhole-IsOffered n closed h = tt
IsWhole-IsOffered n would_block h = tt
IsWhole-IsOffered n broken h = tt
IsWhole-IsOffered n (sent m) h = omega arith

pending-append :
    (bs : List SingleRecordBuffer) (b : SingleRecordBuffer)
    → pending (bs ++ (b ∷ [])) ≡ pending bs ++ send_bytes b
unfolding pending
pending-append [] b = append-nil (send_bytes b)
pending-append (x ∷ bs) b =
    rw (pending-append bs b, append_assoc (send_bytes x) (pending bs) (send_bytes b)) refl

-- The end of the stream of a queue to which the rest of `ob` from `n` is added.
grow_stream :
    (ob : SingleRecordBuffer) (n : ℕ) (q q' : TcpSocketQueue) (k : Socket)
    → IsSendable ob
    → ob.start_pos ≡ 0
    → n ≤ send_len ob
    → q'.buffers ≡ q.buffers ++ (set_start n ob ∷ [])
    → stream q' k ≡ stream q k ++ drop n (send_bytes ob)
grow_stream ob n q q' k v z h e =
    rw
      (
        e,
        pending-append q.buffers (set_start n ob),
        set_start-send_bytes ob n v z h,
        append_assoc k.wire (pending q.buffers) (drop n (send_bytes ob)),
      )
      refl

add_to_cache-cases :
    (ob : SingleRecordBuffer) (n : ℕ) (q : TcpSocketQueue)
    → ((add_to_cache ob n q).1.buffers ≡ q.buffers ++ (set_start n ob ∷ []))
      ⊎ (((add_to_cache ob n q).1.buffers ≡ q.buffers) × Throttling q)
unfolding add_to_cache push_back
add_to_cache-cases ob n q = ground arith

add_to_cache-empty :
    (ob : SingleRecordBuffer) (n : ℕ) (q : TcpSocketQueue)
    → q.buffers ≡ []
    → (add_to_cache ob n q).1.buffers ≡ q.buffers ++ (set_start n ob ∷ [])
unfolding add_to_cache push_back
add_to_cache-empty ob n q e = ground (arith, ap length e)

-- A first send that took part of the record, and one that took all of it.
cut_stream :
    (ob : SingleRecordBuffer) (n : ℕ) (q : TcpSocketQueue) (k : Socket)
    → IsSendable ob
    → ob.start_pos ≡ 0
    → q.buffers ≡ []
    → n ≤ send_len ob
    → (k.wire ++ take n (send_bytes ob)) ++ pending (add_to_cache ob n q).1.buffers
      ≡ stream q k ++ send_bytes ob
unfolding pending
cut_stream ob n q k v z e h =
    rw
      (
        add_to_cache-empty ob n q e,
        e,
        set_start-send_bytes ob n v z h,
        append-nil k.wire,
        append-nil (drop n (send_bytes ob)),
        append_assoc k.wire (take n (send_bytes ob)) (drop n (send_bytes ob)),
        take-append-drop n (send_bytes ob),
      )
      refl

all_stream :
    (ob : SingleRecordBuffer) (n : ℕ) (q : TcpSocketQueue) (k : Socket)
    → IsSendable ob
    → q.buffers ≡ []
    → send_len ob ≤ n
    → (k.wire ++ take n (send_bytes ob)) ++ pending q.buffers ≡ stream q k ++ send_bytes ob
unfolding pending
all_stream ob n q k v e h =
    rw
      (
        e,
        take-all n (send_bytes ob) (omega (arith, length-send_bytes ob v)),
        append-nil k.wire,
        append-nil (k.wire ++ send_bytes ob),
      )
      refl

after_direct-Fate :
    (ob : SingleRecordBuffer) (q : TcpSocketQueue) (k : Socket) (r : SendResult)
    → IsSendable ob
    → ob.start_pos ≡ 0
    → q.buffers ≡ []
    → IsOffered (send_len ob) r
    → Fate q k (send_bytes ob) (
        after_direct ob q
          (record { calls = k.calls + 1; wire = k.wire ++ bytes_sent r (send_bytes ob) })
          r)
unfolding after_direct IsOffered pending
after_direct-Fate ob q k closed v z e h = inr (rw (append-nil k.wire) refl, inl refl)
after_direct-Fate ob q k would_block v z e h = inl (
    grow_stream ob 0 q (add_to_cache ob 0 q).1 (record { calls = k.calls + 1; wire = k.wire ++ [] })
      v z (omega arith) (add_to_cache-empty ob 0 q e)
    ∙ ap (λ w. (w ++ pending q.buffers) ++ send_bytes ob) (append-nil k.wire))
after_direct-Fate ob q k broken v z e h = inr (rw (append-nil k.wire) refl, inl refl)
after_direct-Fate ob q k (sent n) v z e h = elim (Bool-cases (ltb n (send_len ob))) [
  | inl y ↦ rw y (inl (cut_stream ob n q k v z e h))
  | inr y ↦ rw y (inl (all_stream ob n q k v e (ltb_false→le (send_len ob) n y)))
]

-- A queue that the sends of the cache left throttled was so before them.
Throttling-back :
    (q q₁ : TcpSocketQueue) (k k₁ : Socket) → Settled q k q₁ k₁ → Throttling q₁ → Throttling q
Throttling-back q q₁ k k₁ s (inl t) = elim (Bool-cases q.throttle_on) [
  | inl y ↦ inl y
  | inr n ↦ absurd (ground (arith, t, n, s.still_open))
]
Throttling-back q q₁ k k₁ s (inr l) = inr (omega (arith, s.no_longer))

Fate-after :
    (q q₁ : TcpSocketQueue) (k k₁ : Socket) (bytes : List ℕ) (r : Bool × TcpSocketQueue × Socket)
    → Settled q k q₁ k₁
    → Fate q₁ k₁ bytes r
    → Fate q k bytes r
Fate-after q q₁ k k₁ bytes r s (inl e) = inl (e ∙ ap (λ t. t ++ bytes) s.same_stream)
Fate-after q q₁ k k₁ bytes r s (inr (e, inl f)) = inr (e ∙ s.same_stream, inl f)
Fate-after q q₁ k k₁ bytes r s (inr (e, inr t)) =
    inr (e ∙ s.same_stream, inr (Throttling-back q q₁ k k₁ s t))

-- A new record behind the records that still wait.
wait-Fate :
    (ob : SingleRecordBuffer) (q q₁ : TcpSocketQueue) (k k₁ : Socket) (r : Bool)
    → IsSendable ob
    → ob.start_pos ≡ 0
    → Settled q k q₁ k₁
    → Fate q k (send_bytes ob) (r, (add_to_cache ob 0 q₁).1, k₁)
wait-Fate ob q q₁ k k₁ r v z s = elim (add_to_cache-cases ob 0 q₁) [
  | inl e ↦ inl (
      grow_stream ob 0 q₁ (add_to_cache ob 0 q₁).1 k₁ v z (omega arith) e
      ∙ ap (λ t. t ++ send_bytes ob) s.same_stream)
  | inr (e, t) ↦
      inr (ap (λ bs. k₁.wire ++ pending bs) e ∙ s.same_stream, inr (Throttling-back q q₁ k k₁ s t))
]

module _ (answer : ℕ → ℕ → SendResult) where
  -- The bytes of a record that was not started, sent with nothing cached, are all sent or
  -- cached, however many of them the socket took, unless none is.
  pub send_direct-Fate :
      (ob : SingleRecordBuffer) (q : TcpSocketQueue) (k : Socket)
      → IsSendable ob
      → ob.start_pos ≡ 0
      → q.buffers ≡ []
      → IsOffered (send_len ob) (answer k.calls (send_len ob))
      → Fate q k (send_bytes ob) (send_direct answer ob q k)
  unfolding send_direct send
  send_direct-Fate ob q k v z e h = after_direct-Fate ob q k (answer k.calls (send_len ob)) v z e h

  module _ (whole : (i n : ℕ) → IsWhole n (answer i n)) where
    after_cache-Fate :
        (ob : SingleRecordBuffer) (q : TcpSocketQueue) (k : Socket)
        (o : Option (Bool × TcpSocketQueue × Socket))
        → IsSendable ob
        → ob.start_pos ≡ 0
        → Ends (λ r. Settled q k r.1 r.2) o
        → Ends (Fate q k (send_bytes ob)) (after_cache answer ob o)
    unfolding after_cache
    after_cache-Fate ob q k none v z h = h
    after_cache-Fate ob q k (some (false, q₁, k₁)) v z s = inr (s.same_stream, inl refl)
    after_cache-Fate ob q k (some (true, q₁, k₁)) v z s = go q₁.buffers refl
      where
        go :
            (bs : List SingleRecordBuffer)
            → q₁.buffers ≡ bs
            → Ends
                (Fate q k (send_bytes ob))
                (elim bs as (λ _. Option (Bool × TcpSocketQueue × Socket)) [
                  | [] ↦ some (send_direct answer ob q₁ k₁)
                  | b ∷ rest ↦ some ((add_to_cache ob 0 q₁).0, (add_to_cache ob 0 q₁).1, k₁)
                ])
        go [] e = Fate-after q q₁ k k₁ (send_bytes ob) (send_direct answer ob q₁ k₁) s (
            send_direct-Fate ob q₁ k₁ v z e (
              IsWhole-IsOffered (send_len ob) (answer k₁.calls (send_len ob))
                (whole k₁.calls (send_len ob))))
        go (b ∷ rest) e = wait-Fate ob q q₁ k k₁ (add_to_cache ob 0 q₁).0 v z s

    -- On a socket that takes a record whole or not at all, with fuel for each cached record and
    -- one more round, send_buffer returns; the waiting bytes and then those of the new record
    -- form the stream, or the new record is dropped whole because the call failed or the queue
    -- was throttled.
    pub send_buffer-Fate :
        (fuel upd_every now : ℕ) (ob : SingleRecordBuffer) (q : TcpSocketQueue) (k : Socket)
        → IsSendable ob
        → ob.start_pos ≡ 0
        → AllSendable q
        → length q.buffers < fuel
        → Ends (Fate q k (send_bytes ob)) (send_buffer answer fuel upd_every now ob q k)
    unfolding send_buffer on_cache_send_stat
    send_buffer-Fate fuel upd_every now ob q k v z w l = go q.buffers refl
      where
        q₁ : TcpSocketQueue
        q₁ = on_cache_send_stat upd_every now (length q.buffers) q

        go :
            (bs : List SingleRecordBuffer)
            → q.buffers ≡ bs
            → Ends
                (Fate q k (send_bytes ob))
                (elim bs as (λ _. Option (Bool × TcpSocketQueue × Socket)) [
                  | [] ↦ some (send_direct answer ob q k)
                  | b ∷ rest ↦ after_cache answer ob (send_cache answer fuel q₁ k)
                ])
        go [] e = send_direct-Fate ob q k v z e (
            IsWhole-IsOffered (send_len ob) (answer k.calls (send_len ob))
              (whole k.calls (send_len ob)))
        go (b ∷ rest) e =
            after_cache-Fate ob q₁ k (send_cache answer fuel q₁ k) v z
              (send_cache-Settled answer whole fuel q₁ k w l)
