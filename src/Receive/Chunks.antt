-- ===== src/Receive/Chunks.antt =====
-- read_connection_buffer of src/tcp_connection.cpp on a stream that TCP cuts anywhere.
use data_spinner.Base.{
  ℕ, zero, suc, ◌+◌, ◌≤◌, ◌≡◌, ◌≢◌, refl, ap, sym, ◌∙◌, arith, List, [], ◌∷◌, ◌++◌, length, take,
  drop, length-drop, append_assoc, take-append-drop, append-nil, subst, ltb, ltb→lt, ltb_false→le,
  Bool-cases, inl, inr, All, take-append_at, drop-append_at, take-prefix,
}
use data_spinner.Message.RoundTrip.{IsBlank}
use data_spinner.Frame.Layout.{Packet, IsPacket, bytes_packet}
use data_spinner.EvBuffer.{EvBuffer, IsEvBuffer}
use data_spinner.Receive.{waiting, Env, Reading, read_connection_buffer}
use data_spinner.Receive.Packet.{IsArchive, seen}
use data_spinner.Receive.Stream.{
  bytes_packets, seen_all, IsPart, cut, nothing, read_connection_buffer_stream,
}

-- Where a stream of packets is cut in two: the packets before the cut, and the part of a record.
record Split (ps : List Packet) (xs ys : List ℕ) : Type 0 where
  before : List Packet
  after : List Packet
  part : List ℕ
  packets : ps ≡ before ++ after
  first : xs ≡ bytes_packets before ++ part
  second : part ++ ys ≡ bytes_packets after
  is_part : IsPart part

drop-prefix :
    {A : Type 0} (n : ℕ) (xs ys : List A) → n ≤ length xs → drop n (xs ++ ys) ≡ drop n xs ++ ys
drop-prefix zero xs ys h = refl
drop-prefix (suc n) [] ys h = absurd (omega arith)
drop-prefix (suc n) (x ∷ xs) ys h = drop-prefix n xs ys (omega arith)

packets-Split :
    (ps : List Packet) (xs ys : List ℕ)
    → All IsPacket ps
    → bytes_packets ps ≡ xs ++ ys
    → Split ps xs ys
unfolding bytes_packets
packets-Split [] [] ys v eq = record {
  before = [];
  after = [];
  part = [];
  packets = refl;
  first = refl;
  second = sym eq;
  is_part = nothing refl;
}
packets-Split [] (x ∷ xs) ys v eq = absurd (omega (arith, ap length eq))
packets-Split (p ∷ ps) xs ys v eq = elim (Bool-cases (ltb (length xs) (length (bytes_packet p)))) [
  | inl inside ↦
      let short = ltb→lt (length xs) (length (bytes_packet p)) inside in
      let front : take (length xs) (bytes_packet p) ≡ xs =
        sym (take-prefix (length xs) (bytes_packet p) (bytes_packets ps) (omega arith))
        ∙ ap (take (length xs)) eq
        ∙ take-append_at (length xs) xs ys refl in
      let missing = drop (length xs) (bytes_packet p) in
      let whole : bytes_packet p ≡ xs ++ missing =
        sym (take-append-drop (length xs) (bytes_packet p)) ∙ ap (λ t. t ++ missing) front in
      let some_missing : missing ≢ [] =
        λ q. omega (arith, ap length q, length-drop (length xs) (bytes_packet p)) in
      record {
        before = [];
        after = p ∷ ps;
        part = xs;
        packets = refl;
        first = refl;
        second = sym eq;
        is_part = cut p missing v.0 some_missing whole;
      }
  | inr beyond ↦
      let n = length (bytes_packet p) in
      let room = ltb_false→le n (length xs) beyond in
      let rest = drop n xs in
      let front : take n xs ≡ bytes_packet p =
        sym (take-prefix n xs ys room)
        ∙ ap (take n) (sym eq)
        ∙ take-append_at n (bytes_packet p) (bytes_packets ps) refl in
      let others : bytes_packets ps ≡ rest ++ ys =
        sym (drop-append_at n (bytes_packet p) (bytes_packets ps) refl)
        ∙ ap (drop n) eq
        ∙ drop-prefix n xs ys room in
      let s = packets-Split ps rest ys v.1 others in
      let head : xs ≡ bytes_packet p ++ rest =
        sym (take-append-drop n xs) ∙ ap (λ t. t ++ rest) front in
      record {
        before = p ∷ s.before;
        after = s.after;
        part = s.part;
        packets = ap (λ t. p ∷ t) s.packets;
        first =
            head
            ∙ ap (λ t. bytes_packet p ++ t) s.first
            ∙ sym (append_assoc (bytes_packet p) (bytes_packets s.before) s.part);
        second = s.second;
        is_part = s.is_part;
      }
]

seen_all-append :
    (env : Env) (k : ℕ) (ps qs : List Packet)
    → seen_all env k (ps ++ qs) ≡ seen_all env k ps ++ seen_all env (k + length ps) qs
unfolding seen_all
seen_all-append env k [] qs = ap (λ n. seen_all env n qs) (omega arith)
seen_all-append env k (p ∷ ps) qs =
    let e : k + 1 + length ps ≡ k + length (p ∷ ps) = omega arith in
    rw (← e) (
      ap (λ t. seen env k p.message ++ t) (seen_all-append env (k + 1) ps qs)
      ∙ sym (
          append_assoc (seen env k p.message) (seen_all env (k + 1) ps)
            (seen_all env (k + 1 + length ps) qs)))

All-append : {A : Type 0} (P : A → Type 0) (xs ys : List A) → All P (xs ++ ys) → All P xs × All P ys
All-append P [] ys h = (tt, h)
All-append P (x ∷ xs) ys h = let r = All-append P xs ys h.1 in ((h.0, r.0), r.1)

module _ (e : EvBuffer) (b : IsEvBuffer e) (env : Env) where
  open e use {Buf}
  open b use {bytes}

  -- If the bytes of packets that fit a record arrive in any two pieces and read_connection_buffer is
  -- called after each, the two calls together deliver the messages in order, as their receiver sees
  -- them, and nothing is left over.
  pub read_connection_buffer_chunks :
      (ps : List Packet) (xs ys : List ℕ) (s : Reading Buf) (buf : Buf)
      → All IsPacket ps
      → ((k : ℕ) → IsBlank (env.blanks k))
      → IsArchive s.ar
      → bytes_packets ps ≡ xs ++ ys
      → bytes s.buf ≡ xs
      → bytes buf ≡ bytes ((read_connection_buffer e env s).1.buf) ++ ys
      → ((read_connection_buffer e env s).0 ≡ waiting)
        × (let r =
              read_connection_buffer e env
                (record ((read_connection_buffer e env s).1) { buf = buf }) in
            (r.0 ≡ waiting)
            × (bytes (r.1.buf) ≡ [])
            × (r.1.inbox ≡ s.inbox ++ seen_all env s.round ps))
  read_connection_buffer_chunks ps xs ys s buf v blank ready eq arrived more =
      let c = packets-Split ps xs ys v eq in
      let (va, vb) = All-append IsPacket c.before c.after (subst (All IsPacket) c.packets v) in
      let d₁ =
        read_connection_buffer_stream e b env c.before c.part s va c.is_part blank ready
          (arrived ∙ c.first) in
      let s₁ = record ((read_connection_buffer e env s).1) { buf = buf } in
      let d₂ =
        read_connection_buffer_stream e b env c.after [] s₁ vb (nothing refl) blank d₁.ready (
          more ∙ ap (λ t. t ++ ys) d₁.left ∙ c.second ∙ sym (append-nil (bytes_packets c.after))) in
      (
        d₁.status,
        (
          d₂.status,
          d₂.left,
          d₂.inbox
              ∙ rw (d₁.inbox, d₁.rounds, c.packets, seen_all-append env s.round c.before c.after)
                  (append_assoc s.inbox (seen_all env s.round c.before)
                    (seen_all env (s.round + length c.before) c.after)),
        ),
      )
