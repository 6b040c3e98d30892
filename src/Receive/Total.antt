-- ===== src/Receive/Total.antt =====
-- The loop of read_connection_buffer of src/tcp_connection.cpp on any input.
use data_spinner.Base.{
  ℕ, zero, suc, ◌+◌, ◌-◌, ◌≤◌, ◌<◌, ◌≡◌, ◌≢◌, ap, ◌∙◌, arith, length, take, length-drop, ltb,
  ltb→lt, ltb_false→le, Bool-cases, inl, inr, ◌==◌, ◌&&◌,
}
use data_spinner.Wire.{u32}
use data_spinner.Header.{MsgHeader, tag_soh, word_header, type_of_code}
use data_spinner.Buffer.{capacity}
use data_spinner.Message.{StreamIn, rejected, thrown, unrecognized, delivered}
use data_spinner.EvBuffer.{EvBuffer, IsEvBuffer}
use data_spinner.Receive.{
  Status, out_of_fuel, Env, Reading, Step, stop, again, is_delta, after_stream_in, take_packet,
  take_body, fill, peek_header, read_record, read_loop, read_connection_buffer,
}

-- A round that ends the loop does so for a reason of the program's; one that goes on leaves a
-- buffer that satisfies `P`.
abbrev Goes : {Buf : Type 0} → (Buf → Type 0) → Step Buf → Type 0
Goes P (stop r s) = r ≢ out_of_fuel
Goes P (again s) = P s.buf

after_stream_in-Goes :
    {Buf : Type 0} (P : Buf → Type 0) (r : StreamIn) (s : Reading Buf)
    → P s.buf
    → Goes P (after_stream_in r s)
after_stream_in-Goes P rejected s h = λ q. cc
after_stream_in-Goes P thrown s h = λ q. cc
after_stream_in-Goes P unrecognized s h = h
after_stream_in-Goes P (delivered m) s h = h

take_packet-Goes :
    {Buf : Type 0} (P : Buf → Type 0) (env : Env) (h : MsgHeader) (s : Reading Buf)
    → P s.buf
    → Goes P (take_packet env h s)
unfolding take_packet
take_packet-Goes P env h s p =
    elim (Bool-cases (env.idle_on_delta && is_delta (type_of_code h.mtype))) [
      | inl skip ↦ rw skip p
      | inr look ↦ rw look (after_stream_in-Goes P _ _ p)
    ]

module _ (e : EvBuffer) (b : IsEvBuffer e) (env : Env) where
  open e use {Buf}
  open b use {bytes}

  peek_header_len : (buf : Buf) → (peek_header e env buf).len < 65536
  unfolding peek_header word_header
  peek_header_len buf = omega arith

  take_body-Goes :
      (h : MsgHeader) (s : Reading Buf)
      → h.len ≤ length (bytes s.buf)
      → Goes (λ b'. length (bytes b') ≤ length (bytes s.buf)) (take_body e env h s)
  unfolding take_body
  take_body-Goes h s room = elim (Bool-cases (ltb capacity h.len)) [
    | inl long ↦ rw long (λ q. cc)
    | inr fits ↦
        let (buf, removed, left) = b.remove h.len s.buf room in
        rw (fits, removed)
          (take_packet-Goes (λ b'. length (bytes b') ≤ length (bytes s.buf)) env h
            (record s { buf = buf; ar = fill h.len (take h.len (bytes s.buf)) s.ar })
            (omega (arith, ap length left, length-drop h.len (bytes s.buf))))
  ]

  Goes-weaken :
      (P Q : Buf → Type 0) → ((c : Buf) → P c → Q c) → (r : Step Buf) → Goes P r → Goes Q r
  Goes-weaken P Q f (stop r s) h = h
  Goes-weaken P Q f (again s) h = f s.buf h

  -- Every round that goes on has taken a header off the buffer.
  read_record-Goes :
      (s : Reading Buf)
      → Goes (λ b'. length (bytes b') < length (bytes s.buf)) (read_record e env s)
  unfolding read_record
  read_record-Goes s = elim (Bool-cases (ltb 8 (e.evbuffer_get_length s.buf))) [
    | inr short ↦ rw short (λ q. cc)
    | inl more ↦ elim (Bool-cases ((peek_header e env s.buf).pfix == tag_soh)) [
      | inr corrupt ↦ rw (more, corrupt) (λ q. cc)
      | inl soh ↦
          let h = peek_header e env s.buf in
          elim (Bool-cases (ltb (e.evbuffer_get_length s.buf) (u32 (h.len + 8)))) [
            | inl part ↦ rw (more, soh, part) (λ q. cc)
            | inr whole ↦
                let room : u32 (h.len + 8) ≤ e.evbuffer_get_length s.buf =
                  ltb_false→le (u32 (h.len + 8)) (e.evbuffer_get_length s.buf) whole in
                let n = b.get_length s.buf in
                let small = peek_header_len s.buf in
                let drained =
                  b.drain 8 s.buf (omega (arith, ltb→lt 8 (e.evbuffer_get_length s.buf) more)) in
                let shorter : length (bytes (e.evbuffer_drain 8 s.buf)) ≡ length (bytes s.buf) - 8 =
                  ap length drained ∙ length-drop 8 (bytes s.buf) in
                rw (more, soh, whole)
                  (Goes-weaken (λ b'. length (bytes b') ≤ length (bytes (e.evbuffer_drain 8 s.buf)))
                    (λ b'. length (bytes b') < length (bytes s.buf))
                    (λ c q. omega (arith, ltb→lt 8 (e.evbuffer_get_length s.buf) more)) _
                    (take_body-Goes h
                      (record s {
                        buf = e.evbuffer_drain 8 s.buf;
                        reader_session_index = h.session_idx;
                      })
                      (omega arith)))
          ]
    ]
  ]

  read_loop-ends :
      (fuel : ℕ) (s : Reading Buf)
      → length (bytes s.buf) < fuel
      → (read_loop e env fuel s).0 ≢ out_of_fuel
  unfolding read_loop
  read_loop-ends zero s h = absurd (omega arith)
  read_loop-ends (suc fuel) s h =
      go (read_record e env s) (read_record-Goes s) (λ s' q. read_loop-ends fuel s' (omega arith))
    where
      go :
          (r : Step Buf)
          → Goes (λ b'. length (bytes b') < length (bytes s.buf)) r
          → ((s' : Reading Buf)
              → length (bytes s'.buf) < length (bytes s.buf)
              → (read_loop e env fuel s').0 ≢ out_of_fuel)
          → (elim r as (λ _. Status × Reading Buf) [
            | stop st s' ↦ (st, s')
            | again s' ↦ read_loop e env fuel s'
          ]).0
            ≢ out_of_fuel
      go (stop st s') g k = g
      go (again s') g k = k s' g

  -- On any input the loop of read_connection_buffer ends within as many rounds as there are
  -- bytes.
  pub read_connection_buffer-ends :
      (s : Reading Buf) → (read_connection_buffer e env s).0 ≢ out_of_fuel
  unfolding read_connection_buffer
  read_connection_buffer-ends s =
      read_loop-ends (suc (e.evbuffer_get_length s.buf)) s (omega (arith, b.get_length s.buf))
