-- ===== src/Udp/Sends.antt =====
-- What publish_to_subscribed (src/udp_publisher.cpp) sends, and to whom.
use data_spinner.Base.{
  ℕ, ◌+◌, ◌<◌, ◌≤◌, ◌≡◌, refl, ap, sym, ◌∙◌, arith, Bool, true, Option, some, List, [], ◌∷◌, ◌++◌,
  length, append_assoc, append-nil,
}
use data_spinner.Wire.{u32}
use data_spinner.Buffer.{capacity}
use data_spinner.Message.{Message, bytes_message}
use data_spinner.Message.RoundTrip.{IsMessage}
use data_spinner.Frame.Layout.{Packet, IsPacket, bytes_packet, build_record_layout}
use data_spinner.Udp.{SockAddr, Network, SendEnv, send_datagram, after_datagram, send_message_to}
use data_spinner.Udp.Publisher.{Cfg, Subscribers, UdpPublisher}
use data_spinner.Udp.Publish.{
  next_index, Published, publish_after_send, publish_each, publish_to_subscribed,
}
use data_spinner.Udp.Table.{IsTable, SameAddresses, SameAddresses-IsDistinct}
use data_spinner.Udp.Invariant.{publish_each-SameAddresses}
use data_spinner.Udp.Unregister.{checked, all_checked, late_addresses, in_time, unregister_all_late}

-- The message fits into one record.
pub record IsSmall (m : Message) : Type 0 where
  pub message_valid : IsMessage m
  pub record_fits : 16 + length (bytes_message m) ≤ capacity

-- The arrays are whole, and the clock fits its 64 bits.
pub record IsEnv (env : SendEnv) : Type 0 where
  pub arrays : (i : ℕ) → length (env.garbage i) ≡ capacity
  pub clock : (i : ℕ) → env.time_stamp i < 18446744073709551616

-- The packet of the `i`-th call of send_message_to.
abbrev pub packet_at : SendEnv → ℕ → ℕ → Message → Packet
packet_at env i session_index m = record {
  stamp = env.time_stamp i;
  session_idx = session_index;
  message = m;
}

-- One packet for each subscriber, with its next session index, in the order of the table.
unfoldable pub datagrams : SendEnv → Message → ℕ → Subscribers → List (SockAddr × List ℕ)
datagrams env m i [] = []
datagrams env m i ((sin, ci) ∷ rest) =
    (sin, bytes_packet (packet_at env i (u32 (ci.writer_session_index + 1)) m))
    ∷ datagrams env m (i + 1) rest

-- The network after a call that was taken.
abbrev pub after_call : SendEnv → Message → SockAddr → ℕ → Network → Network
after_call env m sin index net = record {
  calls = net.calls + 1;
  sent = net.sent ++ ((sin, bytes_packet (packet_at env net.calls index m)) ∷ []);
}

-- The loop over the subscribers, each of which was sent the message.
record PublishedAll (cfg : Cfg) (env : SendEnv) (now : ℕ) (m : Message) (es : Subscribers)
    (net : Network) (r : Published) : Type 0 where
  all_sent : r.all_sent ≡ true
  subscribers : r.subscribers ≡ all_checked cfg now es
  list2unreg : r.list2unreg ≡ late_addresses cfg now es
  sent : r.net.sent ≡ net.sent ++ datagrams env m net.calls es

-- What a call of publish_to_subscribed does when all goes well.
pub record Served (cfg : Cfg) (env : SendEnv) (now : ℕ) (m : Message) (c : UdpPublisher)
    (net : Network) (r : Bool × UdpPublisher × Network) : Type 0 where
  pub succeeds : r.0 ≡ true
  pub sent : r.2.sent ≡ net.sent ++ datagrams env m net.calls c.subscribers
  pub subscribers : r.1.subscribers ≡ in_time cfg now c.subscribers

module _ (sendto : ℕ → ℕ → Option ℕ) (takes : (i n : ℕ) → sendto i n ≡ some n) (env : SendEnv)
    (good : IsEnv env) (m : Message) (small : IsSmall m) where
  send_datagram_lem :
      (sin : SockAddr) (bytes : List ℕ) (net : Network)
      → send_datagram sendto sin bytes net ≡ (
        some (length bytes),
        record { calls = net.calls + 1; sent = net.sent ++ ((sin, bytes) ∷ []) },
      )
  unfolding send_datagram
  send_datagram_lem sin bytes net = rw (takes net.calls (length bytes)) refl

  pub send_message_to_lem :
      (sin : SockAddr) (index : ℕ) (net : Network)
      → index < 4294967296
      → send_message_to sendto env sin m index net ≡ (
        some (length (bytes_packet (packet_at env net.calls index m))),
        after_call env m sin index net,
      )
  unfolding send_message_to after_datagram
  send_message_to_lem sin index net fits =
      let p = packet_at env net.calls index m in
      let v : IsPacket p = record {
        stamp_fits = good.clock net.calls;
        session_fits = fits;
        message_valid = small.message_valid;
        record_fits = small.record_fits;
      } in
      let (b, built, bytes, start, writable) =
        build_record_layout (env.garbage net.calls) p (good.arrays net.calls) v in
      rw (built, bytes) (send_datagram_lem sin (bytes_packet p) net)

  publish_each-PublishedAll :
      (cfg : Cfg) (now : ℕ) (es : Subscribers) (net : Network)
      → PublishedAll cfg env now m es net (publish_each sendto cfg env now m es net)
  unfolding publish_each publish_after_send datagrams next_index
  publish_each-PublishedAll cfg now [] net = record {
    all_sent = refl;
    subscribers = refl;
    list2unreg = refl;
    sent = sym (append-nil net.sent);
  }
  publish_each-PublishedAll cfg now ((sin, ci) ∷ rest) net =
      let index = u32 (ci.writer_session_index + 1) in
      let later = publish_each-PublishedAll cfg now rest (after_call env m sin index net) in
      rw (send_message_to_lem sin index net (omega arith)) (record {
        all_sent = later.all_sent;
        subscribers = ap (λ t. (sin, (checked cfg now ci).0) ∷ t) later.subscribers;
        list2unreg = rw later.list2unreg refl;
        sent = later.sent ∙ append_assoc net.sent _ (datagrams env m (net.calls + 1) rest);
      })

  pub publish_to_subscribed-Served :
      (cfg : Cfg) (now : ℕ) (c : UdpPublisher) (net : Network)
      → IsTable c
      → Served cfg env now m c net (publish_to_subscribed sendto cfg env now m c net)
  unfolding publish_to_subscribed
  publish_to_subscribed-Served cfg now c net v =
      let r = publish_each-PublishedAll cfg now c.subscribers net in
      let same : SameAddresses c.subscribers (all_checked cfg now c.subscribers) =
        rw r.subscribers at (publish_each-SameAddresses sendto cfg env now m c.subscribers net) in
      rw (r.all_sent, r.list2unreg, r.subscribers)
        (record {
          succeeds = refl;
          sent = r.sent;
          subscribers =
              unregister_all_late cfg now c.subscribers _ refl
                (SameAddresses-IsDistinct c.subscribers _ same v.distinct);
        })
