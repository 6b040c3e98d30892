-- ===== src/Udp/EndToEnd.antt =====
-- From publish_to_subscribed (src/udp_publisher.cpp) to udp_subscriber_readcb (src/udp_connection.cpp).
use data_spinner.Base.{ℕ, ◌+◌, ◌≡◌, refl, ap, arith, Option, some, List, [], ◌∷◌, ◌++◌, length, All}
use data_spinner.Wire.{u32}
use data_spinner.Buffer.{capacity}
use data_spinner.Message.{Message}
use data_spinner.Message.RoundTrip.{IsBlank}
use data_spinner.Frame.Layout.{IsPacket}
use data_spinner.Udp.{SockAddr, Network, SendEnv, RecvEnv, datagram, handled}
use data_spinner.Udp.Subscriber.{UdpSubscriber, udp_subscriber_readcb}
use data_spinner.Udp.Publisher.{Cfg, Subscribers, UdpPublisher}
use data_spinner.Udp.Publish.{publish_to_subscribed}
use data_spinner.Udp.Delivery.{udp_seen, udp_subscriber_readcb-TookDatagram}
use data_spinner.Udp.Table.{IsTable}
use data_spinner.Udp.Sends.{IsEnv, IsSmall, packet_at, datagrams, publish_to_subscribed-Served}

-- The subscriber that a datagram reaches handles it and has the message.
abbrev pub Delivers : RecvEnv → SockAddr → Message → UdpSubscriber → SockAddr × List ℕ → Type 0
Delivers renv server m c e =
    ((udp_subscriber_readcb renv (datagram server e.1) c).0 ≡ handled)
    × ((udp_subscriber_readcb renv (datagram server e.1) c).1.inbox
        ≡ c.inbox ++ udp_seen renv server m)

abbrev pub addresses : {A : Type 0} → List (SockAddr × A) → List SockAddr
addresses [] = []
addresses (e ∷ es) = e.0 ∷ addresses es

addresses-datagrams :
    (env : SendEnv) (m : Message) (i : ℕ) (es : Subscribers)
    → addresses (datagrams env m i es) ≡ addresses es
unfolding datagrams
addresses-datagrams env m i [] = refl
addresses-datagrams env m i ((sin, ci) ∷ es) =
    ap (λ t. sin ∷ t) (addresses-datagrams env m (i + 1) es)

module _ (env : SendEnv) (good : IsEnv env) (m : Message) (small : IsSmall m) (renv : RecvEnv)
    (blank : IsBlank renv.blanks) (full : length renv.garbage ≡ capacity) (server : SockAddr)
    (c : UdpSubscriber) where
  datagrams-Delivers :
      (i : ℕ) (es : Subscribers) → All (Delivers renv server m c) (datagrams env m i es)
  unfolding datagrams
  datagrams-Delivers i [] = tt
  datagrams-Delivers i ((sin, ci) ∷ es) =
      let p = packet_at env i (u32 (ci.writer_session_index + 1)) m in
      let v : IsPacket p = record {
        stamp_fits = good.clock i;
        session_fits = omega arith;
        message_valid = small.message_valid;
        record_fits = small.record_fits;
      } in
      let t = udp_subscriber_readcb-TookDatagram renv server p c v blank full in
      ((t.outcome, t.inbox), datagrams-Delivers (i + 1) es)

  -- When sendto takes every datagram and the message fits, publish_to_subscribed sends one datagram to
  -- each subscriber in the table, and udp_subscriber_readcb, in any state of a subscriber, handles each
  -- of them and gives its handler the message, unless it is a delta and deltas are skipped.
  pub publish_to_subscribed-Delivers :
      (sendto : ℕ → ℕ → Option ℕ)
      → ((i n : ℕ) → sendto i n ≡ some n)
      → (cfg : Cfg) (now calls : ℕ) (d : UdpPublisher) → IsTable d
      → (addresses
            (publish_to_subscribed sendto cfg env now m d
              (record { calls = calls; sent = [] })).2.sent
          ≡ addresses d.subscribers)
        × All
            (Delivers renv server m c)
            (publish_to_subscribed sendto cfg env now m d
              (record { calls = calls; sent = [] })).2.sent
  publish_to_subscribed-Delivers sendto takes cfg now calls d v =
      let net : Network = record { calls = calls; sent = [] } in
      let r = publish_to_subscribed-Served sendto takes env good m small cfg now d net v in
      rw r.sent
        (addresses-datagrams env m calls d.subscribers, datagrams-Delivers calls d.subscribers)
