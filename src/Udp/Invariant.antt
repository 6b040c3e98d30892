-- ===== src/Udp/Invariant.antt =====
-- What every operation of UdpPublisherConnection (src/udp_publisher.cpp) keeps.
use data_spinner.Base.{
  ℕ, refl, arith, Option, none, some, List, [], ◌∷◌, ltb, ◌==◌, Bool-cases, inl, inr,
}
use data_spinner.Header.{MsgHeader, type_of_code, tag_soh}
use data_spinner.Buffer.{capacity}
use data_spinner.Archive.{BuffMsgArchive}
use data_spinner.Records.{LoginMsg}
use data_spinner.Stat.{WireReaderStat}
use data_spinner.Records.Codec.{get_login}
use data_spinner.Message.{Message, StreamIn, rejected, thrown, unrecognized, delivered}
use data_spinner.Udp.{
  SockAddr, Network, SendEnv, send_message_to, Received, recv_error, recv_closed, datagram, RecvEnv,
  recv_buff, datagram_header, datagram_archive, read_stamp,
}
use data_spinner.Udp.Publisher.{
  Cfg, UdpConnInfo, touch_subscriber, unregister_udp_subscriber, Subscribers, UdpPublisher,
  is_login, on_udp_msg, after_reply, on_login_datagram, publisher_datagram, udp_publisher_readcb,
}
use data_spinner.Udp.Publish.{
  next_index, Published, publish_each, publish_after_send, unregister_all, publish_to_subscribed,
}
use data_spinner.Udp.Table.{
  IsTable, SameAddresses, SameAddresses-refl, with_subscribers-IsTable,
  touch_subscriber-SameAddresses, register_udp_subscriber-IsTable,
  unregister_udp_subscriber-IsTable,
}

on_udp_msg-IsTable :
    (now : ℕ) (sin : SockAddr) (r : StreamIn) (c : UdpPublisher)
    → IsTable c
    → IsTable (on_udp_msg now sin r c).1
unfolding on_udp_msg
on_udp_msg-IsTable now sin rejected c v = v
on_udp_msg-IsTable now sin thrown c v = v
on_udp_msg-IsTable now sin unrecognized c v = v
on_udp_msg-IsTable now sin (delivered m) c v =
    let touched : IsTable (record c { subscribers = touch_subscriber now sin c.subscribers }) =
      with_subscribers-IsTable c _ v (touch_subscriber-SameAddresses now sin c.subscribers) in
    ground (arith, touched)

after_reply-IsTable :
    (sendto : ℕ → ℕ → Option ℕ) (cfg : Cfg) (now : ℕ) (sin : SockAddr) (m : LoginMsg)
    (c : UdpPublisher) (r : Option ℕ × Network)
    → IsTable c
    → IsTable (after_reply sendto cfg now sin m c r).1
unfolding after_reply
after_reply-IsTable sendto cfg now sin m c (none, net) v = v
after_reply-IsTable sendto cfg now sin m c (some n, net) v =
    register_udp_subscriber-IsTable cfg now sin m c v

on_login_datagram-IsTable :
    (sendto : ℕ → ℕ → Option ℕ) (cfg : Cfg) (env : SendEnv) (now : ℕ) (sin : SockAddr)
    (ar : BuffMsgArchive) (c : UdpPublisher) (net : Network)
    → IsTable c
    → IsTable (on_login_datagram sendto cfg env now sin ar c net).1
unfolding on_login_datagram
on_login_datagram-IsTable sendto cfg env now sin ar c net v =
    elim (Bool-cases ((get_login ar).1.is_valid)) [
      | inl e ↦ rw e (after_reply-IsTable sendto cfg now sin (get_login ar).0 c _ v)
      | inr e ↦ rw e v
    ]

publisher_datagram-IsTable :
    (sendto : ℕ → ℕ → Option ℕ) (cfg : Cfg) (env : RecvEnv) (senv : SendEnv) (sin : SockAddr)
    (buff : List ℕ) (h : MsgHeader) (c : UdpPublisher) (net : Network)
    → IsTable c
    → IsTable (publisher_datagram sendto cfg env senv sin buff h c net).1
unfolding publisher_datagram
publisher_datagram-IsTable sendto cfg env senv sin buff h c net v =
    let r = read_stamp env h (datagram_archive buff h) c.stat in
    let v₁ : IsTable (record c { stat = r.1 }) = record {
      distinct = v.distinct;
      counted = v.counted;
    } in
    elim (Bool-cases (is_login (type_of_code h.mtype))) [
      | inl e ↦ rw e (on_login_datagram-IsTable sendto cfg senv env.sec sin r.0 _ net v₁)
      | inr e ↦ rw e (on_udp_msg-IsTable env.sec sin _ _ v₁)
    ]

udp_publisher_readcb-IsTable :
    (sendto : ℕ → ℕ → Option ℕ) (cfg : Cfg) (env : RecvEnv) (senv : SendEnv) (r : Received)
    (c : UdpPublisher) (net : Network)
    → IsTable c
    → IsTable (udp_publisher_readcb sendto cfg env senv r c net).1
unfolding udp_publisher_readcb
udp_publisher_readcb-IsTable sendto cfg env senv (recv_error a) c net v =
    unregister_udp_subscriber-IsTable a c v
udp_publisher_readcb-IsTable sendto cfg env senv recv_closed c net v = v
udp_publisher_readcb-IsTable sendto cfg env senv (datagram sin bytes) c net v =
    let h = datagram_header (recv_buff env.garbage bytes) in
    let good =
      publisher_datagram-IsTable sendto cfg env senv sin (recv_buff env.garbage bytes) h c net v in
    elim (Bool-cases (h.pfix == tag_soh)) [
      | inl e ↦ elim (Bool-cases (ltb capacity h.len)) [
        | inl f ↦ rw (e, f) v
        | inr f ↦ rw (e, f) good
      ]
      | inr e ↦ rw e v
    ]

publish_after_send-SameAddresses :
    (cfg : Cfg) (now : ℕ) (sin : SockAddr) (ci ci₁ : UdpConnInfo) (rest : Subscribers)
    (net : Network) (later : Published) (r : Option ℕ)
    → SameAddresses rest later.subscribers
    → SameAddresses
        ((sin, ci) ∷ rest)
        (publish_after_send cfg now sin ci₁ rest net later r).subscribers
unfolding publish_after_send
publish_after_send-SameAddresses cfg now sin ci ci₁ rest net later none s =
    (refl, SameAddresses-refl rest)
publish_after_send-SameAddresses cfg now sin ci ci₁ rest net later (some n) s = (refl, s)

pub publish_each-SameAddresses :
    (sendto : ℕ → ℕ → Option ℕ) (cfg : Cfg) (env : SendEnv) (now : ℕ) (m : Message)
    (xs : Subscribers) (net : Network)
    → SameAddresses xs (publish_each sendto cfg env now m xs net).subscribers
unfolding publish_each
publish_each-SameAddresses sendto cfg env now m [] net = tt
publish_each-SameAddresses sendto cfg env now m ((sin, ci) ∷ rest) net =
    let net₁ = (send_message_to sendto env sin m (next_index ci).writer_session_index net).1 in
    publish_after_send-SameAddresses cfg now sin ci (next_index ci) rest net₁ _ _
      (publish_each-SameAddresses sendto cfg env now m rest net₁)

unregister_all-IsTable :
    (as_ : List SockAddr) (c : UdpPublisher) → IsTable c → IsTable (unregister_all as_ c)
unfolding unregister_all
unregister_all-IsTable [] c v = v
unregister_all-IsTable (a ∷ as_) c v =
    unregister_all-IsTable as_ (unregister_udp_subscriber a c)
      (unregister_udp_subscriber-IsTable a c v)

publish_to_subscribed-IsTable :
    (sendto : ℕ → ℕ → Option ℕ) (cfg : Cfg) (env : SendEnv) (now : ℕ) (m : Message)
    (c : UdpPublisher) (net : Network)
    → IsTable c
    → IsTable (publish_to_subscribed sendto cfg env now m c net).1
unfolding publish_to_subscribed
publish_to_subscribed-IsTable sendto cfg env now m c net v =
    let r = publish_each sendto cfg env now m c.subscribers net in
    let v₁ : IsTable (record c { subscribers = r.subscribers }) =
      with_subscribers-IsTable c r.subscribers v
        (publish_each-SameAddresses sendto cfg env now m c.subscribers net) in
    elim (Bool-cases (r.all_sent)) [
      | inl e ↦ rw e (unregister_all-IsTable r.list2unreg _ v₁)
      | inr e ↦ rw e v₁
    ]

-- The publisher with no subscriber.
abbrev pub new_udp_publisher : WireReaderStat → UdpPublisher
new_udp_publisher stat = record { subscribers_count = 0; subscribers = []; stat = stat }

-- The states in which the publisher can be after any callbacks and publications.
pub data Reachable (sendto : ℕ → ℕ → Option ℕ) (cfg : Cfg) : UdpPublisher → Type 0 where
  started : (stat : WireReaderStat) → Reachable sendto cfg (new_udp_publisher stat)
  called_back :
      (env : RecvEnv) (senv : SendEnv) (r : Received) (net : Network) (c : UdpPublisher)
      → Reachable sendto cfg c
      → Reachable sendto cfg (udp_publisher_readcb sendto cfg env senv r c net).1
  published :
      (env : SendEnv) (now : ℕ) (m : Message) (net : Network) (c : UdpPublisher)
      → Reachable sendto cfg c
      → Reachable sendto cfg (publish_to_subscribed sendto cfg env now m c net).1

-- Whatever datagrams and errors the callback meets, whatever is published and however sendto answers, the
-- table of subscribers never has two entries with the same address, and its counter is its size.
pub Reachable-IsTable :
    (sendto : ℕ → ℕ → Option ℕ) (cfg : Cfg) (c : UdpPublisher) → Reachable sendto cfg c → IsTable c
Reachable-IsTable sendto cfg c (started stat) = record { distinct = tt; counted = refl }
Reachable-IsTable sendto cfg c (called_back env senv r net d v) =
    udp_publisher_readcb-IsTable sendto cfg env senv r d net (Reachable-IsTable sendto cfg d v)
Reachable-IsTable sendto cfg c (published env now m net d v) =
    publish_to_subscribed-IsTable sendto cfg env now m d net (Reachable-IsTable sendto cfg d v)
