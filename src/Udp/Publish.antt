-- ===== src/Udp/Publish.antt =====
-- publish_to_subscribed of src/udp_publisher.cpp.
use data_spinner.Base.{
  ℕ, ◌+◌, Bool, true, false, Option, none, some, List, [], ◌∷◌, ◌==◌, if◌then◌else◌,
}
use data_spinner.Wire.{u32}
use data_spinner.Tick.{next_tick_metric, next_hb_check}
use data_spinner.Message.{Message}
use data_spinner.Udp.{SockAddr, Network, SendEnv, send_message_to}
use data_spinner.Udp.Publisher.{
  Cfg, UdpConnInfo, Subscribers, UdpPublisher, unregister_udp_subscriber,
}

-- uint32_t next_writer_session_index()
unfoldable pub next_index : UdpConnInfo → UdpConnInfo
next_index ci = record ci { writer_session_index = u32 (ci.writer_session_index + 1) }

-- next_tick_publisher_metrics and next_hb_check after a send: the client's state, and whether its
-- heartbeat is late. next_tick_metric counts the tick before it reads the clock.
unfoldable pub check_heartbeat : Cfg → ℕ → UdpConnInfo → UdpConnInfo × Bool
check_heartbeat cfg now ci =
    let t = next_tick_metric now ci.observer in
    let hb_delta =
      next_hb_check cfg.check_every_n_tick cfg.hb_timeout_sec now ci.last_hb_time t.0 in
    (record ci { observer = t.2 }, if hb_delta == 0 then false else true)

-- The loop over the subscribers: whether all sends went well, the subscribers, and list2unreg.
pub record Published : Type 0 where
  pub all_sent : Bool
  pub subscribers : Subscribers
  pub list2unreg : List SockAddr
  pub net : Network

abbrev pub add_unreg : Bool → SockAddr → List SockAddr → List SockAddr
add_unreg true sin l = sin ∷ l
add_unreg false sin l = l

-- The rest of one round, after send_message_to for that client: what `later`, the rounds behind it, do
-- counts only when the send went well.
unfoldable pub publish_after_send :
    Cfg → ℕ → SockAddr → UdpConnInfo → Subscribers → Network → Published → Option ℕ → Published
publish_after_send cfg now sin ci rest net later none = record {
  all_sent = false;
  subscribers = (sin, ci) ∷ rest;
  list2unreg = [];
  net = net;
}
publish_after_send cfg now sin ci rest net later (some n) =
    let checked = check_heartbeat cfg now ci in
    record later {
      subscribers = (sin, checked.0) ∷ later.subscribers;
      list2unreg = add_unreg checked.1 sin later.list2unreg;
    }

module _ (sendto : ℕ → ℕ → Option ℕ) (cfg : Cfg) (env : SendEnv) (now : ℕ) (m : Message) where
  unfoldable pub publish_each : Subscribers → Network → Published
  publish_each [] net = record { all_sent = true; subscribers = []; list2unreg = []; net = net }
  publish_each ((sin, ci) ∷ rest) net =
      let ci₁ = next_index ci in
      let s = send_message_to sendto env sin m ci₁.writer_session_index net in
      let later = publish_each rest s.1 in publish_after_send cfg now sin ci₁ rest s.1 later (s.0)

-- The loop over list2unreg.
unfoldable pub unregister_all : List SockAddr → UdpPublisher → UdpPublisher
unregister_all [] c = c
unregister_all (a ∷ as_) c = unregister_all as_ (unregister_udp_subscriber a c)

-- bool publish_to_subscribed(const T& m): after a failed send it returns before the loop over list2unreg.
unfoldable pub publish_to_subscribed :
    (ℕ → ℕ → Option ℕ)
    → Cfg
    → SendEnv
    → ℕ
    → Message
    → UdpPublisher
    → Network
    → Bool × UdpPublisher × Network
publish_to_subscribed sendto cfg env now m c net =
    let r = publish_each sendto cfg env now m c.subscribers net in
    let c₁ = record c { subscribers = r.subscribers } in
    if r.all_sent then (true, unregister_all r.list2unreg c₁, r.net) else (false, c₁, r.net)
