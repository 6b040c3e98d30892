-- ===== src/Dispatcher.antt =====
-- DeltaDispatcher and MdServerConnection of src/tcp_publisher.cpp. A method under the mutex is one step; the
-- threads and what is logged are not modelled. A pointer is a number, and the connections are in the order in
-- which the unordered_map is traversed.
pub mod Publish
pub mod Table
pub mod Invariant
pub mod Reach
use data_spinner.Base.{
  ℕ, zero, suc, ◌+◌, ◌==◌, Bool, true, false, ◌&&◌, ◌||◌, not, Option, none, some, List, [], ◌∷◌,
  ◌++◌, if◌then◌else◌, length,
}
use data_spinner.Records.{Str, u16, LoginMsg, SubscribeMsg}
use data_spinner.Tick.{MetricsObserver, reset_tick_observer, next_tick_metric, next_hb_check}
use data_spinner.Delta.{MdDelta}
use data_spinner.Message.{Message, login_msg, hb_msg, subscribe_msg, delta_msg}
use data_spinner.Queue.{SendResult, Socket}
use data_spinner.Connection.{Call}
use data_spinner.Text.{same_str}
use data_spinner.Session.{Peer, close_peer, reset_hb_time, send_to, on_login_msg}

pub record MdServerConnection : Type 0 where
  pub peer : Peer
  pub observer : MetricsObserver

-- The settings stat_check_every_n_tick_ and hb_timeout_sec_.
pub record HbCfg : Type 0 where
  pub check_every_n_tick : ℕ
  pub hb_timeout_sec : ℕ

-- ConnInfo::subscribed_, by its elements.
abbrev pub Connections : Type 0
Connections = List (ℕ × List Str)

-- The connections that the pointers lead to.
abbrev pub Heap : Type 0
Heap = ℕ → MdServerConnection

unfoldable pub update : ℕ → MdServerConnection → Heap → Heap
update p c h q = if q == p then c else h q

pub record DeltaDispatcher : Type 0 where
  pub connections_count : ℕ
  pub connections : Connections
  pub heap : Heap

unfoldable pub contains : Str → List Str → Bool
contains s [] = false
contains s (t ∷ ts) = same_str s t || contains s ts

-- std::unordered_set::insert
unfoldable pub insert : Str → List Str → List Str
insert s ts = if contains s ts then ts else s ∷ ts

unfoldable pub insert_all : List Str → List Str → List Str
insert_all [] ts = ts
insert_all (s ∷ ss) ts = insert_all ss (insert s ts)

unfoldable pub find_connection : ℕ → Connections → Option (List Str)
find_connection p [] = none
find_connection p (e ∷ es) = if e.0 == p then some e.1 else find_connection p es

-- `connections_[p] = ConnInfo(...)`
unfoldable pub put_connection : ℕ → List Str → Connections → Connections
put_connection p ss [] = (p, ss) ∷ []
put_connection p ss (e ∷ es) = if e.0 == p then (p, ss) ∷ es else e ∷ put_connection p ss es

unfoldable pub erase_connection : ℕ → Connections → Connections
erase_connection p [] = []
erase_connection p (e ∷ es) = if e.0 == p then es else e ∷ erase_connection p es

-- TcpConnection* create_connection(bufferevent*): `c` is the new object, at `p`.
unfoldable pub create_connection : ℕ → MdServerConnection → DeltaDispatcher → DeltaDispatcher
create_connection p c d =
    let cs = put_connection p [] d.connections in
    record { connections_count = u16 (length cs); connections = cs; heap = update p c d.heap }

-- void dispose_connection(TcpConnection*)
unfoldable pub dispose_connection : ℕ → DeltaDispatcher → DeltaDispatcher
dispose_connection p d =
    let cs = erase_connection p d.connections in
    record d { connections_count = u16 (length cs); connections = cs }

-- What add_buscriptions does with the entry that it finds.
unfoldable pub subscribe_found :
    ℕ → List Str → DeltaDispatcher → Option (List Str) → DeltaDispatcher
subscribe_found p symbols d none = d
subscribe_found p symbols d (some ss) = record d {
  connections = put_connection p (insert_all symbols ss) d.connections;
}

-- void add_buscriptions(TcpConnection*, const std::vector<std::string>& symbols)
unfoldable pub add_buscriptions : ℕ → List Str → DeltaDispatcher → DeltaDispatcher
add_buscriptions p symbols d = subscribe_found p symbols d (find_connection p d.connections)

-- The loop of get_subscribed_connections.
unfoldable pub subscribed_connections : Str → Heap → Connections → List ℕ
subscribed_connections symbol h [] = []
subscribed_connections symbol h (e ∷ es) =
    let rv = subscribed_connections symbol h es in
    if (h e.0).peer.conn.is_valid && contains symbol e.1 then e.0 ∷ rv else rv

unfoldable pub get_subscribed_connections : Str → DeltaDispatcher → List ℕ
get_subscribed_connections symbol d = subscribed_connections symbol d.heap d.connections

-- next_tick_publisher_metrics, next_hb_check and what follows, after a send that went well.
unfoldable pub check_heartbeat : HbCfg → ℕ → MdServerConnection → MdServerConnection
check_heartbeat cfg now c =
    let t = next_tick_metric now c.observer in
    let hb_delta =
      next_hb_check cfg.check_every_n_tick cfg.hb_timeout_sec now c.peer.last_hb_time t.0 in
    let c₁ = record c { observer = t.2 } in
    if hb_delta == 0 then c₁ else record c₁ { peer = close_peer c.peer }

-- What the loop of publish has done: its result, the connections, and how often it slept.
pub record Publication : Type 0 where
  pub ok : Bool
  pub heap : Heap
  pub sleeps : ℕ

module _ (answer : ℕ → ℕ → ℕ → SendResult) (fuel : ℕ) (cfg : HbCfg) (now : ℕ) where
  -- The loop over conn_list: `calls` has what each connection's send_message finds, `size` is
  -- conn_list.size(), and `throttled` is connections_in_throttle.
  unfoldable pub publish_each :
      (ℕ → Call) → Message → ℕ → List ℕ → ℕ → ℕ → Heap → Option Publication
  publish_each calls m size [] throttled sleeps h =
      some (record { ok = true; heap = h; sleeps = sleeps })
  publish_each calls m size (p ∷ ps) throttled sleeps h =
      elim (send_to (answer p) fuel (calls p) m (h p).peer) [
        | none ↦ none
        | some (false, c) ↦ some (record {
          ok = false;
          heap = update p (record (h p) { peer = close_peer c }) h;
          sleeps = sleeps;
        })
        | some (true, c) ↦
            let n = if c.conn.skt.throttle_on then throttled + 1 else throttled in
            let h₁ = update p (check_heartbeat cfg now (record (h p) { peer = c })) h in
            publish_each calls m size ps n (if n == size then sleeps + 1 else sleeps) h₁
      ]

  -- bool publish(const T& m)
  unfoldable pub publish :
      (ℕ → Call) → MdDelta → DeltaDispatcher → Option (Bool × ℕ × DeltaDispatcher)
  publish calls m d =
      let conn_list = get_subscribed_connections m.symbol d in
      elim (publish_each calls (delta_msg m) (length conn_list) conn_list 0 0 d.heap) [
        | none ↦ none
        | some r ↦ some (r.ok, r.sleeps, record d { heap = r.heap })
      ]

-- MdServerConnection::on_login_accepted
unfoldable pub on_login_accepted : ℕ → MdServerConnection → MdServerConnection
on_login_accepted now c = record {
  peer = reset_hb_time now c.peer;
  observer = reset_tick_observer c.peer.name now c.observer;
}

abbrev pub set_peer :
    ℕ
    → Option Peer
    → DeltaDispatcher
    → (MdServerConnection → MdServerConnection)
    → Option DeltaDispatcher
set_peer p none d f = none
set_peer p (some c) d f =
    some (record d { heap = update p (f (record (d.heap p) { peer = c })) d.heap })

-- MdServerConnection::on_subscribe_msg
unfoldable pub on_subscribe_msg : ℕ → SubscribeMsg → DeltaDispatcher → DeltaDispatcher
on_subscribe_msg p m d = elim (m.symbols) [ [] ↦ d | s ∷ ss ↦ add_buscriptions p m.symbols d ]

-- The handlers of the connection at `p`, by the message; the others do nothing.
unfoldable pub on_message :
    (ℕ → ℕ → ℕ → SendResult) → ℕ → Call → ℕ → ℕ → Message → DeltaDispatcher → Option DeltaDispatcher
on_message answer fuel call now p (login_msg m) d =
    set_peer p (on_login_msg (answer p) fuel call now m (d.heap p).peer) d (on_login_accepted now)
on_message answer fuel call now p (hb_msg m) d =
    set_peer p (some (reset_hb_time now (d.heap p).peer)) d (λ c. c)
on_message answer fuel call now p (subscribe_msg m) d = some (on_subscribe_msg p m d)
on_message answer fuel call now p m d = some d
