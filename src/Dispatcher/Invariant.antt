-- ===== src/Dispatcher/Invariant.antt =====
-- What every operation of DeltaDispatcher (src/tcp_publisher.cpp) keeps.
use data_spinner.Base.{ℕ, ◌≡◌, refl, arith, Bool, Option, none, some, [], length}
use data_spinner.Records.{SubscribeMsg}
use data_spinner.Delta.{MdDelta}
use data_spinner.Message.{Message, login_msg, hb_msg, subscribe_msg, delta_msg}
use data_spinner.Queue.{SendResult}
use data_spinner.Connection.{Call}
use data_spinner.Session.{Peer, close_peer, on_login_msg}
use data_spinner.Dispatcher.{
  MdServerConnection, HbCfg, Heap, update, DeltaDispatcher, Publication, create_connection,
  dispose_connection, publish_each, publish, get_subscribed_connections, set_peer, on_subscribe_msg,
  on_message, on_login_accepted,
}
use data_spinner.Dispatcher.Table.{
  IsDispatcher, create_connection-IsDispatcher, dispose_connection-IsDispatcher,
  add_buscriptions-IsDispatcher,
}

-- Whatever state there is, satisfies the invariant.
abbrev Keeps : Option DeltaDispatcher → Type 0
Keeps none = Unit
Keeps (some d) = IsDispatcher d

abbrev pub with_heap : Heap → DeltaDispatcher → DeltaDispatcher
with_heap h d = record d { heap = h }

with_heap-IsDispatcher :
    (h : Heap) (d : DeltaDispatcher) → IsDispatcher d → IsDispatcher (with_heap h d)
with_heap-IsDispatcher h d v = record { distinct = v.distinct; counted = v.counted }

set_peer-Keeps :
    (p : ℕ) (o : Option Peer) (d : DeltaDispatcher) (f : MdServerConnection → MdServerConnection)
    → IsDispatcher d
    → Keeps (set_peer p o d f)
set_peer-Keeps p none d f v = tt
set_peer-Keeps p (some c) d f v = with_heap-IsDispatcher _ d v

on_subscribe_msg-IsDispatcher :
    (p : ℕ) (m : SubscribeMsg) (d : DeltaDispatcher)
    → IsDispatcher d
    → IsDispatcher (on_subscribe_msg p m d)
unfolding on_subscribe_msg
on_subscribe_msg-IsDispatcher p m d v =
    let added = add_buscriptions-IsDispatcher p m.symbols d v in ground (arith, added)

module _ (answer : ℕ → ℕ → ℕ → SendResult) (fuel : ℕ) (cfg : HbCfg) where
  on_message-Keeps :
      (call : Call) (now p : ℕ) (m : Message) (d : DeltaDispatcher)
      → IsDispatcher d
      → Keeps (on_message answer fuel call now p m d)
  unfolding on_message
  on_message-Keeps call now p (login_msg m) d v =
      set_peer-Keeps p (on_login_msg (answer p) fuel call now m (d.heap p).peer) d
        (on_login_accepted now) v
  on_message-Keeps call now p (hb_msg m) d v = with_heap-IsDispatcher _ d v
  on_message-Keeps call now p (subscribe_msg m) d v = on_subscribe_msg-IsDispatcher p m d v
  on_message-Keeps call now p m d v = v

  abbrev state_of : Option (Bool × ℕ × DeltaDispatcher) → Option DeltaDispatcher
  state_of none = none
  state_of (some r) = some r.2

  publish-Keeps :
      (now : ℕ) (calls : ℕ → Call) (m : MdDelta) (d : DeltaDispatcher)
      → IsDispatcher d
      → Keeps (state_of (publish answer fuel cfg now calls m d))
  unfolding publish
  publish-Keeps now calls m d v =
      let conn_list = get_subscribed_connections m.symbol d in
      go (
        publish_each answer fuel cfg now calls (delta_msg m) (length conn_list) conn_list 0 0
          d.heap)
    where
      go :
          (o : Option Publication)
          → Keeps (
              state_of
                (elim o [ none ↦ none | some r ↦ some (r.ok, r.sleeps, with_heap r.heap d) ]))
      go none = tt
      go (some r) = with_heap-IsDispatcher r.heap d v

  -- The states in which the dispatcher can be: connections are made and disposed of, close, have their
  -- messages handled, and deltas are published.
  pub data Reachable : DeltaDispatcher → Type 0 where
    started : (h : Heap) → Reachable (record { connections_count = 0; connections = []; heap = h })
    created :
        (p : ℕ) (c : MdServerConnection) (d : DeltaDispatcher)
        → Reachable d
        → Reachable (create_connection p c d)
    disposed : (p : ℕ) (d : DeltaDispatcher) → Reachable d → Reachable (dispose_connection p d)
    closed :
        (p : ℕ) (d : DeltaDispatcher)
        → Reachable d
        → Reachable (
            with_heap (update p (record (d.heap p) { peer = close_peer (d.heap p).peer }) d.heap) d)
    handled :
        (call : Call) (now p : ℕ) (m : Message) (d d' : DeltaDispatcher)
        → Reachable d
        → on_message answer fuel call now p m d ≡ some d'
        → Reachable d'
    published :
        (now : ℕ) (calls : ℕ → Call) (m : MdDelta) (d d' : DeltaDispatcher)
        → Reachable d
        → state_of (publish answer fuel cfg now calls m d) ≡ some d'
        → Reachable d'

  -- Whatever connections come and go, whatever messages their clients send, whatever is published and however
  -- send(2) answers, no two entries of the dispatcher's table have the same connection, and its counter is
  -- the size of the table as a uint16_t.
  pub Reachable-IsDispatcher : {d : DeltaDispatcher} → Reachable d → IsDispatcher d
  Reachable-IsDispatcher (started h) = record { distinct = tt; counted = refl }
  Reachable-IsDispatcher (created p c d r) =
      create_connection-IsDispatcher p c d (Reachable-IsDispatcher r)
  Reachable-IsDispatcher (disposed p d r) =
      dispose_connection-IsDispatcher p d (Reachable-IsDispatcher r)
  Reachable-IsDispatcher (closed p d r) = with_heap-IsDispatcher _ d (Reachable-IsDispatcher r)
  Reachable-IsDispatcher (handled call now p m d d' r e) =
      rw e at (on_message-Keeps call now p m d (Reachable-IsDispatcher r))
  Reachable-IsDispatcher (published now calls m d d' r e) =
      rw e at (publish-Keeps now calls m d (Reachable-IsDispatcher r))
