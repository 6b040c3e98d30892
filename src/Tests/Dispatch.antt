-- ===== src/Tests/Dispatch.antt =====
-- The dispatcher of deltas with two connections.
use data_spinner.Base.{
  ℕ, ◌≡◌, ◌↔◌, ◌||◌, ◌==◌, refl, arith, true, some, [], ◌∷◌, if◌then◌else◌, All,
}
use data_spinner.Buffer.{capacity}
use data_spinner.Wire.{le_bytes}
use data_spinner.Delta.Forms.{bytes_delta, bytes_sor}
use data_spinner.Archive.Writing.{bytes_str, bytes_all}
use data_spinner.Message.{delta_msg, bytes_message}
use data_spinner.Connection.{Call}
use data_spinner.Tick.{new_observer}
use data_spinner.Session.Sending.{CanSend}
use data_spinner.Dispatcher.{
  MdServerConnection, HbCfg, DeltaDispatcher, Heap, contains, find_connection, create_connection,
  get_subscribed_connections, subscribed_connections, add_buscriptions, publish,
}
use data_spinner.Text.{same_str}
use data_spinner.Dispatcher.Publish.{Completes, IsIn}
use data_spinner.Dispatcher.Table.{IsDispatcher}
use data_spinner.Dispatcher.Invariant.{started, created, Reachable-IsDispatcher}
use data_spinner.Dispatcher.Reach.{
  Published, is_subscribed, publish-Published, get_subscribed_connections-add_buscriptions,
}
use data_spinner.Tests.Data.{no_stat, a_delta, a_delta-IsDelta, length-replicate}
use data_spinner.Tests.Queues.{a_socket, takes_all, takes_all-IsWhole}
use data_spinner.Tests.Links.{a_connection, first_call}

abbrev pub a_server : MdServerConnection
a_server = record {
  peer = record {
    conn = a_connection;
    socket = a_socket;
    name = 98 ∷ [];
    reader_session_index = 0;
    last_hb_time = 90;
    stat = no_stat;
  };
  observer = new_observer 1 2;
}

abbrev servers : Heap
servers p = a_server

-- Connection 1 is subscribed to "MS" and connection 2 to nothing.
abbrev two_connections : DeltaDispatcher
two_connections = record {
  connections_count = 2;
  connections = (1, (77 ∷ 83 ∷ []) ∷ []) ∷ (2, []) ∷ [];
  heap = servers;
}

two_connections-IsDispatcher : IsDispatcher two_connections
unfolding find_connection
two_connections-IsDispatcher = record { distinct = (refl, (refl, tt)); counted = refl }

abbrev settings : HbCfg
settings = record { check_every_n_tick = 1; hb_timeout_sec = 30 }

abbrev calls : ℕ → Call
calls p = first_call

server-CanSend : CanSend 1 first_call (delta_msg a_delta) a_server.peer
unfolding bytes_message bytes_delta bytes_sor bytes_all bytes_str le_bytes
server-CanSend = record {
  array = length-replicate {A = ℕ} capacity 7;
  packet_valid = record {
    stamp_fits = omega arith;
    session_fits = omega arith;
    message_valid = a_delta-IsDelta;
    record_fits = omega arith;
  };
  sendable = tt;
  enough_fuel = omega arith;
}

subscribed-CanSend :
    All
      (λ p. CanSend 1 (calls p) (delta_msg a_delta) (two_connections.heap p).peer)
      (get_subscribed_connections a_delta.symbol two_connections)
unfolding get_subscribed_connections subscribed_connections contains same_str
subscribed-CanSend = (server-CanSend, tt)

publish-Published_example :
    Completes
      (Published calls a_delta two_connections)
      (publish (λ p. takes_all) 1 settings 100 calls a_delta two_connections)
publish-Published_example =
    publish-Published (λ p. takes_all) (λ p. takes_all-IsWhole) 1 settings 100 calls a_delta
      two_connections two_connections-IsDispatcher subscribed-CanSend

abbrev empty_dispatcher : DeltaDispatcher
empty_dispatcher = record { connections_count = 0; connections = []; heap = servers }

Reachable-IsDispatcher_example : IsDispatcher (create_connection 3 a_server empty_dispatcher)
Reachable-IsDispatcher_example =
    Reachable-IsDispatcher (λ p. takes_all) 1 settings
      (created 3 a_server empty_dispatcher (started servers))

connection_two : find_connection 2 two_connections.connections ≡ some []
unfolding find_connection
connection_two = refl

get_subscribed_connections-add_buscriptions_example :
    IsIn 1 (
      get_subscribed_connections
        (77 ∷ 83 ∷ [])
        (add_buscriptions 2 ((77 ∷ []) ∷ []) two_connections))
    ↔ (((two_connections.heap 1).peer.conn.is_valid ≡ true)
        × ((if 2 == 1
              then contains (77 ∷ 83 ∷ []) ((77 ∷ []) ∷ [])
                || is_subscribed 1 (77 ∷ 83 ∷ []) two_connections.connections
              else is_subscribed 1 (77 ∷ 83 ∷ []) two_connections.connections)
            ≡ true))
get_subscribed_connections-add_buscriptions_example =
    get_subscribed_connections-add_buscriptions 2 1 (77 ∷ 83 ∷ []) ((77 ∷ []) ∷ []) []
      two_connections two_connections-IsDispatcher connection_two
