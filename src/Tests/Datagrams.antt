-- ===== src/Tests/Datagrams.antt =====
-- A UDP publisher and a UDP subscriber.
use data_spinner.Base.{
  All, ℕ, ◌≡◌, refl, arith, false, Option, some, List, [], ◌∷◌, ◌++◌, length, length-append,
  replicate, take,
}
use data_spinner.Buffer.{capacity}
use data_spinner.Wire.{le_bytes}
use data_spinner.Archive.Writing.{bytes_str, bytes_all, bytes_vec}
use data_spinner.Records.{LoginMsg, new_login}
use data_spinner.Records.Forms.{bytes_hb, bytes_login}
use data_spinner.Message.{Message, hb_msg, bytes_message}
use data_spinner.Frame.Layout.{IsPacket, bytes_packet, length-bytes_packet}
use data_spinner.Udp.{SockAddr, Network, SendEnv, RecvEnv, datagram, recv_error}
use data_spinner.Udp.Subscriber.{UdpSubscriber, udp_subscriber_readcb}
use data_spinner.Udp.Publisher.{
  Cfg, UdpPublisher, find_subscriber, new_conn_info, udp_publisher_readcb,
}
use data_spinner.Udp.Publish.{publish_to_subscribed}
use data_spinner.Udp.Delivery.{TookDatagram, udp_subscriber_readcb-TookDatagram}
use data_spinner.Udp.Stale.{udp_subscriber_readcb_stale}
use data_spinner.Udp.Table.{IsTable}
use data_spinner.Udp.Invariant.{
  started, called_back, published, new_udp_publisher, Reachable-IsTable,
}
use data_spinner.Udp.Sends.{IsEnv, IsSmall}
use data_spinner.Udp.Login.{LoggedIn, login_packet, udp_publisher_readcb-LoggedIn}
use data_spinner.Udp.EndToEnd.{Delivers, addresses, publish_to_subscribed-Delivers}
use data_spinner.Tests.Data.{
  sevens, blanks, blanks-IsBlank, a_packet, three_packets-IsPacket, no_stat, length-replicate,
}

abbrev client : SockAddr
client = record { sin_family = 2; sin_port = 80; sin_addr = 7 }

abbrev settings : Cfg
settings = record { check_every_n_tick = 1; upd_every_nsec = 2; hb_timeout_sec = 30 }

abbrev sends_all : ℕ → ℕ → Option ℕ
sends_all i n = some n

abbrev sender : SendEnv
sender = record { time_stamp = λ i. 12; garbage = λ i. sevens }

sender-IsEnv : IsEnv sender
sender-IsEnv = record {
  arrays = λ i. length-replicate {A = ℕ} capacity 7;
  clock = λ i. omega arith;
}

abbrev receiver : List ℕ → RecvEnv
receiver garbage = record {
  garbage = garbage;
  blanks = blanks;
  usec = 100;
  sec = 1;
  idle_on_delta = false;
  upd_every = 10;
}

abbrev silence : Network
silence = record { calls = 0; sent = [] }

abbrev heartbeat : Message
heartbeat = hb_msg (record { counter = 5 })

heartbeat-IsSmall : IsSmall heartbeat
unfolding bytes_message bytes_hb le_bytes
heartbeat-IsSmall = record { message_valid = omega arith; record_fits = omega arith }

abbrev one_client : UdpPublisher
one_client = record {
  subscribers_count = 1;
  subscribers = (client, new_conn_info settings 1 (98 ∷ [])) ∷ [];
  stat = no_stat;
}

one_client-IsTable : IsTable one_client
unfolding find_subscriber
one_client-IsTable = record { distinct = (refl, tt); counted = refl }

abbrev a_subscriber : UdpSubscriber
a_subscriber = record { reader_session_index = 0; stat = no_stat; inbox = [] }

udp_subscriber_readcb-TookDatagram_example :
    TookDatagram (receiver sevens) client a_packet a_subscriber (
      udp_subscriber_readcb
        (receiver sevens)
        (datagram client (bytes_packet a_packet))
        a_subscriber)
udp_subscriber_readcb-TookDatagram_example =
    udp_subscriber_readcb-TookDatagram (receiver sevens) client a_packet a_subscriber
      three_packets-IsPacket.0 blanks-IsBlank (length-replicate {A = ℕ} capacity 7)

-- The array of the callback holds the packet already.
abbrev stale : List ℕ
stale = bytes_packet a_packet ++ replicate 2028 7

stale-whole : length stale ≡ capacity
unfolding bytes_message bytes_hb le_bytes
stale-whole = omega (
  arith,
  length-append (bytes_packet a_packet) (replicate 2028 7),
  length-bytes_packet a_packet,
  length-replicate {A = ℕ} 2028 7,
)

udp_subscriber_readcb_stale_example : TookDatagram (receiver stale) client a_packet a_subscriber (
    udp_subscriber_readcb
      (receiver stale)
      (datagram client (take 3 (bytes_packet a_packet)))
      a_subscriber)
udp_subscriber_readcb_stale_example =
    udp_subscriber_readcb_stale (receiver stale) client a_packet (replicate 2028 7) 3 a_subscriber
      three_packets-IsPacket.0 blanks-IsBlank stale-whole refl (omega arith)

abbrev a_login : LoginMsg
a_login = new_login (98 ∷ 111 ∷ 98 ∷ []) (120 ∷ [])

a_login-IsPacket : IsPacket (login_packet 12 0 a_login)
unfolding bytes_message bytes_login bytes_str bytes_all bytes_vec le_bytes new_login
a_login-IsPacket = record {
  stamp_fits = omega arith;
  session_fits = omega arith;
  message_valid = omega arith;
  record_fits = omega arith;
}

udp_publisher_readcb-LoggedIn_example :
    LoggedIn settings sender 1 client a_login (new_udp_publisher no_stat) silence (
      udp_publisher_readcb sends_all settings
        (receiver sevens)
        sender
        (datagram client (bytes_packet (login_packet 12 0 a_login)))
        (new_udp_publisher no_stat)
        silence)
udp_publisher_readcb-LoggedIn_example =
    udp_publisher_readcb-LoggedIn sends_all (λ i n. refl) sender sender-IsEnv settings client
      a_login silence (receiver sevens) 12 0 (new_udp_publisher no_stat) a_login-IsPacket
      (length-replicate {A = ℕ} capacity 7)

-- An error before any login, and a heartbeat that is published.
abbrev after_error : UdpPublisher
after_error =
    (udp_publisher_readcb sends_all settings (receiver sevens) sender (recv_error client)
      (new_udp_publisher no_stat) silence).1

Reachable-IsTable_example :
    IsTable (publish_to_subscribed sends_all settings sender 100 heartbeat after_error silence).1
Reachable-IsTable_example =
    Reachable-IsTable sends_all settings
      (publish_to_subscribed sends_all settings sender 100 heartbeat after_error silence).1
      (published sender 100 heartbeat silence after_error (
        called_back (receiver sevens) sender (recv_error client) silence (new_udp_publisher no_stat)
          (started no_stat)))

publish_to_subscribed-Delivers_example :
    (addresses
        (publish_to_subscribed sends_all settings sender 100 heartbeat one_client silence).2.sent
      ≡ client ∷ [])
    × All
        (Delivers (receiver sevens) client heartbeat a_subscriber)
        (publish_to_subscribed sends_all settings sender 100 heartbeat one_client silence).2.sent
publish_to_subscribed-Delivers_example =
    publish_to_subscribed-Delivers sender sender-IsEnv heartbeat heartbeat-IsSmall (receiver sevens)
      blanks-IsBlank (length-replicate {A = ℕ} capacity 7) client a_subscriber sends_all
      (λ i n. refl) settings 100 0 one_client one_client-IsTable
