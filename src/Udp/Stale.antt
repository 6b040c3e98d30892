-- ===== src/Udp/Stale.antt =====
-- udp_subscriber_readcb (src/udp_connection.cpp) on a datagram that was cut.
use data_spinner.Base.{
  ℕ, ◌≤◌, ◌<◌, ◌≡◌, ap, sym, ◌∙◌, arith, List, ◌++◌, length, take, drop, length-take, take-all,
  splice_prefix,
}
use data_spinner.Buffer.{capacity}
use data_spinner.Message.RoundTrip.{IsBlank}
use data_spinner.Frame.Layout.{Packet, IsPacket, bytes_packet, length-bytes_packet}
use data_spinner.Udp.{SockAddr, datagram, RecvEnv, recv_buff}
use data_spinner.Udp.Subscriber.{UdpSubscriber, udp_subscriber_readcb}
use data_spinner.Udp.Delivery.{TookDatagram, take_datagram_packet}

recv_buff_stale :
    (p : Packet) (garbage rest : List ℕ) (n : ℕ)
    → IsPacket p
    → garbage ≡ bytes_packet p ++ rest
    → recv_buff garbage (take n (bytes_packet p)) ≡ bytes_packet p ++ rest
unfolding recv_buff
recv_buff_stale p garbage rest n v holds =
    let part : List ℕ = take n (bytes_packet p) in
    let fits : length part ≤ capacity =
      omega (arith, length-take n (bytes_packet p), length-bytes_packet p, v.record_fits) in
    rw (take-all capacity part fits, holds)
      (ap (λ k. part ++ drop k (bytes_packet p ++ rest)) (omega arith)
        ∙ splice_prefix n (bytes_packet p) rest)

-- A datagram that was cut anywhere is handled as if it were whole, when the array of the callback,
-- which is not initialised, happens to hold the packet.
pub udp_subscriber_readcb_stale :
    (env : RecvEnv) (sin : SockAddr) (p : Packet) (rest : List ℕ) (n : ℕ) (c : UdpSubscriber)
    → IsPacket p
    → IsBlank env.blanks
    → length env.garbage ≡ capacity
    → env.garbage ≡ bytes_packet p ++ rest
    → 0 < n
    → TookDatagram env sin p c
        (udp_subscriber_readcb env (datagram sin (take n (bytes_packet p))) c)
unfolding udp_subscriber_readcb
udp_subscriber_readcb_stale env sin p rest n c v blank full holds some_bytes =
    rw (recv_buff_stale p env.garbage rest n v holds)
      (take_datagram_packet env sin p rest c v blank (ap length (sym holds) ∙ full))
