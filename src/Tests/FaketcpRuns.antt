-- ===== src/Tests/FaketcpRuns.antt =====
-- A connection with two packets in its channel, and a listener that has one connection.
use tcpraw.Base.{
  ℕ, ◌≡◌, refl, true, false, Option, none, some, [], ◌∷◌, ◌++◌, Run, ok, panic, arith,
}
use tcpraw.Tcp.Addr.{v4, NetAddr, tcp_addr, AddrKey, addr_to_key}
use tcpraw.Fec.Codec.{Codec}
use tcpraw.Fec.Channel.{Reading}
use tcpraw.Faketcp.FakeConn.{FakeConn, new_fake_conn, read, push}
use tcpraw.Faketcp.FakeConn.Stream.{stream, bytes_of, read-stream}
use tcpraw.Faketcp.Listener.{
  close_all, Listener, new_listener, accept_data, give_data, accept, close_listener, find_conn,
  fec_of,
}
use tcpraw.Faketcp.Listener.Closing.{close_all-ends, close_listener-stuck}
use tcpraw.Tcp.Addr.{hash_number}
use tcpraw.Tcp.Flows.{find}
use tcpraw.Tcp.Conn.{TcpConn, close}
use tcpraw.Tcp.Conn.Capture.{decode_tcp_packet}
use tcpraw.Tcp.Conn.Read.{Choice, on_message, on_die}
use tcpraw.Tests.TcpRuns.{peer_ip, one_flow-IsValid, server_conn, data_segment, parse_data}
use tcpraw.Faketcp.Listener.Loop.{accept_turn, accept_turn-closed, segment-to_connection}
use tcpraw.Faketcp.Listeners.{Listeners, put_at, new_listeners, forward_take}
use tcpraw.Faketcp.Listeners.System.{ReachAll, start_all, served_at, taken}
use tcpraw.Faketcp.Listeners.Order.{ReachAll-once}
use tcpraw.Faketcp.Listener.Invariant.{IsValid}
use tcpraw.Faketcp.Listener.System.{Reach, start, served, accepted, packet, user_close, serve, made}
use tcpraw.Faketcp.Listener.Reach.{Reach-IsValid, Reach-accepted_once, Reach-serve}

abbrev pub client_addr : NetAddr
client_addr = tcp_addr (v4 0x0a000001) 4000

abbrev client_key : AddrKey
client_key = record { dip = 0x0a000001; dport = 4000 }

abbrev pub two_packets : FakeConn
two_packets = record {
  addr = client_addr;
  recvch = (1 ∷ 2 ∷ 3 ∷ []) ∷ (4 ∷ []) ∷ [];
  recv_left = [];
  ts = 0;
  tx_bytes = 0;
  rx_bytes = 0;
  drop_rx_bytes = 0;
  fec = none;
  closed = false;
}

read-stream_example :
    (f' : FakeConn) × (r : Reading) × (read 2 two_packets ≡ ok (f', r))
    × (bytes_of r ++ stream f' ≡ 1 ∷ 2 ∷ 3 ∷ 4 ∷ [])
read-stream_example = read-stream 2 two_packets refl

abbrev pub one_conn : FakeConn → Listener
one_conn fc = record {
  conns = fc ∷ [];
  conn_map = (client_key, 0) ∷ [];
  delay_map = [];
  conn_chan = [];
  done = false;
  make_fec = none;
}

close_all-ends_example :
    (l' : Listener) × (close_all 5 1 (one_conn two_packets) ≡ ok (some l')) × (l'.conn_map ≡ [])
unfolding addr_to_key
close_all-ends_example =
    close_all-ends 5 1 (one_conn two_packets) ((two_packets, refl, refl, refl), tt) (omega arith)

abbrev closed_conn : FakeConn
closed_conn = record two_packets { closed = true }

close_listener-stuck_example :
    close_listener 5 1000 server_conn (one_conn closed_conn)
    ≡ ok ((close server_conn).0, (close server_conn).1, none)
close_listener-stuck_example =
    close_listener-stuck 5 1000 server_conn (one_conn closed_conn) client_key 0 [] closed_conn refl
      refl refl

abbrev pub no_codec : ℕ → ℕ → Option Codec
no_codec k p = none

abbrev no_conns : Listener
no_conns = record {
  conns = [];
  conn_map = [];
  delay_map = [];
  conn_chan = [];
  done = false;
  make_fec = none;
}

abbrev one_packet : Listener
one_packet = record no_conns {
  conns = push 1 (new_fake_conn client_addr none) (5 ∷ []) ∷ [];
  conn_map = (client_key, 0) ∷ [];
  conn_chan = 0 ∷ [];
}

-- A packet came, and its connection was accepted.
after_packet : Reach no_codec none [] one_packet
unfolding new_listener accept_data give_data find_conn addr_to_key fec_of
after_packet = served 1 (packet (5 ∷ []) 0x0a000001 4000) start tt refl

abbrev accepted_one : Listener
accepted_one = record one_packet { conn_chan = [] }

after_accept : Reach no_codec none (0 ∷ []) accepted_one
unfolding accept
after_accept = accepted true (some 0) none after_packet refl

Reach-IsValid_example : IsValid accepted_one
Reach-IsValid_example = Reach-IsValid no_codec none (0 ∷ []) accepted_one after_accept

Reach-accepted_once_example : (0 ∷ []) ++ accepted_one.conn_chan ≡ made 1
Reach-accepted_once_example = Reach-accepted_once no_codec none (0 ∷ []) accepted_one after_accept

Reach-serve_example :
    (l' : Listener) × (serve no_codec 2 (user_close 0) accepted_one ≡ ok l')
    × Reach no_codec none (0 ∷ []) l'
Reach-serve_example =
    Reach-serve no_codec none 2 (0 ∷ []) (user_close 0) accepted_one after_accept (omega arith)

segment-to_connection_example :
    (conn₁ conn₂ : TcpConn) × (decode_tcp_packet parse_data true server_conn 8 []
        (v4 peer_ip)
        3
        9191
      ≡ ok (conn₁, none))
    × (accept_turn no_codec on_message 8 conn₁ no_conns
        ≡ some (
            ok (
              conn₂,
              record no_conns {
                conns =
                    record (new_fake_conn client_addr none) { recvch = (5 ∷ 6 ∷ []) ∷ []; ts = 8 }
                    ∷ [];
                conn_map = (client_key, 0) ∷ [];
                conn_chan = 0 ∷ [];
              },
            )))
    × (conn₂.ch_message ≡ [])
unfolding find_conn fec_of find hash_number new_fake_conn
segment-to_connection_example =
    segment-to_connection no_codec parse_data true server_conn 8 [] peer_ip 3 9191 data_segment
      no_conns 7 one_flow-IsValid refl refl (omega arith) (omega arith) refl refl refl refl refl
      (omega arith)

accept_turn-closed_example :
    (accept_turn no_codec on_die 8 ((close server_conn).0) no_conns ≡ some panic)
    × ((choice : Choice) (r : Run (TcpConn × Listener))
        → accept_turn no_codec choice 8 ((close server_conn).0) no_conns ≡ some r
        → r ≡ panic)
unfolding close
accept_turn-closed_example = accept_turn-closed no_codec 8 server_conn no_conns refl

abbrev after_one : Listeners
after_one = record (new_listeners none) { listeners = put_at (λ i. no_conns) 0 one_packet }

abbrev after_take : Listeners
after_take = record after_one {
  listeners = put_at after_one.listeners 0 accepted_one;
  held = put_at (λ i. none) 0 (some 0);
}

one_taken : ReachAll no_codec none [] after_take
unfolding new_listener new_listeners accept_data give_data find_conn addr_to_key fec_of forward_take
    accept
one_taken = taken true 0 (served_at 0 1 (packet (5 ∷ []) 0x0a000001 4000) start_all tt refl) refl

ReachAll-once_example : ([] ++ ([] ++ 0 ∷ [])) ++ accepted_one.conn_chan ≡ made 1
unfolding new_listeners
ReachAll-once_example = ReachAll-once no_codec none 0 [] after_take one_taken
