-- ===== src/Tests/TcpRuns.antt =====
-- A server with one peer, 10.0.0.1 at port 4000, whose flow has a system connection and a handle.
use tcpraw.Base.{
  panic, ◌≢◌, ◌⊎◌, ◌%◌, flow_not_found, ℕ, ◌≡◌, ◌⊎◌, refl, true, false, Option, none, some, List,
  [], ◌∷◌, ◌++◌, Bytes, Error, eof, ok, arith, length,
}
use tcpraw.Tcp.Addr.{
  Ip, v4, NetAddr, tcp_addr, AddrKey, same_key, hash_number, addr_to_key, addr_split,
  addr_to_key-addr_split,
}
use tcpraw.Tcp.Flows.{TcpFlow, FlowTables, find, lockflow, clean}
use tcpraw.Tcp.Flows.Table.{fresh_only}
use tcpraw.Tcp.Flows.Sharded.{IsValid, lookup, lockflow-lookup}
use tcpraw.Tcp.Flows.Expiry.{clean-lookup}
use tcpraw.Tcp.Conn.{TcpConn, fresh_conn, Listening, close, fired, local_addr}
use tcpraw.Tcp.Conn.Capture.{Segment, decode_tcp_packet}
use tcpraw.Tcp.Conn.Read.{on_message, read_from, read_from_v2, cut_reading, read_from-read_from_v2}
use tcpraw.Tcp.Conn.Write.{advance, write_to}
use tcpraw.Tcp.Conn.Segments.{
  decode_tcp_packet-before_listener, known_flow, flow_after, messages_after, decode_tcp_packet-flow,
}
use tcpraw.Tcp.Conn.Sending.{write_to-unknown}
use tcpraw.Tcp.Conn.Sync.{
  segments, advance_all, receive_all, receive_all-in_order, lost_payload-resync,
}
use tcpraw.Tcp.Conn.Closing.{close-write_to}

abbrev pub peer_ip : ℕ
peer_ip = 0x0a000001

abbrev pub peer : NetAddr
peer = tcp_addr (v4 peer_ip) 4000

abbrev pub peer_key : AddrKey
peer_key = record { dip = peer_ip; dport = 4000 }

abbrev pub peer_flow : TcpFlow
peer_flow = record { conn = some 7; handle = some 3; seq = 50; ack = 90; ts = 0 }

abbrev pub one_flow : FlowTables
one_flow = record { sharding = 1; tables = ((peer_key, peer_flow) ∷ []) ∷ [] }

pub one_flow-IsValid : IsValid one_flow
unfolding find
one_flow-IsValid = record { pos = omega arith; counted = refl; distinct = ((refl, tt), tt) }

abbrev pub server : Listening
server = record { socket = 1; local = tcp_addr (v4 0x0a000002) 9191 }

abbrev pub server_conn : TcpConn
server_conn = record {
  closed = false;
  tcpconn = none;
  listener = some server;
  handles = 3 ∷ [];
  iptables = none;
  ip6tables = none;
  ch_message = [];
  flows = one_flow;
  read_deadline = none;
  write_deadline = none;
  window = 64240;
}

abbrev pub data_segment : Segment
data_segment = record {
  src_port = 4000;
  dst_port = 9191;
  seq = 90;
  ack = 50;
  has_syn = false;
  has_ack = true;
  has_psh = true;
  payload = 5 ∷ 6 ∷ [];
}

abbrev pub parse_data : Bytes → Option Segment
parse_data b = some data_segment

decode_tcp_packet-flow_example :
    (conn' : TcpConn) × (decode_tcp_packet parse_data true server_conn 8 [] (v4 peer_ip) 3 9191
      ≡ ok (conn', none))
    × IsValid conn'.flows
    × (lookup conn'.flows peer_key
        ≡ some (flow_after 8 3 data_segment (known_flow server_conn 8 peer_key)))
    × ((other : AddrKey)
        → same_key peer_key other ≡ false
        → lookup conn'.flows other ≡ lookup one_flow other)
    × (conn'.ch_message
        ≡ messages_after true server_conn peer_ip data_segment (known_flow server_conn 8 peer_key))
unfolding find hash_number
decode_tcp_packet-flow_example =
    decode_tcp_packet-flow parse_data true server_conn 8 [] peer_ip 3 9191 data_segment
      one_flow-IsValid refl refl (omega arith) refl (omega arith)

decode_tcp_packet-before_listener_example :
    decode_tcp_packet parse_data true (fresh_conn 8 64240) 8 [] (v4 peer_ip) 3 9191 ≡ panic
decode_tcp_packet-before_listener_example =
    decode_tcp_packet-before_listener parse_data true 8 [] peer_ip 3 9191 64240 data_segment refl
      refl

abbrev bare : Segment → Ip → ℕ → ℕ → Bytes
bare seg ip handle window = seg.payload

abbrev log_send : List Bytes → ℕ → Bytes → Ip → List Bytes × ℕ × Option Error
log_send log handle out ip = (log ++ out ∷ [], length out, none)

abbrev count_visit : TcpFlow → ℕ → ℕ × TcpFlow
count_visit e i = (i, record e { ts = 9 })

lockflow-lookup_example :
    (flows' : FlowTables) × (lockflow false one_flow 9 peer_key count_visit ≡ ok (flows', 0))
    × IsValid flows'
    × (lookup flows' peer_key ≡ some (record peer_flow { ts = 9 }))
    × ((other : AddrKey)
        → same_key peer_key other ≡ false
        → lookup flows' other ≡ lookup one_flow other)
unfolding hash_number find
lockflow-lookup_example =
    lockflow-lookup one_flow one_flow-IsValid peer_key 9 count_visit false refl

clean-lookup_example :
    IsValid ((clean one_flow 60000000001).0)
    × ((key : AddrKey)
        → lookup ((clean one_flow 60000000001).0) key
          ≡ fresh_only 60000000001 (lookup one_flow key))
clean-lookup_example = clean-lookup one_flow 60000000001 one_flow-IsValid

read_from-read_from_v2_example :
    read_from on_message 1 0 server_conn ≡ cut_reading 1 (read_from_v2 on_message 0 server_conn)
read_from-read_from_v2_example = read_from-read_from_v2 on_message 1 0 server_conn

addr_to_key-addr_split_example :
    ((ip port : ℕ) × (peer ≡ tcp_addr (v4 ip) port)
      × (addr_to_key peer ≡ ok (record { dip = ip; dport = port % 65536 }))
      × (addr_split peer ≡ ok (record { dip = ip; dport = port % 65536 })))
    ⊎ (((ip port : ℕ) → peer ≢ tcp_addr (v4 ip) port) × (addr_to_key peer ≡ panic))
addr_to_key-addr_split_example = addr_to_key-addr_split peer

-- The other end of the flow, which expects what `peer_flow` sends next.
abbrev far_flow : TcpFlow
far_flow = record { conn = some 8; handle = some 4; seq = 90; ack = 50; ts = 0 }

receive_all-in_order_example :
    (receive_all 0 4 far_flow (segments 9191 4000 peer_flow ((1 ∷ []) ∷ (2 ∷ 3 ∷ []) ∷ []))).ack
    ≡ (advance_all peer_flow ((1 ∷ []) ∷ (2 ∷ 3 ∷ []) ∷ [])).seq
receive_all-in_order_example =
    receive_all-in_order 9191 4000 0 4 ((1 ∷ []) ∷ (2 ∷ 3 ∷ []) ∷ []) peer_flow far_flow refl

lost_payload-resync_example :
    ((receive_all 0 4 far_flow
        (segments 9191 4000 (advance peer_flow (1 ∷ [])) ((2 ∷ 3 ∷ []) ∷ []))).ack
      ≡ 50)
    × ((receive_all 0 4 (advance_all peer_flow ((1 ∷ []) ∷ (2 ∷ 3 ∷ []) ∷ [])) (
          segments 4000 9191
            (receive_all 0 4 far_flow
              (segments 9191 4000 (advance peer_flow (1 ∷ [])) ((2 ∷ 3 ∷ []) ∷ [])))
            ((9 ∷ []) ∷ []))).seq
        ≡ 50)
lost_payload-resync_example =
    lost_payload-resync 9191 4000 0 4 (1 ∷ []) ((2 ∷ 3 ∷ []) ∷ []) (9 ∷ []) peer_flow far_flow refl
      (omega arith) (omega arith) (omega arith)

close-write_to_example :
    (err : Error) × (write_to bare log_send true 8 ((close server_conn).0) [] (1 ∷ 2 ∷ []) peer
      ≡ ok ((close server_conn).0, [], 0, some err))
    × ((err ≡ eof) ⊎ (fired (((close server_conn).0).write_deadline) 8 ≡ true))
close-write_to_example = close-write_to bare log_send true 8 server_conn [] (1 ∷ 2 ∷ []) peer

write_to-unknown_example :
    write_to bare log_send true 8 server_conn [] (1 ∷ 2 ∷ []) (tcp_addr (v4 peer_ip) 4001)
    ≡ ok (server_conn, [], 0, some flow_not_found)
unfolding local_addr find hash_number
write_to-unknown_example =
    write_to-unknown bare log_send true 8 server_conn [] (1 ∷ 2 ∷ []) peer_ip 4001 9191
      (v4 0x0a000002) one_flow-IsValid refl refl refl refl
