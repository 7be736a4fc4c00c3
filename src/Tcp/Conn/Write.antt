-- ===== src/Tcp/Conn/Write.antt =====
-- WriteTo of tcp_linux.go. `serialize` is gopacket's SerializeLayers, with the options of the
-- fingerprint and the addresses of the checksum, and `send` a handle's write, on a state of its own.
use tcpraw.Base.{
  ℕ, ◌+◌, Bool, true, false, not, ◌&&◌, Option, none, some, [], ◌==◌, if◌then◌else◌, length, get_or,
  set, Bytes, u16, u32, Error, timeout, eof, flow_not_found, not_tcp_addr, Run, ok, panic, ◌>>=◌,
}
use tcpraw.Tcp.Addr.{Ip, NetAddr, no_addr, other_addr, tcp_addr, AddrKey, addr_split}
use tcpraw.Tcp.Flows.{TcpFlow, FlowTables, put, getflow}
use tcpraw.Tcp.Conn.{TcpConn, fired, local_addr}
use tcpraw.Tcp.Conn.Capture.{Segment}

-- The port of the local address, which must be a *net.TCPAddr.
abbrev pub port_of : NetAddr → Run ℕ
port_of (tcp_addr ip port) = ok port
port_of no_addr = panic
port_of other_addr = panic

-- The segment that is sent: the header's numbers are the flow's, and PSH and ACK are set.
unfoldable pub segment_of : ℕ → ℕ → TcpFlow → Bytes → Segment
segment_of lport rport e p = record {
  src_port = u16 lport;
  dst_port = u16 rport;
  seq = e.seq;
  ack = e.ack;
  has_syn = false;
  has_ack = true;
  has_psh = true;
  payload = p;
}

-- The flow after a payload was sent.
unfoldable pub advance : TcpFlow → Bytes → TcpFlow
advance e p = record e { seq = u32 (e.seq + length p) }

-- The flow is changed in place, through the pointer that getflow gave.
unfoldable pub store_flow : FlowTables → ℕ → AddrKey → TcpFlow → FlowTables
store_flow flows i key e = record flows {
  tables = set flows.tables i (put key e (get_or flows.tables i []));
}

-- The closure of WriteTo on the flow `e`: the flow after it, the state of the network, and the
-- number of bytes and the error that WriteTo returns.
unfoldable pub write_flow {ℓ} :
    {S : Type ℓ}
    → (Segment → Ip → ℕ → ℕ → Bytes)
    → (S → ℕ → Bytes → Ip → S × ℕ × Option Error)
    → ℕ
    → ℕ
    → Ip
    → ℕ
    → TcpFlow
    → S
    → Bytes
    → Run (TcpFlow × S × ℕ × Option Error)
unfolding segment_of advance
write_flow serialize send window lport ip rport e s p = elim e.handle [
  | none ↦ ok (e, s, 0, none)
  | some handle ↦
      let out = serialize (segment_of lport rport e p) ip handle window in
      let (s', n, err) = send s handle out ip in
      elim err [
        | some x ↦ ok (e, s', n, some x)
        | none ↦ if n == length out then ok (advance e p, s', length p, none) else panic
      ]
]

-- `WriteTo`. The default case of the select is taken when no other is ready; `die_first` says which
-- one is taken when the deadline has passed on a closed connection.
unfoldable pub write_to {ℓ} :
    {S : Type ℓ}
    → (Segment → Ip → ℕ → ℕ → Bytes)
    → (S → ℕ → Bytes → Ip → S × ℕ × Option Error)
    → Bool
    → ℕ
    → TcpConn
    → S
    → Bytes
    → NetAddr
    → Run (TcpConn × S × ℕ × Option Error)
unfolding addr_split getflow local_addr write_flow store_flow
write_to serialize send die_first now conn s p addr =
    if fired conn.write_deadline now && not (conn.closed && die_first)
    then ok (conn, s, 0, some timeout)
    else if conn.closed
    then ok (conn, s, 0, some eof)
    else elim addr [
      | no_addr ↦ ok (conn, s, 0, some not_tcp_addr)
      | other_addr ↦ ok (conn, s, 0, some not_tcp_addr)
      | tcp_addr ip rport ↦ port_of (local_addr conn) >>= λ lport.
          addr_split (tcp_addr ip rport) >>= λ key. getflow conn.flows key >>= λ (found, i).
          elim found [
            | none ↦ ok (conn, s, 0, some flow_not_found)
            | some e ↦
                write_flow serialize send conn.window lport ip rport e s p >>= λ (e', s', n, err).
                ok (record conn { flows = store_flow conn.flows i key e' }, s', n, err)
          ]
    ]
