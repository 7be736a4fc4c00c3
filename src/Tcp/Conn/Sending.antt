-- ===== src/Tcp/Conn/Sending.antt =====
-- What WriteTo does to the flow table, seen as one map.
use tcpraw.Base.{
  ℕ, ◌≡◌, Bool, true, false, Option, none, some, Bytes, u16, Error, flow_not_found, ok,
}
use tcpraw.Tcp.Addr.{Ip, v4, tcp_addr, AddrKey, addr_split}
use tcpraw.Tcp.Flows.{TcpFlow}
use tcpraw.Tcp.Flows.Sharded.{IsValid, lookup, getflow-lookup}
use tcpraw.Tcp.Conn.{TcpConn, fired, local_addr}
use tcpraw.Tcp.Conn.Capture.{Segment}
use tcpraw.Tcp.Conn.Write.{write_to}

abbrev pub key_of : ℕ → ℕ → AddrKey
key_of a rport = record { dip = a; dport = u16 rport }

module _ {ℓ} {S : Type ℓ} (serialize : Segment → Ip → ℕ → ℕ → Bytes)
    (send : S → ℕ → Bytes → Ip → S × ℕ × Option Error) (die_first : Bool) (now : ℕ) (conn : TcpConn)
    (s : S) (p : Bytes) (a rport lport : ℕ) (lip : Ip) (v : IsValid conn.flows)
    (live : conn.closed ≡ false) (in_time : fired conn.write_deadline now ≡ false)
    (from : local_addr conn ≡ tcp_addr lip lport) where
  -- Before the deadline, an open connection that writes to a peer of whom the well-formed tables
  -- have no flow gets the error for that, sends nothing and stays as it was.
  pub write_to-unknown :
      lookup conn.flows (key_of a rport) ≡ none
      → write_to serialize send die_first now conn s p (tcp_addr (v4 a) rport)
        ≡ ok (conn, s, 0, some flow_not_found)
  unfolding write_to addr_split
  write_to-unknown absent =
      simp (in_time, live, from, getflow-lookup conn.flows v (key_of a rport), absent)

  -- The segment that carries the payload: with ACK and PSH, and the numbers of the flow.
  abbrev pub data_segment : TcpFlow → Segment
  data_segment e = record {
    src_port = u16 lport;
    dst_port = u16 rport;
    seq = e.seq;
    ack = e.ack;
    has_syn = false;
    has_ack = true;
    has_psh = true;
    payload = p;
  }

  abbrev constant : TcpFlow → TcpFlow → ℕ → Unit {0} × TcpFlow
  constant e _ _ = (tt, e)
