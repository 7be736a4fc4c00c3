-- ===== src/Faketcp/Listener/Loop.antt =====
-- The turns of acceptDataLoopv2 on the TcpConn: how a segment reaches a connection, and what the
-- loop does when the TcpConn is closed.
use tcpraw.Base.{
  ℕ, ◌<◌, ◌≡◌, refl, ap, ◌∙◌, Bool, true, false, Option, none, some, [], ◌∷◌, ◌++◌, length, Bytes,
  Error, ◌⊎◌, inl, inr, Run, ok, panic, ◌>>=◌, u16, Bool-cases,
}
use tcpraw.Tcp.Addr.{v4, tcp_addr, AddrKey, addr_to_key}
use tcpraw.Tcp.Flows.{TcpFlow, or_new, can_log}
use tcpraw.Tcp.Flows.Sharded.{IsValid, lookup}
use tcpraw.Tcp.Conn.{TcpConn, Message, is_named, max_payload_size, close, fired}
use tcpraw.Tcp.Conn.Capture.{Segment, decode_tcp_packet}
use tcpraw.Tcp.Conn.Read.{
  Choice, on_deadline, on_die, on_message, read_from_v2, read_from_v2-message,
}
use tcpraw.Tcp.Conn.Segments.{known_flow, decode_tcp_packet-flow}
use tcpraw.Tcp.Conn.Closing.{close-closed}
use tcpraw.Fec.Codec.{Codec}
use tcpraw.Faketcp.FakeConn.{new_fake_conn, push}
use tcpraw.Faketcp.Listener.{Listener, find_conn, fec_of, accept_data, accept_capacity}
use tcpraw.Faketcp.Listener.Routing.{accept_data-new}

-- What the loop does with what ReadFromv2 returns: an error is a panic.
abbrev pub take_reading :
    (ℕ → ℕ → Option Codec) → ℕ → Listener → TcpConn × (Error ⊎ Message) → Run (TcpConn × Listener)
take_reading new_codec now l (conn, inl e) = panic
take_reading new_codec now l (conn, inr m) =
    accept_data new_codec now l m.bts m.addr >>= λ l'. ok (conn, l')

abbrev pub take_turn :
    (ℕ → ℕ → Option Codec)
    → ℕ
    → Listener
    → Option (TcpConn × (Error ⊎ Message))
    → Option (Run (TcpConn × Listener))
take_turn new_codec now l none = none
take_turn new_codec now l (some reading) = some (take_reading new_codec now l reading)

-- A turn of the loop; `none` is a read that waits.
unfoldable pub accept_turn :
    (ℕ → ℕ → Option Codec) → Choice → ℕ → TcpConn → Listener → Option (Run (TcpConn × Listener))
unfolding read_from_v2 accept_data
accept_turn new_codec choice now conn l = take_turn new_codec now l (read_from_v2 choice now conn)

-- A read that does not give a message.
NoMessage : Option (TcpConn × (Error ⊎ Message)) → Type 0
NoMessage none = Unit {0}
NoMessage (some (conn, inl e)) = Unit {0}
NoMessage (some (conn, inr m)) = ⊥

read_from_v2-NoMessage :
    (choice : Choice) (now : ℕ) (conn : TcpConn)
    → conn.ch_message ≡ []
    → NoMessage (read_from_v2 choice now conn)
unfolding read_from_v2 NoMessage
read_from_v2-NoMessage on_deadline now conn empty =
    elim (Bool-cases (fired conn.read_deadline now)) [
      | inl past ↦ rw past tt
      | inr future ↦ rw future tt
    ]
read_from_v2-NoMessage on_die now conn empty = elim (Bool-cases conn.closed) [
  | inl done ↦ rw done tt
  | inr live ↦ rw live tt
]
read_from_v2-NoMessage on_message now conn empty = rw (NoMessage, empty) tt

turn-panic :
    (new_codec : ℕ → ℕ → Option Codec) (now : ℕ) (l : Listener)
    (o : Option (TcpConn × (Error ⊎ Message))) (r : Run (TcpConn × Listener))
    → NoMessage o
    → take_turn new_codec now l o ≡ some r
    → r ≡ panic
unfolding NoMessage
turn-panic new_codec now l none r n e = cc
turn-panic new_codec now l (some (conn, inl err)) r n e = cc
turn-panic new_codec now l (some (conn, inr m)) r n e = absurd n

-- The TcpConn under a listener has been closed and no message is in its channel: then the accept
-- loop has a next turn, in which the closing is seen, and whatever turn it takes next is a panic.
pub accept_turn-closed :
    (new_codec : ℕ → ℕ → Option Codec) (now : ℕ) (conn : TcpConn) (l : Listener)
    → ((close conn).0).ch_message ≡ []
    → (accept_turn new_codec on_die now ((close conn).0) l ≡ some panic)
      × ((choice : Choice) (r : Run (TcpConn × Listener))
          → accept_turn new_codec choice now ((close conn).0) l ≡ some r
          → r ≡ panic)
unfolding accept_turn read_from_v2
accept_turn-closed new_codec now conn l empty = (
  rw (close-closed conn),
  λ choice r e.
      turn-panic new_codec now l (read_from_v2 choice now ((close conn).0)) r
        (read_from_v2-NoMessage choice now ((close conn).0) empty) e,
)

-- A flow that has its system connection was in the table.
known-logs :
    (named : Bool) (now socket : ℕ) (found : Option TcpFlow)
    → (or_new now found).conn ≡ some socket
    → can_log named found ≡ true
known-logs named now socket none e = cc
known-logs named now socket (some f) e = refl

module _ (new_codec : ℕ → ℕ → Option Codec) (parse : Bytes → Option Segment) (die_first : Bool)
    (conn : TcpConn) (now : ℕ) (buf : Bytes) (a handle port : ℕ) (seg : Segment)
    (l : Listener) where
  -- A segment with data comes from a peer that the TcpConn knows and the listener does not, while
  -- the TcpConn is open with an empty channel, and the listener has room to accept: once it is
  -- decoded, the next turn of the accept loop makes a new connection for the peer, queued for
  -- Accept, which is open and has the segment's payload as its only packet, and the channel is empty
  -- again.
  pub segment-to_connection :
      (socket : ℕ)
      → IsValid conn.flows
      → parse buf ≡ some seg
      → seg.dst_port ≡ port
      → seg.seq < 4294967296
      → length seg.payload < max_payload_size
      → (known_flow conn now (record { dip = a; dport = seg.src_port })).conn ≡ some socket
      → seg.has_psh ≡ true
      → conn.closed ≡ false
      → conn.ch_message ≡ []
      → find_conn (record { dip = a; dport = u16 seg.src_port }) l.conn_map ≡ none
      → length l.conn_chan < accept_capacity
      → (conn₁ conn₂ : TcpConn) × (decode_tcp_packet parse die_first conn now buf (v4 a) handle port
          ≡ ok (conn₁, none))
        × (accept_turn new_codec on_message now conn₁ l
            ≡ some (
                ok (
                  conn₂,
                  record l {
                    conns =
                        l.conns
                        ++ record {
                          addr = tcp_addr (v4 a) seg.src_port;
                          recvch = seg.payload ∷ [];
                          recv_left = [];
                          ts = now;
                          tx_bytes = 0;
                          rx_bytes = 0;
                          drop_rx_bytes = 0;
                          fec = fec_of new_codec l.make_fec;
                          closed = false;
                        }
                          ∷ [];
                    conn_map =
                        (record { dip = a; dport = u16 seg.src_port }, length l.conns) ∷ l.conn_map;
                    conn_chan = l.conn_chan ++ length l.conns ∷ [];
                  },
                )))
        × (conn₂.ch_message ≡ [])
  unfolding accept_turn read_from_v2 addr_to_key new_fake_conn push
  segment-to_connection socket v parsed to_port numbered small bound psh live empty unknown room =
      let key : AddrKey = record { dip = a; dport = seg.src_port } in
      let (conn₁, ran, _, _, _, messages) =
        decode_tcp_packet-flow parse die_first conn now buf a handle port seg v parsed to_port
          numbered (known-logs (is_named conn) now socket (lookup conn.flows key) bound) small in
      let msg : Message = record { bts = seg.payload; addr = tcp_addr (v4 a) seg.src_port } in
      let one : conn₁.ch_message ≡ msg ∷ [] = messages ∙ simp (bound, psh, live, empty) in
      let taken : read_from_v2 on_message now conn₁
          ≡ some (record conn₁ { ch_message = [] }, inr msg) =
        read_from_v2-message now conn₁ msg [] one in
      (
        conn₁,
        record conn₁ { ch_message = [] },
        ran,
        ap (take_turn new_codec now l) taken
            ∙ ap (λ r. some (r >>= λ l'. ok (record conn₁ { ch_message = [] }, l')))
                (accept_data-new new_codec now l seg.payload (tcp_addr (v4 a) seg.src_port) _ refl
                  unknown room),
        refl,
      )
