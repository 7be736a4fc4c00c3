-- ===== src/Tcp/Conn/Segments.antt =====
-- What decodeTCPPacket and WriteTo do to the flow table, seen as one map.
use tcpraw.Base.{
  ℕ, ◌+◌, ◌<◌, ◌≡◌, refl, ap, ◌∙◌, Bool, true, false, not, u32, ==_ne, ◌==◌, ◌&&◌, Option, none,
  some, List, [], ◌∷◌, ◌++◌, ltb, leb, if◌then◌else◌, length, Bytes, ok, panic, arith, Bool-cases,
  inl, inr, ==_refl,
}
use tcpraw.Tcp.Addr.{v4, tcp_addr, AddrKey, same_key}
use tcpraw.Tcp.Flows.{TcpFlow, or_new, can_log, init_flow_table}
use tcpraw.Tcp.Flows.Sharded.{
  IsValid, lookup, lockflow-lookup, lockflow-unnamed, init_flow_table-IsValid,
}
use tcpraw.Tcp.Conn.{TcpConn, Message, is_named, fresh_conn, max_payload_size, channel_capacity}
use tcpraw.Tcp.Conn.Capture.{Segment, is_none, next_ack, update_flow, enqueue, decode_tcp_packet}

-- The flow of a peer before and after a segment.
abbrev pub known_flow : TcpConn → ℕ → AddrKey → TcpFlow
known_flow conn now key = or_new now (lookup conn.flows key)

-- Whether the select puts a message into the channel.
abbrev pub accepts : Bool → TcpConn → Bool
accepts die_first conn =
    ltb (length conn.ch_message) channel_capacity && not (conn.closed && die_first)

-- The messages after a segment from the peer `a` on the flow `e`.
abbrev pub messages_after : Bool → TcpConn → ℕ → Segment → TcpFlow → List Message
messages_after die_first conn a seg e =
    if (not (is_none e.conn) && seg.has_psh) && accepts die_first conn
    then conn.ch_message ++ record { bts = seg.payload; addr = tcp_addr (v4 a) seg.src_port } ∷ []
    else conn.ch_message

-- The flow `e` after a segment: it has the handle and the time of the capture. With ACK, the number
-- to send next is the segment's. The number that is expected next is behind SYN, or behind the
-- payload of a segment with PSH that begins at the expected number; else it stays.
abbrev pub flow_after : ℕ → ℕ → Segment → TcpFlow → TcpFlow
flow_after now handle seg e = record {
  conn = e.conn;
  handle = some handle;
  seq = if seg.has_ack then seg.ack else e.seq;
  ack =
      if seg.has_syn
      then u32 (seg.seq + 1)
      else if seg.has_psh && (e.ack == seg.seq)
      then u32 (seg.seq + length seg.payload)
      else e.ack;
  ts = now;
}

-- The number behind a SYN is not the number of the segment.
next_ack-after :
    (seg : Segment) (ack : ℕ)
    → seg.seq < 4294967296
    → next_ack seg ack ≡ (
        if seg.has_syn
        then u32 (seg.seq + 1)
        else if seg.has_psh && (ack == seg.seq)
        then u32 (seg.seq + length seg.payload)
        else ack)
unfolding next_ack
next_ack-after seg ack small =
    let apart : (u32 (seg.seq + 1) == seg.seq) ≡ false =
      ==_ne (u32 (seg.seq + 1)) seg.seq (λ e. absurd (omega (arith, e))) in
    elim (Bool-cases seg.has_syn) [
      | inl syn ↦ elim (Bool-cases seg.has_psh) [
        | inl psh ↦ rw (syn, psh, apart) refl
        | inr no_psh ↦ rw (syn, no_psh) refl
      ]
      | inr no_syn ↦ rw no_syn refl
    ]

-- Listen starts captureFlow for its handles before it has its system listener. Whatever segment for
-- the port comes to the connection that it has then, from whatever IPv4 address, makes the code
-- panic.
pub decode_tcp_packet-before_listener :
    (parse : Bytes → Option Segment) (die_first : Bool) (now : ℕ) (buf : Bytes)
    (a handle port window : ℕ) (seg : Segment)
    → parse buf ≡ some seg
    → seg.dst_port ≡ port
    → decode_tcp_packet parse die_first (fresh_conn 8 window) now buf (v4 a) handle port ≡ panic
unfolding decode_tcp_packet
decode_tcp_packet-before_listener parse die_first now buf a handle port window seg parsed to_port =
    let key : AddrKey = record { dip = a; dport = seg.src_port } in
    let (v, empty) = init_flow_table-IsValid 8 (omega arith) in
    let stops =
      lockflow-unnamed (init_flow_table 8) v key now (update_flow now handle seg) (empty key) in
    rw (parsed, decode_tcp_packet) (rw (to_port, ==_refl port, stops) refl)

module _ (parse : Bytes → Option Segment) (die_first : Bool) (conn : TcpConn) (now : ℕ)
    (buf : Bytes) (a handle port : ℕ) (seg : Segment) where
  -- On well-formed tables a segment for this port, smaller than the buffer, does not make the code
  -- panic, when the connection has a system connection or a listener to log, or the sender a flow.
  -- It changes exactly the sender's flow, which is made first where there is none: the flow gets
  -- this handle and this time; with ACK its next number to send is that of the segment; the number
  -- that it expects is behind SYN, or behind the payload where PSH is set and the segment begins at
  -- the expected number, and else stays. And its payload is queued for the user exactly when the
  -- flow has its system connection, PSH is set, the channel has room and the select does not take
  -- the closed `die`. The tables stay well formed.
  pub decode_tcp_packet-flow :
      IsValid conn.flows
      → parse buf ≡ some seg
      → seg.dst_port ≡ port
      → seg.seq < 4294967296
      → can_log (is_named conn) (lookup conn.flows (record { dip = a; dport = seg.src_port }))
        ≡ true
      → length seg.payload < max_payload_size
      → (conn' : TcpConn) × (decode_tcp_packet parse die_first conn now buf (v4 a) handle port
          ≡ ok (conn', none))
        × IsValid conn'.flows
        × (lookup conn'.flows (record { dip = a; dport = seg.src_port })
            ≡ some (
                flow_after now handle seg
                  (known_flow conn now (record { dip = a; dport = seg.src_port }))))
        × ((other : AddrKey)
            → same_key (record { dip = a; dport = seg.src_port }) other ≡ false
            → lookup conn'.flows other ≡ lookup conn.flows other)
        × (conn'.ch_message
            ≡ messages_after die_first conn a seg
                (known_flow conn now (record { dip = a; dport = seg.src_port })))
  unfolding decode_tcp_packet update_flow enqueue
  decode_tcp_packet-flow v parsed to_port numbered logs small =
      let key : AddrKey = record { dip = a; dport = seg.src_port } in
      let (flows', run, v', found, others) =
        lockflow-lookup conn.flows v key now (update_flow now handle seg) (is_named conn) logs in
      let conn' : TcpConn = record conn { flows = flows' } in
      let msg : Message = record { bts = seg.payload; addr = tcp_addr (v4 a) seg.src_port } in
      let e = known_flow conn now key in
      let same : lookup flows' key ≡ some (flow_after now handle seg e) =
        found
        ∙ ap
            (λ (n : ℕ). some (record {
              conn = e.conn;
              handle = some handle;
              seq = if seg.has_ack then seg.ack else e.seq;
              ack = n;
              ts = now;
            }))
            (next_ack-after seg e.ack numbered) in
      let fits : leb max_payload_size (length seg.payload) ≡ false = ground arith in
      elim (Bool-cases (not (is_none e.conn) && seg.has_psh)) [
        | inl pushes ↦ elim (Bool-cases (accepts die_first conn)) [
          | inl accepted ↦ (
            record conn' { ch_message = conn.ch_message ++ msg ∷ [] },
            rw (parsed, decode_tcp_packet)
                (rw (to_port, ==_refl port, run, pushes, fits, accepted)),
            v',
            same,
            others,
            rw (pushes, accepted),
          )
          | inr refused ↦ (
            conn',
            rw (parsed, decode_tcp_packet) (rw (to_port, ==_refl port, run, pushes, fits, refused)),
            v',
            same,
            others,
            rw (pushes, refused),
          )
        ]
        | inr kept ↦ (
          conn',
          rw (parsed, decode_tcp_packet) (rw (to_port, ==_refl port, run, kept)),
          v',
          same,
          others,
          rw kept,
        )
      ]
