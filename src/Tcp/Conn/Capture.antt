-- ===== src/Tcp/Conn/Capture.antt =====
-- The receiving side of tcp_linux.go: captureFlow and decodeTCPPacket. `parse` is gopacket's decoder
-- of a TCP segment, and `none` where the packet has no TCP layer.
use tcpraw.Base.{
  ℕ, ◌+◌, ◌*◌, ◌/◌, ◌%◌, Bool, true, false, not, ◌&&◌, ◌||◌, Option, none, some, List, [], ◌∷◌,
  ◌++◌, ltb, leb, ◌==◌, if◌then◌else◌, length, get_or, Bytes, u32, Error, wrong_port, Run, ok,
  panic, ◌>>=◌, slice_from, slice_to,
}
use tcpraw.Tcp.Addr.{Ip, v4, v6, tcp_addr}
use tcpraw.Tcp.Flows.{TcpFlow, lockflow}
use tcpraw.Tcp.Conn.{TcpConn, Message, is_named, max_payload_size, channel_capacity}

-- The fields of a TCP segment that the program reads.
pub record Segment : Type 0 where
  pub src_port : ℕ
  pub dst_port : ℕ
  pub seq : ℕ
  pub ack : ℕ
  pub has_syn : Bool
  pub has_ack : Bool
  pub has_psh : Bool
  pub payload : Bytes

abbrev pub is_none : Option ℕ → Bool
is_none none = true
is_none (some c) = false

-- The next number that is expected, after SYN and PSH.
unfoldable pub next_ack : Segment → ℕ → ℕ
next_ack seg ack =
    let ack' = if seg.has_syn then u32 (seg.seq + 1) else ack in
    if seg.has_psh && (ack' == seg.seq) then u32 (seg.seq + length seg.payload) else ack'

-- The closure of decodeTCPPacket: whether the flow is an orphan, and the flow after the segment.
unfoldable pub update_flow : ℕ → ℕ → Segment → TcpFlow → ℕ → Bool × TcpFlow
unfolding next_ack
update_flow now handle seg e i = (
  is_none e.conn,
  record {
    conn = e.conn;
    handle = some handle;
    seq = if seg.has_ack then seg.ack else e.seq;
    ack = next_ack seg e.ack;
    ts = now;
  },
)

-- The select on `chMessage` and `die`: where both are ready, `die_first` says which one it takes.
unfoldable pub enqueue : Bool → TcpConn → Message → TcpConn
enqueue die_first conn msg =
    if ltb (length conn.ch_message) channel_capacity && not (conn.closed && die_first)
    then record conn { ch_message = conn.ch_message ++ msg ∷ [] }
    else conn

-- `decodeTCPPacket`, from a peer at `ip`.
unfoldable pub decode_tcp_packet :
    (Bytes → Option Segment)
    → Bool
    → TcpConn
    → ℕ
    → Bytes
    → Ip
    → ℕ
    → ℕ
    → Run (TcpConn × Option Error)
unfolding update_flow lockflow enqueue
decode_tcp_packet parse die_first conn now buf ip handle target_port = elim (parse buf) [
  | none ↦ panic
  | some seg ↦
      if seg.dst_port == target_port
      then elim ip [
        | v6 _ ↦ panic
        | v4 a ↦
            lockflow (is_named conn) conn.flows now (record { dip = a; dport = seg.src_port })
              (update_flow now handle seg)
            >>= λ (flows, orphan).
                let conn' : TcpConn = record conn { flows = flows } in
                if not orphan && seg.has_psh
                then if leb max_payload_size (length seg.payload)
                  then panic
                  else ok (
                    enqueue die_first conn'
                        (record { bts = seg.payload; addr = tcp_addr (v4 a) seg.src_port }),
                    none,
                  )
                else ok (conn', none)
      ]
      else ok (conn, some wrong_port)
]

-- `getIPv4HeaderLen`
unfoldable pub get_ipv4_header_len : Bytes → ℕ
get_ipv4_header_len b =
    let first = get_or b 0 0 in
    let l = first % 16 * 4 in
    if ltb (length b) 20
    then 0
    else if not (first / 16 == 4)
    then 0
    else if ltb l 20 || ltb (length b) l
    then 0
    else l

-- A message of a batch: its buffer, how many bytes of it were read, and the peer.
pub record Received : Type 0 where
  pub buf : Bytes
  pub num_bytes : ℕ
  pub ip : Ip

-- The loop of captureFlow over a batch; `b[l:n]` panics where `n` is below `l`.
unfoldable pub capture_batch :
    (Bytes → Option Segment) → Bool → TcpConn → ℕ → ℕ → ℕ → List Received → Run TcpConn
unfolding get_ipv4_header_len decode_tcp_packet
capture_batch parse die_first conn now handle port [] = ok conn
capture_batch parse die_first conn now handle port (m ∷ ms) =
    let l = get_ipv4_header_len m.buf in
    let skip = capture_batch parse die_first conn now handle port ms in
    let next = λ (c : TcpConn). capture_batch parse die_first c now handle port ms in
    if l == 0
    then skip
    else (slice_to m.buf m.num_bytes >>= λ read. slice_from read l >>= λ segment.
        decode_tcp_packet parse die_first conn now segment m.ip handle port >>= λ (conn', err).
        next conn')
