-- ===== src/Tcp/Conn.antt =====
-- tcpConn of tcp_linux.go: the state of a connection, how Dial and Listen set it up, its addresses
-- and deadlines, and Close. The sockets, iptables and the kernel's filter act outside the program:
-- what is done to them is a list of actions. `Capture` and `Capturing` are the receiving side,
-- `Read` and `Write` the two calls of the user; `Segments`, `Sending`, `Sync`, `Opening` and
-- `Closing` hold theorems.
pub mod Capture
pub mod Capturing
pub mod Datagrams
pub mod Read
pub mod Write
pub mod Segments
pub mod Sending
pub mod Sync
pub mod Opening
pub mod Closing
use tcpraw.Base.{
  ℕ, ◌+◌, ◌%◌, Bool, true, false, Option, none, some, List, [], ◌∷◌, ◌++◌, map, leb, if◌then◌else◌,
  Bytes, Run, ok, panic, ◌>>=◌,
}
use tcpraw.Tcp.Addr.{NetAddr, no_addr, other_addr, tcp_addr, addr_split}
use tcpraw.Tcp.Flows.{TcpFlow, Table, FlowTables, init_flow_table, lockflow, release}
use tcpraw.Tcp.Action.{
  Rule, Action, set_ttl, close_conn, close_handle, close_listener, delete_rule, leave_list,
}

pub record Message : Type 0 where
  pub bts : Bytes
  pub addr : NetAddr

-- The system connection of a client, and the system listener of a server.
pub record Dialed : Type 0 where
  pub socket : ℕ
  pub local : NetAddr
  pub remote : NetAddr

pub record Listening : Type 0 where
  pub socket : ℕ
  pub local : NetAddr

-- `closed` says that the channel `die` is closed, which dieOnce does once. `iptables` and
-- `ip6tables` are the rules that the connection has appended there. `window` is of the fingerprint.
pub record TcpConn : Type 0 where
  pub closed : Bool
  pub tcpconn : Option Dialed
  pub listener : Option Listening
  pub handles : List ℕ
  pub iptables : Option Rule
  pub ip6tables : Option Rule
  pub ch_message : List Message
  pub flows : FlowTables
  pub read_deadline : Option ℕ
  pub write_deadline : Option ℕ
  pub window : ℕ

abbrev pub max_payload_size : ℕ
max_payload_size = 52048

abbrev pub channel_capacity : ℕ
channel_capacity = 2048

abbrev pub fresh_conn : ℕ → ℕ → TcpConn
fresh_conn sharding window = record {
  closed = false;
  tcpconn = none;
  listener = none;
  handles = [];
  iptables = none;
  ip6tables = none;
  ch_message = [];
  flows = init_flow_table sharding;
  read_deadline = none;
  write_deadline = none;
  window = window;
}

-- The connection has a system connection or a listener, whose address lockflow logs.
abbrev pub is_named : TcpConn → Bool
is_named conn = elim conn.tcpconn [
  | some d ↦ true
  | none ↦ elim conn.listener [ some l ↦ true | none ↦ false ]
]

-- The closure of Dial and of Listen that gives a flow its system connection.
abbrev pub bind_conn : ℕ → TcpFlow → ℕ → Unit {0} × TcpFlow
bind_conn socket e i = (tt, record e { conn = some socket })

-- What Dial makes of a system connection and a handle, before it starts to capture.
unfoldable pub dial_conn : Dialed → ℕ → ℕ → ℕ → Run TcpConn
unfolding init_flow_table addr_split lockflow
dial_conn dialed handle window now =
    let conn : TcpConn = record (fresh_conn 1 window) { tcpconn = some dialed } in
    addr_split dialed.remote >>= λ key.
    lockflow (is_named conn) conn.flows now key (bind_conn dialed.socket) >>= λ (flows, _).
    ok (record conn { flows = flows; handles = handle ∷ [] })

-- What Listen makes of a system listener and its handles.
unfoldable pub listen_conn : Listening → List ℕ → ℕ → TcpConn
unfolding init_flow_table
listen_conn listening handles window = record (fresh_conn 8 window) {
  listener = some listening;
  handles = handles;
}

-- The accept loop of Listen, for one accepted connection.
unfoldable pub accept_conn : TcpConn → ℕ → NetAddr → ℕ → Run TcpConn
unfolding addr_split lockflow
accept_conn conn socket remote now = addr_split remote >>= λ key.
    lockflow (is_named conn) conn.flows now key (bind_conn socket) >>= λ (flows, _).
    ok (record conn { flows = flows })

-- A timer that has been set has fired.
abbrev pub fired : Option ℕ → ℕ → Bool
fired none now = false
fired (some d) now = leb d now

-- `SetReadDeadline`, `SetWriteDeadline` and `SetDeadline`; the zero time is `none`.
unfoldable pub set_read_deadline : Option ℕ → TcpConn → TcpConn
set_read_deadline t conn = record conn { read_deadline = t }

unfoldable pub set_write_deadline : Option ℕ → TcpConn → TcpConn
set_write_deadline t conn = record conn { write_deadline = t }

unfoldable pub set_deadline : Option ℕ → TcpConn → TcpConn
unfolding set_read_deadline set_write_deadline
set_deadline t conn = set_write_deadline t (set_read_deadline t conn)

-- `LocalAddr` and `RemoteAddr`
unfoldable pub local_addr : TcpConn → NetAddr
local_addr conn = elim conn.tcpconn [
  | some d ↦ d.local
  | none ↦ elim conn.listener [ some l ↦ l.local | none ↦ no_addr ]
]

unfoldable pub remote_addr : TcpConn → NetAddr
remote_addr conn = elim conn.tcpconn [ some d ↦ d.remote | none ↦ no_addr ]

-- The flows of a map, each released, and those of all maps.
unfoldable pub release_table : Table → List Action
release_table [] = []
release_table ((k, e) ∷ t) = release e.conn ++ release_table t

unfoldable pub release_tables : List Table → List Action
unfolding release_table
release_tables [] = []
release_tables (t ∷ ts) = release_table t ++ release_tables ts

-- The rule that the connection appended is deleted.
abbrev pub delete_own : Option Rule → List Action
delete_own none = []
delete_own (some rule) = delete_rule rule ∷ []

-- The end of Close: the handles, the rules of iptables and the list of connections.
unfoldable pub last_actions : TcpConn → List Action
last_actions conn =
    map close_handle conn.handles
    ++ (delete_own conn.iptables ++ (delete_own conn.ip6tables ++ leave_list ∷ []))

-- `Close`: the connection after it, and what is done outside of it.
unfoldable pub close : TcpConn → TcpConn × List Action
unfolding release_tables last_actions
close conn =
    if conn.closed
    then (conn, [])
    else let end_actions = last_actions conn in
      let closed_conn : TcpConn = record conn { closed = true } in
      elim conn.tcpconn [
        | some d ↦ (closed_conn, set_ttl d.socket 64 ∷ close_conn d.socket ∷ end_actions)
        | none ↦ elim conn.listener [
          | none ↦ (closed_conn, end_actions)
          | some l ↦
              let flows : FlowTables = record conn.flows {
                tables = map (λ (t : Table). []) conn.flows.tables;
              } in
              (
                record closed_conn { flows = flows },
                close_listener l.socket ∷ (release_tables conn.flows.tables ++ end_actions),
              )
        ]
      ]
