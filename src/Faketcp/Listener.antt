-- ===== src/Faketcp/Listener.antt =====
-- Listener of faketcp/listener.go. Its connections are numbered in the order in which they are made,
-- and the maps hold these numbers; Go does not fix the order of a map, for which the list's order
-- stands. Locks make each operation one step.
pub mod Closing
pub mod Routing
pub mod Loop
pub mod Invariant
pub mod Preserved
pub mod Ticks
pub mod System
pub mod Reach
pub mod Options
pub mod Opening
use tcpraw.Base.{
  ℕ, zero, suc, ◌+◌, ◌-◌, Bool, true, false, Option, none, some, List, [], ◌∷◌, ◌++◌, ltb, ◌==◌,
  if◌then◌else◌, length, get_elem?, set, Bytes, Error, context_done, Run, ok, panic, ◌>>=◌, index,
}
use tcpraw.Tcp.Addr.{NetAddr, AddrKey, same_key, addr_to_key}
use tcpraw.Tcp.Action.{Action}
use tcpraw.Tcp.Conn.{TcpConn, close}
use tcpraw.Fec.Codec.{Codec}
use tcpraw.Fec.Channel.{Fec, new_fec}
use tcpraw.Faketcp.FakeConn.{FakeConn, new_fake_conn, push}

-- `done` says that the context is cancelled. `make_fec` is the setting of WithListenerFec.
pub record Listener : Type 0 where
  pub conns : List FakeConn
  pub conn_map : List (AddrKey × ℕ)
  pub delay_map : List (ℕ × ℕ)
  pub conn_chan : List ℕ
  pub done : Bool
  pub make_fec : Option (ℕ × ℕ)

abbrev pub accept_capacity : ℕ
accept_capacity = 1024

-- `NewFakeTcpListener` with its options.
unfoldable pub new_listener : Option (ℕ × ℕ) → Listener
new_listener make_fec = record {
  conns = [];
  conn_map = [];
  delay_map = [];
  conn_chan = [];
  done = false;
  make_fec = make_fec;
}

unfoldable pub find_conn : AddrKey → List (AddrKey × ℕ) → Option ℕ
find_conn key [] = none
find_conn key ((k, id) ∷ m) = if same_key k key then some id else find_conn key m

unfoldable pub delete_conn : AddrKey → List (AddrKey × ℕ) → List (AddrKey × ℕ)
delete_conn key [] = []
delete_conn key ((k, id) ∷ m) =
    let rest = delete_conn key m in if same_key k key then rest else (k, id) ∷ rest

unfoldable pub fec_of : (ℕ → ℕ → Option Codec) → Option (ℕ × ℕ) → Option Fec
unfolding new_fec
fec_of new_codec none = none
fec_of new_codec (some (data_shards, parity_shards)) =
    some (new_fec new_codec data_shards parity_shards 0)

-- The two cases of acceptDataLoopv2: the address has a connection, or a new one is offered to
-- Accept.
unfoldable pub give_data :
    (ℕ → ℕ → Option Codec) → ℕ → Listener → Bytes → NetAddr → AddrKey → Option ℕ → Run Listener
unfolding fec_of push new_fake_conn
give_data new_codec now l bytes addr key (some id) =
    index l.conns id >>= λ fc. ok (record l { conns = set l.conns id (push now fc bytes) })
give_data new_codec now l bytes addr key none =
    if ltb (length l.conn_chan) accept_capacity
    then (let fc = new_fake_conn addr (fec_of new_codec l.make_fec) in
        ok (record l {
          conns = l.conns ++ push now fc bytes ∷ [];
          conn_map = (key, length l.conns) ∷ l.conn_map;
          conn_chan = l.conn_chan ++ length l.conns ∷ [];
        }))
    else ok l

-- A turn of acceptDataLoopv2, and of acceptDataLoop, which copies the data first.
unfoldable pub accept_data : (ℕ → ℕ → Option Codec) → ℕ → Listener → Bytes → NetAddr → Run Listener
unfolding find_conn give_data
accept_data new_codec now l bytes addr =
    addr_to_key addr >>= λ key. give_data new_codec now l bytes addr key (find_conn key l.conn_map)

-- `Accept`: what the select on the context and on `connChan` takes, where `done_first` says which
-- one is taken when both are ready; `none` means that it waits.
unfoldable pub accept : Bool → Listener → Option (Listener × (Option ℕ × Option Error))
accept done_first l = elim l.conn_chan [
  | [] ↦ if l.done then some (l, (none, some context_done)) else none
  | id ∷ ids ↦
      if l.done
      then if done_first
        then some (l, (none, some context_done))
        else some (record l { conn_chan = ids }, (some id, none))
      else some (record l { conn_chan = ids }, (some id, none))
]

abbrev pub delay_time : ℕ
delay_time = 10000000000

abbrev pub expire_time : ℕ
expire_time = 60000000000

-- `deleteFakeConn`, of the connection's address.
unfoldable pub delete_fake_conn : FakeConn → Listener → Run Listener
unfolding delete_conn
delete_fake_conn fc l =
    addr_to_key fc.addr >>= λ key. ok (record l { conn_map = delete_conn key l.conn_map })

-- `m[fc] = t` of delayMap.
unfoldable pub put_delay : ℕ → ℕ → List (ℕ × ℕ) → List (ℕ × ℕ)
put_delay id t [] = (id, t) ∷ []
put_delay id t ((i, s) ∷ m) = if i == id then (i, t) ∷ m else (i, s) ∷ put_delay id t m

-- The method `close` of a FakeConn.
unfoldable pub close_conn : Bool → ℕ → ℕ → Listener → Run Listener
unfolding delete_fake_conn put_delay
close_conn immediately now id l = index l.conns id >>= λ fc.
    if fc.closed
    then ok l
    else let l' : Listener = record l { conns = set l.conns id (record fc { closed = true }) } in
      if immediately
      then delete_fake_conn fc l'
      else ok (record l' { delay_map = put_delay id (now + delay_time) l.delay_map })

-- The loop of closeAllFakeConns, on fuel; `none` is a loop that has not ended.
unfoldable pub close_all : ℕ → ℕ → Listener → Run (Option Listener)
unfolding close_conn
close_all now zero l = elim l.conn_map [ [] ↦ ok (some l) | _ ∷ _ ↦ ok none ]
close_all now (suc fuel) l =
    let again = λ (l' : Listener). close_all now fuel l' in
    elim l.conn_map [ [] ↦ ok (some l) | (k, id) ∷ _ ↦ close_conn true now id l >>= again ]

-- What Close of the listener does to its TcpConn, and then the listener after the loop.
abbrev pub Closed : Type 0
Closed = TcpConn × List Action × Option Listener

-- The method `Close` of a listener that listens, up to where it waits for the goroutines: the
-- context is cancelled, the TcpConn is closed, then all connections are.
unfoldable pub close_listener : ℕ → ℕ → TcpConn → Listener → Run Closed
unfolding close_all close
close_listener now fuel conn l =
    let (conn', actions) = close conn in
    close_all now fuel (record l { done = true }) >>= λ o. ok (conn', actions, o)

-- The tick of `cleaner` that deletes the connections closed some time ago: the loop over delayMap,
-- of which `kept` is what stays.
unfoldable pub clean_entries : ℕ → List (ℕ × ℕ) → List (ℕ × ℕ) → Listener → Run Listener
unfolding delete_fake_conn
clean_entries now kept [] l = ok (record l { delay_map = kept })
clean_entries now kept ((id, t) ∷ m) l =
    let dropped = λ (l' : Listener). clean_entries now kept m l' in
    let stays = clean_entries now (kept ++ (id, t) ∷ []) m l in
    if ltb t now then (index l.conns id >>= λ fc. delete_fake_conn fc l >>= dropped) else stays

unfoldable pub clean_delayed : ℕ → Listener → Run Listener
unfolding clean_entries
clean_delayed now l = clean_entries now [] l.delay_map l

-- The tick of `cleaner` for connections without packets: the numbers that it collects, which it then
-- closes.
unfoldable pub expired_conns : ℕ → List FakeConn → List (AddrKey × ℕ) → Run (List ℕ)
expired_conns now conns [] = ok []
expired_conns now conns ((k, id) ∷ m) = index conns id >>= λ fc.
    expired_conns now conns m >>= λ ids.
    ok (if ltb expire_time (now - fc.ts) then id ∷ ids else ids)

unfoldable pub close_each : ℕ → List ℕ → Listener → Run Listener
unfolding close_conn
close_each now [] l = ok l
close_each now (id ∷ ids) l =
    let rest = λ (l' : Listener). close_each now ids l' in close_conn true now id l >>= rest

unfoldable pub clean_expired : ℕ → Listener → Run Listener
unfolding expired_conns close_each
clean_expired now l = expired_conns now l.conns l.conn_map >>= λ ids. close_each now ids l
