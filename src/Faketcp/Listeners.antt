-- ===== src/Faketcp/Listeners.antt =====
-- Listeners of faketcp/listeners.go: the connections of several listeners come together in one
-- channel. The listeners and their goroutines are known by the listener's index, and a connection by
-- that index and its number. `held` is the connection that a goroutine has in hand; the first call
-- of Accept starts these goroutines, one for a listener.
pub mod System
pub mod Order
pub mod Opening
use tcpraw.Tcp.Conn.{TcpConn}
use tcpraw.Base.{
  Run, ok, ◌>>=◌, ℕ, Bool, true, false, Option, none, some, List, [], ◌∷◌, ◌++◌, ltb, ◌==◌,
  if◌then◌else◌, length, Error, context_done,
}
use tcpraw.Faketcp.Listener.{close_listener, Listener, new_listener, accept}

pub record Listeners : Type 0 where
  pub listeners : ℕ → Listener
  pub held : ℕ → Option ℕ
  pub conn_chan : List (ℕ × ℕ)
  pub done : Bool

abbrev pub chan_capacity : ℕ
chan_capacity = 1024

-- One value of a table by index is changed.
abbrev pub put_at {ℓ} : {A : Type ℓ} → (ℕ → A) → ℕ → A → ℕ → A
put_at f i x j = if j == i then x else f j

-- `FakeTcpListeners`, where every listener could be made.
unfoldable pub new_listeners : Option (ℕ × ℕ) → Listeners
unfolding new_listener
new_listeners make_fec = record {
  listeners = λ i. new_listener make_fec;
  held = λ i. none;
  conn_chan = [];
  done = false;
}

-- The call of Accept in the goroutine for the listener `i`; `none` is a goroutine that waits, that
-- still has a connection in hand, or that has ended with an error.
abbrev pub take_conn :
    ℕ → Listeners → Option (Listener × (Option ℕ × Option Error)) → Option ℕ → Option Listeners
take_conn i s answer (some id) = none
take_conn i s none none = none
take_conn i s (some (l, (none, err))) none = none
take_conn i s (some (l, (some id, err))) none =
    some (record s { listeners = put_at s.listeners i l; held = put_at s.held i (some id) })

unfoldable pub forward_take : Bool → ℕ → Listeners → Option Listeners
unfolding accept
forward_take done_first i s = take_conn i s (accept done_first (s.listeners i)) (s.held i)

-- The send of the goroutine, which waits while the channel is full.
abbrev pub send_conn : ℕ → Listeners → Bool → Option ℕ → Option Listeners
send_conn i s room none = none
send_conn i s false (some id) = none
send_conn i s true (some id) =
    some (record s { held = put_at s.held i none; conn_chan = s.conn_chan ++ (i, id) ∷ [] })

unfoldable pub forward_send : ℕ → Listeners → Option Listeners
forward_send i s = send_conn i s (ltb (length s.conn_chan) chan_capacity) (s.held i)

-- The select of `Accept`; `done_first` says what it takes when both are ready, `none` that it waits.
abbrev pub accept_from :
    Bool → Bool → Listeners → List (ℕ × ℕ) → Option (Listeners × (Option (ℕ × ℕ) × Option Error))
accept_from done_first false s [] = none
accept_from done_first true s [] = some (s, (none, some context_done))
accept_from true true s (c ∷ cs) = some (s, (none, some context_done))
accept_from false true s (c ∷ cs) = some (record s { conn_chan = cs }, (some c, none))
accept_from done_first false s (c ∷ cs) = some (record s { conn_chan = cs }, (some c, none))

unfoldable pub accept_any : Bool → Listeners → Option (Listeners × (Option (ℕ × ℕ) × Option Error))
accept_any done_first s = accept_from done_first s.done s s.conn_chan

-- `Close`, which closes the listeners with these indices, one after another, each up to its wait,
-- and does not cancel the context; `none` where the loop of one has not ended on its fuel.
unfoldable pub close_listeners : ℕ → ℕ → (ℕ → TcpConn) → List ℕ → Listeners → Run (Option Listeners)
unfolding close_listener
close_listeners now fuel conns [] s = ok (some s)
close_listeners now fuel conns (i ∷ is) s =
    let rest = λ (s' : Listeners). close_listeners now fuel conns is s' in
    close_listener now fuel (conns i) (s.listeners i) >>= λ (conn, actions, o). elim o [
      | none ↦ ok none
      | some l ↦ rest (record s { listeners = put_at s.listeners i l })
    ]
