-- ===== src/Faketcp/Listener/System.antt =====
-- The listener as a system of interleaved steps: the turns of its accept loop, of its cleaner, of
-- Accept and of the connections' Close.
use tcpraw.Base.{
  true, ℕ, zero, suc, ◌<◌, ◌≡◌, Bool, false, Option, none, some, List, [], ◌∷◌, ◌++◌, length,
  get_elem?, Bytes, Error, Run, ok,
}
use tcpraw.Tcp.Addr.{v4, tcp_addr, AddrKey}
use tcpraw.Fec.Codec.{Codec}
use tcpraw.Faketcp.Listener.{
  Listener, new_listener, accept_data, accept, close_conn, clean_delayed, clean_expired,
}

-- What the goroutines of a listener do, but for Accept and for reads of the TcpConn that fail: a
-- packet from an IPv4 address is taken from the TcpConn, the user closes a connection, one of the
-- cleaner's tickers fires, Close of the listener cancels the context, or its loop closes a
-- connection of connMap, at any place of the map.
pub data Event : Type 0 where
  packet : Bytes → ℕ → ℕ → Event
  user_close : ℕ → Event
  delete_tick expire_tick cancelled : Event
  close_turn : ℕ → Event

-- `FatchOneFakeConn`: Go does not say which connection of the map it finds.
unfoldable pub fetch_one : ℕ → Listener → Option (AddrKey × ℕ)
fetch_one place l = get_elem? l.conn_map place

-- A turn of the loop of closeAllFakeConns, which ends where there is no connection.
unfoldable pub close_found : ℕ → Listener → Option (AddrKey × ℕ) → Run Listener
unfolding close_conn
close_found now l none = ok l
close_found now l (some (key, id)) = close_conn true now id l

abbrev pub serve : (ℕ → ℕ → Option Codec) → ℕ → Event → Listener → Run Listener
serve new_codec now (packet b ip port) l = accept_data new_codec now l b (tcp_addr (v4 ip) port)
serve new_codec now (user_close id) l = close_conn false now id l
serve new_codec now delete_tick l = clean_delayed now l
serve new_codec now expire_tick l = clean_expired now l
serve new_codec now cancelled l = ok (record l { done = true })
serve new_codec now (close_turn place) l = close_found now l (fetch_one place l)

-- A user closes a connection that there is.
abbrev pub IsPossible : Listener → Event → Type 0
IsPossible l (packet b ip port) = Unit {0}
IsPossible l (user_close id) = id < length l.conns
IsPossible l delete_tick = Unit {0}
IsPossible l expire_tick = Unit {0}
IsPossible l cancelled = Unit {0}
IsPossible l (close_turn place) = Unit {0}

abbrev pub add_accepted : List ℕ → Option ℕ → List ℕ
add_accepted given none = given
add_accepted given (some id) = given ++ id ∷ []

-- The listener can be in this state when Accept has returned these connections, in this order.
pub data Reach (new_codec : ℕ → ℕ → Option Codec) (make_fec : Option (ℕ × ℕ))
    : List ℕ → Listener → Type 0 where
  start : Reach new_codec make_fec [] (new_listener make_fec)
  served :
      {given : List ℕ} {l l' : Listener} (now : ℕ) (e : Event)
      → Reach new_codec make_fec given l
      → IsPossible l e
      → serve new_codec now e l ≡ ok l'
      → Reach new_codec make_fec given l'
  accepted :
      {given : List ℕ} {l l' : Listener} (done_first : Bool) (id : Option ℕ) (err : Option Error)
      → Reach new_codec make_fec given l
      → accept done_first l ≡ some (l', (id, err))
      → Reach new_codec make_fec (add_accepted given id) l'

-- The numbers below `n`, in order.
abbrev pub made : ℕ → List ℕ
made zero = []
made (suc n) = made n ++ n ∷ []
