-- ===== src/Tcp/Conn/Opening.antt =====
-- The connection that Dial makes of its sockets.
use tcpraw.Base.{ℕ, ◌≡◌, refl, ap, subst, true, false, some, [], ◌∷◌, Run, ok, panic, ◌>>=◌}
use tcpraw.Tcp.Addr.{AddrKey, addr_split}
use tcpraw.Tcp.Flows.{FlowTables, lockflow}
use tcpraw.Tcp.Conn.{TcpConn, Dialed, dial_conn, fresh_conn, bind_conn}

-- The connection is open and was dialed.
abbrev pub IsDialed : TcpConn → Type 0
IsDialed conn = (conn.closed ≡ false) × (d : Dialed) × (conn.tcpconn ≡ some d)

pub dial_conn-IsDialed :
    (dialed : Dialed) (handle window now : ℕ) (conn : TcpConn)
    → dial_conn dialed handle window now ≡ ok conn
    → IsDialed conn
unfolding dial_conn
dial_conn-IsDialed dialed handle window now conn e = with_key (addr_split dialed.remote) e
  where
    ok-inj : {a b : TcpConn} → Path (Run TcpConn) (ok a) (ok b) → a ≡ b
    ok-inj {a} e = ap (λ (r : Run TcpConn). elim r [ ok c ↦ c | panic ↦ a ]) e

    conn_of : FlowTables → TcpConn
    conn_of flows = record (fresh_conn 1 window) {
      tcpconn = some dialed;
      flows = flows;
      handles = handle ∷ [];
    }

    with_flows :
        (r : Run (FlowTables × Unit {0}))
        → (r >>= λ (flows, u). ok (conn_of flows)) ≡ ok conn
        → IsDialed conn
    with_flows (ok (flows, u)) e = subst IsDialed (ok-inj e) (refl, dialed, refl)
    with_flows panic e = cc

    with_key :
        (r : Run AddrKey)
        → (r >>= λ key.
            lockflow true (fresh_conn 1 window).flows now key (bind_conn dialed.socket)
            >>= λ (flows, u). ok (conn_of flows))
          ≡ ok conn
        → IsDialed conn
    with_key (ok key) e =
        with_flows (lockflow true (fresh_conn 1 window).flows now key (bind_conn dialed.socket)) e
    with_key panic e = cc
