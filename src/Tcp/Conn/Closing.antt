-- ===== src/Tcp/Conn/Closing.antt =====
-- Close, and what the calls do afterwards.
use tcpraw.Base.{
  ℕ, zero, suc, ◌≡◌, refl, ap, Bool, true, false, Option, none, some, List, [], ◌∷◌, map, get_or,
  Bytes, Error, timeout, eof, ok, Bool-cases, Option-cases, inl, inr, ◌⊎◌,
}
use tcpraw.Tcp.Addr.{AddrKey, NetAddr, Ip}
use tcpraw.Tcp.Flows.{Table, find, shard_index}
use tcpraw.Tcp.Flows.Sharded.{lookup}
use tcpraw.Tcp.Conn.{TcpConn, Listening, close, fired}
use tcpraw.Tcp.Conn.Capture.{Segment}
use tcpraw.Tcp.Conn.Write.{write_to}

pub close-closed : (conn : TcpConn) → ((close conn).0).closed ≡ true
unfolding close
close-closed conn = elim (Bool-cases conn.closed) [
  | inl done ↦ rw done
  | inr live ↦ rw live (elim (Option-cases conn.tcpconn) [
    | inl none_dialed ↦
        rw none_dialed (elim (Option-cases conn.listener) [ inl h ↦ rw h | inr (l, h) ↦ rw h ])
    | inr (d, h) ↦ rw h
  ])
]

closed-close : (conn : TcpConn) → conn.closed ≡ true → close conn ≡ (conn, [])
unfolding close
closed-close conn h = rw h

-- Close closes the connection once: the first call closes it, and every later one changes nothing
-- and touches no socket.
pub close-once :
    (conn : TcpConn)
    → (((close conn).0).closed ≡ true) × (close ((close conn).0) ≡ ((close conn).0, []))
close-once conn = (close-closed conn, closed-close ((close conn).0) (close-closed conn))

get_or-emptied :
    (ts : List Table) (i : ℕ) → get_or {A = Table} (map (λ (t : Table). []) ts) i [] ≡ []
get_or-emptied [] i = refl
get_or-emptied (t ∷ ts) zero = refl
get_or-emptied (t ∷ ts) (suc i) = get_or-emptied ts i

-- After Close on a server that was open, no flow is left in the table.
pub close-lookup :
    (conn : TcpConn) (l : Listening) (key : AddrKey)
    → conn.closed ≡ false
    → conn.tcpconn ≡ none
    → conn.listener ≡ some l
    → lookup (((close conn).0).flows) key ≡ none
unfolding close find
close-lookup conn l key live no_dial listening =
    rw (live, no_dial, listening)
      (ap (find key) (get_or-emptied conn.flows.tables (shard_index conn.flows key)))

-- After Close no write reaches the network: WriteTo returns no byte, and an end-of-file error unless
-- the write deadline has passed.
pub close-write_to {ℓ} :
    {S : Type ℓ} (serialize : Segment → Ip → ℕ → ℕ → Bytes)
    (send : S → ℕ → Bytes → Ip → S × ℕ × Option Error) (die_first : Bool) (now : ℕ) (conn : TcpConn)
    (s : S) (p : Bytes) (addr : NetAddr)
    → (err : Error) × (write_to serialize send die_first now ((close conn).0) s p addr
        ≡ ok ((close conn).0, s, 0, some err))
      × ((err ≡ eof) ⊎ (fired (((close conn).0).write_deadline) now ≡ true))
unfolding write_to
close-write_to serialize send die_first now conn s p addr =
    let c = (close conn).0 in
    let h = close-closed conn in
    elim (Bool-cases (fired c.write_deadline now)) [
      | inl f ↦ elim (Bool-cases die_first) [
        | inl y ↦ (eof, rw (f, h, y), inl refl)
        | inr n ↦ (timeout, rw (f, h, n), inr f)
      ]
      | inr f ↦ (eof, rw (f, h), inl refl)
    ]
