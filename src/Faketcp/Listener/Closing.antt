-- ===== src/Faketcp/Listener/Closing.antt =====
-- The loop of closeAllFakeConns: when it ends, and when it does not.
use tcpraw.Base.{
  ℕ, zero, suc, ◌≤◌, ◌≡◌, ◌≢◌, refl, sym, ap, ◌∙◌, true, false, Option, none, some, List, [], ◌∷◌,
  length, get_elem?, set, get_elem?-set_ne, All, Run, ok, panic, ◌>>=◌, Bool-cases, inl, inr, arith,
}
use tcpraw.Tcp.Addr.{AddrKey, same_key, addr_to_key}
use tcpraw.Tcp.Flows.Table.{same_key_refl}
use tcpraw.Tcp.Conn.{TcpConn, close}
use tcpraw.Faketcp.FakeConn.{FakeConn}
use tcpraw.Faketcp.Listener.{
  Listener, delete_conn, delete_fake_conn, close_conn, close_all, close_listener,
}

-- The connection with this number is open and has the address of this key.
abbrev pub IsOpen : List FakeConn → AddrKey × ℕ → Type 0
IsOpen conns (k, id) =
    (fc : FakeConn) × (get_elem? conns id ≡ some fc)
    × (fc.closed ≡ false)
    × (addr_to_key fc.addr ≡ ok k)

some-inj : {a b : FakeConn} → Path (Option FakeConn) (some a) (some b) → a ≡ b
some-inj {a} e = ap (λ (o : Option FakeConn). elim o [ none ↦ a | some x ↦ x ]) e

ok-inj : {a b : AddrKey} → Path (Run AddrKey) (ok a) (ok b) → a ≡ b
ok-inj {a} e = ap (λ (o : Run AddrKey). elim o [ ok x ↦ x | panic ↦ a ]) e

-- Another key's connection has another number.
other_number :
    (conns : List FakeConn) (k k' : AddrKey) (id id' : ℕ) (fc : FakeConn)
    → get_elem? conns id ≡ some fc
    → addr_to_key fc.addr ≡ ok k
    → IsOpen conns (k', id')
    → same_key k' k ≡ false
    → id ≢ id'
other_number conns k k' id id' fc here at_k (fc', here', live, at_k') ne e =
    let same_fc : fc ≡ fc' = some-inj (sym here ∙ ap (get_elem? conns) e ∙ here') in
    let keys : k ≡ k' =
      ok-inj (sym at_k ∙ ap (λ (f : FakeConn). addr_to_key f.addr) same_fc ∙ at_k') in
    let same : same_key k' k ≡ true = rw keys (same_key_refl k') in cc

delete_conn-IsOpen :
    (conns : List FakeConn) (k : AddrKey) (id : ℕ) (fc closed_fc : FakeConn)
    (m : List (AddrKey × ℕ))
    → get_elem? conns id ≡ some fc
    → addr_to_key fc.addr ≡ ok k
    → All (IsOpen conns) m
    → All (IsOpen (set conns id closed_fc)) (delete_conn k m)
unfolding delete_conn
delete_conn-IsOpen conns k id fc closed_fc [] here at_k a = tt
delete_conn-IsOpen conns k id fc closed_fc ((k', id') ∷ m) here at_k a =
    let rest = delete_conn-IsOpen conns k id fc closed_fc m here at_k a.1 in
    elim (Bool-cases (same_key k' k)) [
      | inl same ↦ rw same rest
      | inr ne ↦
          let apart = other_number conns k k' id id' fc here at_k (a.0) ne in
          let (fc', here', live, at_k') = a.0 in
          rw ne ((fc', get_elem?-set_ne conns id id' closed_fc apart ∙ here', live, at_k'), rest)
    ]

length-delete_conn : (k : AddrKey) (m : List (AddrKey × ℕ)) → length (delete_conn k m) ≤ length m
unfolding delete_conn
length-delete_conn k [] = omega arith
length-delete_conn k ((k', id) ∷ m) =
    let rest = length-delete_conn k m in
    elim (Bool-cases (same_key k' k)) [
      | inl same ↦ rw same (omega (arith, rest))
      | inr ne ↦ rw ne (omega (arith, rest))
    ]

abbrev closed_of : FakeConn → FakeConn
closed_of fc = record fc { closed = true }

-- Closing at once an open connection of the map.
close_conn-now :
    (now : ℕ) (l : Listener) (k : AddrKey) (id : ℕ) (fc : FakeConn)
    → get_elem? l.conns id ≡ some fc
    → fc.closed ≡ false
    → addr_to_key fc.addr ≡ ok k
    → close_conn true now id l
      ≡ ok (record l { conns = set l.conns id (closed_of fc); conn_map = delete_conn k l.conn_map })
unfolding close_conn delete_fake_conn
close_conn-now now l k id fc here live at_k = simp (here, live, at_k)

close_all-go :
    (now fuel : ℕ) (conns : List FakeConn) (m : List (AddrKey × ℕ)) (l : Listener)
    → All (IsOpen conns) m
    → length m ≤ fuel
    → (l' : Listener) × (close_all now fuel (record l { conns = conns; conn_map = m })
        ≡ ok (some l'))
      × (l'.conn_map ≡ [])
unfolding close_all
close_all-go now zero conns [] l a h = (record l { conns = conns; conn_map = [] }, refl, refl)
close_all-go now (suc fuel) conns [] l a h = (record l { conns = conns; conn_map = [] }, refl, refl)
close_all-go now zero conns (x ∷ m) l a h = absurd (omega arith)
close_all-go now (suc fuel) conns ((k, id) ∷ m) l a h =
    let (fc, here, live, at_k) = a.0 in
    let shrink : delete_conn k ((k, id) ∷ m) ≡ delete_conn k m = head_gone k id m in
    let le = length-delete_conn k m in
    let (l', run, empty) =
      close_all-go now fuel (set conns id (closed_of fc)) (delete_conn k m) l
        (delete_conn-IsOpen conns k id fc (closed_of fc) m here at_k a.1) (omega (arith, le)) in
    let step =
      close_conn-now now (record l { conns = conns; conn_map = (k, id) ∷ m }) k id fc here live
        at_k in
    (l', rw (step, shrink) run, empty)
  where
    head_gone :
        (k : AddrKey) (id : ℕ) (m : List (AddrKey × ℕ))
        → delete_conn k ((k, id) ∷ m) ≡ delete_conn k m
    head_gone k id m = simp (delete_conn, same_key_refl k)

-- When every connection of the map is open and stands under the key of its address, the loop of
-- closeAllFakeConns closes them all: with one turn for each connection it ends with an empty map.
pub close_all-ends :
    (now fuel : ℕ) (l : Listener)
    → All (IsOpen l.conns) l.conn_map
    → length l.conn_map ≤ fuel
    → (l' : Listener) × (close_all now fuel l ≡ ok (some l')) × (l'.conn_map ≡ [])
close_all-ends now fuel l a h = close_all-go now fuel l.conns l.conn_map l a h

close_all-stuck :
    (now fuel : ℕ) (l : Listener) (k : AddrKey) (id : ℕ) (m : List (AddrKey × ℕ)) (fc : FakeConn)
    → l.conn_map ≡ (k, id) ∷ m
    → get_elem? l.conns id ≡ some fc
    → fc.closed ≡ true
    → close_all now fuel l ≡ ok none
unfolding close_all close_conn
close_all-stuck now zero l k id m fc first here done = simp (close_all, first)
close_all-stuck now (suc fuel) l k id m fc first here done =
    simp (close_all, first, here, done) (close_all-stuck now fuel l k id m fc first here done)

-- When the map still has a connection that its user has closed, and the loop takes it, then the loop
-- in Close of the listener never ends, behind the closing of the TcpConn: such a connection is not
-- closed again, and so never deleted.
pub close_listener-stuck :
    (now fuel : ℕ) (conn : TcpConn) (l : Listener) (k : AddrKey) (id : ℕ) (m : List (AddrKey × ℕ))
    (fc : FakeConn)
    → l.conn_map ≡ (k, id) ∷ m
    → get_elem? l.conns id ≡ some fc
    → fc.closed ≡ true
    → close_listener now fuel conn l ≡ ok ((close conn).0, (close conn).1, none)
unfolding close_listener
close_listener-stuck now fuel conn l k id m fc first here done =
    ap (λ (r : Run (Option Listener)). r >>= λ o. ok ((close conn).0, (close conn).1, o))
      (close_all-stuck now fuel (record l { done = true }) k id m fc first here done)
