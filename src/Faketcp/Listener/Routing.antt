-- ===== src/Faketcp/Listener/Routing.antt =====
-- Which connection gets the packets of an address.
use tcpraw.Base.{
  ℕ, ◌<◌, ◌≡◌, refl, ap, ◌∙◌, Option, none, some, List, [], ◌∷◌, ◌++◌, length, get_elem?, set,
  Bytes, Run, ok, ◌>>=◌, lt→ltb,
}
use tcpraw.Tcp.Addr.{NetAddr, AddrKey, addr_to_key}
use tcpraw.Tcp.Flows.Table.{same_key_refl}
use tcpraw.Fec.Codec.{Codec}
use tcpraw.Faketcp.FakeConn.{FakeConn, new_fake_conn, push}
use tcpraw.Faketcp.Listener.{Listener, find_conn, fec_of, give_data, accept_data, accept_capacity}

get_elem?-last : {A : Type 0} (xs : List A) (x : A) → get_elem? (xs ++ x ∷ []) (length xs) ≡ some x
get_elem?-last [] x = refl
get_elem?-last (y ∷ xs) x = get_elem?-last xs x

set-last : {A : Type 0} (xs : List A) (x y : A) → set (xs ++ x ∷ []) (length xs) y ≡ xs ++ y ∷ []
set-last [] x y = refl
set-last (z ∷ xs) x y = ap (◌∷◌ z) (set-last xs x y)

module _ (new_codec : ℕ → ℕ → Option Codec) (now : ℕ) (l : Listener) (b : Bytes) (addr : NetAddr)
    (key : AddrKey) (at_key : addr_to_key addr ≡ ok key) where
  pub accept_data-new :
      find_conn key l.conn_map ≡ none
      → length l.conn_chan < accept_capacity
      → accept_data new_codec now l b addr
        ≡ ok (record l {
          conns = l.conns ++ push now (new_fake_conn addr (fec_of new_codec l.make_fec)) b ∷ [];
          conn_map = (key, length l.conns) ∷ l.conn_map;
          conn_chan = l.conn_chan ++ length l.conns ∷ [];
        })
  unfolding accept_data give_data
  accept_data-new unknown room =
      rw (at_key, unknown, lt→ltb (length l.conn_chan) accept_capacity room)

  accept_data-known :
      (id : ℕ) (fc : FakeConn)
      → find_conn key l.conn_map ≡ some id
      → get_elem? l.conns id ≡ some fc
      → accept_data new_codec now l b addr
        ≡ ok (record l { conns = set l.conns id (push now fc b) })
  unfolding accept_data give_data
  accept_data-known id fc known here = rw (at_key, known, here)

-- Two packets from an IPv4 address that the listener does not know, while there is room to accept:
-- the first makes one new connection, which is queued once for Accept, and both packets are pushed
-- to it, in order; no other connection is touched.
pub accept_data-twice :
    (new_codec : ℕ → ℕ → Option Codec) (t₁ t₂ : ℕ) (l : Listener) (b₁ b₂ : Bytes) (addr : NetAddr)
    (key : AddrKey)
    → addr_to_key addr ≡ ok key
    → find_conn key l.conn_map ≡ none
    → length l.conn_chan < accept_capacity
    → (accept_data new_codec t₁ l b₁ addr >>= λ l'. accept_data new_codec t₂ l' b₂ addr)
      ≡ ok (record l {
        conns =
            l.conns
            ++ push t₂ (push t₁ (new_fake_conn addr (fec_of new_codec l.make_fec)) b₁) b₂ ∷ [];
        conn_map = (key, length l.conns) ∷ l.conn_map;
        conn_chan = l.conn_chan ++ length l.conns ∷ [];
      })
unfolding find_conn
accept_data-twice new_codec t₁ t₂ l b₁ b₂ addr key at_key unknown room =
    let fc = push t₁ (new_fake_conn addr (fec_of new_codec l.make_fec)) b₁ in
    let l' : Listener = record l {
      conns = l.conns ++ fc ∷ [];
      conn_map = (key, length l.conns) ∷ l.conn_map;
      conn_chan = l.conn_chan ++ length l.conns ∷ [];
    } in
    let found : find_conn key ((key, length l.conns) ∷ l.conn_map) ≡ some (length l.conns) =
      rw (same_key_refl key) in
    ap (λ (r : Run Listener). r >>= λ l₁. accept_data new_codec t₂ l₁ b₂ addr)
      (accept_data-new new_codec t₁ l b₁ addr key at_key unknown room)
    ∙ accept_data-known new_codec t₂ l' b₂ addr key at_key (length l.conns) fc found
        (get_elem?-last l.conns fc)
    ∙ ap (λ (cs : List FakeConn). ok (record l' { conns = cs }))
        (set-last l.conns fc (push t₂ fc b₂))
