-- ===== src/Tcp/Conn/Read.antt =====
-- ReadFrom and ReadFromv2 of tcp_linux.go. A select takes one of the cases that are ready, which is
-- the argument `choice`; `none` is a case that is not ready.
use tcpraw.Base.{
  ℕ, ◌≡◌, refl, Option, none, some, List, [], ◌∷◌, ◌⊎◌, inl, inr, if◌then◌else◌, take, Bytes, Error,
  timeout, eof, Bool-cases,
}
use tcpraw.Tcp.Addr.{NetAddr}
use tcpraw.Tcp.Conn.{TcpConn, Message, fired}

pub data Choice : Type 0 where
  on_deadline on_die on_message : Choice

-- `ReadFromv2`
unfoldable pub read_from_v2 : Choice → ℕ → TcpConn → Option (TcpConn × (Error ⊎ Message))
read_from_v2 on_deadline now conn =
    if fired conn.read_deadline now then some (conn, inl timeout) else none
read_from_v2 on_die now conn = if conn.closed then some (conn, inl eof) else none
read_from_v2 on_message now conn = elim conn.ch_message [
  | [] ↦ none
  | m ∷ ms ↦ some (record conn { ch_message = ms }, inr m)
]

-- `ReadFrom` into a buffer of `size` bytes: what it copies there, and the address.
unfoldable pub read_from : Choice → ℕ → ℕ → TcpConn → Option (TcpConn × (Error ⊎ (Bytes × NetAddr)))
read_from on_deadline size now conn =
    if fired conn.read_deadline now then some (conn, inl timeout) else none
read_from on_die size now conn = if conn.closed then some (conn, inl eof) else none
read_from on_message size now conn = elim conn.ch_message [
  | [] ↦ none
  | m ∷ ms ↦ some (record conn { ch_message = ms }, inr (take size m.bts, m.addr))
]

abbrev pub cut_result : ℕ → Error ⊎ Message → Error ⊎ (Bytes × NetAddr)
cut_result size (inl e) = inl e
cut_result size (inr m) = inr (take size m.bts, m.addr)

abbrev pub cut_reading :
    ℕ → Option (TcpConn × (Error ⊎ Message)) → Option (TcpConn × (Error ⊎ (Bytes × NetAddr)))
cut_reading size none = none
cut_reading size (some (conn, r)) = some (conn, cut_result size r)

-- ReadFrom is ReadFromv2 with the packet cut to the buffer: in each case of the select they are
-- ready together, leave the same connection, and give the same error or the same address.
pub read_from-read_from_v2 :
    (choice : Choice) (size now : ℕ) (conn : TcpConn)
    → read_from choice size now conn ≡ cut_reading size (read_from_v2 choice now conn)
unfolding read_from read_from_v2
read_from-read_from_v2 on_deadline size now conn =
    elim (Bool-cases (fired conn.read_deadline now)) [ inl h ↦ rw h | inr h ↦ rw h ]
read_from-read_from_v2 on_die size now conn = elim (Bool-cases conn.closed) [
  | inl h ↦ rw h
  | inr h ↦ rw h
]
read_from-read_from_v2 on_message size now conn = go conn.ch_message
  where
    go :
        (ch : List Message)
        → (elim ch [
          | [] ↦ none
          | m ∷ ms ↦ some (record conn { ch_message = ms }, inr (take size m.bts, m.addr))
        ])
          ≡ cut_reading size
              (elim ch [ [] ↦ none | m ∷ ms ↦ some (record conn { ch_message = ms }, inr m) ])
    go [] = refl
    go (m ∷ ms) = refl

pub read_from_v2-message :
    (now : ℕ) (conn : TcpConn) (m : Message) (ms : List Message)
    → conn.ch_message ≡ m ∷ ms
    → read_from_v2 on_message now conn ≡ some (record conn { ch_message = ms }, inr m)
unfolding read_from_v2
read_from_v2-message now conn m ms e = simp (read_from_v2, e)
