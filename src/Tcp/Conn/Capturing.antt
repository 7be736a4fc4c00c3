-- ===== src/Tcp/Conn/Capturing.antt =====
-- The loop of captureFlow in tcp_linux.go, which reads packets one at a time with ReadFromIP, or in
-- batches with ReadBatch. What the two return is a list, after whose end the loop waits.
use mathlib.Core.List.{map-append}
use tcpraw.Base.{
  map, le→ltb, ℕ, ◌≤◌, ◌≡◌, refl, ap, ◌∙◌, Bool, true, ◌||◌, Option, none, List, [], ◌∷◌, ◌++◌, ltb,
  ◌==◌, if◌then◌else◌, length, take, drop, All, le→leb, length-take, arith, Bytes, Error, Run, ok,
  panic, ◌>>=◌, slice_from, slice_to, Bool-cases, inl, inr,
}
use tcpraw.Tcp.Addr.{Ip}
use tcpraw.Tcp.Conn.{TcpConn, max_payload_size}
use tcpraw.Tcp.Conn.Capture.{
  Segment, Received, decode_tcp_packet, capture_batch, get_ipv4_header_len,
}

-- What ReadFromIP returns, with the time at which it does: a packet without its IPv4 header.
pub data OneRead : Type 0 where
  one_packet : ℕ → Bytes → Ip → OneRead
  one_failed : Error → OneRead

-- What ReadBatch returns.
pub data BatchRead : Type 0 where
  batch : ℕ → List Received → BatchRead
  batch_failed : Error → BatchRead

-- The loop with ReadFromIP, which an error ends.
unfoldable pub capture_each :
    (Bytes → Option Segment) → Bool → ℕ → ℕ → TcpConn → List OneRead → Run TcpConn
unfolding decode_tcp_packet
capture_each parse die_first handle port conn [] = ok conn
capture_each parse die_first handle port conn (one_failed e ∷ rs) = ok conn
capture_each parse die_first handle port conn (one_packet now b ip ∷ rs) =
    let next = λ (c : TcpConn). capture_each parse die_first handle port c rs in
    decode_tcp_packet parse die_first conn now b ip handle port >>= λ (conn', err). next conn'

-- The loop with ReadBatch, which panics on an error.
unfoldable pub capture_batches :
    (Bytes → Option Segment) → Bool → ℕ → ℕ → TcpConn → List BatchRead → Run TcpConn
unfolding capture_batch
capture_batches parse die_first handle port conn [] = ok conn
capture_batches parse die_first handle port conn (batch_failed e ∷ rs) = panic
capture_batches parse die_first handle port conn (batch now ms ∷ rs) =
    let next = λ (c : TcpConn). capture_batches parse die_first handle port c rs in
    capture_batch parse die_first conn now handle port ms >>= λ conn'. next conn'

abbrev pub default_batch_size : ℕ
default_batch_size = 4

-- The buffer of ReadFromIP, which has no room where the packets are to be read in batches.
abbrev pub buffer_size : ℕ → ℕ
buffer_size batch_size = if ltb batch_size 2 then max_payload_size else 0

-- What fits into the buffer.
abbrev pub cut_one : ℕ → OneRead → OneRead
cut_one size (one_packet now b ip) = one_packet now (take size b) ip
cut_one size (one_failed e) = one_failed e

-- `captureFlow`, whose packet connection may be nil, and which takes one of the two calls.
unfoldable pub capture_flow :
    ℕ
    → Bool
    → (Bytes → Option Segment)
    → Bool
    → ℕ
    → ℕ
    → TcpConn
    → List OneRead
    → List BatchRead
    → Run TcpConn
capture_flow batch_size no_pc parse die_first handle port conn ones batches =
    if no_pc || ltb batch_size 2
    then capture_each parse die_first handle port conn (map (cut_one (buffer_size batch_size)) ones)
    else capture_batches parse die_first handle port conn batches

-- The message has an IPv4 header within the bytes that were read, or none.
abbrev pub IsWhole : Received → Type 0
IsWhole m = (m.num_bytes ≤ length m.buf) × (get_ipv4_header_len m.buf ≤ m.num_bytes)

-- The bytes of a message that the loop over a batch decodes.
abbrev pub without_header : Received → Bytes
without_header m = drop (get_ipv4_header_len m.buf) (take m.num_bytes m.buf)

-- The packets of a batch that have an IPv4 header, one after another and without it.
abbrev pub one_by_one : ℕ → List Received → List OneRead
one_by_one now [] = []
one_by_one now (m ∷ ms) =
    if get_ipv4_header_len m.buf == 0
    then one_by_one now ms
    else one_packet now (without_header m) m.ip ∷ one_by_one now ms

abbrev pub all_one_by_one : List BatchRead → List OneRead
all_one_by_one [] = []
all_one_by_one (batch now ms ∷ rs) = one_by_one now ms ++ all_one_by_one rs
all_one_by_one (batch_failed e ∷ rs) = one_failed e ∷ all_one_by_one rs

abbrev pub WholeBatch : BatchRead → Type 0
WholeBatch (batch now ms) = All IsWhole ms
WholeBatch (batch_failed e) = ⊥

module _ (parse : Bytes → Option Segment) (die_first : Bool) (handle port : ℕ) where
  abbrev then_each : List OneRead → Run TcpConn → Run TcpConn
  then_each rs m = m >>= λ c. capture_each parse die_first handle port c rs

  -- A batch, then other reads.
  capture_batch-each :
      (ms : List Received) (rs : List OneRead) (now : ℕ) (conn : TcpConn)
      → All IsWhole ms
      → then_each rs (capture_batch parse die_first conn now handle port ms)
        ≡ capture_each parse die_first handle port conn (one_by_one now ms ++ rs)
  unfolding capture_batch capture_each
  capture_batch-each [] rs now conn a = refl
  capture_batch-each (m ∷ ms) rs now conn a = elim (Bool-cases (get_ipv4_header_len m.buf == 0)) [
    | inl skip ↦ rw skip (capture_batch-each ms rs now conn a.1)
    | inr header ↦
        let cut : slice_to m.buf m.num_bytes ≡ ok (take m.num_bytes m.buf) =
          rw (le→leb m.num_bytes (length m.buf) a.0.0) refl in
        let long : get_ipv4_header_len m.buf ≤ length (take m.num_bytes m.buf) =
          ground (arith, length-take m.num_bytes m.buf, a.0.0, a.0.1) in
        let behind : slice_from (take m.num_bytes m.buf) (get_ipv4_header_len m.buf)
            ≡ ok (without_header m) =
          rw (le→leb (get_ipv4_header_len m.buf) (length (take m.num_bytes m.buf)) long) refl in
        rw (header, cut, behind)
          (go (decode_tcp_packet parse die_first conn now (without_header m) m.ip handle port)
            (λ c. capture_batch-each ms rs now c a.1))
  ]
    where
      go :
          (r : Run (TcpConn × Option Error))
          → ((c : TcpConn)
              → then_each rs (capture_batch parse die_first c now handle port ms)
                ≡ capture_each parse die_first handle port c (one_by_one now ms ++ rs))
          → then_each rs
              (r >>= λ (conn', err). capture_batch parse die_first conn' now handle port ms)
            ≡ (r >>= λ (conn', err).
                capture_each parse die_first handle port conn' (one_by_one now ms ++ rs))
      go panic ih = refl
      go (ok (c, err)) ih = ih c

  -- Batches whose messages have an IPv4 header within the bytes that were read, or none, do to the
  -- connection what their packets do that are read one after another, without the messages that have
  -- no IPv4 header.
  pub capture_batches-one_by_one :
      (rs : List BatchRead) (conn : TcpConn)
      → All WholeBatch rs
      → capture_batches parse die_first handle port conn rs
        ≡ capture_each parse die_first handle port conn (all_one_by_one rs)
  unfolding capture_batches capture_each
  capture_batches-one_by_one [] conn a = refl
  capture_batches-one_by_one (batch_failed e ∷ rs) conn a = absurd a.0
  capture_batches-one_by_one (batch now ms ∷ rs) conn a =
      go (capture_batch parse die_first conn now handle port ms)
        (λ c. capture_batches-one_by_one rs c a.1)
      ∙ capture_batch-each ms (all_one_by_one rs) now conn a.0
    where
      go :
          (r : Run TcpConn)
          → ((c : TcpConn)
              → capture_batches parse die_first handle port c rs
                ≡ capture_each parse die_first handle port c (all_one_by_one rs))
          → (r >>= λ c. capture_batches parse die_first handle port c rs)
            ≡ then_each (all_one_by_one rs) r
      go panic ih = refl
      go (ok c) ih = ih c

  each-failed :
      (rs rs' : List OneRead) (e : Error) (conn : TcpConn)
      → capture_each parse die_first handle port conn (rs ++ one_failed e ∷ rs')
        ≡ capture_each parse die_first handle port conn rs
  unfolding capture_each
  each-failed [] rs' e conn = refl
  each-failed (one_failed x ∷ rs) rs' e conn = refl
  each-failed (one_packet now b ip ∷ rs) rs' e conn =
      go (decode_tcp_packet parse die_first conn now b ip handle port) (each-failed rs rs' e)
    where
      go :
          (r : Run (TcpConn × Option Error))
          → ((c : TcpConn)
              → capture_each parse die_first handle port c (rs ++ one_failed e ∷ rs')
                ≡ capture_each parse die_first handle port c rs)
          → (r >>= λ (c, err).
              capture_each parse die_first handle port c (rs ++ one_failed e ∷ rs'))
            ≡ (r >>= λ (c, err). capture_each parse die_first handle port c rs)
      go panic ih = refl
      go (ok (c, err)) ih = ih c

  batches-failed :
      (bs bs' : List BatchRead) (e : Error) (conn : TcpConn)
      → capture_batches parse die_first handle port conn (bs ++ batch_failed e ∷ bs') ≡ panic
  unfolding capture_batches
  batches-failed [] bs' e conn = refl
  batches-failed (batch_failed x ∷ bs) bs' e conn = refl
  batches-failed (batch now ms ∷ bs) bs' e conn =
      go (capture_batch parse die_first conn now handle port ms) (batches-failed bs bs' e)
    where
      go :
          (r : Run TcpConn)
          → ((c : TcpConn)
              → capture_batches parse die_first handle port c (bs ++ batch_failed e ∷ bs') ≡ panic)
          → (r >>= λ c. capture_batches parse die_first handle port c (bs ++ batch_failed e ∷ bs'))
            ≡ panic
      go panic ih = refl
      go (ok c) ih = ih c

  -- Where captureFlow reads packets one at a time, an error of ReadFromIP ends it with the
  -- connection as the packets before it left it; where it reads them in batches, an error of
  -- ReadBatch makes it panic, whatever was read before.
  pub capture_flow-failed :
      (batch_size : ℕ) (no_pc : Bool) (rs rs' : List OneRead) (bs bs' : List BatchRead) (e : Error)
      (conn : TcpConn)
      → capture_flow batch_size no_pc parse die_first handle port conn
          (rs ++ one_failed e ∷ rs')
          (bs ++ batch_failed e ∷ bs')
        ≡ (if no_pc || ltb batch_size 2
            then capture_flow batch_size no_pc parse die_first handle port conn rs bs
            else panic)
  unfolding capture_flow
  capture_flow-failed batch_size no_pc rs rs' bs bs' e conn =
      let cut = cut_one (buffer_size batch_size) in
      let ends : capture_each parse die_first handle port conn (map cut (rs ++ one_failed e ∷ rs'))
          ≡ capture_each parse die_first handle port conn (map cut rs) =
        ap (capture_each parse die_first handle port conn) (map-append cut rs (one_failed e ∷ rs'))
        ∙ each-failed (map cut rs) (map cut rs') e conn in
      elim (Bool-cases (no_pc || ltb batch_size 2)) [
        | inl each ↦ rw each ends
        | inr many ↦ rw many (batches-failed bs bs' e conn)
      ]

  empty_panics :
      (now : ℕ) (ip : Ip) (conn : TcpConn)
      → parse [] ≡ none
      → decode_tcp_packet parse die_first conn now [] ip handle port ≡ panic
  unfolding decode_tcp_packet
  empty_panics now ip conn refused = rw (decode_tcp_packet, refused) refl

  -- Where packets are to be read in batches and there is no packet connection, as where Listen
  -- captures on the addresses of all interfaces, the first packet that comes makes the loop panic,
  -- whatever it is, if the parser refuses a segment without bytes.
  pub capture_flow-no_buffer :
      (batch_size now : ℕ) (b : Bytes) (ip : Ip) (rs : List OneRead) (bs : List BatchRead)
      (conn : TcpConn)
      → 2 ≤ batch_size
      → parse [] ≡ none
      → capture_flow batch_size true parse die_first handle port conn (one_packet now b ip ∷ rs) bs
        ≡ panic
  unfolding capture_flow capture_each
  capture_flow-no_buffer batch_size now b ip rs bs conn many refused =
      rw (le→ltb batch_size 2 many, none_fits b, empty_panics now ip conn refused) refl
    where
      none_fits : (b : Bytes) → take 0 b ≡ []
      none_fits [] = refl
      none_fits (x ∷ b) = refl
