-- ===== src/Faketcp/Client.antt =====
-- Client of faketcp/client.go. `send` stands for WriteTo of the TcpConn to the remote address, and
-- the packets that ReadFrom gives are a list, after whose end a read waits.
pub mod Options
pub mod Dial
pub mod Writing
use tcpraw.Base.{
  ℕ, ◌+◌, Option, none, some, List, [], ◌∷◌, map, ltb, ◌==◌, if◌then◌else◌, length, take, Bytes,
  u64, Error, too_large, Run, ok, ◌>>=◌,
}
use tcpraw.Fec.Wire.{fec_header_size_plus2}
use tcpraw.Fec.Channel.{
  Fec, Input, received, failed, Reading, payload, failure, waiting, decode_data, encode_data,
}
use tcpraw.Faketcp.FakeConn.{counted_send, write_result}

pub record Client : Type 0 where
  pub tx_bytes : ℕ
  pub rx_bytes : ℕ
  pub fec : Option Fec

-- What ReadFrom gives for a buffer of `size` bytes.
abbrev pub cut_input : ℕ → Input → Input
cut_input size (received b) = received (take size b)
cut_input size (failed e) = failed e

-- What Read returns for a buffer of `size` bytes: with error correction the length of the data, of
-- which only what fits is copied.
pub data ReadResult : Type 0 where
  read_bytes : Bytes → ℕ → ReadResult
  read_error : Error → ReadResult
  read_waits : ReadResult

abbrev pub read_result : ℕ → Client → Reading → Client × ReadResult
read_result size c (payload d) =
    (record c { rx_bytes = u64 (c.rx_bytes + length d) }, read_bytes (take size d) (length d))
read_result size c (failure e) = (c, read_error e)
read_result size c waiting = (c, read_waits)

-- `Read`, and the packets that are left.
unfoldable pub client_read : ℕ → List Input → Client → Run (Client × ReadResult × List Input)
unfolding decode_data
client_read size inputs c = elim c.fec [
  | some fec ↦
      decode_data (map (cut_input (size + fec_header_size_plus2)) inputs) fec
      >>= λ (fec', reading, rest).
          let (c', r) = read_result size (record c { fec = some fec' }) reading in ok (c', r, rest)
  | none ↦ elim inputs [
    | [] ↦ ok (c, read_waits, [])
    | failed e ∷ is ↦ ok (c, read_error e, is)
    | received b ∷ is ↦ let (c', r) = read_result size c (payload (take size b)) in ok (c', r, is)
  ]
]

-- `Write`
unfoldable pub client_write {ℓ} :
    {S : Type ℓ}
    → (S → Bytes → S × ℕ × Option Error)
    → Client
    → S
    → Bytes
    → Run (Client × S × ℕ × Option Error)
unfolding encode_data
client_write send c s b =
    if length b == 0
    then ok (c, s, 0, none)
    else if ltb 1530 (length b)
    then ok (c, s, 0, some too_large)
    else elim c.fec [
      | some fec ↦
          encode_data (counted_send send) fec (s, c.tx_bytes) b >>= λ (fec', (s', tx), err).
          let (n, e) = write_result (length b) err in
          ok (record c { fec = some fec'; tx_bytes = tx }, s', n, e)
      | none ↦
          let (s', n, err) = send s b in
          elim err [
            | some e ↦ ok (c, s', 0, some e)
            | none ↦ ok (record c { tx_bytes = u64 (c.tx_bytes + n) }, s', n, none)
          ]
    ]
