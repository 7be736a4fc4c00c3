-- ===== src/Faketcp/FakeConn.antt =====
-- FakeConn of faketcp/listener.go. The context is left out, which only Close cancels, and so are the
-- channel sendch, which nothing uses, and the drops for a test, which are switched off. Nothing
-- closes recvch, so a read of the empty channel waits. `send` stands for WriteTo of the TcpConn with
-- the address.
pub mod Stream
pub mod Payloads
use tcpraw.Base.{
  ℕ, ◌+◌, ◌-◌, Bool, true, false, Option, none, some, List, [], ◌∷◌, ◌++◌, map, ltb, if◌then◌else◌,
  length, take, drop, min, Bytes, u64, Error, Run, ok, panic, ◌>>=◌,
}
use tcpraw.Tcp.Addr.{NetAddr}
use tcpraw.Fec.Channel.{
  Fec, Input, received, failed, Reading, payload, failure, waiting, decode_data, encode_data,
}

pub record FakeConn : Type 0 where
  pub addr : NetAddr
  pub recvch : List Bytes
  pub recv_left : Bytes
  pub ts : ℕ
  pub tx_bytes : ℕ
  pub rx_bytes : ℕ
  pub drop_rx_bytes : ℕ
  pub fec : Option Fec
  pub closed : Bool

abbrev pub recvch_capacity : ℕ
recvch_capacity = 2048

-- `newFakeConn`; `fec` is `some` where the listener enables it. The zero time stands in `ts`.
unfoldable pub new_fake_conn : NetAddr → Option Fec → FakeConn
new_fake_conn addr fec = record {
  addr = addr;
  recvch = [];
  recv_left = [];
  ts = 0;
  tx_bytes = 0;
  rx_bytes = 0;
  drop_rx_bytes = 0;
  fec = fec;
  closed = false;
}

-- `Push`
unfoldable pub push : ℕ → FakeConn → Bytes → FakeConn
push now f b =
    if ltb (length f.recvch) recvch_capacity
    then record f { recvch = f.recvch ++ b ∷ []; ts = now }
    else record f { drop_rx_bytes = u64 (f.drop_rx_bytes + length b) }

-- The end of Read: the data is copied to a buffer of `size` bytes, and the rest is kept.
unfoldable pub copy_out : ℕ → FakeConn → Bytes → FakeConn × Reading
copy_out size f bytes =
    let n = min size (length bytes) in
    (
      record f {
        recv_left = if ltb n (length bytes) then drop n bytes else f.recv_left;
        rx_bytes = u64 (f.rx_bytes + n);
      },
      payload (take n bytes),
    )

abbrev pub received_bytes : List Input → List Bytes
received_bytes [] = []
received_bytes (received b ∷ is) = b ∷ received_bytes is
received_bytes (failed e ∷ is) = received_bytes is

abbrev pub after_decoding : ℕ → FakeConn → Reading → FakeConn × Reading
unfolding copy_out
after_decoding size f (payload d) = copy_out size f d
after_decoding size f (failure e) = (f, failure e)
after_decoding size f waiting = (f, waiting)

-- `Read` into a buffer of `size` bytes.
unfoldable pub read : ℕ → FakeConn → Run (FakeConn × Reading)
unfolding copy_out decode_data
read size f = elim f.recv_left [
  | x ∷ left ↦
      let n = min size (length (x ∷ left)) in
      ok (
        record f { recv_left = drop n (x ∷ left); rx_bytes = u64 (f.rx_bytes + n) },
        payload (take n (x ∷ left)),
      )
  | [] ↦ elim f.fec [
    | none ↦ elim f.recvch [
      | [] ↦ ok (f, waiting)
      | d ∷ ds ↦ ok (copy_out size (record f { recvch = ds }) d)
    ]
    | some fec ↦ decode_data (map received f.recvch) fec >>= λ (fec', reading, rest).
        ok
          (after_decoding size (record f { fec = some fec'; recvch = received_bytes rest }) reading)
  ]
]

-- The callback of WriteTo, on the network and the counter txBytes.
abbrev pub counted_send {ℓ} :
    {S : Type ℓ} → (S → Bytes → S × ℕ × Option Error) → S × ℕ → Bytes → (S × ℕ) × Option Error
counted_send send (s, tx) p =
    let (s', n, err) = send s p in
    elim err [ some e ↦ ((s', tx), some e) | none ↦ ((s', u64 (tx + n)), none) ]

abbrev pub write_result : ℕ → Option Error → ℕ × Option Error
write_result n none = (n, none)
write_result n (some e) = (0, some e)

-- `WriteTo`
unfoldable pub write {ℓ} :
    {S : Type ℓ}
    → (S → Bytes → S × ℕ × Option Error)
    → FakeConn
    → S
    → Bytes
    → Run (FakeConn × S × ℕ × Option Error)
unfolding encode_data
write send f s b = elim f.fec [
  | some fec ↦ encode_data (counted_send send) fec (s, f.tx_bytes) b >>= λ (fec', (s', tx), err).
      let (n, e) = write_result (length b) err in
      ok (record f { fec = some fec'; tx_bytes = tx }, s', n, e)
  | none ↦
      let (s', n, err) = send s b in
      elim err [
        | some e ↦ ok (f, s', 0, some e)
        | none ↦ ok (record f { tx_bytes = u64 (f.tx_bytes + n) }, s', n, none)
      ]
]
