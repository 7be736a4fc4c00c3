-- ===== src/Faketcp/Client/Writing.antt =====
-- Write of a client with error correction, call after call, over a TcpConn that takes every packet:
-- what it sends is what EncodeData sends.
use tcpraw.Base.{
  ◌+◌, false, ℕ, ◌≤◌, ◌<◌, ◌≡◌, refl, ap, ◌∙◌, Option, none, some, List, [], ◌∷◌, ◌++◌, map, arith,
  ltb, ◌==◌, length, replicate, All, le→ltb, ==_ne, Bytes, u64, Error, Run, ok, ◌>>=◌, or_panic,
}
use tcpraw.Fec.Wire.{fec_header_size_plus2}
use tcpraw.Fec.Encoder.{FecEncoder, encode}
use tcpraw.Fec.Channel.{Fec, encode_data, send_parity}
use tcpraw.Fec.Channel.EndToEnd.{taken, encode_data_all, bind-ok}
use tcpraw.Fec.Channel.Wires.{ok-inj}
use tcpraw.Faketcp.FakeConn.{counted_send}
use tcpraw.Faketcp.Client.{Client, client_write}

-- A TcpConn that takes every packet.
abbrev pub sent_whole : List Bytes → Bytes → List Bytes × ℕ × Option Error
sent_whole sent b = (sent ++ b ∷ [], length b, none)

abbrev pub Written : Type 0
Written = Client × List Bytes × List (ℕ × Option Error)

-- What a call returns is put before what the later ones return.
abbrev pub noted : ℕ × Option Error → Written → Run Written
noted r (c, sent, rs) = ok (c, sent, r ∷ rs)

-- `Write`, call after call, also after an error: the client, what was sent, and the number and the
-- error that each call returns.
unfoldable pub client_write_all : Client → List Bytes → List Bytes → Run Written
unfolding client_write
client_write_all c sent [] = ok (c, sent, [])
client_write_all c sent (b ∷ bs) =
    let rest = λ (c' : Client) (s : List Bytes). client_write_all c' s bs in
    client_write sent_whole c sent b >>= λ (c', s, n, err). rest c' s >>= noted (n, err)

-- What Write takes.
abbrev pub IsWritable : Bytes → Type 0
IsWritable b = (0 < length b) × (length b ≤ 1530)

send_parity-counted :
    (ps sent : List Bytes) (fec : Fec) (tx : ℕ)
    → (tx' : ℕ) × (send_parity (counted_send sent_whole) fec (sent, tx) ps
        ≡ ((send_parity taken fec sent ps).0, ((send_parity taken fec sent ps).1, tx'), none))
unfolding send_parity
send_parity-counted [] sent fec tx = (tx, refl)
send_parity-counted (p ∷ ps) sent fec tx =
    send_parity-counted ps (sent ++ p ∷ [])
      (record fec { tx_bytes = u64 (fec.tx_bytes + length p) }) (u64 (tx + length p))

abbrev Sent : Type 0
Sent = Fec × List Bytes × Option Error

-- EncodeData, when Encode has given its packets.
encode_data-encoded {ℓ} :
    {S : Type ℓ} (send : S → Bytes → S × Option Error) (fec : Fec) (s s' : S) (b : Bytes)
    (enc : FecEncoder) (x : FecEncoder × Bytes × List Bytes)
    → or_panic fec.encoder ≡ ok enc
    → encode enc (replicate fec_header_size_plus2 0 ++ b) ≡ ok x
    → send s x.1 ≡ (s', none)
    → encode_data send fec s b ≡ ok (send_parity send (record fec { encoder = some x.0 }) s' x.2)
unfolding encode_data
encode_data-encoded {S = S} send fec s s' b enc x has made sent =
    let fec' : Fec = record fec { encoder = some x.0 } in
    rw (has, made)
      (ap
        (λ (q : S × Option Error). elim q.1 [
          | some e ↦ ok (fec', q.0, some e)
          | none ↦ ok (send_parity send fec' q.0 x.2)
        ])
        sent)

encode_data-counted :
    (fec : Fec) (sent : List Bytes) (tx : ℕ) (b : Bytes) (r : Sent)
    → encode_data taken fec sent b ≡ ok r
    → (tx' : ℕ) × (encode_data (counted_send sent_whole) fec (sent, tx) b
        ≡ ok (r.0, (r.1, tx'), none))
unfolding encode_data
encode_data-counted fec sent tx b r e =
    let fresh = replicate fec_header_size_plus2 0 ++ b in
    let (enc, has, e₁) = bind-ok (or_panic fec.encoder) _ r e in
    let (x, made, e₂) = bind-ok (encode enc fresh) _ r e₁ in
    let (tx', parity) =
      send_parity-counted x.2 (sent ++ x.1 ∷ []) (record fec { encoder = some x.0 })
        (u64 (tx + length x.1)) in
    (
      tx',
      encode_data-encoded (counted_send sent_whole) fec (sent, tx)
            (sent ++ x.1 ∷ [], u64 (tx + length x.1)) b enc x has made refl
          ∙ ap ok parity
          ∙ ap (λ (q : Sent). ok (q.0, (q.1, tx'), none)) (ok-inj e₂),
    )

-- What calls return that write all they get.
abbrev pub all_written : List Bytes → List (ℕ × Option Error)
all_written bs = map (λ b. (length b, none)) bs

-- The client writes what EncodeData sends, and no call fails.
pub client_write_all-sends :
    (bs sent out : List Bytes) (tx rx : ℕ) (fec fec' : Fec)
    → All IsWritable bs
    → encode_data_all fec sent bs ≡ ok (fec', out)
    → (c : Client) × (client_write_all
          (record { tx_bytes = tx; rx_bytes = rx; fec = some fec })
          sent
          bs
        ≡ ok (c, out, all_written bs))
unfolding client_write_all client_write encode_data_all
client_write_all-sends [] sent out tx rx fec fec' all e = (
  record { tx_bytes = tx; rx_bytes = rx; fec = some fec },
  ap
      (λ (q : Fec × List Bytes).
        ok (record { tx_bytes = tx; rx_bytes = rx; fec = some fec }, q.1, []))
      (ok-inj e),
)
client_write_all-sends (b ∷ bs) sent out tx rx fec fec' all e =
    let (r, made, rest) = bind-ok (encode_data taken fec sent b) _ (fec', out) e in
    let (tx', written) = encode_data-counted fec sent tx b r made in
    let (c, ran) = client_write_all-sends bs r.1 out tx' rx r.0 fec' all.1 rest in
    let w = all.0 in
    let some_bytes : (length b == 0) ≡ false =
      ==_ne (length b) 0 (λ h. absurd (omega (arith, w))) in
    let under_limit : ltb 1530 (length b) ≡ false = le→ltb 1530 (length b) w.1 in
    (c, rw (some_bytes, under_limit, written, ran) refl)
