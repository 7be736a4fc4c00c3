-- ===== src/Fec/Channel/Reads.antt =====
-- DecodeData: what a call returns when the channel holds payloads, and when a parity packet arrives.
use tcpraw.Base.{
  ℕ, ◌+◌, ◌≤◌, ◌<◌, ◌≡◌, refl, ap, ◌∙◌, none, some, List, [], ◌∷◌, ◌++◌, count, Bytes, u64, length,
  ok,
}
use tcpraw.Fec.Wire.{decode_fec_packet}
use tcpraw.Fec.Encoder.Sizes.{protected_parts}
use tcpraw.Fec.Decoder.{trim}
use tcpraw.Fec.Decoder.Group.{bodies}
use tcpraw.Fec.Decoder.Arrival.{Arrival, IsArrival}
use tcpraw.Fec.Channel.{
  Fec, Input, received, payload, take_recovered, payload_of, decode_one, decode_data,
}
use tcpraw.Fec.Channel.Arrivals.{lost_payloads, decode_one-recovers}

pub decode_data-channel :
    (fec : Fec) (d : Bytes) (ds : List Bytes) (is : List Input)
    → decode_data is (record fec { data_ch = d ∷ ds }) ≡ ok (take_recovered fec d ds, payload d, is)
unfolding decode_data
decode_data-channel fec d ds [] = refl
decode_data-channel fec d ds (i ∷ is) = refl

pub decode_data-received :
    (fec fec' : Fec) (x : ℕ) (xs : Bytes) (is : List Input)
    → decode_one (record fec { data_ch = [] }) (x ∷ xs) ≡ ok (fec', none)
    → decode_data (received (x ∷ xs) ∷ is) (record fec { data_ch = [] }) ≡ decode_data is fec'
unfolding decode_data
decode_data-received fec fec' x xs is e = rw e

-- A parity packet arrives while DecodeData waits with an empty channel, with data packets of its
-- group still lost and as many packets in hand as the group has data packets: that call returns the
-- first lost payload, the channel then holds the other lost payloads in order, and no further packet
-- is taken from the network.
pub decode_data-recovers :
    (x : Arrival) (h : IsArrival x) (bs : List Bytes)
    → bodies x.data_pkts ≡ protected_parts bs
    → (fec : Fec) (c : ℕ) (cs : Bytes) (is : List Input) (b : Bytes) (rest : List Bytes)
    → x.k ≤ fec.capacity
    → decode_fec_packet (c ∷ cs) ≡ ok x.pkt
    → payload_of x.pkt (c ∷ cs) ≡ ok none
    → 2 < x.size
    → count x.data_mask < x.k
    → x.k ≤ count x.data_mask + count x.parity_mask
    → lost_payloads x.data_mask bs ≡ b ∷ rest
    → decode_data (received (c ∷ cs) ∷ is) (record fec { decoder = some x.dec; data_ch = [] })
      ≡ ok (
        record fec {
          decoder = some (record x.dec { rx = trim x.dec.rxlimit (x.pre ++ x.post) });
          data_ch = rest;
          rx_bytes = u64 (fec.rx_bytes + length b);
        },
        payload b,
        is,
      )
decode_data-recovers x h bs payloads fec c cs is b rest room parsed own big few quorum lost =
    let dec' = record x.dec { rx = trim x.dec.rxlimit (x.pre ++ x.post) } in
    let fec₁ : Fec = record fec { decoder = some x.dec } in
    let fec₂ : Fec = record fec { decoder = some dec'; data_ch = lost_payloads x.data_mask bs } in
    decode_data-received fec₁ fec₂ c cs is
      (decode_one-recovers x h bs payloads fec (c ∷ cs) none room parsed own big few quorum)
    ∙ ap (λ (ch : List Bytes). decode_data is (record fec { decoder = some dec'; data_ch = ch }))
        lost
    ∙ decode_data-channel (record fec { decoder = some dec' }) b rest is
