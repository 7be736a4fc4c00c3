-- ===== src/Fec/Channel/Arrivals.antt =====
-- The method `decode` of Fec when a member of a group arrives.
use tcpraw.Base.{
  ℕ, ◌+◌, ◌≤◌, ◌<◌, ◌≡◌, refl, sym, ap, subst, ◌∙◌, Bool, true, false, not, Option, some, List, [],
  ◌∷◌, ◌++◌, map, arith, leb, ◌==◌, length, length-map, All, count, pick, Bytes, pad, ok,
}
use tcpraw.Fec.Wire.{FecPacket, decode_fec_packet, protected_part}
use tcpraw.Fec.Encoder.Finish.{AtMost}
use tcpraw.Fec.Encoder.Sizes.{protected_parts}
use tcpraw.Fec.Decoder.{trim, decode}
use tcpraw.Fec.Decoder.Group.{bodies}
use tcpraw.Fec.Decoder.Sent.{lost, shards_of, BodyAtMost}
use tcpraw.Fec.Decoder.Arrival.{Arrival, IsArrival, decode-group}
use tcpraw.Fec.Channel.{Fec, payload_of, decode_one, deliver}
use tcpraw.Fec.Channel.Delivery.{deliver-payloads}

-- The payloads that the mask says were lost.
abbrev pub lost_payloads : List Bool → List Bytes → List Bytes
lost_payloads mask bs = pick (map not mask) bs

lost-protected :
    (size : ℕ) (mask : List Bool) (bs : List Bytes)
    → lost mask (map (pad size) (protected_parts bs))
      ≡ map (pad size) (protected_parts (lost_payloads mask bs))
lost-protected size [] bs = refl
lost-protected size (m ∷ mask) [] = refl
lost-protected size (true ∷ mask) (b ∷ bs) = lost-protected size mask bs
lost-protected size (false ∷ mask) (b ∷ bs) =
    ap (◌∷◌ (pad size (protected_part b))) (lost-protected size mask bs)

lost-AtMost :
    (size : ℕ) (mask : List Bool) (bs : List Bytes)
    → AtMost size (protected_parts bs)
    → AtMost size (protected_parts (lost_payloads mask bs))
lost-AtMost size [] bs a = tt
lost-AtMost size (m ∷ mask) [] a = tt
lost-AtMost size (true ∷ mask) (b ∷ bs) a = lost-AtMost size mask bs a.1
lost-AtMost size (false ∷ mask) (b ∷ bs) a = (a.0, lost-AtMost size mask bs a.1)

pub AtMost-bodies :
    (size : ℕ) (ps : List FecPacket) → All (BodyAtMost size) ps → AtMost size (bodies ps)
AtMost-bodies size [] a = tt
AtMost-bodies size (p ∷ ps) a = (a.0, AtMost-bodies size ps a.1)

length-lost_payloads :
    (mask : List Bool) (bs : List Bytes) → length (lost_payloads mask bs) ≤ length bs
length-lost_payloads [] bs = omega arith
length-lost_payloads (m ∷ mask) [] = omega arith
length-lost_payloads (true ∷ mask) (b ∷ bs) = omega (arith, length-lost_payloads mask bs)
length-lost_payloads (false ∷ mask) (b ∷ bs) = omega (arith, length-lost_payloads mask bs)

-- The lost data shards of a group are delivered as the lost payloads, to an empty channel with room
-- for the group.
pub deliver-lost :
    (mask : List Bool) (bs : List Bytes) (size : ℕ) (fec : Fec)
    → fec.data_ch ≡ []
    → length bs ≤ fec.capacity
    → 2 < size
    → size ≤ 2048
    → AtMost size (protected_parts bs)
    → deliver fec (lost mask (map (pad size) (protected_parts bs)))
      ≡ ok (record fec { data_ch = lost_payloads mask bs })
deliver-lost mask bs size fec idle room big fits at_most =
    ap (deliver fec) (lost-protected size mask bs)
    ∙ deliver-payloads (lost_payloads mask bs) fec size big fits (lost-AtMost size mask bs at_most)
        (omega (arith, ap length idle, length-lost_payloads mask bs, room))
    ∙ ap (λ (ch : List Bytes). ok (record fec { data_ch = ch ++ lost_payloads mask bs })) idle

module _ (x : Arrival) (h : IsArrival x) (bs : List Bytes)
    (payloads : bodies x.data_pkts ≡ protected_parts bs) where
  num_payloads : length bs ≡ x.k
  num_payloads =
      sym (length-map protected_part bs)
      ∙ sym (ap length payloads)
      ∙ length-map (λ (p : FecPacket). p.body) x.data_pkts
      ∙ (h.is_sent).num_data

  delivered :
      (fec : Fec)
      → fec.data_ch ≡ []
      → x.k ≤ fec.capacity
      → 2 < x.size
      → deliver fec (lost x.data_mask (shards_of x.size x.data_pkts))
        ≡ ok (record fec { data_ch = lost_payloads x.data_mask bs })
  delivered fec idle room big =
      ap (λ (ds : List Bytes). deliver fec (lost x.data_mask (map (pad x.size) ds))) payloads
      ∙ deliver-lost x.data_mask bs x.size fec idle (omega (arith, num_payloads, room)) big
          (h.is_sent).size_fits
          (subst (AtMost x.size) payloads (AtMost-bodies x.size x.data_pkts (h.is_sent).data_sizes))

  -- A packet of a group arrives as bytes, with data packets of the group still lost and as many
  -- packets in hand as the group has data packets: `decode` returns the packet's own payload, and
  -- the channel, empty before, holds exactly the lost payloads in the order in which they were sent.
  pub decode_one-recovers :
      (fec : Fec) (bytes : Bytes) (out : Option Bytes)
      → x.k ≤ fec.capacity
      → decode_fec_packet bytes ≡ ok x.pkt
      → payload_of x.pkt bytes ≡ ok out
      → 2 < x.size
      → count x.data_mask < x.k
      → x.k ≤ count x.data_mask + count x.parity_mask
      → decode_one (record fec { decoder = some x.dec; data_ch = [] }) bytes
        ≡ ok (
          record fec {
            decoder = some (record x.dec { rx = trim x.dec.rxlimit (x.pre ++ x.post) });
            data_ch = lost_payloads x.data_mask bs;
          },
          out,
        )
  unfolding decode_one
  decode_one-recovers fec bytes out room parsed own big few quorum =
      let not_all : (count x.data_mask == x.k) ≡ false = ground arith in
      let enough : leb x.k (count x.data_mask + count x.parity_mask) ≡ true = ground arith in
      let step : decode x.dec x.pkt
          ≡ ok (
            record x.dec { rx = trim x.dec.rxlimit (x.pre ++ x.post) },
            lost x.data_mask (shards_of x.size x.data_pkts),
          ) =
        rw (not_all, enough) at (decode-group x h) in
      let fec' : Fec = record fec {
        decoder = some (record x.dec { rx = trim x.dec.rxlimit (x.pre ++ x.post) });
        data_ch = [];
      } in
      rw (parsed, own, step, delivered fec' refl room big)
