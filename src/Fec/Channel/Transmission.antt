-- ===== src/Fec/Channel/Transmission.antt =====
-- The packets that the encoder sends for a group, read by the decoder's side.
use tcpraw.Base.{
  ℕ, suc, ◌+◌, ◌≤◌, ◌<◌, ◌≡◌, refl, ap, ◌∙◌, List, [], ◌∷◌, ◌++◌, arith, length, All, Bytes, Run,
  ok, ◌>>=◌, length-map,
}
use tcpraw.Fec.Codec.{IsCodec, HasSize}
use tcpraw.Fec.Wire.{
  FecPacket, decode_fec_packet, decode_fec_packet-header, protected_part, type_data, type_fec,
  mtu_limit,
}
use tcpraw.Fec.Encoder.{FecEncoder}
use tcpraw.Fec.Encoder.Collect.{IsCollecting}
use tcpraw.Fec.Encoder.Parity.{parity_packets}
use tcpraw.Fec.Encoder.Finish.{AtMost}
use tcpraw.Fec.Encoder.Sizes.{
  protected_parts, data_packets, encode_all, group_size, Fit, AtMost-longest,
}
use tcpraw.Fec.Encoder.Group.{group_size_bounds, IsNext}
use tcpraw.Fec.Encoder.Stream.{encode_all-group}
use tcpraw.Fec.Decoder.Group.{bodies, Numbered}
use tcpraw.Fec.Decoder.Sent.{IsSent, HasFlag, BodyAtMost, BodyIs}

-- The packets that arrive, read one by one.
unfoldable pub decode_packets : List Bytes → Run (List FecPacket)
unfolding decode_fec_packet
decode_packets [] = ok []
decode_packets (b ∷ bs) = do pkt ← decode_fec_packet b; pkts ← decode_packets bs; ok (pkt ∷ pkts)

-- Packets with these bodies, numbered from `s`.
abbrev pub numbered_packets : ℕ → ℕ → List Bytes → List FecPacket
numbered_packets flag s [] = []
numbered_packets flag s (b ∷ bs) =
    record { seqid = s; flag = flag; body = b } ∷ numbered_packets flag (s + 1) bs

decode_packets-data :
    (s : ℕ) (bs : List Bytes) (rest : List Bytes) (tail : List FecPacket)
    → Fit bs
    → s + length bs ≤ 4294967296
    → decode_packets rest ≡ ok tail
    → decode_packets (data_packets s bs ++ rest)
      ≡ ok (numbered_packets type_data s (protected_parts bs) ++ tail)
unfolding decode_packets
decode_packets-data s [] rest tail f fits e = e
decode_packets-data s (b ∷ bs) rest tail f fits e =
    let q = f.0 in
    rw (
      decode_fec_packet-header s type_data (protected_part b) (omega arith) (omega arith)
          (omega arith),
      decode_packets-data (s + 1) bs rest tail f.1 (omega arith) e,
    )

decode_packets-parity :
    (size s : ℕ) (ps : List Bytes)
    → size ≤ mtu_limit
    → HasSize size ps
    → s + length ps ≤ 4294967296
    → decode_packets (parity_packets s ps) ≡ ok (numbered_packets type_fec s ps)
unfolding decode_packets
decode_packets-parity size s [] small h fits = refl
decode_packets-parity size s (p ∷ ps) small h fits =
    let q = h.0 in
    rw (
      decode_fec_packet-header s type_fec p (omega arith) (omega arith) (omega arith),
      decode_packets-parity size (s + 1) ps small h.1 (omega arith),
    )

bodies-numbered : (flag s : ℕ) (bs : List Bytes) → bodies (numbered_packets flag s bs) ≡ bs
bodies-numbered flag s [] = refl
bodies-numbered flag s (b ∷ bs) = ap (◌∷◌ b) (bodies-numbered flag (s + 1) bs)

length-numbered : (flag s : ℕ) (bs : List Bytes) → length (numbered_packets flag s bs) ≡ length bs
length-numbered flag s [] = refl
length-numbered flag s (b ∷ bs) = ap suc (length-numbered flag (s + 1) bs)

HasFlag-numbered : (flag s : ℕ) (bs : List Bytes) → All (HasFlag flag) (numbered_packets flag s bs)
HasFlag-numbered flag s [] = tt
HasFlag-numbered flag s (b ∷ bs) = (refl, HasFlag-numbered flag (s + 1) bs)

BodyAtMost-numbered :
    (flag s size : ℕ) (bs : List Bytes)
    → AtMost size bs
    → All (BodyAtMost size) (numbered_packets flag s bs)
BodyAtMost-numbered flag s size [] a = tt
BodyAtMost-numbered flag s size (b ∷ bs) a = (a.0, BodyAtMost-numbered flag (s + 1) size bs a.1)

BodyIs-numbered :
    (flag s size : ℕ) (bs : List Bytes)
    → HasSize size bs
    → All (BodyIs size) (numbered_packets flag s bs)
BodyIs-numbered flag s size [] a = tt
BodyIs-numbered flag s size (b ∷ bs) a = (a.0, BodyIs-numbered flag (s + 1) size bs a.1)

numbered_packets-Numbered :
    (flag s : ℕ) (bs : List Bytes) (rest : List FecPacket)
    → Numbered (s + length bs) rest
    → Numbered s (numbered_packets flag s bs ++ rest)
numbered_packets-Numbered flag s [] rest n = let e : s + 0 ≡ s = omega arith in rw e at n
numbered_packets-Numbered flag s (b ∷ bs) rest n =
    let e : s + suc (length bs) ≡ s + 1 + length bs = omega arith in
    (refl, numbered_packets-Numbered flag (s + 1) bs rest (rw e at n))

alone-Numbered : (flag s : ℕ) (bs : List Bytes) → Numbered s (numbered_packets flag s bs)
alone-Numbered flag s [] = tt
alone-Numbered flag s (b ∷ bs) = (refl, alone-Numbered flag (s + 1) bs)

group_bounds :
    (bs : List Bytes)
    → 0 < length bs
    → Fit bs
    → (2 ≤ group_size bs) × (6 + group_size bs ≤ mtu_limit)
group_bounds [] pos f = absurd (omega arith)
group_bounds (b ∷ bs) pos f = group_size_bounds b bs f

-- What the encoder sends for a group, what the other end reads, and the encoder behind it.
pub encode_all-sends :
    {k p start : ℕ} {enc : FecEncoder} (bs : List Bytes)
    → IsCodec k p enc.codec
    → IsCollecting k p start [] enc
    → length bs ≡ k
    → 0 < k
    → 0 < p
    → Fit bs
    → (enc' : FecEncoder) × (out : List Bytes) × (dps : List FecPacket) × (pps : List FecPacket)
      × (encode_all enc bs ≡ ok (enc', out))
      × (decode_packets out ≡ ok (dps ++ pps))
      × IsSent k p (group_size bs) enc.codec dps pps
      × Numbered start (dps ++ pps)
      × (bodies dps ≡ protected_parts bs)
      × IsNext k p start enc enc'
encode_all-sends {k} {p} {start} {enc} bs law c e kp pp f =
    let (enc', ps, run, next, encoded, num, sizes) = encode_all-group bs law c e kp pp f in
    let below = c.below_paws in
    let top = c.paws_fits in
    let bounds = group_bounds bs (omega arith) f in
    let parts = protected_parts bs in
    let len : length parts ≡ k = length-map protected_part bs ∙ e in
    let after : Numbered (start + length parts) (numbered_packets type_fec (start + k) ps) =
      rw len (alone-Numbered type_fec (start + k) ps) in
    (
      enc',
      data_packets start bs ++ parity_packets (start + k) ps,
      numbered_packets type_data start parts,
      numbered_packets type_fec (start + k) ps,
      run,
      decode_packets-data start bs (parity_packets (start + k) ps)
          (numbered_packets type_fec (start + k) ps) f (omega arith)
          (decode_packets-parity (group_size bs) (start + k) ps (omega arith) sizes (omega arith)),
      record {
        num_data = length-numbered type_data start parts ∙ len;
        num_parity = length-numbered type_fec (start + k) ps ∙ num;
        data_flags = HasFlag-numbered type_data start parts;
        parity_flags = HasFlag-numbered type_fec (start + k) ps;
        data_sizes =
            BodyAtMost-numbered type_data start (group_size bs) parts (AtMost-longest 0 parts);
        parity_sizes = BodyIs-numbered type_fec (start + k) (group_size bs) ps sizes;
        size_pos = omega arith;
        size_fits = omega arith;
        encoded =
            rw (bodies-numbered type_data start parts, bodies-numbered type_fec (start + k) ps)
              encoded;
      },
      numbered_packets-Numbered type_data start parts (numbered_packets type_fec (start + k) ps)
          after,
      bodies-numbered type_data start parts,
      next,
    )

-- With a codec that behaves as documented, from the start of a group, the `k` payloads that fit and
-- the codec's parity are sent as packets that the other end reads, each of them, as the group that
-- its decoder expects: numbered without a gap from the start, the data first, with the payloads'
-- protected parts as bodies.
pub encode_all-IsSent :
    {k p start : ℕ} {enc : FecEncoder} (bs : List Bytes)
    → IsCodec k p enc.codec
    → IsCollecting k p start [] enc
    → length bs ≡ k
    → 0 < k
    → 0 < p
    → Fit bs
    → (enc' : FecEncoder) × (out : List Bytes) × (dps : List FecPacket) × (pps : List FecPacket)
      × (encode_all enc bs ≡ ok (enc', out))
      × (decode_packets out ≡ ok (dps ++ pps))
      × IsSent k p (group_size bs) enc.codec dps pps
      × Numbered start (dps ++ pps)
      × (bodies dps ≡ protected_parts bs)
encode_all-IsSent bs law c e kp pp f =
    let (enc', out, dps, pps, run, parsed, sent, numbered, same, next) =
      encode_all-sends bs law c e kp pp f in
    (enc', out, dps, pps, run, parsed, sent, numbered, same)
