-- ===== src/Fec/Encoder/Group.antt =====
-- A whole group through Encode: what goes over the wire for `k` payloads.
use tcpraw.Base.{
  ℕ, ◌+◌, ◌%◌, ◌≤◌, ◌<◌, ◌≡◌, sym, ap, ◌∙◌, subst, List, [], ◌∷◌, ◌++◌, map, arith, length,
  length-append, ==_iff, ◌==◌, true, some, Bytes, pad, ok,
}
use tcpraw.Fec.Codec.{HasSize}
use tcpraw.Fec.Wire.{mtu_limit}
use tcpraw.Fec.Encoder.{FecEncoder, encode}
use tcpraw.Fec.Encoder.Collect.{
  IsCollecting, longest, data_packet, fresh, stored_in, stores, encode-stored,
}
use tcpraw.Fec.Encoder.Parity.{parity_packets}
use tcpraw.Fec.Encoder.Finish.{AtMost, finish_group-full}
use tcpraw.Fec.Encoder.Sizes.{
  data_packets, data_packets-snoc, length-data_packets, protected_parts, group_size, longest-group,
  longest-le, AtMost-longest, coded-data_packets, Fit, Fit-AtMost,
}

-- The shards that the codec encodes for payloads.
abbrev pub data_shards_of : List Bytes → List Bytes
data_shards_of bs = map (pad (group_size bs)) (protected_parts bs)

-- What the encoder is after the group that began at `start`.
pub record IsNext (k p start : ℕ) (enc enc' : FecEncoder) : Type 0 where
  pub collecting : IsCollecting k p ((start + (k + p)) % enc.paws) [] enc'
  pub same_codec : enc'.codec ≡ enc.codec
  pub same_paws : enc'.paws ≡ enc.paws

pub Fit-append : (xs ys : List Bytes) → Fit (xs ++ ys) → Fit xs × Fit ys
Fit-append [] ys f = (tt, f)
Fit-append (x ∷ xs) ys f = let r = Fit-append xs ys f.1 in ((f.0, r.0), r.1)

-- The bounds on the size of the shards of payloads that fit.
pub group_size_bounds :
    (b : Bytes) (bs : List Bytes)
    → Fit (b ∷ bs)
    → (2 ≤ group_size (b ∷ bs)) × (6 + group_size (b ∷ bs) ≤ mtu_limit)
group_size_bounds b bs f =
    let le = longest-le 0 2042 (protected_parts (b ∷ bs)) (omega arith) (Fit-AtMost (b ∷ bs) f) in
    let ge = (AtMost-longest 0 (protected_parts (b ∷ bs))).0 in omega arith

module _ {k p start : ℕ} {enc : FecEncoder} (done : List Bytes) (b : Bytes)
    (c : IsCollecting k p start (data_packets start done) enc) (fit : Fit (done ++ b ∷ []))
    (last_one : length done + 1 ≡ k) (pp : 0 < p) (ps : List Bytes)
    (encoded : enc.codec.encode (data_shards_of (done ++ b ∷ [])) ≡ some ps) (num : length ps ≡ p)
    (sizes : HasSize (group_size (done ++ b ∷ [])) ps) where
  abbrev pub all : List Bytes
  all = done ++ b ∷ []

  group_bounds :
      (2 ≤ group_size all)
      × (6 + group_size all ≤ mtu_limit)
      × (longest 0 (data_packets start all) ≡ 6 + group_size all)
  group_bounds = go done fit
    where
      go :
          (xs : List Bytes)
          → Fit (xs ++ b ∷ [])
          → (2 ≤ group_size (xs ++ b ∷ []))
            × (6 + group_size (xs ++ b ∷ []) ≤ mtu_limit)
            × (longest 0 (data_packets start (xs ++ b ∷ [])) ≡ 6 + group_size (xs ++ b ∷ []))
      go [] f = let r = group_size_bounds b [] f in (r.0, r.1, longest-group start b [])
      go (x ∷ xs) f =
          let r = group_size_bounds x (xs ++ b ∷ []) f in
          (r.0, r.1, longest-group start x (xs ++ b ∷ []))

  fits_one : length b ≤ 2040
  fits_one = (Fit-append done (b ∷ []) fit).1.0

  few : length (data_packets start done) < k
  few = omega (arith, length-data_packets start done)

  snoc :
      data_packets start done ++ data_packet (start + length (data_packets start done)) b ∷ []
      ≡ data_packets start all
  snoc =
      ap (λ (n : ℕ). data_packets start done ++ data_packet (start + n) b ∷ [])
        (length-data_packets start done)
      ∙ sym (data_packets-snoc start done b)

  abbrev full_one : FecEncoder
  full_one = stored_in c b fits_one few (stores c b fits_one few).0

  collected : IsCollecting k p start (data_packets start all) full_one
  collected =
      subst (λ (ds : List Bytes). IsCollecting k p start ds full_one) snoc
        (stores c b fits_one few).2

  pub finishes :
      (enc' : FecEncoder) × (encode enc (fresh b)
        ≡ ok (enc', data_packet (start + length done) b, parity_packets (start + k) ps))
      × IsNext k p start enc enc'
  finishes =
      let (enc', e, next, sc, sp) =
        finish_group-full collected (group_size all) ps
          (omega (arith, length-data_packets start all, length-append done (b ∷ []))) (omega arith)
          pp (collected.max ∙ group_bounds.2) group_bounds.0 group_bounds.1
          (subst (λ (n : ℕ). AtMost n (data_packets start all)) group_bounds.2
            (AtMost-longest 0 (data_packets start all)))
          (ap enc.codec.encode (coded-data_packets start (group_size all) all) ∙ encoded) num
          sizes in
      let full : (enc.shard_count + 1 == enc.data_shards) ≡ true =
        (==_iff _ _).1 (omega (arith, c.counted, c.num_data, length-data_packets start done)) in
      (
        enc',
        rw (encode-stored c b fits_one few, full, e, length-data_packets start done),
        record { collecting = next; same_codec = sc; same_paws = sp },
      )
