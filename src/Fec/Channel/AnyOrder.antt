-- ===== src/Fec/Channel/AnyOrder.antt =====
-- A group's packets, any of them in any order, as they come to Fec.
use tcpraw.Base.{
  All, ℕ, ◌+◌, ◌≤◌, ◌<◌, ◌≡◌, refl, sym, ap, subst, ◌∙◌, Bool, true, false, List, [], ◌∷◌, ◌++◌,
  map, Option, none, some, arith, length, take, get_elem?, get_or, get_elem?-lt, set, replicate,
  pick, count, count-set, count-replicate, pick-replicate, length-set, length-replicate,
  length-append, get_elem?-lt_length, marked, Fresh, Bytes, Run, ok, ◌>>=◌, pad, length-map,
}
use tcpraw.Fec.Wire.{FecPacket, protected_part}
use tcpraw.Fec.Encoder.Finish.{AtMost}
use tcpraw.Fec.Encoder.Sizes.{protected_parts}
use tcpraw.Fec.Decoder.{FecDecoder}
use tcpraw.Fec.Decoder.Group.{bodies}
use tcpraw.Fec.Decoder.Order.{Before}
use tcpraw.Fec.Decoder.Sent.{lost, shards_of}
use tcpraw.Fec.Decoder.Step.{IsReceiver, holding, shortened, decode-collects, decode-completes}
use tcpraw.Fec.Channel.{Fec, payload_of, deliver, decode_one}
use tcpraw.Fec.Channel.Arrivals.{lost_payloads, deliver-lost, AtMost-bodies}
use tcpraw.Fec.Channel.Transmission.{decode_packets}
use tcpraw.Fec.Channel.Wires.{own_payload, payload_of-own, decode_packets-at}

-- Packets one after another, with the payloads that `decode` returns at once.
abbrev pub with_payload : Option Bytes → List Bytes → List Bytes
with_payload none bs = bs
with_payload (some b) bs = b ∷ bs

pub with_payload-append :
    (out : Option Bytes) (xs ys : List Bytes)
    → with_payload out (xs ++ ys) ≡ with_payload out xs ++ ys
with_payload-append none xs ys = refl
with_payload-append (some b) xs ys = refl

unfoldable pub decode_all : List Bytes → Fec → Run (Fec × List Bytes)
unfolding decode_one
decode_all [] fec = ok (fec, [])
decode_all (b ∷ bs) fec =
    let rest = λ (f : Fec). decode_all bs f in
    decode_one fec b >>= λ (fec', out).
    rest fec' >>= λ (fec'', outs). ok (fec'', with_payload out outs)

-- The packets at these positions, and the payloads that they carry.
abbrev pub packets_at : List Bytes → List ℕ → List Bytes
packets_at wire js = map (λ j. get_or wire j []) js

abbrev pub payloads_at : ℕ → List Bytes → List ℕ → List Bytes
payloads_at k bs [] = []
payloads_at k bs (j ∷ js) = with_payload (own_payload k bs j) (payloads_at k bs js)

module _ {dec : FecDecoder} {k p size base start : ℕ} {dps pps : List FecPacket}
    (h : IsReceiver dec k p size base start dps pps) (fec : Fec) (wire bs : List Bytes)
    (parsed : decode_packets wire ≡ ok (dps ++ pps)) (payloads : bodies dps ≡ protected_parts bs)
    (room : k ≤ fec.capacity) (big : 2 < size) where
  -- The channel's side with what is left of earlier groups, and what a mask keeps of this one, in
  -- the decoder's queue.
  abbrev pub fec_behind : List FecPacket → List Bool → Fec
  fec_behind pre m = record fec { decoder = some (holding dec pre (dps ++ pps) m); data_ch = [] }

  abbrev pub fec_holding : List Bool → Fec
  fec_holding m = fec_behind [] m

  -- What stays of earlier groups when a mask keeps so many packets of this one.
  abbrev pub kept_before : List FecPacket → List Bool → List FecPacket
  kept_before pre m = shortened dec.rxlimit pre (length (pick m (dps ++ pps)))

  sent_at :
      (m : List Bool) (j : ℕ)
      → length m ≡ k + p
      → get_elem? m j ≡ some false
      → (pkt : FecPacket) × (get_elem? (dps ++ pps) j ≡ some pkt)
  sent_at m j shape new_here = get_elem?-lt (dps ++ pps) j (
      omega (
        arith,
        get_elem?-lt_length m j false new_here,
        shape,
        length-append dps pps,
        h.is_sent.num_data,
        h.is_sent.num_parity,
      ))

  pub num_payloads : length bs ≡ k
  num_payloads =
      sym (length-map protected_part bs)
      ∙ sym (ap length payloads)
      ∙ length-map (λ (q : FecPacket). q.body) dps
      ∙ h.is_sent.num_data

  module _ (pre : List FecPacket) (before : All (Before base start) pre) (m : List Bool) (j : ℕ)
      (shape : length m ≡ k + p) (new_here : get_elem? m j ≡ some false) where
    own :
        (pkt : FecPacket)
        → get_elem? (dps ++ pps) j ≡ some pkt
        → payload_of pkt (get_or wire j []) ≡ ok (own_payload k bs j)
    own pkt here =
        payload_of-own dps pps bs j k (get_or wire j []) pkt h.is_sent.num_data payloads
          h.is_sent.data_flags h.is_sent.parity_flags here
          (decode_packets-at wire (dps ++ pps) j pkt parsed here)

    pub decode_one-collects :
        count m + 1 < k
        → decode_one (fec_behind pre m) (get_or wire j [])
          ≡ ok (fec_behind (kept_before pre (set m j true)) (set m j true), own_payload k bs j)
    unfolding decode_one deliver
    decode_one-collects few =
        let (pkt, here) = sent_at m j shape new_here in
        rw (
          decode_packets-at wire (dps ++ pps) j pkt parsed here,
          own pkt here,
          decode-collects h pre before m j pkt shape new_here here few,
        )

    pub decode_one-completes :
        count m + 1 ≡ k
        → decode_one (fec_behind pre m) (get_or wire j [])
          ≡ ok (
            record fec {
              decoder = some (record dec { rx = shortened dec.rxlimit pre 0 });
              data_ch = lost_payloads (take k (set m j true)) bs;
            },
            own_payload k bs j,
          )
    unfolding decode_one
    decode_one-completes last =
        let (pkt, here) = sent_at m j shape new_here in
        let dec' : FecDecoder = record dec { rx = shortened dec.rxlimit pre 0 } in
        let fec' : Fec = record fec { decoder = some dec'; data_ch = [] } in
        let given : deliver fec' (lost (take k (set m j true)) (shards_of size dps))
            ≡ ok (record fec' { data_ch = lost_payloads (take k (set m j true)) bs }) =
          ap (λ (ds : List Bytes). deliver fec' (lost (take k (set m j true)) (map (pad size) ds)))
            payloads
          ∙ deliver-lost (take k (set m j true)) bs size fec' refl
              (omega (arith, num_payloads, room)) big h.is_sent.size_fits
              (subst (AtMost size) payloads (AtMost-bodies size dps h.is_sent.data_sizes)) in
        rw (
          decode_packets-at wire (dps ++ pps) j pkt parsed here,
          own pkt here,
          decode-completes h pre before m j pkt shape new_here here last,
          given,
        )

  -- The rest of the `k` packets that complete the group.
  decode_all-rest :
      (js : List ℕ) (j : ℕ) (m : List Bool)
      → length m ≡ k + p
      → Fresh m (j ∷ js)
      → count m + length (j ∷ js) ≡ k
      → decode_all (packets_at wire (j ∷ js)) (fec_holding m)
        ≡ ok (
          record fec {
            decoder = some (record dec { rx = [] });
            data_ch = lost_payloads (take k (marked m (j ∷ js))) bs;
          },
          payloads_at k bs (j ∷ js),
        )
  unfolding decode_all
  decode_all-rest [] j m shape fresh num =
      rw (decode_one-completes [] tt m j shape fresh.0 (omega arith))
  decode_all-rest (i ∷ js) j m shape fresh num =
      let c = count-set m j fresh.0 in
      rw (
        decode_one-collects [] tt m j shape fresh.0 (omega arith),
        decode_all-rest js i (set m j true) (length-set m j true ∙ shape) fresh.1
            (omega (arith, c)),
      )

  abbrev pub none_held : List Bool
  none_held = replicate (k + p) false

  -- Any `k` different packets of a group, of which not all payloads are empty, in any order, come to
  -- a decoder with an empty queue and an empty channel with room for `k` payloads: the payloads
  -- returned at once are those of the data packets that came, in the order in which they came, and
  -- the channel then holds those of the other data packets, in the order of sending. The decoder's
  -- queue is empty again.
  pub decode_all-any_order :
      (js : List ℕ)
      → Fresh none_held js
      → length js ≡ k
      → 0 < k
      → decode_all
          (packets_at wire js)
          (record fec { decoder = some (record dec { rx = [] }); data_ch = [] })
        ≡ ok (
          record fec {
            decoder = some (record dec { rx = [] });
            data_ch = lost_payloads (take k (marked none_held js)) bs;
          },
          payloads_at k bs js,
        )
  decode_all-any_order [] fresh num pos = absurd (omega arith)
  decode_all-any_order (j ∷ js) fresh num pos =
      let none_kept : pick none_held (dps ++ pps) ≡ [] = pick-replicate (k + p) (dps ++ pps) in
      ap
        (λ (xs : List FecPacket).
          decode_all (packets_at wire (j ∷ js))
            (record fec { decoder = some (record dec { rx = xs }); data_ch = [] }))
        (sym none_kept)
      ∙ decode_all-rest js j none_held (length-replicate (k + p) false) fresh
          (omega (arith, count-replicate (k + p)))
