-- ===== src/Fec/Channel/EachOnce.antt =====
-- From the sender to the receiver: the payloads that come out are those that went in, each once.
use mathlib.Core.List.{Perm}
use mathlib.Core.List.Perm
use tcpraw.Base.{
  ℕ, zero, suc, ◌+◌, ◌≤◌, ◌<◌, ◌≡◌, refl, sym, ap, subst, Bool, true, false, List, [], ◌∷◌, ◌++◌,
  some, arith, ltb, length, take, get_elem?, get_or, set, replicate, marked, Fresh, Bytes, ok,
  Bool-cases, inl, inr, ltb→lt,
}
use tcpraw.Fec.Codec.{IsCodec}
use tcpraw.Fec.Encoder.{FecEncoder}
use tcpraw.Fec.Encoder.Collect.{IsCollecting}
use tcpraw.Fec.Encoder.Sizes.{encode_all, group_size, Fit}
use tcpraw.Fec.Decoder.{FecDecoder}
use tcpraw.Fec.Decoder.Sent.{IsSent}
use tcpraw.Fec.Decoder.Step.{IsReceiver}
use tcpraw.Fec.Channel.{Fec}
use tcpraw.Fec.Channel.Arrivals.{lost_payloads}
use tcpraw.Fec.Channel.Transmission.{encode_all-IsSent}
use tcpraw.Fec.Channel.AnyOrder.{decode_all, packets_at, payloads_at, decode_all-any_order}

pub lost-take :
    (k : ℕ) (m : List Bool) (bs : List Bytes)
    → length bs ≤ k
    → lost_payloads (take k m) bs ≡ lost_payloads m bs
lost-take zero [] bs h = refl
lost-take zero (b ∷ m) [] h = refl
lost-take zero (b ∷ m) (x ∷ bs) h = absurd (omega arith)
lost-take (suc k) [] bs h = refl
lost-take (suc k) (b ∷ m) [] h = refl
lost-take (suc k) (true ∷ m) (x ∷ bs) h = lost-take k m bs (omega arith)
lost-take (suc k) (false ∷ m) (x ∷ bs) h = ap (◌∷◌ x) (lost-take k m bs (omega arith))

pub lost-none :
    (n : ℕ) (bs : List Bytes) → length bs ≤ n → lost_payloads (replicate n false) bs ≡ bs
lost-none zero [] h = refl
lost-none zero (x ∷ bs) h = absurd (omega arith)
lost-none (suc n) [] h = refl
lost-none (suc n) (x ∷ bs) h = ap (◌∷◌ x) (lost-none n bs (omega arith))

-- A payload that comes is one of the missing, and the others are still missing.
lost-set_inside :
    (m : List Bool) (j : ℕ) (bs : List Bytes)
    → get_elem? m j ≡ some false
    → j < length bs
    → Perm (get_or bs j [] ∷ lost_payloads (set m j true) bs) (lost_payloads m bs)
lost-set_inside [] j bs e h = cc
lost-set_inside (b ∷ m) j [] e h = absurd (omega arith)
lost-set_inside (true ∷ m) zero (x ∷ bs) e h = cc
lost-set_inside (false ∷ m) zero (x ∷ bs) e h = Perm.refl (x ∷ lost_payloads m bs)
lost-set_inside (true ∷ m) (suc j) (x ∷ bs) e h = lost-set_inside m j bs e (omega arith)
lost-set_inside (false ∷ m) (suc j) (x ∷ bs) e h =
    Perm.trans (Perm.swap x (get_or bs j []) (lost_payloads (set m j true) bs))
      (Perm.cons x (lost-set_inside m j bs e (omega arith)))

pub lost-set_outside :
    (m : List Bool) (j : ℕ) (bs : List Bytes)
    → length bs ≤ j
    → lost_payloads (set m j true) bs ≡ lost_payloads m bs
lost-set_outside [] j bs h = refl
lost-set_outside (b ∷ m) zero [] h = refl
lost-set_outside (b ∷ m) (suc j) [] h = refl
lost-set_outside (b ∷ m) zero (x ∷ bs) h = absurd (omega arith)
lost-set_outside (true ∷ m) (suc j) (x ∷ bs) h = lost-set_outside m j bs (omega arith)
lost-set_outside (false ∷ m) (suc j) (x ∷ bs) h = ap (◌∷◌ x) (lost-set_outside m j bs (omega arith))

pub payloads_at-each_once :
    (k : ℕ) (bs : List Bytes) (js : List ℕ) (m : List Bool)
    → length bs ≡ k
    → Fresh m js
    → Perm (payloads_at k bs js ++ lost_payloads (marked m js) bs) (lost_payloads m bs)
payloads_at-each_once k bs [] m len fresh = Perm.refl (lost_payloads m bs)
payloads_at-each_once k bs (j ∷ js) m len fresh =
    let ih = payloads_at-each_once k bs js (set m j true) len fresh.1 in
    elim (Bool-cases (ltb j k)) [
      | inl inside ↦ rw inside (
          Perm.trans (Perm.cons (get_or bs j []) ih)
            (lost-set_inside m j bs fresh.0 (omega (arith, ltb→lt j k inside, len))))
      | inr outside ↦ rw outside (
          subst
            (λ (xs : List Bytes).
              Perm (payloads_at k bs js ++ lost_payloads (marked (set m j true) js) bs) xs)
            (lost-set_outside m j bs (ground (arith, outside, len))) ih)
    ]

-- The payloads of the packets that came and those that are lost are all payloads.
pub payloads_at-once :
    (k n : ℕ) (bs : List Bytes) (js : List ℕ)
    → length bs ≡ k
    → k ≤ n
    → Fresh (replicate n false) js
    → Perm (payloads_at k bs js ++ lost_payloads (take k (marked (replicate n false) js)) bs) bs
payloads_at-once k n bs js len le fresh =
    let none_held = replicate n false in
    rw (lost-take k (marked none_held js) bs (omega (arith, len))) (
      subst (Perm (payloads_at k bs js ++ lost_payloads (marked none_held js) bs))
        (lost-none n bs (omega (arith, len, le)))
        (payloads_at-each_once k bs js none_held len fresh))

-- A sender at the start of a group of k data and p parity packets, both more than none and together
-- at most 65536, encodes k payloads that fit and are not all empty, and any k different packets of
-- those that it sends come, in any order, to a receiver with the same codec and shape, an empty
-- queue, an empty channel and room for a group: the payloads that the receiver returns at once,
-- together with those that it puts into its channel, are exactly the k payloads, each as often as it
-- was sent.
pub encode_all-decode_all :
    {k p start : ℕ} {enc : FecEncoder} (bs : List Bytes) (dec : FecDecoder) (fec : Fec)
    (js : List ℕ)
    → IsCodec k p enc.codec
    → IsCollecting k p start [] enc
    → length bs ≡ k
    → 0 < k
    → 0 < p
    → k + p ≤ 65536
    → Fit bs
    → 2 < group_size bs
    → dec.codec ≡ enc.codec
    → dec.data_shards ≡ k
    → dec.shard_size ≡ k + p
    → k ≤ dec.rxlimit
    → k ≤ fec.capacity
    → Fresh (replicate (k + p) false) js
    → length js ≡ k
    → (enc' : FecEncoder) × (out : List Bytes) × (direct : List Bytes) × (channel : List Bytes)
      × (encode_all enc bs ≡ ok (enc', out))
      × (decode_all
            (packets_at out js)
            (record fec { decoder = some (record dec { rx = [] }); data_ch = [] })
          ≡ ok (record fec { decoder = some (record dec { rx = [] }); data_ch = channel }, direct))
      × Perm (direct ++ channel) bs
encode_all-decode_all {k} {p} {start} {enc} bs dec fec js law c len kp pp small fit big same num all
      limit room fresh taken =
    let (enc', out, dps, pps, run, parsed, sent, numbered, bodies_eq) =
      encode_all-IsSent bs law c len kp pp fit in
    let below = c.below_paws in
    let top = c.paws_fits in
    let receiver : IsReceiver dec k p (group_size bs) start start dps pps = record {
      group = record {
        pos = omega arith;
        aligned = c.aligned;
        fits = omega (arith, below, top);
        base_fits = omega (arith, below, top, kp);
        in_window = omega (arith, below, top, small);
      };
      law = subst (IsCodec k p) (sym same) law;
      is_sent = subst (λ codec. IsSent k p (group_size bs) codec dps pps) (sym same) sent;
      num_data = num;
      num_all = all;
      numbered = numbered;
      limit = limit;
    } in
    (
      enc',
      out,
      payloads_at k bs js,
      lost_payloads (take k (marked (replicate (k + p) false) js)) bs,
      run,
      decode_all-any_order receiver fec out bs parsed bodies_eq room big js fresh taken kp,
      payloads_at-once k (k + p) bs js len (omega arith) fresh,
    )
