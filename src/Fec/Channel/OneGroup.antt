-- ===== src/Fec/Channel/OneGroup.antt =====
-- DecodeData while the packets of one group come, with what is left of earlier groups in the
-- decoder's queue, and other packets behind them.
use tcpraw.Base.{
  ℕ, suc, ◌+◌, ◌≤◌, ◌<◌, ◌≡◌, subst, ◌∙◌, Bool, true, false, List, [], ◌∷◌, ◌++◌, map, some, arith,
  ltb, if◌then◌else◌, length, take, get_or, set, pick, marked, Fresh, Bytes, ok, count, count-set,
  length-set, All,
}
use tcpraw.Fec.Wire.{FecPacket}
use tcpraw.Fec.Encoder.Sizes.{protected_parts}
use tcpraw.Fec.Decoder.{FecDecoder}
use tcpraw.Fec.Decoder.Order.{Before}
use tcpraw.Fec.Decoder.Group.{bodies}
use tcpraw.Fec.Decoder.Step.{IsReceiver, shortened, All-shortened}
use tcpraw.Fec.Channel.{Fec, Input, received}
use tcpraw.Fec.Channel.Arrivals.{lost_payloads}
use tcpraw.Fec.Channel.Transmission.{decode_packets}
use tcpraw.Fec.Channel.Wires.{own_payload}
use tcpraw.Fec.Channel.AnyOrder.{
  with_payload-append, packets_at, payloads_at, fec_behind, kept_before, decode_one-collects,
  decode_one-completes,
}
use tcpraw.Fec.Channel.Yields.{Yields, Yields-packet, Yields-channel}

pub length-shortened :
    (limit : ℕ) (pre : List FecPacket) (n : ℕ) → length (shortened limit pre n) ≤ length pre
length-shortened limit [] n = omega arith
length-shortened limit (x ∷ pre) n = go (ltb limit (suc (length pre) + n))
  where
    go : (b : Bool) → length (if b then pre else x ∷ pre) ≤ suc (length pre)
    go true = omega arith
    go false = omega arith

-- No more packets than before, all of them of numbers before the group.
abbrev pub Left : ℕ → ℕ → List FecPacket → List FecPacket → Type 0
Left base start pre left = All (Before base start) left × (length left ≤ length pre)

-- The channel's side between two groups.
abbrev pub between : Fec → FecDecoder → ℕ → List FecPacket → Fec
between fec dec n left = record fec {
  decoder = some (record dec { rx = left });
  data_ch = [];
  rx_bytes = n;
}

module _ {dec : FecDecoder} {k p size base start : ℕ} {dps pps : List FecPacket}
    (h : IsReceiver dec k p size base start dps pps) (fec : Fec) (wire bs : List Bytes)
    (parsed : decode_packets wire ≡ ok (dps ++ pps)) (payloads : bodies dps ≡ protected_parts bs)
    (room : k ≤ fec.capacity) (big : 2 < size) (End : Fec → Type 0) (is : List Input)
    (out : List Bytes) where
  abbrev state : List FecPacket → List Bool → Fec
  state pre m = fec_behind h fec wire bs parsed payloads room big pre m

  abbrev here : List ℕ → List Input
  here js = map received (packets_at wire js) ++ is

  abbrev kept : List FecPacket → List Bool → List FecPacket
  kept pre m = kept_before h fec wire bs parsed payloads room big pre m

  kept-Left :
      (pre : List FecPacket) (n : ℕ)
      → All (Before base start) pre
      → Left base start pre (shortened dec.rxlimit pre n)
  kept-Left pre n before = (
    All-shortened (Before base start) dec.rxlimit pre n before,
    length-shortened dec.rxlimit pre n,
  )

  -- Too few packets to complete the group.
  pub Yields-collects :
      (js : List ℕ) (pre : List FecPacket) (m : List Bool)
      → All (Before base start) pre
      → length m ≡ k + p
      → Fresh m js
      → count m + length js < k
      → ((left : List FecPacket)
          → Left base start pre left
          → Yields End is (state left (marked m js)) out)
      → Yields End (here js) (state pre m) (payloads_at k bs js ++ out)
  Yields-collects [] pre m before shape fresh few next = next pre (before, omega arith)
  Yields-collects (j ∷ js) pre m before shape fresh few next =
      let counted = count-set m j fresh.0 in
      let c =
        decode_one-collects h fec wire bs parsed payloads room big pre before m j shape fresh.0
          (omega (arith, few)) in
      let old = kept-Left pre (length (pick (set m j true) (dps ++ pps))) before in
      let rest =
        Yields-collects js (kept pre (set m j true)) (set m j true) old.0
          (length-set m j true ∙ shape) fresh.1 (omega (arith, counted, few))
          (λ left l. next left (l.0, omega (arith, l.1, old.1))) in
      subst (Yields End (here (j ∷ js)) (state pre m))
        (with_payload-append (own_payload k bs j) (payloads_at k bs js) out)
        (Yields-packet End (state pre m) _ (get_or wire j []) (own_payload k bs j) (here js)
          (payloads_at k bs js ++ out) c rest)

  -- The rest of the `k` packets that complete the group: behind their own payloads come the lost.
  pub Yields-completes :
      (js : List ℕ) (j : ℕ) (pre : List FecPacket) (m : List Bool)
      → All (Before base start) pre
      → length m ≡ k + p
      → Fresh m (j ∷ js)
      → count m + length (j ∷ js) ≡ k
      → ((n : ℕ) (left : List FecPacket)
          → Left base start pre left
          → Yields End is (between fec dec n left) out)
      → Yields End
          (here (j ∷ js))
          (state pre m)
          (payloads_at k bs (j ∷ js) ++ (lost_payloads (take k (marked m (j ∷ js))) bs ++ out))
  Yields-completes [] j pre m before shape fresh num next =
      let c =
        decode_one-completes h fec wire bs parsed payloads room big pre before m j shape fresh.0
          (omega (arith, num)) in
      let lost = lost_payloads (take k (set m j true)) bs in
      let left = shortened dec.rxlimit pre 0 in
      subst (Yields End (here (j ∷ [])) (state pre m))
        (with_payload-append (own_payload k bs j) [] (lost ++ out))
        (Yields-packet End (state pre m) _ (get_or wire j []) (own_payload k bs j) is (lost ++ out)
          c
          (Yields-channel End lost (record fec { decoder = some (record dec { rx = left }) }) is out
            (λ n. next n left (kept-Left pre 0 before))))
  Yields-completes (i ∷ js) j pre m before shape fresh num next =
      let counted = count-set m j fresh.0 in
      let c =
        decode_one-collects h fec wire bs parsed payloads room big pre before m j shape fresh.0
          (omega (arith, num)) in
      let old = kept-Left pre (length (pick (set m j true) (dps ++ pps))) before in
      let lost = lost_payloads (take k (marked m (j ∷ i ∷ js))) bs in
      let rest =
        Yields-completes js i (kept pre (set m j true)) (set m j true) old.0
          (length-set m j true ∙ shape) fresh.1 (omega (arith, counted, num))
          (λ n left l. next n left (l.0, omega (arith, l.1, old.1))) in
      subst (Yields End (here (j ∷ i ∷ js)) (state pre m))
        (with_payload-append (own_payload k bs j) (payloads_at k bs (i ∷ js)) (lost ++ out))
        (Yields-packet End (state pre m) _ (get_or wire j []) (own_payload k bs j) (here (i ∷ js))
          (payloads_at k bs (i ∷ js) ++ (lost ++ out)) c rest)
