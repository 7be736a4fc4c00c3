-- ===== src/Fec/Channel/Calls.antt =====
-- The calls of DecodeData with which a user reads until one waits for the network.
use mathlib.Core.List.{Perm}
use tcpraw.Base.{
  append-nil, ℕ, suc, ◌+◌, ◌≤◌, ◌<◌, ◌≡◌, refl, ap, Bool, false, List, [], ◌∷◌, ◌++◌, map, some,
  arith, length, take, replicate, pick, pick-replicate, marked, Fresh, Bytes, ok, count-replicate,
  length-replicate,
}
use tcpraw.Fec.Wire.{FecPacket}
use tcpraw.Fec.Encoder.Sizes.{protected_parts}
use tcpraw.Fec.Decoder.{FecDecoder}
use tcpraw.Fec.Decoder.Group.{bodies}
use tcpraw.Fec.Decoder.Step.{IsReceiver}
use tcpraw.Fec.Channel.{Fec, received}
use tcpraw.Fec.Channel.Arrivals.{lost_payloads}
use tcpraw.Fec.Channel.Transmission.{decode_packets}
use tcpraw.Fec.Channel.AnyOrder.{packets_at, payloads_at, num_payloads}
use tcpraw.Fec.Channel.EachOnce.{payloads_at-once}
use tcpraw.Fec.Channel.Yields.{decode_until_wait, Yields-end}
use tcpraw.Fec.Channel.OneGroup.{between, Yields-completes}

-- The decoder's queue and the channel are empty.
abbrev AllRead : FecDecoder → Fec → Type 0
AllRead dec f = (f.decoder ≡ some (record dec { rx = [] })) × (f.data_ch ≡ [])

none_left : (xs : List FecPacket) → length xs ≤ 0 → xs ≡ []
none_left [] h = refl
none_left (x ∷ xs) h = absurd (omega arith)

module _ {dec : FecDecoder} {k p size base start : ℕ} {dps pps : List FecPacket}
    (h : IsReceiver dec k p size base start dps pps) (fec : Fec) (wire bs : List Bytes)
    (parsed : decode_packets wire ≡ ok (dps ++ pps)) (payloads : bodies dps ≡ protected_parts bs)
    (room : k ≤ fec.capacity) (big : 2 < size) where
  -- Any `k` different packets of a group, of which not all payloads are empty, come from the
  -- network, in any order, to a decoder with an empty queue and an empty channel with room for `k`
  -- payloads: the calls of DecodeData up to the first that waits return exactly the payloads of the
  -- group, each as often as it was sent, and leave the queue and the channel empty again.
  pub decode_until_wait-each_once :
      (js : List ℕ)
      → Fresh (replicate (k + p) false) js
      → length js ≡ k
      → 0 < k
      → (f : Fec) × (out : List Bytes) × (decode_until_wait
            (suc (length out))
            (map received (packets_at wire js))
            (record fec { decoder = some (record dec { rx = [] }); data_ch = [] })
          ≡ ok (some (f, out)))
        × Perm out bs
        × (f.decoder ≡ some (record dec { rx = [] }))
        × (f.data_ch ≡ [])
  decode_until_wait-each_once [] fresh num pos = absurd (omega arith)
  decode_until_wait-each_once (j ∷ js) fresh num pos =
      let none_held : List Bool = replicate (k + p) false in
      let len = num_payloads h fec wire bs parsed payloads room big in
      let none_kept : pick none_held (dps ++ pps) ≡ [] = pick-replicate (k + p) (dps ++ pps) in
      let lost = lost_payloads (take k (marked none_held (j ∷ js))) bs in
      let (f, ran, at_end) =
        Yields-completes h fec wire bs parsed payloads room big (AllRead dec) [] [] js j []
          none_held tt (length-replicate (k + p) false) fresh
          (omega (arith, count-replicate (k + p), num))
          (λ n left l. Yields-end (AllRead dec) (between fec dec n left) (
            ap (λ (xs : List FecPacket). some (record dec { rx = xs })) (none_left left l.1),
            refl,
          )) in
      let once = payloads_at-once k (k + p) bs (j ∷ js) len (omega arith) fresh in
      (
        f,
        payloads_at k bs (j ∷ js) ++ (lost ++ []),
        rw (none_kept, append-nil (map received (packets_at wire (j ∷ js)))) at ran,
        rw (append-nil lost) once,
        at_end.0,
        at_end.1,
      )
