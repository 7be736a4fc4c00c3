-- ===== src/Fec/Channel/Stream.antt =====
-- From EncodeData to DecodeData over a stream of groups: what is read at the other end, whatever the
-- order and the losses within the groups.
use mathlib.Core.List.{Perm, map-append}
use mathlib.Core.List.Perm
use tcpraw.Base.{
  ℕ, ◌+◌, ◌%◌, ◌≤◌, ◌<◌, ◌≡◌, refl, sym, subst, ◌∙◌, false, List, [], ◌∷◌, ◌++◌, map, arith, length,
  take, replicate, marked, All, sub32, Bytes, ok, append_assoc, take-append, drop-append,
  length-append,
}
use tcpraw.Fec.Codec.{Codec, IsCodec}
use tcpraw.Fec.Wire.{FecPacket}
use tcpraw.Fec.Encoder.{FecEncoder}
use tcpraw.Fec.Encoder.Collect.{IsCollecting}
use tcpraw.Fec.Encoder.Sizes.{encode_all, group_size}
use tcpraw.Fec.Decoder.{FecDecoder}
use tcpraw.Fec.Decoder.Order.{Before}
use tcpraw.Fec.Decoder.Group.{Numbered}
use tcpraw.Fec.Decoder.Sent.{IsSent}
use tcpraw.Fec.Decoder.Step.{IsReceiver}
use tcpraw.Fec.Channel.{Fec, received}
use tcpraw.Fec.Channel.Arrivals.{lost_payloads}
use tcpraw.Fec.Channel.Transmission.{encode_all-sends}
use tcpraw.Fec.Channel.AnyOrder.{packets_at, payloads_at}
use tcpraw.Fec.Channel.EachOnce.{payloads_at-once}
use tcpraw.Fec.Channel.Yields.{Yields, Yields-end}
use tcpraw.Fec.Channel.OneGroup.{between}
use tcpraw.Fec.Channel.WholeGroup.{Yields-group}
use tcpraw.Fec.Channel.Groups.{
  Sending, IsSending, all_payloads, arriving, due, Windows, next_behind, encode_all-append,
  decode_packets-length,
}

-- The two ends of a stream: groups of `k` data and `p` parity packets, numbered up to `paws`, in a
-- window from `base`.
pub record IsStream (codec : Codec) (k p paws base : ℕ) (dec : FecDecoder) (fec : Fec)
    : Type 0 where
  pub law : IsCodec k p codec
  pub data_pos : 0 < k
  pub parity_pos : 0 < p
  pub base_fits : base < 4294967296
  pub paws_big : 2147483648 < paws
  pub same_codec : dec.codec ≡ codec
  pub num_data : dec.data_shards ≡ k
  pub num_all : dec.shard_size ≡ k + p
  pub limit : k ≤ dec.rxlimit
  pub room : k ≤ fec.capacity

-- The user has read what was in the channel.
abbrev pub NoneWaits : Fec → Type 0
NoneWaits f = f.data_ch ≡ []

module _ {codec : Codec} {k p paws base : ℕ} {dec : FecDecoder} {fec : Fec}
    (h : IsStream codec k p paws base dec fec) where
  open h use {data_pos as kp, parity_pos as pp}

  receiver_of :
      {start size : ℕ} {enc : FecEncoder} {dps pps : List FecPacket}
      → IsCollecting k p start [] enc
      → IsSent k p size codec dps pps
      → Numbered start (dps ++ pps)
      → sub32 start base + (k + p) ≤ 2147483648
      → IsReceiver dec k p size base start dps pps
  receiver_of {start} {size} {enc} {dps} {pps} c sent numbered window =
      let below = c.below_paws in
      let top = c.paws_fits in
      record {
        group = record {
          pos = omega (arith, kp);
          aligned = c.aligned;
          fits = omega (arith, below, top);
          base_fits = h.base_fits;
          in_window = window;
        };
        law = subst (IsCodec k p) (sym h.same_codec) h.law;
        is_sent = subst (λ q. IsSent k p size q dps pps) (sym h.same_codec) sent;
        num_data = h.num_data;
        num_all = h.num_all;
        numbered = numbered;
        limit = h.limit;
      }

  -- A stream of groups, whatever is left in the queue of groups before it.
  pub Yields-stream :
      (gs : List Sending) (start : ℕ) (enc : FecEncoder)
      → enc.codec ≡ codec
      → enc.paws ≡ paws
      → IsCollecting k p start [] enc
      → All (IsSending k p) gs
      → Windows (k + p) paws base start gs
      → (enc' : FecEncoder) × (out : List Bytes) × (reads : List Bytes) × (encode_all enc
            (all_payloads gs)
          ≡ ok (enc', out))
        × Perm reads (due k gs)
        × ((n : ℕ) (left : List FecPacket)
            → All (Before base start) left
            → Yields NoneWaits
                (map received (arriving (k + p) out gs))
                (between fec dec n left)
                reads)
  unfolding encode_all
  Yields-stream [] start enc ec ep c all windows = (
    enc,
    [],
    [],
    refl,
    Perm.refl [],
    λ n left before. Yields-end NoneWaits (between fec dec n left) refl,
  )
  Yields-stream (g ∷ gs) start enc ec ep c all windows =
      let g_ok = all.0 in
      let bs = g.payloads in
      let (enc₁, out₁, dps, pps, run, parsed, sent, numbered, bodies_eq, next) =
        encode_all-sends bs (subst (IsCodec k p) (sym ec) h.law) c g_ok.num kp pp g_ok.fit in
      let start' = (start + (k + p)) % paws in
      let next_c =
        subst (λ (w : ℕ). IsCollecting k p ((start + (k + p)) % w) [] enc₁) ep next.collecting in
      let (enc₂, out₂, reads, run₂, perm, yields) =
        Yields-stream gs start' enc₁ (next.same_codec ∙ ec) (next.same_paws ∙ ep) next_c all.1
          windows.1 in
      let sent' = subst (λ q. IsSent k p (group_size bs) q dps pps) ec sent in
      let receiver = receiver_of c sent' numbered windows.0 in
      let below = c.below_paws in
      let top = c.paws_fits in
      let behind =
        next_behind (k + p) paws base start h.base_fits (omega (arith, top, ep)) h.paws_big
          (omega (arith, below, ep)) windows.0 in
      let len : length out₁ ≡ k + p = omega (
        arith,
        decode_packets-length out₁ (dps ++ pps) parsed,
        length-append dps pps,
        sent.num_data,
        sent.num_parity,
      ) in
      let rest = arriving (k + p) out₂ gs in
      let first = payloads_at k bs g.first in
      let lost = lost_payloads (take k (marked (replicate (k + p) false) g.first)) bs in
      let late = payloads_at k bs g.late in
      (
        enc₂,
        out₁ ++ out₂,
        first ++ (lost ++ (late ++ reads)),
        encode_all-append bs (all_payloads gs) enc enc₁ enc₂ out₁ out₂ run run₂,
        rw (sym (append_assoc first lost (late ++ reads))) (
            Perm.append (payloads_at-once k (k + p) bs g.first g_ok.num (omega arith) g_ok.fresh)
              (Perm.append_left late perm)),
        λ n left before.
            rw
              (
                take-append (k + p) out₁ out₂ len,
                drop-append (k + p) out₁ out₂ len,
                map-append received (packets_at out₁ (g.first ++ g.late)) rest,
              )
              (Yields-group receiver fec out₁ bs parsed bodies_eq h.room g_ok.not_empty NoneWaits
                (map received rest) reads start' behind g.first g.late n left g_ok.fresh g_ok.taken
                kp g_ok.fresh_late g_ok.few_late before yields),
      )
