-- ===== src/Fec/Channel/WholeGroup.antt =====
-- DecodeData over one group of a stream: the packets that complete it, those that come late, and
-- what they leave in the decoder's queue for the next group.
use mathlib.Core.List.{map-append}
use tcpraw.Base.{
  ℕ, ◌+◌, ◌≤◌, ◌<◌, ◌≡◌, sym, ap, subst, ◌∙◌, Bool, true, false, List, [], ◌∷◌, ◌++◌, map, get_or,
  arith, length, take, replicate, pick, marked, Fresh, Bytes, ok, count-replicate, length-replicate,
  pick-replicate, append-nil, append_assoc, length-append, All, All-append, sub32,
}
use tcpraw.Fec.Wire.{FecPacket}
use tcpraw.Fec.Encoder.Sizes.{protected_parts}
use tcpraw.Fec.Decoder.{FecDecoder}
use tcpraw.Fec.Decoder.Order.{Before}
use tcpraw.Fec.Decoder.Group.{IsGroup, Numbered, bodies, member_window}
use tcpraw.Fec.Decoder.Members.{Before-mono}
use tcpraw.Fec.Decoder.Step.{IsReceiver}
use tcpraw.Fec.Channel.{Fec, Input, received}
use tcpraw.Fec.Channel.Arrivals.{lost_payloads}
use tcpraw.Fec.Channel.Transmission.{decode_packets}
use tcpraw.Fec.Channel.AnyOrder.{packets_at, payloads_at}
use tcpraw.Fec.Channel.Yields.{Yields}
use tcpraw.Fec.Channel.OneGroup.{between, Yields-collects, Yields-completes}

-- The members that a mask keeps stand before the next group.
pub Numbered-Before_next :
    {n base start : ℕ} (g : IsGroup n base start) (mask : List Bool) (ps : List FecPacket)
    (j next : ℕ)
    → Numbered (start + j) ps
    → j + length ps ≤ n
    → sub32 start base + n ≤ sub32 next base
    → All (Before base next) (pick mask ps)
Numbered-Before_next g [] ps j next h e lt = tt
Numbered-Before_next g (m ∷ mask) [] j next h e lt = tt
Numbered-Before_next {n} {base} {start} g (true ∷ mask) (p ∷ ps) j next h e lt =
    let later : start + j + 1 ≡ start + (j + 1) = omega arith in
    (
      rw (h.0)
          ((member_window g j (omega arith)).0, omega (arith, (member_window g j (omega arith)).1)),
      Numbered-Before_next g mask ps (j + 1) next (rw later at h.1) (omega arith) lt,
    )
Numbered-Before_next {n} {base} {start} g (false ∷ mask) (p ∷ ps) j next h e lt =
    let later : start + j + 1 ≡ start + (j + 1) = omega arith in
    Numbered-Before_next g mask ps (j + 1) next (rw later at h.1) (omega arith) lt

module _ {dec : FecDecoder} {k p size base start : ℕ} {dps pps : List FecPacket}
    (h : IsReceiver dec k p size base start dps pps) (fec : Fec) (wire bs : List Bytes)
    (parsed : decode_packets wire ≡ ok (dps ++ pps)) (payloads : bodies dps ≡ protected_parts bs)
    (room : k ≤ fec.capacity) (big : 2 < size) (End : Fec → Type 0) (is : List Input)
    (out : List Bytes) (next : ℕ) (behind : sub32 start base + (k + p) ≤ sub32 next base) where
  abbrev none_held : List Bool
  none_held = replicate (k + p) false

  all_sent : length (dps ++ pps) ≡ k + p
  all_sent = omega (arith, length-append dps pps, h.is_sent.num_data, h.is_sent.num_parity)

  left_Before :
      (left : List FecPacket) (m : List Bool)
      → All (Before base start) left
      → All (Before base next) (left ++ pick m (dps ++ pps))
  left_Before left m before =
      let shift : start + 0 ≡ start = omega arith in
      All-append _ left (pick m (dps ++ pps))
        (Before-mono base start next left (omega (arith, behind)) before)
        (Numbered-Before_next h.group m (dps ++ pps) 0 next (rw shift h.numbered)
          (omega (arith, all_sent)) behind)

  none_kept : (left : List FecPacket) → left ++ pick none_held (dps ++ pps) ≡ left
  none_kept left = rw (pick-replicate (k + p) (dps ++ pps)) (append-nil left)

  -- The packets that come when the group is complete are kept, fewer than complete it again.
  Yields-late :
      (late : List ℕ) (n : ℕ) (left : List FecPacket)
      → Fresh none_held late
      → length late < k
      → All (Before base start) left
      → ((n : ℕ) (left : List FecPacket)
          → All (Before base next) left
          → Yields End is (between fec dec n left) out)
      → Yields End
          (map received (packets_at wire late) ++ is)
          (between fec dec n left)
          (payloads_at k bs late ++ out)
  Yields-late late n left fresh few before rest =
      subst
        (λ (xs : List FecPacket).
          Yields End (map received (packets_at wire late) ++ is) (between fec dec n xs)
            (payloads_at k bs late ++ out))
        (none_kept left)
        (Yields-collects h (record fec { rx_bytes = n }) wire bs parsed payloads room big End is out
          late left none_held before (length-replicate (k + p) false) fresh
          (omega (arith, count-replicate (k + p), few))
          (λ left' l.
            rest n (left' ++ pick (marked none_held late) (dps ++ pps))
              (left_Before left' (marked none_held late) l.0)))

  -- Any `k` packets of a group, then fewer than `k` packets of it: the payloads of those that came,
  -- the lost ones, and those of the late data packets.
  pub Yields-group :
      (first late : List ℕ) (n : ℕ) (left : List FecPacket)
      → Fresh none_held first
      → length first ≡ k
      → 0 < k
      → Fresh none_held late
      → length late < k
      → All (Before base start) left
      → ((n : ℕ) (left : List FecPacket)
          → All (Before base next) left
          → Yields End is (between fec dec n left) out)
      → Yields End (map received (packets_at wire (first ++ late)) ++ is) (between fec dec n left) (
          payloads_at k bs first
          ++ (lost_payloads (take k (marked none_held first)) bs ++ (payloads_at k bs late ++ out)))
  Yields-group [] late n left fresh num pos fresh_late few before rest = absurd (omega arith)
  Yields-group (j ∷ js) late n left fresh num pos fresh_late few before rest =
      let later = map received (packets_at wire late) ++ is in
      let inputs : map received (packets_at wire (j ∷ js)) ++ later
          ≡ map received (packets_at wire ((j ∷ js) ++ late)) ++ is =
        sym (
          append_assoc (map received (packets_at wire (j ∷ js)))
            (map received (packets_at wire late)) is)
        ∙ ap (λ (xs : List Input). xs ++ is)
            (sym (map-append received (packets_at wire (j ∷ js)) (packets_at wire late))
              ∙ ap (map received) (sym (map-append (λ i. get_or wire i []) (j ∷ js) late))) in
      let read =
        Yields-completes h (record fec { rx_bytes = n }) wire bs parsed payloads room big End later
          (payloads_at k bs late ++ out) js j left none_held before (length-replicate (k + p) false)
          fresh (omega (arith, count-replicate (k + p), num))
          (λ n' left' l. Yields-late late n' left' fresh_late few l.0 rest) in
      rw inputs at (rw (none_kept left) at read)
