-- ===== src/Fec/Decoder/Step.antt =====
-- Decode on the packets of one group that arrive in any order, when the queue holds only what is
-- left of earlier groups, and behind that what a mask keeps of the group's packets as they were
-- sent.
use tcpraw.Base.{
  All, if◌then◌else◌, ℕ, suc, ◌+◌, ◌≤◌, ◌<◌, ◌≡◌, refl, sym, ap, ◌∙◌, Bool, true, false, List, [],
  ◌∷◌, ◌++◌, some, arith, leb, ltb, ◌==◌, length, take, drop, get_elem?, set, count, pick,
  append-nil, length-append, length-take, length-drop, length-set, length-pick, count-append,
  take-append-drop, split_at, set_split, pick_around, count-set, get_elem?-lt_length, le→ltb,
  count-le, ==_iff, Bool-cases, inl, inr, ok, Bytes,
}
use tcpraw.Fec.Codec.{IsCodec}
use tcpraw.Fec.Wire.{FecPacket}
use tcpraw.Fec.Decoder.{FecDecoder, decode, trim}
use tcpraw.Fec.Decoder.Order.{Before}
use tcpraw.Fec.Decoder.Group.{IsGroup, Numbered}
use tcpraw.Fec.Decoder.Sent.{IsSent, lost, shards_of}
use tcpraw.Fec.Decoder.Recover.{group_outcome}
use tcpraw.Fec.Decoder.Arrival.{Arrival, IsArrival, decode-group}

-- A decoder for groups of this shape, and a group that was sent. The queue may hold `k` packets.
pub record IsReceiver (dec : FecDecoder) (k p size base start : ℕ)
    (data_pkts parity_pkts : List FecPacket) : Type 0 where
  pub group : IsGroup (k + p) base start
  pub law : IsCodec k p dec.codec
  pub is_sent : IsSent k p size dec.codec data_pkts parity_pkts
  pub num_data : dec.data_shards ≡ k
  pub num_all : dec.shard_size ≡ k + p
  pub numbered : Numbered start (data_pkts ++ parity_pkts)
  pub limit : k ≤ dec.rxlimit

-- The decoder with packets of earlier groups, and what a mask keeps of a group, in its queue.
abbrev pub holding : FecDecoder → List FecPacket → List FecPacket → List Bool → FecDecoder
holding dec pre sent mask = record dec { rx = pre ++ pick mask sent }

-- What the limit of the queue leaves of earlier packets, with `n` packets behind them.
abbrev pub shortened : ℕ → List FecPacket → ℕ → List FecPacket
shortened limit [] n = []
shortened limit (x ∷ pre) n = if ltb limit (suc (length pre) + n) then pre else x ∷ pre

pub All-shortened :
    (P : FecPacket → Type 0) (limit : ℕ) (pre : List FecPacket) (n : ℕ)
    → All P pre
    → All P (shortened limit pre n)
All-shortened P limit [] n a = tt
All-shortened P limit (x ∷ pre) n a = go (ltb limit (suc (length pre) + n))
  where
    go : (b : Bool) → All P (if b then pre else x ∷ pre)
    go true = a.1
    go false = a

trim-shortened :
    (limit : ℕ) (pre xs : List FecPacket)
    → length xs ≤ limit
    → trim limit (pre ++ xs) ≡ shortened limit pre (length xs) ++ xs
trim-shortened limit [] xs le = rw (le→ltb limit (length xs) le)
trim-shortened limit (x ∷ pre) xs le =
    let len : length (x ∷ (pre ++ xs)) ≡ suc (length pre) + length xs =
      ap suc (length-append pre xs) ∙ omega arith in
    rw len (go (ltb limit (suc (length pre) + length xs)))
  where
    go :
        (b : Bool) → (if b then pre ++ xs else x ∷ (pre ++ xs)) ≡ (if b then pre else x ∷ pre) ++ xs
    go true = refl
    go false = refl

lost-full : (mask : List Bool) (ds : List Bytes) → count mask ≡ length mask → lost mask ds ≡ []
lost-full [] ds e = refl
lost-full (b ∷ mask) [] e = refl
lost-full (true ∷ mask) (d ∷ ds) e = lost-full mask ds (omega arith)
lost-full (false ∷ mask) (d ∷ ds) e = absurd (omega (arith, count-le mask))

module _ {dec : FecDecoder} {k p size base start : ℕ} {dps pps : List FecPacket}
    (h : IsReceiver dec k p size base start dps pps) (pre : List FecPacket)
    (before : All (Before base start) pre) (m : List Bool) (j : ℕ) (pkt : FecPacket)
    (shape : length m ≡ k + p) (new_here : get_elem? m j ≡ some false)
    (here : get_elem? (dps ++ pps) j ≡ some pkt) where
  abbrev after : List Bool
  after = set m j true

  all_sent : length (dps ++ pps) ≡ k + p
  all_sent = omega (arith, length-append dps pps, h.is_sent.num_data, h.is_sent.num_parity)

  shape_after : length after ≡ k + p
  shape_after = length-set m j true ∙ shape

  -- The arrival of the packet at position `j`.
  abbrev arrival : Arrival
  arrival = record {
    dec = holding dec pre (dps ++ pps) m;
    pkt = pkt;
    k = k;
    p = p;
    size = size;
    base = base;
    start = start;
    data_pkts = dps;
    parity_pkts = pps;
    lo_sent = take j (dps ++ pps);
    hi_sent = drop (suc j) (dps ++ pps);
    pre = pre;
    post = [];
    data_mask = take k after;
    parity_mask = drop k after;
    lo_mask = take j m;
    hi_mask = drop (suc j) m;
  }

  arrival-IsArrival : IsArrival arrival
  arrival-IsArrival = record {
    group = h.group;
    law = h.law;
    is_sent = h.is_sent;
    num_data = h.num_data;
    num_all = h.num_all;
    numbered = h.numbered;
    split = split_at (dps ++ pps) j pkt here;
    before = before;
    after = tt;
    data_masked = omega (arith, length-take k after, shape_after);
    parity_masked = omega (arith, length-drop k after, shape_after);
    masks = take-append-drop k after ∙ set_split m j false true new_here;
    lo_masked = omega (
      arith,
      length-take j m,
      length-take j (dps ++ pps),
      get_elem?-lt_length m j false new_here,
      get_elem?-lt_length (dps ++ pps) j pkt here,
    );
    held =
        ap (◌++◌ pre) (pick_around m (dps ++ pps) j new_here)
        ∙ ap (λ (xs : List FecPacket). pre ++ (pick (take j m) (take j (dps ++ pps)) ++ xs))
            (sym (append-nil (pick (drop (suc j) m) (drop (suc j) (dps ++ pps)))));
  }

  abbrev result : List FecPacket × List Bytes
  result = group_outcome k size dps (take k after) (drop k after) pre (pick after (dps ++ pps)) []

  counts : count (take k after) + count (drop k after) ≡ count m + 1
  counts =
      sym (count-append (take k after) (drop k after))
      ∙ ap count (take-append-drop k after)
      ∙ count-set m j new_here

  stepped :
      decode (holding dec pre (dps ++ pps) m) pkt
      ≡ ok (record dec { rx = trim dec.rxlimit result.0 }, result.1)
  stepped =
      decode-group arrival arrival-IsArrival
      ∙ ap
          (λ (mask : List Bool).
            let out =
              group_outcome k size dps (take k after) (drop k after) pre (pick mask (dps ++ pps))
                [] in
            ok (record dec { rx = trim dec.rxlimit out.0 }, out.1))
          (take-append-drop k after)

  abbrev held : ℕ
  held = length (pick after (dps ++ pps))

  -- Fewer than `k` packets are in hand: the packet is kept.
  pub decode-collects :
      count m + 1 < k
      → decode (holding dec pre (dps ++ pps) m) pkt
        ≡ ok (holding dec (shortened dec.rxlimit pre held) (dps ++ pps) after, [])
  decode-collects few =
      let c = counts in
      let not_all : (count (take k after) == k) ≡ false = ground (arith, c) in
      let too_few : leb k (count (take k after) + count (drop k after)) ≡ false =
        ground (arith, c) in
      let len = length-pick after (dps ++ pps) (shape_after ∙ sym all_sent) in
      let num = count-set m j new_here in
      let lim = h.limit in
      stepped
      ∙ rw (
        not_all,
        too_few,
        append-nil (pick after (dps ++ pps)),
        trim-shortened dec.rxlimit pre (pick after (dps ++ pps)) (omega (arith, len, num, lim)),
      )

  -- The `k`-th packet: the group leaves the queue, and the lost data shards are recovered.
  pub decode-completes :
      count m + 1 ≡ k
      → decode (holding dec pre (dps ++ pps) m) pkt
        ≡ ok (
          record dec { rx = shortened dec.rxlimit pre 0 },
          lost (take k after) (shards_of size dps),
        )
  decode-completes enough =
      let c = counts in
      let left : trim dec.rxlimit (pre ++ []) ≡ shortened dec.rxlimit pre 0 =
        trim-shortened dec.rxlimit pre [] (omega arith)
        ∙ append-nil (shortened dec.rxlimit pre 0) in
      elim (Bool-cases (count (take k after) == k)) [
        | inl all ↦
            let full : count (take k after) ≡ length (take k after) =
              omega (
                arith,
                (==_iff (count (take k after)) k).0 all,
                length-take k after,
                shape_after,
              ) in
            stepped ∙ rw (all, left, lost-full (take k after) (shards_of size dps) full)
        | inr some_lost ↦
            let quorum : leb k (count (take k after) + count (drop k after)) ≡ true =
              ground (arith, c) in
            stepped ∙ rw (some_lost, quorum, left)
      ]
