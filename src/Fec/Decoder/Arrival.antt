-- ===== src/Fec/Decoder/Arrival.antt =====
-- Decode, when a packet of a group arrives: where it is placed, which packets the search window
-- holds, and what becomes of the group.
use tcpraw.Base.{
  ℕ, suc, ◌+◌, ◌-◌, ◌%◌, ◌≤◌, ◌<◌, ◌≡◌, refl, sym, ap, ◌∙◌, Bool, true, List, [], ◌∷◌, ◌++◌, some,
  arith, leb, length, take, drop, All, count, pick, append_assoc, length-append, length-drop,
  All-take, All-drop, All-append, count-append, count-le, length-pick, pick-append, Bool-cases, inl,
  inr, u32, sub32, ok, Bytes,
}
use tcpraw.Fec.Codec.{IsCodec}
use tcpraw.Fec.Wire.{FecPacket}
use tcpraw.Fec.Decoder.{
  FecDecoder, Assembly, no_shards, assemble, find_place, insert_at, try_recover, search_end, decode,
  keep_limit-trim, trim,
}
use tcpraw.Fec.Decoder.Order.{Before, After, find_place-new, insert_at-append}
use tcpraw.Fec.Decoder.Group.{
  IsGroup, Numbered, last, last_window, slot, member_window, assemble-Before, assemble-After,
  assemble-gathers,
}
use tcpraw.Fec.Decoder.Members.{
  Numbered-Before, Numbered-After, Numbered-append, Before-mono, After-mono, window_split,
}
use tcpraw.Fec.Decoder.Sent.{IsSent}
use tcpraw.Fec.Decoder.Recover.{group_outcome, IsAssembled, recover-group}

-- A member of a group arrives. The queue holds packets before the group, the members that `lo_mask`
-- keeps of those before it and `hi_mask` of those behind it, and packets after the group.
-- `data_mask` and `parity_mask` are the same choice, the new member included, cut where the parity
-- packets begin.
pub record Arrival : Type 0 where
  pub dec : FecDecoder
  pub pkt : FecPacket
  pub k : ℕ
  pub p : ℕ
  pub size : ℕ
  pub base : ℕ
  pub start : ℕ
  pub data_pkts : List FecPacket
  pub parity_pkts : List FecPacket
  pub lo_sent : List FecPacket
  pub hi_sent : List FecPacket
  pub pre : List FecPacket
  pub post : List FecPacket
  pub data_mask : List Bool
  pub parity_mask : List Bool
  pub lo_mask : List Bool
  pub hi_mask : List Bool

-- The members of the group that the queue holds, the new one included.
abbrev pub members : Arrival → List FecPacket
members x = pick (x.data_mask ++ x.parity_mask) (x.data_pkts ++ x.parity_pkts)

-- The first packet after the group has at least this number.
abbrev pub group_last : Arrival → ℕ
group_last x = x.start + (x.k + x.p) - 1

pub record IsArrival (x : Arrival) : Type 0 where
  pub group : IsGroup (x.k + x.p) x.base x.start
  pub law : IsCodec x.k x.p x.dec.codec
  pub is_sent : IsSent x.k x.p x.size x.dec.codec x.data_pkts x.parity_pkts
  pub num_data : x.dec.data_shards ≡ x.k
  pub num_all : x.dec.shard_size ≡ x.k + x.p
  pub numbered : Numbered x.start (x.data_pkts ++ x.parity_pkts)
  pub split : x.data_pkts ++ x.parity_pkts ≡ x.lo_sent ++ x.pkt ∷ x.hi_sent
  pub before : All (Before x.base x.start) x.pre
  pub after : All (After x.base (group_last x)) x.post
  pub data_masked : length x.data_mask ≡ x.k
  pub parity_masked : length x.parity_mask ≡ x.p
  pub masks : x.data_mask ++ x.parity_mask ≡ x.lo_mask ++ true ∷ x.hi_mask
  pub lo_masked : length x.lo_mask ≡ length x.lo_sent
  pub held : x.dec.rx ≡ x.pre ++ (pick x.lo_mask x.lo_sent ++ (pick x.hi_mask x.hi_sent ++ x.post))

module _ (x : Arrival) (h : IsArrival x) where
  open x use {
    dec, pkt, k, p, size, base, start, pre, post, data_pkts as dps, parity_pkts as pps,
    lo_sent as slo, hi_sent as shi, data_mask as m1, parity_mask as m2, lo_mask as mlo,
    hi_mask as mhi,
  }
  open h use {
    group as g, law, is_sent as s, num_data as num, num_all, numbered, split, before, after,
    data_masked as l1, parity_masked as l2, masks as mask, lo_masked as llo, held,
  }

  sizes : (length slo + suc (length shi) ≡ k + p) × (length mhi ≡ length shi)
  sizes = omega (
    arith,
    ap length split,
    ap length mask,
    length-append dps pps,
    length-append slo (pkt ∷ shi),
    length-append m1 m2,
    length-append mlo (true ∷ mhi),
    s.num_data,
    s.num_parity,
  )

  mine_split : members x ≡ pick mlo slo ++ pkt ∷ pick mhi shi
  mine_split = rw (mask, split) (pick-append mlo (true ∷ mhi) slo (pkt ∷ shi) llo)

  parts : Numbered start slo × Numbered (start + length slo) (pkt ∷ shi)
  parts = Numbered-append start slo (pkt ∷ shi) (rw split at numbered)

  position : length slo < k + p
  position = omega (arith, sizes)

  -- `pkt` is the member at the position `length slo`.
  seqid_of : pkt.seqid ≡ start + length slo
  seqid_of = parts.1.0

  at_place :
      find_place pkt.seqid
        (pre ++ (pick mlo slo ++ (pick mhi shi ++ post)))
        (length (pre ++ (pick mlo slo ++ (pick mhi shi ++ post))))
      ≡ some (length (pre ++ pick mlo slo))
  at_place =
      let r = length slo in
      let here = member_window g r position in
      let zero_here = member_window g 0 g.pos in
      let shift : start + 0 ≡ start = omega arith in
      let next : start + r + 1 ≡ start + (r + 1) = omega arith in
      let tail : Numbered (start + (r + 1)) shi = rw next at parts.1.1 in
      rw (seqid_of, ← append_assoc pre (pick mlo slo) (pick mhi shi ++ post))
        (find_place-new base (start + r) g.base_fits here.0 (pre ++ pick mlo slo)
          (pick mhi shi ++ post)
          (All-append _ pre (pick mlo slo)
            (Before-mono base start (start + r) pre (omega arith) before)
            (Numbered-Before g mlo slo 0 r (rw shift parts.0) (omega arith) position))
          (All-append _ (pick mhi shi) post
            (Numbered-After g mhi shi (r + 1) r tail (omega arith) (omega (arith, sizes)))
            (After-mono base (last g) (start + r) post
              (omega (arith, (last_window g).1, g.pos, position)) after)))

  inserted :
      insert_at (length (pre ++ pick mlo slo)) pkt (pre ++ (pick mlo slo ++ (pick mhi shi ++ post)))
      ≡ pre ++ (members x ++ post)
  inserted =
      rw (mine_split, ← append_assoc pre (pick mlo slo) (pick mhi shi ++ post))
        (insert_at-append (pre ++ pick mlo slo) (pick mhi shi ++ post) pkt
          ∙ append_assoc pre (pick mlo slo) (pkt ∷ (pick mhi shi ++ post))
          ∙ ap (◌++◌ pre) (sym (append_assoc (pick mlo slo) (pkt ∷ pick mhi shi) post)))

  -- The decoder after the insertion.
  abbrev grown : FecDecoder
  grown = record dec { rx = pre ++ (members x ++ post) }

  abbrev place : ℕ
  place = length (pre ++ pick mlo slo)

  -- The search window, as the code computes it.
  abbrev lo_end : ℕ
  lo_end = place - length slo

  abbrev hi_end : ℕ
  hi_end = search_end grown lo_end + 1

  bounds :
      (lo_end ≤ length pre)
      × (length pre + length (members x) ≤ hi_end)
      × (length (members x) ≡ count m1 + count m2)
      × (0 < count (m1 ++ m2))
  bounds = omega (
    arith,
    ap length mine_split,
    sizes,
    position,
    ap count mask,
    count-append m1 m2,
    count-append mlo (true ∷ mhi),
    count-le mlo,
    count-le mhi,
    llo,
    length-append pre (pick mlo slo),
    length-append pre (members x ++ post),
    length-append (members x) post,
    length-append (pick mlo slo) (pkt ∷ pick mhi shi),
    length-pick mlo slo llo,
    length-pick mhi shi sizes.1,
    num_all,
  )

  window :
      drop lo_end (take hi_end grown.rx)
      ≡ drop lo_end pre ++ (members x ++ take (hi_end - length pre - length (members x)) post)
  window = window_split pre (members x) post lo_end hi_end bounds.0 bounds.1

  assembled :
      (a : Assembly) × (assemble
          (k + p)
          start
          (last g)
          (drop lo_end (take hi_end grown.rx))
          lo_end
          (no_shards (k + p))
        ≡ a)
      × IsAssembled dps pps pre m1 m2 a
  assembled =
      let rest = take (hi_end - length pre - length (members x)) post in
      let shift : start + 0 ≡ start = omega arith in
      let total : length (dps ++ pps) ≡ k + p =
        omega (arith, length-append dps pps, s.num_data, s.num_parity) in
      let (a, e, r) =
        assemble-gathers g (m1 ++ m2) (dps ++ pps) rest [] [] (length pre) 0 (no_shards (k + p))
          (omega (arith, length-append m1 m2)) (rw shift numbered) (omega arith) refl refl
          (rw total) (rw total) in
      (
        a,
        rw window (
            assemble-Before g (drop lo_end pre) (members x ++ rest) lo_end (length pre)
              (no_shards (k + p)) (All-drop _ lo_end pre before)
              (omega (arith, length-drop lo_end pre, bounds.0))
            ∙ e
            ∙ assemble-After g rest (length pre + count (m1 ++ m2)) a (All-take _ _ post after)),
        record {
          shards = r.shards;
          flags = r.flags;
          numshard = omega (arith, r.numshard);
          num_data = omega (arith, r.num_data);
          first = ground (arith, r.first, bounds);
          maxlen = r.maxlen;
        },
      )

  abbrev outcome : List FecPacket × List Bytes
  outcome = group_outcome k size dps m1 m2 pre (members x) post

  -- With fewer packets in the window than data shards the group cannot be complete.
  window_small : hi_end - lo_end < k → outcome ≡ (pre ++ (members x ++ post), [])
  window_small few = let b = bounds in let most = count-le m1 in ground arith

  slot_of : pkt.seqid % u32 dec.shard_size ≡ length slo
  slot_of = rw (num_all, seqid_of) (slot g (length slo) position)

  begins : sub32 pkt.seqid (length slo) ≡ start
  begins = let f = g.fits in rw seqid_of (omega (arith, position))

  ends : sub32 (u32 (start + u32 dec.shard_size)) 1 ≡ last g
  ends = let f = g.fits in let b = g.pos in rw num_all (omega arith)

  assembled_code :
      assemble dec.shard_size start
        (last g)
        (drop lo_end (take hi_end grown.rx))
        lo_end
        (no_shards dec.shard_size)
      ≡ assembled.0
  assembled_code =
      ap
        (λ (n : ℕ).
          assemble n start (last g) (drop lo_end (take hi_end grown.rx)) lo_end (no_shards n))
        num_all
      ∙ assembled.1

  recovered : try_recover grown pkt.seqid place ≡ ok outcome
  unfolding try_recover
  recovered =
      rw (slot_of, begins, ends)
        (elim (Bool-cases (leb dec.data_shards (hi_end - lo_end))) [
          | inl wide ↦
              rw (wide, assembled_code)
                (recover-group grown pre post m1 m2 assembled.0 law s num l1 l2 refl assembled.2)
          | inr narrow ↦ rw (narrow, window_small (ground (arith, num, narrow)))
        ])

  -- A member of a group arrives, with any other members in the queue. If the data packets are now
  -- all there, the group leaves the queue and nothing is recovered; if k members are there, it
  -- leaves the queue and exactly the lost data shards are recovered, in order; otherwise the packet
  -- is kept in its place. The packets of other groups stay, but for the oldest over the limit.
  pub decode-group : decode dec pkt ≡ ok (record dec { rx = trim dec.rxlimit outcome.0 }, outcome.1)
  unfolding decode
  decode-group =
      let placed : find_place pkt.seqid dec.rx (length dec.rx) ≡ some place = rw held at_place in
      let in_queue : insert_at place pkt dec.rx ≡ pre ++ (members x ++ post) = rw held inserted in
      rw (placed, decode) (rw (in_queue, recovered, keep_limit-trim dec.rxlimit outcome.0))
