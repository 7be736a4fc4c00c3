-- ===== src/Fec/Decoder/Recover.antt =====
-- The two cases of the recovery, for the packets of a group that was encoded by the codec.
use mathlib.Core.List.{map-append}
use tcpraw.Base.{
  pad, ℕ, ◌+◌, ◌≤◌, ◌<◌, ◌≡◌, sym, ap, ◌∙◌, Bool, List, [], ◌++◌, map, Option, some, arith, leb,
  ◌==◌, if◌then◌else◌, length, take, count, pick, length-append, take-append, length-map, true,
  false, count-append, pick-append, length-pick, ==_ne, le→leb, lt→leb, Bytes, ok, Bool-cases, inl,
  inr, count-le, ==_iff,
}
use tcpraw.Fec.Codec.{IsCodec, erase}
use tcpraw.Fec.Wire.{FecPacket}
use tcpraw.Fec.Decoder.{FecDecoder, Assembly, free_range, extend_shards, recover}
use tcpraw.Fec.Decoder.Group.{bodies, data_count, max_body}
use tcpraw.Fec.Decoder.Sent.{
  lost, IsSent, shards_of, extend_shards-erase, max_body-append, max_body-le, max_body-full,
  data_count-append, data_count-data, data_count-parity, missing-lost, free_range-append,
  HasSize-pad, HasSize-bodies, pad_all_full,
}

-- What a group of `k` data packets comes to: with all the data there, or with `k` packets, it leaves
-- the queue, and in the second case the lost data shards are recovered; otherwise nothing changes.
abbrev pub group_outcome :
    ℕ
    → ℕ
    → List FecPacket
    → List Bool
    → List Bool
    → List FecPacket
    → List FecPacket
    → List FecPacket
    → List FecPacket × List Bytes
group_outcome k size data_pkts m1 m2 pre mine post =
    if count m1 == k
    then (pre ++ post, [])
    else if leb k (count m1 + count m2)
    then (pre ++ post, lost m1 (shards_of size data_pkts))
    else (pre ++ (mine ++ post), [])

-- The assembly of the packets that `m1` and `m2` keep of a group, behind `pre` in the queue.
pub record IsAssembled (data_pkts parity_pkts pre : List FecPacket) (m1 m2 : List Bool)
    (a : Assembly) : Type 0 where
  pub shards : a.shards ≡ erase (m1 ++ m2) (bodies (data_pkts ++ parity_pkts))
  pub flags : a.flags ≡ m1 ++ m2
  pub numshard : a.numshard ≡ count (m1 ++ m2)
  pub num_data : a.num_data_shard ≡ data_count (pick (m1 ++ m2) (data_pkts ++ parity_pkts))
  pub first : a.first ≡ length pre
  pub maxlen : a.maxlen ≡ max_body 0 (pick (m1 ++ m2) (data_pkts ++ parity_pkts))

module _ (dec : FecDecoder) {k p size : ℕ} {dps pps : List FecPacket} (pre post : List FecPacket)
    (m1 m2 : List Bool) (a : Assembly) (law : IsCodec k p dec.codec)
    (s : IsSent k p size dec.codec dps pps) (num : dec.data_shards ≡ k) (l1 : length m1 ≡ k)
    (l2 : length m2 ≡ p) (rx : dec.rx ≡ pre ++ (pick (m1 ++ m2) (dps ++ pps) ++ post))
    (asm : IsAssembled dps pps pre m1 m2 a) where
  split_picked : pick (m1 ++ m2) (dps ++ pps) ≡ pick m1 dps ++ pick m2 pps
  split_picked = pick-append m1 m2 dps pps (l1 ∙ sym s.num_data)

  size_picked : length (pick (m1 ++ m2) (dps ++ pps)) ≡ count (m1 ++ m2)
  size_picked =
      length-pick (m1 ++ m2) (dps ++ pps)
        (omega (arith, length-append m1 m2, length-append dps pps, s.num_data, s.num_parity))

  data_counted : a.num_data_shard ≡ count m1
  data_counted =
      asm.num_data
      ∙ ap data_count split_picked
      ∙ omega (
        arith,
        data_count-append (pick m1 dps) (pick m2 pps),
        data_count-data m1 dps s.data_flags (l1 ∙ sym s.num_data),
        data_count-parity m2 pps s.parity_flags,
      )

  freed : free_range a.first a.numshard dec.rx ≡ ok (pre ++ post)
  freed =
      rw (asm.first, asm.numshard, rx)
        (free_range-append pre (pick (m1 ++ m2) (dps ++ pps)) post _ size_picked)

  longest : 0 < count m2 → a.maxlen ≡ size
  longest h =
      asm.maxlen
      ∙ ap (max_body 0) split_picked
      ∙ max_body-append 0 (pick m1 dps) (pick m2 pps)
      ∙ max_body-full m2 (max_body 0 (pick m1 dps)) size pps s.parity_sizes
          (max_body-le m1 0 size dps s.data_sizes (omega arith)) h (l2 ∙ sym s.num_parity)

  extended :
      0 < count m2
      → extend_shards a.maxlen a.shards ≡ ok (erase (m1 ++ m2) (shards_of size dps ++ bodies pps))
  extended h =
      let all : map (pad size) (bodies (dps ++ pps)) ≡ shards_of size dps ++ bodies pps =
        ap (map (pad size)) (map-append _ dps pps)
        ∙ map-append (pad size) (bodies dps) (bodies pps)
        ∙ ap (◌++◌ (shards_of size dps))
            (pad_all_full size (bodies pps) (HasSize-bodies size pps s.parity_sizes)) in
      rw (
        longest h,
        asm.shards,
        extend_shards-erase size (m1 ++ m2) (bodies (dps ++ pps)) s.size_fits,
        all,
      )

  size_shards : length (shards_of size dps) ≡ k
  size_shards = length-map _ (bodies dps) ∙ length-map _ dps ∙ s.num_data

  recovered_from :
      (out : List (Option Bytes))
      → dec.codec.reconstruct_data (erase (m1 ++ m2) (shards_of size dps ++ bodies pps)) ≡ some out
      → take k out ≡ map some (shards_of size dps)
      → count m1 < k
      → k ≤ count (m1 ++ m2)
      → recover dec a ≡ ok (pre ++ post, lost m1 (shards_of size dps))
  unfolding recover
  recovered_from out e filled few enough =
      let total = count-append m1 m2 in
      let not_all : (a.num_data_shard == dec.data_shards) ≡ false =
        ==_ne _ _ (λ h. absurd (omega (arith, data_counted))) in
      let quorum : leb dec.data_shards a.numshard ≡ true =
        le→leb _ _ (omega (arith, asm.numshard)) in
      rw
        (
          not_all,
          quorum,
          extended (omega arith),
          freed,
          e,
          asm.flags,
          num,
          take-append k m1 m2 l1,
          filled,
        )
        (ap (λ (r : List Bytes). ok (pre ++ post, r))
          (missing-lost m1 (shards_of size dps) (l1 ∙ sym size_shards)))

  lost_recovered :
      count m1 < k
      → k ≤ count (m1 ++ m2)
      → recover dec a ≡ ok (pre ++ post, lost m1 (shards_of size dps))
  lost_recovered few enough =
      let (out, e, filled) =
        law.reconstructs (shards_of size dps) (bodies pps) size (m1 ++ m2) size_shards
          (HasSize-pad size dps s.data_sizes) s.encoded (omega (arith, length-append m1 m2))
          enough in
      recovered_from out e filled few enough

  all_there : count m1 ≡ k → recover dec a ≡ ok (pre ++ post, [])
  unfolding recover
  all_there h =
      let all : (a.num_data_shard == dec.data_shards) ≡ true =
        (==_iff _ _).1 (data_counted ∙ h ∙ sym num) in
      rw (all, freed)

  too_few :
      count (m1 ++ m2) < k → recover dec a ≡ ok (pre ++ (pick (m1 ++ m2) (dps ++ pps) ++ post), [])
  unfolding recover
  too_few few =
      let total = count-append m1 m2 in
      let not_all : (a.num_data_shard == dec.data_shards) ≡ false =
        ==_ne _ _ (λ h. absurd (omega (arith, data_counted))) in
      let no_quorum : leb dec.data_shards a.numshard ≡ false =
        lt→leb _ _ (omega (arith, asm.numshard)) in
      rw (not_all, no_quorum, rx)

  -- The recovery on every branch.
  pub recover-group :
      recover dec a ≡ ok (group_outcome k size dps m1 m2 pre (pick (m1 ++ m2) (dps ++ pps)) post)
  recover-group =
      let total = count-append m1 m2 in
      elim (Bool-cases (count m1 == k)) [
        | inl all ↦ rw all (all_there ((==_iff _ _).0 all))
        | inr some_lost ↦
            let few : count m1 < k = ground (arith, some_lost, count-le m1) in
            elim (Bool-cases (leb k (count m1 + count m2))) [
              | inl quorum ↦ rw (some_lost, quorum) (lost_recovered few (ground arith))
              | inr no_quorum ↦ rw (some_lost, no_quorum) (too_few (ground arith))
            ]
      ]
