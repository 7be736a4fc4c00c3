-- ===== src/Fec/Decoder/Safety.antt =====
-- What holds of Decode for every packet: it does not panic, the queue stays ordered and within its
-- limit.
use tcpraw.Base.{
  ℕ, zero, suc, ◌+◌, ◌-◌, ◌%◌, ◌≤◌, ◌<◌, ◌≡◌, refl, ap, List, [], ◌∷◌, ◌++◌, Option, none, some,
  arith, leb, ltb, ◌==◌, length, take, drop, All, length-take, length-drop, length-append, All-take,
  All-drop, All-append, le→leb, le→ltb, sub32, u32, Run, ok, panic, ◌>>=◌, Bytes, Returns, min,
  Bool-cases, inl, inr, replicate,
}
use tcpraw.Fec.Wire.{FecPacket, mtu_limit}
use tcpraw.Fec.Decoder.{
  FecDecoder, Assembly, no_shards, collect, assemble, extend_shards, free_range, recover,
  try_recover, keep_limit, keep_limit-trim, trim, decode, find_place, insert_at, is_later,
  is_earlier, missing,
}
use tcpraw.Fec.Decoder.Order.{InWindow, find_place-new, find_place-duplicate, insert_at-append}
use tcpraw.Fec.Decoder.Place.{Ordered, Ordered-weaken, Ordered-behind, there, new, find-Place}
use tcpraw.Fec.Decoder.Sent.{BodyAtMost}

-- The receive queue between two calls, in the window of `base`.
pub record IsValid (base : ℕ) (dec : FecDecoder) : Type 0 where
  pub ordered : Ordered base 0 dec.rx
  pub limited : length dec.rx ≤ dec.rxlimit
  pub bounded : All (BodyAtMost mtu_limit) dec.rx
  pub base_fits : base < 4294967296
  pub size_pos : 0 < dec.shard_size

-- What the assembly loop keeps: the counted packets lie between `first` and the index reached, and
-- no body is longer than a buffer.
pub record IsTracked (i : ℕ) (a : Assembly) : Type 0 where
  pub counted : a.first + a.numshard ≤ i
  pub fits : a.maxlen ≤ mtu_limit

collect-IsTracked :
    (n i : ℕ) (p : FecPacket) (a : Assembly)
    → BodyAtMost mtu_limit p
    → IsTracked i a
    → IsTracked (i + 1) (collect n i p a)
unfolding collect
collect-IsTracked n i p a b t = ground arith

assemble-IsTracked :
    (n lo hi : ℕ) (ps : List FecPacket) (i j : ℕ) (a : Assembly)
    → All (BodyAtMost mtu_limit) ps
    → i + length ps ≤ j
    → IsTracked i a
    → IsTracked j (assemble n lo hi ps i a)
unfolding assemble
assemble-IsTracked n lo hi [] i j a b e t = record { counted = omega arith; fits = t.fits }
assemble-IsTracked n lo hi (p ∷ ps) i j a b e t = elim (Bool-cases (is_later p.seqid hi)) [
  | inl stop ↦ rw stop (record { counted = omega arith; fits = t.fits })
  | inr go ↦ rw go (elim (Bool-cases (is_earlier p.seqid lo)) [
    | inl skip ↦ rw skip (
        assemble-IsTracked n lo hi ps (i + 1) j a b.1 (omega arith)
          (record { counted = omega arith; fits = t.fits }))
    | inr take_it ↦ rw take_it (
        assemble-IsTracked n lo hi ps (i + 1) j (collect n i p a) b.1 (omega arith)
          (collect-IsTracked n i p a b.0 t))
  ])
]

extend_shards-Returns :
    (size : ℕ) (ss : List (Option Bytes))
    → size ≤ mtu_limit
    → (out : List (Option Bytes)) × (extend_shards size ss ≡ ok out)
unfolding extend_shards
extend_shards-Returns size [] h = ([], refl)
extend_shards-Returns size (none ∷ ss) h =
    let (out, e) = extend_shards-Returns size ss h in (none ∷ out, rw e)
extend_shards-Returns size (some d ∷ ss) h =
    let (out, e) = extend_shards-Returns size ss h in
    (some (d ++ replicate (size - length d) 0) ∷ out, rw (le→ltb mtu_limit size h, e))

-- A queue from which a range was freed.
pub data Freed (rx : List FecPacket) : List FecPacket → Type 0 where
  kept : Freed rx rx
  cut : (first n : ℕ) → Freed rx (take first rx ++ drop (first + n) rx)

abbrev FreedPair : List FecPacket → List FecPacket × List Bytes → Type 0
FreedPair rx r = Freed rx r.0

recover-Freed :
    (dec : FecDecoder) (a : Assembly)
    → IsTracked (length dec.rx) a
    → Returns (FreedPair dec.rx) (recover dec a)
unfolding recover free_range
recover-Freed dec a t = elim (Bool-cases (a.num_data_shard == dec.data_shards)) [
  | inl all ↦ rw (all, le→leb _ _ t.counted) (cut a.first a.numshard)
  | inr some_lost ↦ elim (Bool-cases (leb dec.data_shards a.numshard)) [
    | inl quorum ↦
        let (full, e) = extend_shards-Returns a.maxlen a.shards t.fits in
        rw (some_lost, quorum, e, le→leb _ _ t.counted) (result (dec.codec.reconstruct_data full))
    | inr few ↦ rw (some_lost, few) kept
  ]
]
  where
    result :
        (r : Option (List (Option Bytes)))
        → Returns (FreedPair dec.rx) (elim r [
          | none ↦ ok (take a.first dec.rx ++ drop (a.first + a.numshard) dec.rx, [])
          | some out ↦ ok (
            take a.first dec.rx ++ drop (a.first + a.numshard) dec.rx,
            missing (take dec.data_shards a.flags) (take dec.data_shards out),
          )
        ])
    result none = cut a.first a.numshard
    result (some out) = cut a.first a.numshard

Ordered-drop :
    (base lo n : ℕ) (rx : List FecPacket) → Ordered base lo rx → Ordered base lo (drop n rx)
Ordered-drop base lo zero rx o = o
Ordered-drop base lo (suc n) [] o = tt
Ordered-drop base lo (suc n) (p ∷ rx) o =
    Ordered-weaken base (sub32 p.seqid base + 1) lo (drop n rx) (omega arith)
      (Ordered-drop base (sub32 p.seqid base + 1) n rx o.2)

Ordered-cut :
    (base lo first n : ℕ) (rx : List FecPacket)
    → Ordered base lo rx
    → Ordered base lo (take first rx ++ drop (first + n) rx)
Ordered-cut base lo zero n rx o = Ordered-drop base lo (0 + n) rx o
Ordered-cut base lo (suc first) n [] o =
    let e : suc first + n ≡ suc (first + n) = omega arith in rw e tt
Ordered-cut base lo (suc first) n (p ∷ rx) o =
    let e : suc first + n ≡ suc (first + n) = omega arith in
    rw e (o.0, o.1, Ordered-cut base (sub32 p.seqid base + 1) first n rx o.2)

-- The part of the invariant that is about the queue.
abbrev QueueFits : ℕ → ℕ → List FecPacket → Type 0
QueueFits base len rx = Ordered base 0 rx × (length rx ≤ len) × All (BodyAtMost mtu_limit) rx

Freed-QueueFits :
    (base len : ℕ) {rx rx' : List FecPacket}
    → Freed rx rx'
    → QueueFits base len rx
    → QueueFits base len rx'
Freed-QueueFits base len kept q = q
Freed-QueueFits base len {rx} (cut first n) q = (
  Ordered-cut base 0 first n rx q.0,
  omega (
    arith,
    q.1,
    length-append (take first rx) (drop (first + n) rx),
    length-take first rx,
    length-drop (first + n) rx,
  ),
  All-append _ (take first rx) (drop (first + n) rx) (All-take _ first rx q.2)
      (All-drop _ (first + n) rx q.2),
)

trim-QueueFits :
    (base len : ℕ) (rx : List FecPacket)
    → QueueFits base (len + 1) rx
    → QueueFits base len (trim len rx)
trim-QueueFits base len rx q = elim (Bool-cases (ltb len (length rx))) [
  | inl over ↦
      rw over
        (Ordered-drop base 0 1 rx q.0, omega (arith, q.1, length-drop 1 rx), All-drop _ 1 rx q.2)
  | inr within ↦ rw within (q.0, ground arith, q.2)
]

try_recover-Freed :
    (dec : FecDecoder) (seqid place : ℕ)
    → 0 < dec.shard_size
    → 0 < length dec.rx
    → place < length dec.rx
    → All (BodyAtMost mtu_limit) dec.rx
    → Returns (FreedPair dec.rx) (try_recover dec seqid place)
unfolding try_recover
try_recover-Freed dec seqid place h1 h2 h3 b =
    let begin = place - seqid % u32 dec.shard_size in
    let end = min (begin + dec.shard_size - 1) (length dec.rx - 1) in
    elim (Bool-cases (leb dec.data_shards (end + 1 - begin))) [
      | inl wide ↦ rw wide (
          recover-Freed dec _ (
            assemble-IsTracked dec.shard_size _ _ (drop begin (take (end + 1) dec.rx)) begin
              (length dec.rx) (no_shards dec.shard_size)
              (All-drop _ begin _ (All-take _ (end + 1) dec.rx b))
              (omega
                (arith, length-drop begin (take (end + 1) dec.rx), length-take (end + 1) dec.rx))
              (record { counted = omega arith; fits = omega arith })))
      | inr narrow ↦ rw narrow kept
    ]

abbrev ValidPair : ℕ → FecDecoder × List Bytes → Type 0
ValidPair base r = IsValid base r.0

finish :
    (base : ℕ) (dec : FecDecoder) (rx : List FecPacket) (m : Run (List FecPacket × List Bytes))
    → IsValid base dec
    → QueueFits base (dec.rxlimit + 1) rx
    → Returns (FreedPair rx) m
    → Returns (ValidPair base) (
        m >>= λ (rx', recovered).
        keep_limit dec.rxlimit rx' >>= λ rx''. ok (record dec { rx = rx'' }, recovered))
finish base dec rx (ok (rx', recovered)) v q f =
    let t = trim-QueueFits base dec.rxlimit rx' (Freed-QueueFits base (dec.rxlimit + 1) f q) in
    rw (keep_limit-trim dec.rxlimit rx') (record {
      ordered = t.0;
      limited = t.1;
      bounded = t.2;
      base_fits = v.base_fits;
      size_pos = v.size_pos;
    })
finish base dec rx panic v q f = absurd f

-- Decode never panics on a packet of the window whose body fits a buffer, whatever codec it has: the
-- queue stays in ascending order without duplicates, within its limit and of bodies that fit.
pub decode-IsValid :
    (base : ℕ) (dec : FecDecoder) (pkt : FecPacket)
    → IsValid base dec
    → InWindow base pkt.seqid
    → length pkt.body ≤ mtu_limit
    → Returns (λ r. IsValid base r.0) (decode dec pkt)
unfolding decode
decode-IsValid base dec pkt v w b =
    elim (find-Place base 0 pkt.seqid dec.rx v.base_fits w (omega arith) v.ordered) [
      | there xs ys p e ep after ↦
          let found : find_place pkt.seqid dec.rx (length dec.rx) ≡ none =
            rw e (find_place-duplicate base pkt.seqid v.base_fits w xs ys p ep after) in
          rw (found, decode) v
      | new xs ys e before after inserts ↦
          let placed : find_place pkt.seqid dec.rx (length dec.rx) ≡ some (length xs) =
            rw e (find_place-new base pkt.seqid v.base_fits w xs ys before after) in
          let inserted : insert_at (length xs) pkt dec.rx ≡ xs ++ pkt ∷ ys =
            rw e (insert_at-append xs ys pkt) in
          let parts : All (BodyAtMost mtu_limit) (xs ++ ys) = rw e at v.bounded in
          let bodies = All-insert xs ys parts b in
          rw (placed, decode)
            (rw inserted (
              finish base dec (xs ++ pkt ∷ ys) _ v
                (
                  inserts pkt refl,
                  omega (
                    arith,
                    ap length e,
                    v.limited,
                    length-append xs ys,
                    length-append xs (pkt ∷ ys),
                  ),
                  bodies,
                )
                (try_recover-Freed (record dec { rx = xs ++ pkt ∷ ys }) pkt.seqid (length xs)
                  v.size_pos (omega (arith, length-append xs (pkt ∷ ys)))
                  (omega (arith, length-append xs (pkt ∷ ys))) bodies)))
    ]
  where
    All-insert :
        (xs ys : List FecPacket)
        → All (BodyAtMost mtu_limit) (xs ++ ys)
        → length pkt.body ≤ mtu_limit
        → All (BodyAtMost mtu_limit) (xs ++ pkt ∷ ys)
    All-insert [] ys a b' = (b', a)
    All-insert (x ∷ xs) ys a b' = (a.0, All-insert xs ys a.1 b')

-- A packet whose number is in the receive queue, which keeps the invariant, is dropped: Decode gives
-- no payload and leaves the decoder as it was, wherever the number stands in the queue. Numbers that
-- have left the queue, as those of a group that is complete, are not meant.
pub decode-duplicate :
    (base : ℕ) (dec : FecDecoder) (pkt p : FecPacket) (xs ys : List FecPacket)
    → IsValid base dec
    → dec.rx ≡ xs ++ p ∷ ys
    → pkt.seqid ≡ p.seqid
    → decode dec pkt ≡ ok (dec, [])
unfolding decode
decode-duplicate base dec pkt p xs ys v e same =
    let (w, after) = Ordered-behind base 0 p xs ys (rw e at v.ordered) in
    let found : find_place pkt.seqid dec.rx (length dec.rx) ≡ none =
      rw (e, same) (find_place-duplicate base p.seqid v.base_fits w xs ys p refl after) in
    rw (found, decode)
