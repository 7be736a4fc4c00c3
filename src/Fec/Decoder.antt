-- ===== src/Fec/Decoder.antt =====
-- FecDecoder of faketcp/fec.go. A packet's body has one owner at a time, the receive queue or the
-- buffer pool, so it is a value here and the pool is left out; the caches decodeCache, flagCache and
-- zeros hold nothing between two calls.
pub mod Order
pub mod Place
pub mod Group
pub mod Sent
pub mod Recover
pub mod Members
pub mod Arrival
pub mod Safety
pub mod Step
use tcpraw.Base.{
  ◌≡◌, arith, ℕ, zero, suc, ◌+◌, ◌-◌, ◌%◌, Bool, true, false, ◌||◌, Option, none, some, List, [],
  ◌∷◌, ◌++◌, ltb, leb, ◌==◌, if◌then◌else◌, length, take, drop, set, get_or, replicate, min, Bytes,
  u32, sub32, ℤ, pos, ltb_ℤ, signed32, Run, ok, panic, ◌>>=◌,
}
use tcpraw.Fec.Codec.{Codec}
use tcpraw.Fec.Wire.{type_data, mtu_limit, FecPacket}

pub record FecDecoder : Type 0 where
  pub rxlimit : ℕ
  pub data_shards : ℕ
  pub parity_shards : ℕ
  pub shard_size : ℕ
  pub rx : List FecPacket
  pub codec : Codec

-- `NewFECDecoder`; `none` is the nil that is returned.
unfoldable pub new_fec_decoder : (ℕ → ℕ → Option Codec) → ℕ → ℕ → ℕ → Option FecDecoder
new_fec_decoder new_codec rxlimit data_shards parity_shards =
    if (data_shards == 0) || (parity_shards == 0)
    then none
    else if ltb rxlimit (data_shards + parity_shards)
    then none
    else elim (new_codec data_shards parity_shards) [
      | none ↦ none
      | some codec ↦ some (record {
        rxlimit = rxlimit;
        data_shards = data_shards;
        parity_shards = parity_shards;
        shard_size = data_shards + parity_shards;
        rx = [];
        codec = codec;
      })
    ]

-- `_itimediff`
abbrev pub itimediff : ℕ → ℕ → ℤ
itimediff later earlier = signed32 (sub32 later earlier)

abbrev pub is_later : ℕ → ℕ → Bool
is_later a b = ltb_ℤ (pos 0) (itimediff a b)

abbrev pub is_earlier : ℕ → ℕ → Bool
is_earlier a b = ltb_ℤ (itimediff a b) (pos 0)

abbrev pub no_packet : FecPacket
no_packet = record { seqid = 0; flag = 0; body = [] }

-- The loop that looks for the place, from index `i - 1` down; `none` is a duplicate.
unfoldable pub find_place : ℕ → List FecPacket → ℕ → Option ℕ
find_place seqid rx zero = some 0
find_place seqid rx (suc i) =
    let rest = find_place seqid rx i in
    let here = (get_or rx i no_packet).seqid in
    if seqid == here then none else if is_later seqid here then some (i + 1) else rest

-- The append, or the shift to the right and the store.
unfoldable pub insert_at : ℕ → FecPacket → List FecPacket → List FecPacket
insert_at i pkt rx = if i == length rx then rx ++ pkt ∷ [] else take i rx ++ pkt ∷ drop i rx

-- `freeRange`, which panics on a range past the end.
unfoldable pub free_range : ℕ → ℕ → List FecPacket → Run (List FecPacket)
free_range first n q =
    if leb (first + n) (length q) then ok (take first q ++ drop (first + n) q) else panic

pub record Assembly : Type 0 where
  pub shards : List (Option Bytes)
  pub flags : List Bool
  pub numshard : ℕ
  pub num_data_shard : ℕ
  pub first : ℕ
  pub maxlen : ℕ

abbrev pub no_shards : ℕ → Assembly
no_shards shard_size = record {
  shards = replicate shard_size none;
  flags = replicate shard_size false;
  numshard = 0;
  num_data_shard = 0;
  first = 0;
  maxlen = 0;
}

-- The body of the assembly loop for a packet of the current group at index `i`.
unfoldable pub collect : ℕ → ℕ → FecPacket → Assembly → Assembly
collect shard_size i p a =
    let slot = p.seqid % u32 shard_size in
    record {
      shards = set a.shards slot (some p.body);
      flags = set a.flags slot true;
      numshard = a.numshard + 1;
      num_data_shard = if p.flag == type_data then a.num_data_shard + 1 else a.num_data_shard;
      first = if a.numshard + 1 == 1 then i else a.first;
      maxlen = if ltb a.maxlen (length p.body) then length p.body else a.maxlen;
    }

-- The assembly loop over `rx[searchBegin..searchEnd]`, the first of them at index `i`.
unfoldable pub assemble : ℕ → ℕ → ℕ → List FecPacket → ℕ → Assembly → Assembly
assemble shard_size shard_begin shard_end [] i a = a
assemble shard_size shard_begin shard_end (p ∷ ps) i a =
    let a' = if is_earlier p.seqid shard_begin then a else collect shard_size i p a in
    let rest = assemble shard_size shard_begin shard_end ps (i + 1) a' in
    if is_later p.seqid shard_end then a else rest

-- Every present shard is resliced to `maxlen` and its tail is zeroed.
unfoldable pub extend_shards : ℕ → List (Option Bytes) → Run (List (Option Bytes))
extend_shards maxlen [] = ok []
extend_shards maxlen (none ∷ ss) = extend_shards maxlen ss >>= λ ss'. ok (none ∷ ss')
extend_shards maxlen (some d ∷ ss) =
    if ltb mtu_limit maxlen
    then panic
    else (extend_shards maxlen ss >>= λ ss'. ok (some (d ++ replicate (maxlen - length d) 0) ∷ ss'))

-- A nil slice reads as an empty one.
abbrev pub or_nil : Option Bytes → Bytes
or_nil none = []
or_nil (some d) = d

-- The data shards that no packet brought.
unfoldable pub missing : List Bool → List (Option Bytes) → List Bytes
missing (true ∷ fs) (s ∷ ss) = missing fs ss
missing (false ∷ fs) (s ∷ ss) = or_nil s ∷ missing fs ss
missing fs ss = []

-- Case 1 (all the data is there), case 2 (data is lost but can be recovered), or nothing to do.
unfoldable pub recover : FecDecoder → Assembly → Run (List FecPacket × List Bytes)
recover dec a =
    if a.num_data_shard == dec.data_shards
    then (free_range a.first a.numshard dec.rx >>= λ rx. ok (rx, []))
    else if leb dec.data_shards a.numshard
    then (do
      full ← extend_shards a.maxlen a.shards
      rx ← free_range a.first a.numshard dec.rx
      elim (dec.codec.reconstruct_data full) [
        | none ↦ ok (rx, [])
        | some out ↦ ok (rx, missing (take dec.data_shards a.flags) (take dec.data_shards out))
      ])
    else ok (dec.rx, [])

-- `searchBegin` and `searchEnd`; the subtraction that Go cuts at 0 by a test is cut by `-` here.
abbrev pub search_begin : FecDecoder → ℕ → ℕ → ℕ
search_begin dec seqid place = place - seqid % u32 dec.shard_size

abbrev pub search_end : FecDecoder → ℕ → ℕ
search_end dec begin = min (begin + dec.shard_size - 1) (length dec.rx - 1)

-- The part of Decode after the insertion of `seqid` at `place`.
unfoldable pub try_recover : FecDecoder → ℕ → ℕ → Run (List FecPacket × List Bytes)
try_recover dec seqid place =
    let shard_begin = sub32 seqid (seqid % u32 dec.shard_size) in
    let shard_end = sub32 (u32 (shard_begin + u32 dec.shard_size)) 1 in
    let begin = search_begin dec seqid place in
    let end = search_end dec begin in
    let window = drop begin (take (end + 1) dec.rx) in
    if leb dec.data_shards (end + 1 - begin)
    then recover dec
        (assemble dec.shard_size shard_begin shard_end window begin (no_shards dec.shard_size))
    else ok (dec.rx, [])

-- The receive queue never stays above its limit.
unfoldable pub keep_limit : ℕ → List FecPacket → Run (List FecPacket)
keep_limit rxlimit rx = if ltb rxlimit (length rx) then free_range 0 1 rx else ok rx

-- `Decode`: the decoder after the call and the recovered shards.
unfoldable pub decode : FecDecoder → FecPacket → Run (FecDecoder × List Bytes)
decode dec pkt = elim (find_place pkt.seqid dec.rx (length dec.rx)) [
  | none ↦ ok (dec, [])
  | some place ↦
      let inserted = record dec { rx = insert_at place pkt dec.rx } in
      try_recover inserted pkt.seqid place >>= λ (rx, recovered).
      keep_limit dec.rxlimit rx >>= λ rx'. ok (record dec { rx = rx' }, recovered)
]

-- What `keep_limit` leaves: over the limit, the oldest packet goes.
abbrev pub trim : ℕ → List FecPacket → List FecPacket
trim rxlimit rx = if ltb rxlimit (length rx) then drop 1 rx else rx

pub keep_limit-trim :
    (rxlimit : ℕ) (rx : List FecPacket) → keep_limit rxlimit rx ≡ ok (trim rxlimit rx)
unfolding keep_limit free_range
keep_limit-trim rxlimit [] = ground arith
keep_limit-trim rxlimit (p ∷ rx) = ground arith
