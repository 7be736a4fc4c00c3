-- ===== src/Fec/Encoder.antt =====
-- FecEncoder of faketcp/fec.go. A shard buffer is memory of a fixed capacity with a length, and
-- what a reslice uncovers is what earlier packets left there. The caches encodeCache and zeros hold
-- nothing between two calls and are left out.
pub mod Memory
pub mod Collect
pub mod Finish
pub mod Parity
pub mod Sizes
pub mod Group
pub mod Stream
use tcpraw.Base.{
  ℕ, ◌+◌, ◌-◌, ◌*◌, ◌/◌, ◌%◌, ◌||◌, Option, none, some, List, [], ◌∷◌, ◌++◌, ltb, leb, ◌==◌,
  if◌then◌else◌, length, take, drop, set, replicate, Bytes, u16, u32, sub32, le16, Run, ok, panic,
  ◌>>=◌, index,
}
use tcpraw.Fec.Codec.{Codec}
use tcpraw.Fec.Wire.{fec_header_size, type_data, type_fec, mtu_limit, header}

pub record Buf : Type 0 where
  pub mem : Bytes
  pub len : ℕ

pub record FecEncoder : Type 0 where
  pub data_shards : ℕ
  pub parity_shards : ℕ
  pub shard_size : ℕ
  pub paws : ℕ
  pub next : ℕ
  pub shard_count : ℕ
  pub max_size : ℕ
  pub header_offset : ℕ
  pub payload_offset : ℕ
  pub shard_cache : List Buf
  pub codec : Codec

abbrev pub empty_buf : Buf
empty_buf = record { mem = replicate mtu_limit 0; len = mtu_limit }

abbrev pub paws_of : ℕ → ℕ
paws_of shard_size = u32 (sub32 (0xffffffff / u32 shard_size) 1 * u32 shard_size)

-- `NewFECEncoder`; `new_codec` is reedsolomon.New, and `none` the nil that is returned.
unfoldable pub new_fec_encoder : (ℕ → ℕ → Option Codec) → ℕ → ℕ → ℕ → Option FecEncoder
new_fec_encoder new_codec data_shards parity_shards offset =
    if (data_shards == 0) || (parity_shards == 0)
    then none
    else elim (new_codec data_shards parity_shards) [
      | none ↦ none
      | some codec ↦ some (record {
        data_shards = data_shards;
        parity_shards = parity_shards;
        shard_size = data_shards + parity_shards;
        paws = paws_of (data_shards + parity_shards);
        next = 0;
        shard_count = 0;
        max_size = 0;
        header_offset = offset;
        payload_offset = offset + fec_header_size;
        shard_cache = replicate (data_shards + parity_shards) empty_buf;
        codec = codec;
      })
    ]

-- `copy(dst[pos:], src)` where the bytes fit.
abbrev pub overwrite : ℕ → Bytes → Bytes → Bytes
overwrite pos src dst = take pos dst ++ src ++ drop (pos + length src) dst

-- The writes of a header into `b[offset:]`, which panic where six bytes do not fit.
unfoldable pub write_header : ℕ → ℕ → ℕ → Bytes → Run Bytes
write_header offset seqid flag b =
    if leb (offset + 6) (length b) then ok (overwrite offset (header seqid flag) b) else panic

-- `markData`; the sequence number only wraps as a uint32.
unfoldable pub mark_data : FecEncoder → Bytes → Run (FecEncoder × Bytes)
unfolding write_header
mark_data enc b = do
  b' ← write_header enc.header_offset enc.next type_data b
  ok (record enc { next = u32 (enc.next + 1) }, b')

-- `markFEC` on a parity shard `ps[k]`, and the reslice that follows it.
unfoldable pub mark_fec : FecEncoder → Buf → Run (FecEncoder × Buf)
unfolding write_header
mark_fec enc buf = do
  seen ← write_header enc.header_offset enc.next type_fec (take buf.len buf.mem)
  let next = u32 (enc.next + 1)
  if (enc.paws == 0) || ltb (length buf.mem) enc.max_size
      then panic
      else ok (
        record enc { next = next % enc.paws },
        record { mem = seen ++ drop buf.len buf.mem; len = enc.max_size },
      )

-- The loop over `ps`.
unfoldable pub mark_all : FecEncoder → List Buf → Run (FecEncoder × List Buf)
mark_all enc [] = ok (enc, [])
mark_all enc (buf ∷ bufs) = mark_fec enc buf >>= λ (enc', buf').
    mark_all enc' bufs >>= λ (enc'', bufs'). ok (enc'', buf' ∷ bufs')

-- The two bytes of the size field.
unfoldable pub write_size : ℕ → Bytes → Run Bytes
write_size payload_offset b =
    if leb (payload_offset + 2) (length b)
    then ok (overwrite payload_offset (le16 (u16 (length b - payload_offset))) b)
    else panic

-- The reslice to `sz` and the copy of the packet into the shard.
unfoldable pub store_shard : FecEncoder → Bytes → Run (List Buf)
store_shard enc b = do
  buf ← index enc.shard_cache enc.shard_count
  if leb (length b) (length buf.mem)
      then ok (
          set enc.shard_cache enc.shard_count
            (record { mem = overwrite 0 b buf.mem; len = length b }))
      else panic

-- `copy(shard[slen:enc.maxSize], enc.zeros)`
unfoldable pub zero_tail : ℕ → Buf → Run Buf
zero_tail max_size buf =
    if ltb max_size buf.len || ltb (length buf.mem) max_size
    then panic
    else ok (record buf { mem = overwrite buf.len (replicate (max_size - buf.len) 0) buf.mem })

unfoldable pub zero_tails : ℕ → List Buf → Run (List Buf)
zero_tails max_size [] = ok []
zero_tails max_size (buf ∷ bufs) = do
  buf' ← zero_tail max_size buf
  bufs' ← zero_tails max_size bufs
  ok (buf' ∷ bufs')

-- `enc.shardCache[k][enc.payloadOffset:enc.maxSize]`
unfoldable pub cut : ℕ → ℕ → Buf → Run Bytes
cut lo hi buf =
    if ltb hi lo || ltb (length buf.mem) hi then panic else ok (drop lo (take hi buf.mem))

unfoldable pub cut_all : ℕ → ℕ → List Buf → Run (List Bytes)
cut_all lo hi [] = ok []
cut_all lo hi (buf ∷ bufs) = do c ← cut lo hi buf; cs ← cut_all lo hi bufs; ok (c ∷ cs)

-- What the codec's Encode writes into the parity shards, which alias the shard cache.
unfoldable pub fill : ℕ → List Buf → List Bytes → List Buf
fill pos [] ps = []
fill pos (buf ∷ bufs) [] = buf ∷ bufs
fill pos (buf ∷ bufs) (p ∷ ps) = record buf { mem = overwrite pos p buf.mem } ∷ fill pos bufs ps

abbrev pub contents : List Buf → List Bytes
contents [] = []
contents (buf ∷ bufs) = take buf.len buf.mem ∷ contents bufs

-- The branch of Encode for a full group; the counters are reset whether or not the codec fails.
unfoldable pub finish_group : FecEncoder → Run (FecEncoder × List Bytes)
unfolding zero_tails cut_all fill mark_all zero_tail cut mark_fec
finish_group enc = do
  bufs ← zero_tails enc.max_size (take enc.data_shards enc.shard_cache)
  let parity = drop enc.data_shards enc.shard_cache
  cache ← cut_all enc.payload_offset enc.max_size bufs
  _ ← cut_all enc.payload_offset enc.max_size parity
  elim (enc.codec.encode cache) [
    | none ↦ ok (record enc { shard_cache = bufs ++ parity; shard_count = 0; max_size = 0 }, [])
    | some ps ↦ mark_all enc (fill enc.payload_offset parity ps) >>= λ (enc', marked). ok (
      record enc' { shard_cache = bufs ++ marked; shard_count = 0; max_size = 0 },
      contents marked,
    )
  ]

-- `Encode`: the encoder after the call, the packet with its header written, the parity packets.
unfoldable pub encode : FecEncoder → Bytes → Run (FecEncoder × Bytes × List Bytes)
unfolding mark_data write_size store_shard finish_group
encode enc b = mark_data enc b >>= λ (marked, b'). do
  sized ← write_size enc.payload_offset b'
  cache ← store_shard marked sized
  let stored = record marked {
    shard_cache = cache;
    shard_count = enc.shard_count + 1;
    max_size = if ltb enc.max_size (length sized) then length sized else enc.max_size;
  }
  if stored.shard_count == enc.data_shards
      then (finish_group stored >>= λ (done, ps). ok (done, sized, ps))
      else ok (stored, sized, [])
