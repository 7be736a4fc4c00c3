-- ===== src/Fec/Channel.antt =====
-- The type Fec of faketcp/fec.go: the encoder, the decoder and the channel of recovered payloads.
-- The socket behind the callbacks `send` and `getData` is a parameter: `send` acts on a state of its
-- own, and the results of `getData` are a list, after whose end the call would block.
pub mod Delivery
pub mod Arrivals
pub mod Transmission
pub mod Reads
pub mod Wires
pub mod AnyOrder
pub mod EachOnce
pub mod Repeats
pub mod Yields
pub mod OneGroup
pub mod WholeGroup
pub mod Groups
pub mod Stream
pub mod EndToEnd
pub mod Calls
use tcpraw.Base.{
  ℕ, ◌+◌, ◌*◌, ◌||◌, Option, none, some, List, [], ◌∷◌, ◌++◌, ltb, leb, ◌==◌, if◌then◌else◌, length,
  take, drop, replicate, Bytes, u64, Error, Run, ok, panic, ◌>>=◌, or_panic, slice_from, get_le16,
}
use tcpraw.Fec.Codec.{Codec}
use tcpraw.Fec.Wire.{FecPacket, fec_header_size_plus2, type_data, type_fec, decode_fec_packet}
use tcpraw.Fec.Encoder.{FecEncoder, new_fec_encoder, encode}
use tcpraw.Fec.Decoder.{FecDecoder, new_fec_decoder, decode}

-- `capacity` is the capacity of the channel `data_ch`.
pub record Fec : Type 0 where
  pub encoder : Option FecEncoder
  pub decoder : Option FecDecoder
  pub data_ch : List Bytes
  pub capacity : ℕ
  pub tx_bytes : ℕ
  pub rx_bytes : ℕ
  pub drop_packets : ℕ

-- `NewFec`; a constructor that fails leaves a nil pointer.
unfoldable pub new_fec : (ℕ → ℕ → Option Codec) → ℕ → ℕ → ℕ → Fec
unfolding new_fec_encoder new_fec_decoder
new_fec new_codec data_shards parity_shards offset = record {
  encoder = new_fec_encoder new_codec data_shards parity_shards offset;
  decoder = new_fec_decoder new_codec (3 * (data_shards + parity_shards)) data_shards parity_shards;
  data_ch = [];
  capacity = data_shards + parity_shards;
  tx_bytes = 0;
  rx_bytes = 0;
  drop_packets = 0;
}

-- The loop over the parity packets, which the first error of `send` ends.
unfoldable pub send_parity {ℓ} :
    {S : Type ℓ} → (S → Bytes → S × Option Error) → Fec → S → List Bytes → Fec × S × Option Error
send_parity send fec s [] = (fec, s, none)
send_parity send fec s (p ∷ ps) =
    let (s', err) = send s p in
    let rest = send_parity send (record fec { tx_bytes = u64 (fec.tx_bytes + length p) }) s' ps in
    elim err [ some e ↦ (fec, s', some e) | none ↦ rest ]

-- `EncodeData`
unfoldable pub encode_data {ℓ} :
    {S : Type ℓ} → (S → Bytes → S × Option Error) → Fec → S → Bytes → Run (Fec × S × Option Error)
unfolding encode send_parity
encode_data send fec s b = or_panic fec.encoder >>= λ encoder.
    encode encoder (replicate fec_header_size_plus2 0 ++ b) >>= λ (encoder', fec_buf, ps).
    let fec' : Fec = record fec { encoder = some encoder' } in
    let (s', err) = send s fec_buf in
    elim err [ some e ↦ ok (fec', s', some e) | none ↦ ok (send_parity send fec' s' ps) ]

-- The loop over the recovered shards: the size in front says where the payload ends, and a payload
-- that finds the channel full is a panic.
unfoldable pub deliver : Fec → List Bytes → Run Fec
deliver fec [] = ok fec
deliver fec (r ∷ rs) =
    let skipped = deliver fec rs in
    if leb (length r) 2
    then skipped
    else (get_le16 r >>= λ sz.
        let payload = drop 2 (take sz r) in
        let pushed = deliver (record fec { data_ch = fec.data_ch ++ payload ∷ [] }) rs in
        if ltb sz 2 || ltb (length r) sz
        then panic
        else if ltb (length fec.data_ch) fec.capacity
        then pushed
        else panic)

-- The payload of a data packet; a parity packet has none, and another type is a panic.
unfoldable pub payload_of : FecPacket → Bytes → Run (Option Bytes)
payload_of pkt bytes =
    if pkt.flag == type_data
    then (slice_from bytes fec_header_size_plus2 >>= λ payload. ok (some payload))
    else if pkt.flag == type_fec
    then ok none
    else panic

-- The method `decode`: what it returns, a nil slice as `none`.
unfoldable pub decode_one : Fec → Bytes → Run (Fec × Option Bytes)
unfolding decode_fec_packet payload_of decode deliver
decode_one fec bytes = do
  decoder ← or_panic fec.decoder
  pkt ← decode_fec_packet bytes
  payload ← payload_of pkt bytes
  decode decoder pkt >>= λ (decoder', recovered).
      deliver (record fec { decoder = some decoder' }) recovered >>= λ fec'. ok (fec', payload)

-- A result of `getData`, and of a call of DecodeData: `waiting` for the next result.
pub data Input : Type 0 where
  received : Bytes → Input
  failed : Error → Input

pub data Reading : Type 0 where
  payload : Bytes → Reading
  failure : Error → Reading
  waiting : Reading

abbrev pub take_recovered : Fec → Bytes → List Bytes → Fec
take_recovered fec d ds = record fec { data_ch = ds; rx_bytes = u64 (fec.rx_bytes + length d) }

-- `DecodeData` on the results of `getData`; also the results that it did not use.
unfoldable pub decode_data : List Input → Fec → Run (Fec × Reading × List Input)
unfolding decode_one
decode_data [] fec = elim fec.data_ch [
  | [] ↦ ok (fec, waiting, [])
  | d ∷ ds ↦ ok (take_recovered fec d ds, payload d, [])
]
decode_data (i ∷ is) fec =
    let again = decode_data is in
    elim fec.data_ch [
      | d ∷ ds ↦ ok (take_recovered fec d ds, payload d, i ∷ is)
      | [] ↦ elim i [
        | failed e ↦ ok (fec, failure e, is)
        | received [] ↦ again fec
        | received (x ∷ xs) ↦ decode_one fec (x ∷ xs) >>= λ (fec', out). elim out [
          | none ↦ again fec'
          | some d ↦ ok (fec', payload d, is)
        ]
      ]
    ]
