-- ===== src/Tests/FecRuns.antt =====
-- A group of two payloads and one parity packet, of which the second data packet is lost.
use tcpraw.Base.{
  ℕ, ◌≡◌, refl, true, false, Option, none, some, List, [], ◌∷◌, ◌++◌, Bytes, ok, arith, Returns,
  ◌%◌, ◌≤◌,
}
use tcpraw.Fec.Codec.{Codec}
use tcpraw.Fec.Wire.{FecPacket}
use tcpraw.Fec.Encoder.{FecEncoder, empty_buf, paws_of}
use tcpraw.Fec.Encoder.Memory.{IsBuf}
use tcpraw.Fec.Encoder.Collect.{IsCollecting}
use tcpraw.Fec.Encoder.Sizes.{encode_all, group_size, protected_parts}
use tcpraw.Fec.Encoder.Stream.{paws_of-aligned}
use tcpraw.Fec.Decoder.{FecDecoder, decode}
use tcpraw.Fec.Decoder.Group.{Numbered, bodies}
use tcpraw.Fec.Decoder.Sent.{IsSent}
use tcpraw.Fec.Decoder.Arrival.{Arrival, IsArrival, decode-group}
use tcpraw.Fec.Decoder.Safety.{IsValid, decode-IsValid, decode-duplicate}
use tcpraw.Fec.Channel.{Fec}
use tcpraw.Fec.Channel.Transmission.{encode_all-IsSent, decode_packets}
use tcpraw.Tests.SumCode.{sum_code, sum_code-IsCodec}

abbrev pub payloads : List Bytes
payloads = (1 ∷ []) ∷ (2 ∷ 3 ∷ []) ∷ []

abbrev pub data_pkt₀ : FecPacket
data_pkt₀ = record { seqid = 0; flag = 0xf1; body = 3 ∷ 0 ∷ 1 ∷ [] }

abbrev pub data_pkt₁ : FecPacket
data_pkt₁ = record { seqid = 1; flag = 0xf1; body = 4 ∷ 0 ∷ 2 ∷ 3 ∷ [] }

abbrev pub parity_pkt : FecPacket
parity_pkt = record { seqid = 2; flag = 0xf2; body = 7 ∷ 0 ∷ 3 ∷ 3 ∷ [] }

abbrev pub parity_bytes : Bytes
parity_bytes = 2 ∷ 0 ∷ 0 ∷ 0 ∷ 0xf2 ∷ 0 ∷ 7 ∷ 0 ∷ 3 ∷ 3 ∷ []

abbrev pub waiting_decoder : FecDecoder
waiting_decoder = record {
  rxlimit = 9;
  data_shards = 2;
  parity_shards = 1;
  shard_size = 3;
  rx = data_pkt₀ ∷ [];
  codec = sum_code;
}

abbrev pub sent_group : IsSent 2 1 4 sum_code (data_pkt₀ ∷ data_pkt₁ ∷ []) (parity_pkt ∷ [])
sent_group = record {
  num_data = refl;
  num_parity = refl;
  data_flags = (refl, (refl, tt));
  parity_flags = (refl, tt);
  data_sizes = (omega arith, (omega arith, tt));
  parity_sizes = (refl, tt);
  size_pos = omega arith;
  size_fits = omega arith;
  encoded = refl;
}

abbrev parity_arrival : Arrival
parity_arrival = record {
  dec = waiting_decoder;
  pkt = parity_pkt;
  k = 2;
  p = 1;
  size = 4;
  base = 0;
  start = 0;
  data_pkts = data_pkt₀ ∷ data_pkt₁ ∷ [];
  parity_pkts = parity_pkt ∷ [];
  lo_sent = data_pkt₀ ∷ data_pkt₁ ∷ [];
  hi_sent = [];
  pre = [];
  post = [];
  data_mask = true ∷ false ∷ [];
  parity_mask = true ∷ [];
  lo_mask = true ∷ false ∷ [];
  hi_mask = [];
}

abbrev is_arrival : IsArrival parity_arrival
is_arrival = record {
  group = record {
    pos = omega arith;
    aligned = refl;
    fits = omega arith;
    base_fits = omega arith;
    in_window = omega arith;
  };
  law = sum_code-IsCodec;
  is_sent = sent_group;
  num_data = refl;
  num_all = refl;
  numbered = (refl, (refl, (refl, tt)));
  split = refl;
  before = tt;
  after = tt;
  data_masked = refl;
  parity_masked = refl;
  masks = refl;
  lo_masked = refl;
  held = refl;
}

decode-group_example :
    decode waiting_decoder parity_pkt
    ≡ ok (record waiting_decoder { rx = [] }, (4 ∷ 0 ∷ 2 ∷ 3 ∷ []) ∷ [])
decode-group_example = decode-group parity_arrival is_arrival

abbrev pub empty_channel : Fec
empty_channel = record {
  encoder = none;
  decoder = none;
  data_ch = [];
  capacity = 3;
  tx_bytes = 0;
  rx_bytes = 0;
  drop_packets = 0;
}

abbrev pub sum_codecs : ℕ → ℕ → Option Codec
sum_codecs k p = some sum_code

abbrev pub new_encoder : FecEncoder
new_encoder = record {
  data_shards = 2;
  parity_shards = 1;
  shard_size = 3;
  paws = 4294967292;
  next = 0;
  shard_count = 0;
  max_size = 0;
  header_offset = 0;
  payload_offset = 6;
  shard_cache = empty_buf ∷ empty_buf ∷ empty_buf ∷ [];
  codec = sum_code;
}

empty_buf-IsBuf : IsBuf empty_buf
empty_buf-IsBuf = record { capacity = refl; room = omega arith; within = omega arith }

pub new_encoder-IsCollecting : IsCollecting 2 1 0 [] new_encoder
new_encoder-IsCollecting = record {
  no_offset = refl;
  payload_at = refl;
  num_data = refl;
  counted = refl;
  numbered = refl;
  aligned = refl;
  paws_aligned = refl;
  below_paws = omega arith;
  paws_fits = omega arith;
  filled = [];
  rest = empty_buf ∷ empty_buf ∷ empty_buf ∷ [];
  cache = refl;
  holds = tt;
  rest_bufs = (empty_buf-IsBuf, (empty_buf-IsBuf, (empty_buf-IsBuf, tt)));
  num_bufs = refl;
  max = refl;
}

encode_all-IsSent_example :
    (enc' : FecEncoder) × (out : List Bytes) × (dps : List FecPacket) × (pps : List FecPacket)
    × (encode_all new_encoder payloads ≡ ok (enc', out))
    × (decode_packets out ≡ ok (dps ++ pps))
    × IsSent 2 1 (group_size payloads) sum_code dps pps
    × Numbered 0 (dps ++ pps)
    × (bodies dps ≡ protected_parts payloads)
encode_all-IsSent_example =
    encode_all-IsSent payloads sum_code-IsCodec new_encoder-IsCollecting refl (omega arith)
      (omega arith) (omega arith, (omega arith, tt))

paws_of-aligned_example : (paws_of 12 % 12 ≡ 0) × (12 ≤ paws_of 12) × (paws_of 12 ≤ 4294967295)
paws_of-aligned_example = paws_of-aligned 12 (omega arith) (omega arith)

waiting_decoder-IsValid : IsValid 0 waiting_decoder
waiting_decoder-IsValid = record {
  ordered = ((omega arith, omega arith), omega arith, tt);
  limited = omega arith;
  bounded = (omega arith, tt);
  base_fits = omega arith;
  size_pos = omega arith;
}

decode-IsValid_example : Returns (λ r. IsValid 0 r.0) (decode waiting_decoder parity_pkt)
decode-IsValid_example =
    decode-IsValid 0 waiting_decoder parity_pkt waiting_decoder-IsValid (omega arith, omega arith)
      (omega arith)

decode-duplicate_example : decode waiting_decoder data_pkt₀ ≡ ok (waiting_decoder, [])
decode-duplicate_example =
    decode-duplicate 0 waiting_decoder data_pkt₀ data_pkt₀ [] [] waiting_decoder-IsValid refl refl
