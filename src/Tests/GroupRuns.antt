-- ===== src/Tests/GroupRuns.antt =====
-- Whole groups: any two of three packets, and a code with as many parity packets as data packets.
use mathlib.Core.List.{Perm}
use tcpraw.Base.{ℕ, ◌≡◌, refl, some, List, [], ◌∷◌, Bytes, ok, arith}
use tcpraw.Fec.Wire.{FecPacket, decode_fec_packet}
use tcpraw.Fec.Decoder.{FecDecoder}
use tcpraw.Fec.Decoder.Sent.{IsSent}
use tcpraw.Fec.Decoder.Step.{IsReceiver}
use tcpraw.Fec.Channel.Transmission.{decode_packets}
use tcpraw.Fec.Channel.AnyOrder.{decode_all, packets_at}
use tcpraw.Fec.Channel.Repeats.{decode_all-repeats}
use tcpraw.Tests.SumCode.{sum_code-IsCodec}
use tcpraw.Tests.RepeatCode.{copy_code, copy_code-IsCodec}
use tcpraw.Tests.FecRuns.{
  data_pkt₀, data_pkt₁, parity_pkt, parity_bytes, waiting_decoder, sent_group, empty_channel,
}

abbrev sum_receiver :
    IsReceiver waiting_decoder 2 1 4 0 0 (data_pkt₀ ∷ data_pkt₁ ∷ []) (parity_pkt ∷ [])
sum_receiver = record {
  group = record {
    pos = omega arith;
    aligned = refl;
    fits = omega arith;
    base_fits = omega arith;
    in_window = omega arith;
  };
  law = sum_code-IsCodec;
  is_sent = sent_group;
  num_data = refl;
  num_all = refl;
  numbered = (refl, (refl, (refl, tt)));
  limit = omega arith;
}

abbrev sum_wire : List Bytes
sum_wire =
    (0 ∷ 0 ∷ 0 ∷ 0 ∷ 0xf1 ∷ 0 ∷ 3 ∷ 0 ∷ 1 ∷ [])
    ∷ (1 ∷ 0 ∷ 0 ∷ 0 ∷ 0xf1 ∷ 0 ∷ 4 ∷ 0 ∷ 2 ∷ 3 ∷ [])
    ∷ parity_bytes
    ∷ []

abbrev copied_pkt : ℕ → ℕ → FecPacket
copied_pkt seqid flag = record { seqid = seqid; flag = flag; body = 3 ∷ 0 ∷ 9 ∷ [] }

abbrev copy_decoder : FecDecoder
copy_decoder = record {
  rxlimit = 6;
  data_shards = 1;
  parity_shards = 1;
  shard_size = 2;
  rx = [];
  codec = copy_code;
}

abbrev copy_sent : IsSent 1 1 3 copy_code (copied_pkt 0 0xf1 ∷ []) (copied_pkt 1 0xf2 ∷ [])
copy_sent = record {
  num_data = refl;
  num_parity = refl;
  data_flags = (refl, tt);
  parity_flags = (refl, tt);
  data_sizes = (omega arith, tt);
  parity_sizes = (refl, tt);
  size_pos = omega arith;
  size_fits = omega arith;
  encoded = refl;
}

abbrev copy_receiver :
    IsReceiver copy_decoder 1 1 3 0 0 (copied_pkt 0 0xf1 ∷ []) (copied_pkt 1 0xf2 ∷ [])
copy_receiver = record {
  group = record {
    pos = omega arith;
    aligned = refl;
    fits = omega arith;
    base_fits = omega arith;
    in_window = omega arith;
  };
  law = copy_code-IsCodec;
  is_sent = copy_sent;
  num_data = refl;
  num_all = refl;
  numbered = (refl, (refl, tt));
  limit = omega arith;
}

abbrev copy_wire : List Bytes
copy_wire =
    (0 ∷ 0 ∷ 0 ∷ 0 ∷ 0xf1 ∷ 0 ∷ 3 ∷ 0 ∷ 9 ∷ []) ∷ (1 ∷ 0 ∷ 0 ∷ 0 ∷ 0xf2 ∷ 0 ∷ 3 ∷ 0 ∷ 9 ∷ []) ∷ []

abbrev copy_payloads : List Bytes
copy_payloads = (9 ∷ []) ∷ []

decode_all-repeats_example :
    (decode_all
        (packets_at copy_wire (0 ∷ 1 ∷ []))
        (record empty_channel { decoder = some copy_decoder })
      ≡ ok (
        record empty_channel { decoder = some copy_decoder; data_ch = copy_payloads },
        copy_payloads,
      ))
    × Perm copy_payloads copy_payloads
unfolding decode_fec_packet decode_packets
decode_all-repeats_example =
    decode_all-repeats copy_receiver empty_channel copy_wire copy_payloads refl refl (omega arith)
      (omega arith) (0 ∷ []) (1 ∷ []) (refl, tt) (refl, tt) (omega arith, tt) (omega arith, tt) refl
      refl (omega arith)
