-- ===== src/Tests/StreamRuns.antt =====
-- Streams of groups of two data packets and one parity packet.
use mathlib.Core.List.{Perm}
use tcpraw.Base.{suc, ◌≡◌, refl, some, List, [], ◌∷◌, length, map, All, Bytes, ok, arith}
use tcpraw.Fec.Channel.{Fec, received, new_fec}
use tcpraw.Fec.Channel.Yields.{decode_until_wait}
use tcpraw.Fec.Channel.Groups.{Sending, IsSending, all_payloads, arriving, due}
use tcpraw.Fec.Channel.EndToEnd.{encode_data_all, new_fec-delivers, new_fec-exactly_once}
use tcpraw.Tcp.Addr.{NetAddr, v4, tcp_addr}
use tcpraw.Faketcp.FakeConn.{FakeConn, new_fake_conn}
use tcpraw.Faketcp.FakeConn.Payloads.{read_until_wait}
use tcpraw.Faketcp.Client.{Client}
use tcpraw.Faketcp.Client.Writing.{all_written, client_write_all}
use tcpraw.Faketcp.Transfer.{push_all, client_with, client_write-read}
use tcpraw.Tests.SumCode.{sum_code, sum_code-IsCodec}
use tcpraw.Tests.FecRuns.{payloads, sum_codecs}

-- The first data packet of the second group is lost, and one of the first group comes again.
abbrev repeated : List Sending
repeated =
    record { payloads = payloads; first = 1 ∷ 2 ∷ []; late = 1 ∷ [] }
    ∷ record { payloads = (9 ∷ []) ∷ [] ∷ []; first = 2 ∷ 1 ∷ []; late = [] }
    ∷ []

repeated-IsSending : All (IsSending 2 1) repeated
repeated-IsSending = (
  record {
    num = refl;
    fit = (omega arith, (omega arith, tt));
    not_empty = omega arith;
    fresh = (refl, (refl, tt));
    taken = refl;
    fresh_late = (refl, tt);
    few_late = omega arith;
  },
  (
    record {
      num = refl;
      fit = (omega arith, (omega arith, tt));
      not_empty = omega arith;
      fresh = (refl, (refl, tt));
      taken = refl;
      fresh_late = tt;
      few_late = omega arith;
    },
    tt,
  ),
)

new_fec-delivers_example :
    (fec : Fec) × (out : List Bytes) × (f : Fec) × (reads : List Bytes) × (encode_data_all
        (new_fec sum_codecs 2 1 0)
        []
        (all_payloads repeated)
      ≡ ok (fec, out))
    × (decode_until_wait
          (suc (length reads))
          (map received (arriving 3 out repeated))
          (new_fec sum_codecs 2 1 0)
        ≡ ok (some (f, reads)))
    × Perm reads (due 2 repeated)
    × (f.data_ch ≡ [])
new_fec-delivers_example =
    new_fec-delivers sum_codecs 2 1 sum_code (omega arith) (omega arith) (omega arith) refl repeated
      sum_code-IsCodec repeated-IsSending (omega arith)

-- In the first group the packets come in the reverse order.
abbrev reversed : List Sending
reversed =
    record { payloads = payloads; first = 1 ∷ 0 ∷ []; late = 2 ∷ [] }
    ∷ record { payloads = (9 ∷ []) ∷ [] ∷ []; first = 2 ∷ 1 ∷ []; late = [] }
    ∷ []

reversed-IsSending : All (IsSending 2 1) reversed
reversed-IsSending = (
  record {
    num = refl;
    fit = (omega arith, (omega arith, tt));
    not_empty = omega arith;
    fresh = (refl, (refl, tt));
    taken = refl;
    fresh_late = (refl, tt);
    few_late = omega arith;
  },
  repeated-IsSending.1,
)

new_fec-exactly_once_example :
    (fec : Fec) × (out : List Bytes) × (f : Fec) × (reads : List Bytes) × (encode_data_all
        (new_fec sum_codecs 2 1 0)
        []
        (all_payloads reversed)
      ≡ ok (fec, out))
    × (decode_until_wait
          (suc (length reads))
          (map received (arriving 3 out reversed))
          (new_fec sum_codecs 2 1 0)
        ≡ ok (some (f, reads)))
    × Perm reads (all_payloads reversed)
new_fec-exactly_once_example =
    new_fec-exactly_once sum_codecs 2 1 sum_code (omega arith) (omega arith) (omega arith) refl
      reversed sum_code-IsCodec reversed-IsSending (omega arith) ((omega arith, tt), (tt, tt))

-- The client's messages, of which the second group loses its first data packet.
abbrev messages : List Sending
messages =
    record { payloads = payloads; first = 1 ∷ 0 ∷ []; late = 2 ∷ [] }
    ∷ record { payloads = (9 ∷ []) ∷ (8 ∷ []) ∷ []; first = 2 ∷ 1 ∷ []; late = [] }
    ∷ []

messages-IsSending : All (IsSending 2 1) messages
messages-IsSending = (
  reversed-IsSending.0,
  (
    record {
      num = refl;
      fit = (omega arith, (omega arith, tt));
      not_empty = omega arith;
      fresh = (refl, (refl, tt));
      taken = refl;
      fresh_late = tt;
      few_late = omega arith;
    },
    tt,
  ),
)

abbrev client_addr : NetAddr
client_addr = tcp_addr (v4 0x0a000001) 4000

client_write-read_example :
    (c : Client) × (out : List Bytes) × (f : FakeConn) × (reads : List Bytes) × (client_write_all
        (client_with (new_fec sum_codecs 2 1 0))
        []
        (all_payloads messages)
      ≡ ok (c, out, all_written (all_payloads messages)))
    × (read_until_wait (suc (length reads)) 2048 (
          push_all 5
            (new_fake_conn client_addr (some (new_fec sum_codecs 2 1 0)))
            (arriving 3 out messages))
        ≡ ok (some (f, reads)))
    × Perm reads (all_payloads messages)
client_write-read_example =
    client_write-read sum_codecs 2 1 sum_code (omega arith) (omega arith) (omega arith) refl
      messages client_addr 5 2048 sum_code-IsCodec messages-IsSending (omega arith)
      ((omega arith, tt), (tt, tt))
      (
        (omega arith, omega arith),
        (
          (omega arith, omega arith),
          ((omega arith, omega arith), ((omega arith, omega arith), tt)),
        ),
      )
      (omega arith) (omega arith)
