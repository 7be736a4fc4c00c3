-- ===== src/Tests/CaptureRuns.antt =====
-- Batches of packets with and without an IPv4 header, and two connections that IPTablesReset
-- closes.
use mathlib.Core.List.{Mem}
use tcpraw.Base.{
  ◌≡◌, refl, true, false, some, List, [], ◌∷◌, ◌++◌, replicate, map, All, Bytes, panic, io_error,
  inl, arith, none, Option,
}
use tcpraw.Tcp.Addr.{v4}
use tcpraw.Tcp.Action.{drop_ttl_one_from, delete_rule}
use tcpraw.Tcp.Conn.{TcpConn}
use tcpraw.Tcp.Conn.Capture.{Segment, Received}
use tcpraw.Tcp.Conn.Capturing.{
  BatchRead, batch, batch_failed, OneRead, one_packet, one_failed, capture_each, capture_batches,
  capture_flow, capture_flow-failed, default_batch_size, capture_flow-no_buffer,
}
use tcpraw.Tcp.Conn.Datagrams.{Datagram, batch_read, capture_batches-capture_each}
use tcpraw.Tcp.Reset.{IsClosed, ip_tables_reset, ip_tables_reset-deletes}
use tcpraw.Tests.TcpRuns.{peer_ip, server_conn, parse_data, data_segment}

abbrev whole : Received
whole = record { buf = 0x45 ∷ (replicate 19 0 ++ 7 ∷ 0 ∷ []); num_bytes = 21; ip = v4 peer_ip }

abbrev no_header : Received
no_header = record { buf = replicate 30 0; num_bytes = 4; ip = v4 peer_ip }

abbrev one_batch : List BatchRead
one_batch = batch 8 (whole ∷ no_header ∷ []) ∷ []

-- A datagram with one word of options, in a buffer that has room behind it.
abbrev with_option : Datagram
with_option = record {
  words = 6;
  header = replicate 23 0;
  segment = 7 ∷ [];
  spare = 0 ∷ 0 ∷ [];
  ip = v4 peer_ip;
}

abbrev plain : Datagram
plain = record {
  words = 5;
  header = replicate 19 0;
  segment = 8 ∷ 9 ∷ [];
  spare = [];
  ip = v4 peer_ip;
}

capture_batches-capture_each_example :
    capture_batches parse_data false 3 9191 server_conn
      (map batch_read ((8, with_option ∷ plain ∷ []) ∷ []))
    ≡ capture_each parse_data false 3 9191 server_conn
        (one_packet 8 (7 ∷ []) (v4 peer_ip) ∷ one_packet 8 (8 ∷ 9 ∷ []) (v4 peer_ip) ∷ [])
capture_batches-capture_each_example =
    capture_batches-capture_each parse_data false 3 9191 ((8, with_option ∷ plain ∷ []) ∷ [])
      server_conn
      (
        (
          record { least = omega arith; most = omega arith; sized = refl },
          (record { least = omega arith; most = omega arith; sized = refl }, tt),
        ),
        tt,
      )

abbrev first_packet : List OneRead
first_packet = one_packet 8 (7 ∷ []) (v4 peer_ip) ∷ []

capture_flow-failed_example :
    capture_flow 32 false parse_data false 3 9191 server_conn
      (first_packet ++ one_failed (io_error 9) ∷ [])
      (one_batch ++ batch_failed (io_error 9) ∷ [])
    ≡ panic
capture_flow-failed_example =
    capture_flow-failed parse_data false 3 9191 32 false first_packet [] one_batch [] (io_error 9)
      server_conn

abbrev with_rule : TcpConn
with_rule = record server_conn { iptables = some (drop_ttl_one_from 9191) }

ip_tables_reset-deletes_example :
    All IsClosed ((ip_tables_reset (server_conn ∷ with_rule ∷ [])).0)
    × Mem
        (delete_rule (drop_ttl_one_from 9191))
        ((ip_tables_reset (server_conn ∷ with_rule ∷ [])).1)
ip_tables_reset-deletes_example =
    ip_tables_reset-deletes (server_conn ∷ []) [] with_rule (drop_ttl_one_from 9191) refl (inl refl)

-- A parser that wants a whole header.
abbrev parse_long : Bytes → Option Segment
parse_long [] = none
parse_long (x ∷ b) = some data_segment

capture_flow-no_buffer_example :
    capture_flow default_batch_size true parse_long false 3 9191 server_conn first_packet [] ≡ panic
capture_flow-no_buffer_example =
    capture_flow-no_buffer parse_long false 3 9191 default_batch_size 8 (7 ∷ []) (v4 peer_ip) [] []
      server_conn (omega arith) refl
