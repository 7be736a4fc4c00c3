-- ===== src/Tcp/Conn/Datagrams.antt =====
-- The two ways of captureFlow to read, on the same IPv4 datagrams: ReadBatch gives them whole, and
-- ReadFromIP, of Go's library, without their headers.
use tcpraw.Base.{
  ℕ, ◌+◌, ◌*◌, ◌/◌, ◌%◌, ◌≤◌, ◌≡◌, refl, sym, ap, ◌∙◌, false, Bool, Option, List, [], ◌∷◌, ◌++◌,
  map, ◌==◌, length, take, drop, All, length-append, arith, Bytes, ==_ne, append_assoc, take-append,
  drop-append,
}
use tcpraw.Tcp.Addr.{Ip}
use tcpraw.Tcp.Conn.{TcpConn}
use tcpraw.Tcp.Conn.Capture.{Segment, Received, get_ipv4_header_len}
use tcpraw.Tcp.Conn.Capturing.{
  OneRead, BatchRead, one_packet, batch, capture_each, capture_batches, IsWhole, WholeBatch,
  without_header, one_by_one, all_one_by_one, capture_batches-one_by_one,
}

-- An IPv4 datagram in a buffer: the length of its header in words of four bytes, its header behind
-- the first byte, its data, the rest of the buffer, and the peer.
pub record Datagram : Type 0 where
  pub words : ℕ
  pub header : Bytes
  pub segment : Bytes
  pub spare : Bytes
  pub ip : Ip

-- The header has five words, and options of up to ten more.
pub record IsDatagram (d : Datagram) : Type 0 where
  pub least : 5 ≤ d.words
  pub most : d.words ≤ 15
  pub sized : 1 + length d.header ≡ 4 * d.words

-- Its first byte has version 4 and the number of words.
abbrev pub prefix : Datagram → Bytes
prefix d = (64 + d.words) ∷ d.header

-- What ReadBatch and ReadFromIP give of it.
abbrev pub whole_read : Datagram → Received
whole_read d = record {
  buf = prefix d ++ (d.segment ++ d.spare);
  num_bytes = length (prefix d) + length d.segment;
  ip = d.ip;
}

abbrev pub one_read : ℕ → Datagram → OneRead
one_read now d = one_packet now d.segment d.ip

abbrev pub batch_read : ℕ × List Datagram → BatchRead
batch_read (now, ds) = batch now (map whole_read ds)

abbrev pub one_reads : List (ℕ × List Datagram) → List OneRead
one_reads [] = []
one_reads ((now, ds) ∷ rs) = map (one_read now) ds ++ one_reads rs

abbrev pub AreDatagrams : ℕ × List Datagram → Type 0
AreDatagrams (now, ds) = All IsDatagram ds

take-whole : (xs ys zs : Bytes) → take (length xs + length ys) (xs ++ (ys ++ zs)) ≡ xs ++ ys
take-whole xs ys zs =
    ap (take (length xs + length ys)) (sym (append_assoc xs ys zs))
    ∙ take-append (length xs + length ys) (xs ++ ys) zs (length-append xs ys)

header_len-datagram :
    (d : Datagram) → IsDatagram d → get_ipv4_header_len ((whole_read d).buf) ≡ length (prefix d)
unfolding get_ipv4_header_len
header_len-datagram d v =
    let len = length-append d.header (d.segment ++ d.spare) in
    let first : (64 + d.words) / 16 ≡ 4 = omega (arith, v.most) in
    let num_words : (64 + d.words) % 16 ≡ d.words = omega (arith, v.most) in
    ground (arith, first, num_words, v.least, v.most, v.sized, len)

datagram-IsWhole : (d : Datagram) → IsDatagram d → IsWhole (whole_read d)
datagram-IsWhole d v =
    let len = length-append (prefix d) (d.segment ++ d.spare) in
    let inner = length-append d.segment d.spare in
    (omega (arith, len, inner), omega (arith, header_len-datagram d v))

one_by_one-datagrams :
    (now : ℕ) (ds : List Datagram)
    → All IsDatagram ds
    → (All IsWhole (map whole_read ds))
      × (one_by_one now (map whole_read ds) ≡ map (one_read now) ds)
one_by_one-datagrams now [] a = (tt, refl)
one_by_one-datagrams now (d ∷ ds) a =
    let (whole, rest) = one_by_one-datagrams now ds a.1 in
    let len = header_len-datagram d a.0 in
    let some_header : (get_ipv4_header_len ((whole_read d).buf) == 0) ≡ false =
      ==_ne (get_ipv4_header_len ((whole_read d).buf)) 0 (λ e. absurd (omega (arith, e, len))) in
    let cut : without_header (whole_read d) ≡ d.segment =
      ap (λ (n : ℕ). drop n (take ((whole_read d).num_bytes) ((whole_read d).buf))) len
      ∙ ap (drop (length (prefix d))) (take-whole (prefix d) d.segment d.spare)
      ∙ drop-append (length (prefix d)) (prefix d) d.segment refl in
    ((datagram-IsWhole d a.0, whole), rw (some_header, cut, rest) refl)

all-datagrams :
    (rs : List (ℕ × List Datagram))
    → All AreDatagrams rs
    → All WholeBatch (map batch_read rs) × (all_one_by_one (map batch_read rs) ≡ one_reads rs)
all-datagrams [] a = (tt, refl)
all-datagrams ((now, ds) ∷ rs) a =
    let (whole, same) = one_by_one-datagrams now ds a.0 in
    let (wholes, rest) = all-datagrams rs a.1 in ((whole, wholes), rw (same, rest) refl)

-- Datagrams have IPv4 headers of 20 bytes, or more with options. Reading them in batches, headers
-- and all, does to the connection what reading them one after another does, where ReadFromIP gives
-- only their data: the loop over a batch finds where the header ends.
pub capture_batches-capture_each :
    (parse : Bytes → Option Segment) (die_first : Bool) (handle port : ℕ)
    (rs : List (ℕ × List Datagram)) (conn : TcpConn)
    → All AreDatagrams rs
    → capture_batches parse die_first handle port conn (map batch_read rs)
      ≡ capture_each parse die_first handle port conn (one_reads rs)
capture_batches-capture_each parse die_first handle port rs conn a =
    let (whole, same) = all-datagrams rs a in
    capture_batches-one_by_one parse die_first handle port (map batch_read rs) conn whole
    ∙ ap (capture_each parse die_first handle port conn) same
