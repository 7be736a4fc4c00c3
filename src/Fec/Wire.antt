-- ===== src/Fec/Wire.antt =====
-- The packet format of faketcp/fec.go: a header of 4 bytes of sequence number and 2 of type, then
-- the part that the codec protects, which begins with its own size in 2 bytes.
use tcpraw.Base.{
  ℕ, ◌+◌, ◌≤◌, ◌<◌, ◌≡◌, ◌++◌, arith, leb, if◌then◌else◌, length, Bytes, le16, le32, Run, ok, panic,
  ◌>>=◌, slice_from, get_le16, get_le32,
}

abbrev pub fec_header_size : ℕ
fec_header_size = 6

abbrev pub fec_header_size_plus2 : ℕ
fec_header_size_plus2 = fec_header_size + 2

abbrev pub type_data : ℕ
type_data = 0xf1

abbrev pub type_fec : ℕ
type_fec = 0xf2

abbrev pub mtu_limit : ℕ
mtu_limit = 2048

pub record FecPacket : Type 0 where
  pub seqid : ℕ
  pub flag : ℕ
  pub body : Bytes

-- The six header bytes that markData and markFEC write.
abbrev pub header : ℕ → ℕ → Bytes
header seqid flag = le32 seqid ++ le16 flag

-- The protected part of a data packet, as Encode leaves it: its size, then what the user wrote.
abbrev pub protected_part : Bytes → Bytes
protected_part b = le16 (length b + 2) ++ b

-- `DecodeFecPacket`. A pool buffer has the capacity mtuLimit, and a longer packet does not fit.
unfoldable pub decode_fec_packet : Bytes → Run FecPacket
decode_fec_packet bytes = do
  seqid ← get_le32 bytes
  after_seqid ← slice_from bytes 4
  flag ← get_le16 after_seqid
  body ← slice_from bytes 6
  if leb (length body) mtu_limit
      then ok (record { seqid = seqid; flag = flag; body = body })
      else panic

-- A packet with a header of a 32-bit number and a 16-bit type and at most mtuLimit bytes behind it
-- is decoded to the number, the type and those bytes.
pub decode_fec_packet-header :
    (seqid flag : ℕ) (body : Bytes)
    → seqid < 4294967296
    → flag < 65536
    → length body ≤ mtu_limit
    → decode_fec_packet (header seqid flag ++ body)
      ≡ ok (record { seqid = seqid; flag = flag; body = body })
unfolding decode_fec_packet
decode_fec_packet-header seqid flag body hs hf hb = ground arith
