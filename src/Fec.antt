-- ===== src/Fec.antt =====
-- faketcp/fec.go: forward error correction over packets. `Codec` is the interface of the
-- Reed-Solomon library, `Wire` the packet format, `Encoder` and `Decoder` the two ends, and
-- `Channel` the type Fec that the connections use.
pub mod Codec
pub mod Wire
pub mod Encoder
pub mod Decoder
pub mod Channel
