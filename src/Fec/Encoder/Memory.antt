-- ===== src/Fec/Encoder/Memory.antt =====
-- Shard buffers: what a copy into a buffer leaves in its memory.
use tcpraw.Base.{
  ℕ, suc, ◌+◌, ◌-◌, ◌≤◌, ◌≡◌, refl, ap, ◌∙◌, List, [], ◌∷◌, ◌++◌, arith, length, take, drop,
  replicate, All, length-append, length-take, length-drop, take-append, le→leb, Bytes, ok, u16,
}
use tcpraw.Fec.Wire.{header, type_data, protected_part, mtu_limit}
use tcpraw.Fec.Encoder.{Buf, overwrite, write_header, write_size}

-- A buffer of the cache: its memory is a whole pool buffer, and its length has room for the header.
pub record IsBuf (buf : Buf) : Type 0 where
  pub capacity : length buf.mem ≡ mtu_limit
  pub room : 8 ≤ buf.len
  pub within : buf.len ≤ mtu_limit

-- The buffer holds the packet `b`.
pub record Holds (b : Bytes) (buf : Buf) : Type 0 where
  pub is_buf : IsBuf buf
  pub size : buf.len ≡ length b
  pub same : take (length b) buf.mem ≡ b

abbrev pub AllHold : List Bytes → List Buf → Type 0
AllHold [] [] = Unit {0}
AllHold (b ∷ bs) (buf ∷ bufs) = Holds b buf × AllHold bs bufs
AllHold bs bufs = ⊥

pub AllHold-length : (bs : List Bytes) (bufs : List Buf) → AllHold bs bufs → length bufs ≡ length bs
AllHold-length [] [] h = refl
AllHold-length [] (buf ∷ bufs) h = absurd h
AllHold-length (b ∷ bs) [] h = absurd h
AllHold-length (b ∷ bs) (buf ∷ bufs) h = ap suc (AllHold-length bs bufs h.1)

pub AllHold-snoc :
    (bs : List Bytes) (bufs : List Buf) (b : Bytes) (buf : Buf)
    → AllHold bs bufs
    → Holds b buf
    → AllHold (bs ++ b ∷ []) (bufs ++ buf ∷ [])
AllHold-snoc [] [] b buf h k = (k, tt)
AllHold-snoc [] (c ∷ bufs) b buf h k = absurd h
AllHold-snoc (x ∷ bs) [] b buf h k = absurd h
AllHold-snoc (x ∷ bs) (c ∷ bufs) b buf h k = (h.0, AllHold-snoc bs bufs b buf h.1 k)

pub AllHold-IsBuf : (bs : List Bytes) (bufs : List Buf) → AllHold bs bufs → All IsBuf bufs
AllHold-IsBuf [] [] h = tt
AllHold-IsBuf [] (c ∷ bufs) h = absurd h
AllHold-IsBuf (x ∷ bs) [] h = absurd h
AllHold-IsBuf (x ∷ bs) (c ∷ bufs) h = (h.0.is_buf, AllHold-IsBuf bs bufs h.1)

pub length-overwrite :
    (pos : ℕ) (src dst : Bytes)
    → pos + length src ≤ length dst
    → length (overwrite pos src dst) ≡ length dst
length-overwrite pos src dst h = omega (
  arith,
  length-append (take pos dst ++ src) (drop (pos + length src) dst),
  length-append (take pos dst) src,
  length-take pos dst,
  length-drop (pos + length src) dst,
)

-- A copy at `pos` is behind the first `pos` bytes.
pub take-overwrite :
    (pos n : ℕ) (src dst : Bytes)
    → pos ≤ length dst
    → pos + length src ≡ n
    → take n (overwrite pos src dst) ≡ take pos dst ++ src
take-overwrite pos n src dst h e =
    take-append n (take pos dst ++ src) (drop (pos + length src) dst)
      (omega (arith, length-append (take pos dst) src, length-take pos dst))

-- A stored packet is what its buffer holds.
pub stored-Holds :
    (b : Bytes) (buf : Buf)
    → IsBuf buf
    → 8 ≤ length b
    → length b ≤ mtu_limit
    → Holds b (record { mem = overwrite 0 b buf.mem; len = length b })
stored-Holds b buf i h1 h2 = record {
  is_buf = record {
    capacity = length-overwrite 0 b buf.mem (omega (arith, i.capacity)) ∙ i.capacity;
    room = h1;
    within = h2;
  };
  size = refl;
  same = take-overwrite 0 (length b) b buf.mem (omega arith) (omega arith);
}

-- The headers of a data packet, written into the buffer that EncodeData makes.
module _ (seqid : ℕ) (b : Bytes) (h : length b ≤ 2040) where
  pub write_header-fresh :
      write_header 0 seqid type_data (replicate 8 0 ++ b)
      ≡ ok (header seqid type_data ++ (0 ∷ 0 ∷ b))
  unfolding write_header
  write_header-fresh = ground arith

  pub write_size-header :
      write_size 6 (header seqid type_data ++ (0 ∷ 0 ∷ b))
      ≡ ok (header seqid type_data ++ protected_part b)
  unfolding write_size
  write_size-header =
      let size : u16 (length (header seqid type_data ++ (0 ∷ 0 ∷ b)) - 6) ≡ length b + 2 =
        omega arith in
      rw (le→leb 8 (length (header seqid type_data ++ (0 ∷ 0 ∷ b))) (omega arith), size)
