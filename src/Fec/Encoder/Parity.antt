-- ===== src/Fec/Encoder/Parity.antt =====
-- The parity packets of Encode: the codec's shards behind a header with the next sequence numbers.
use mathlib.Core.Path.{ap₂}
use native.Mathlib.Nat.{mod-eq_of_lt}
use tcpraw.Base.{
  ℕ, suc, ◌+◌, ◌%◌, ◌≤◌, ◌<◌, ◌≡◌, refl, sym, ap, ◌∙◌, List, [], ◌∷◌, ◌++◌, arith, length, take,
  drop, All, append_assoc, length-append, length-take, length-drop, take-append, drop-append,
  take-append-drop, drop-append_before, le→leb, le→ltb, ==_ne, Bytes, u32, ok,
}
use tcpraw.Fec.Codec.{HasSize}
use tcpraw.Fec.Wire.{header, type_fec, mtu_limit}
use tcpraw.Fec.Encoder.{
  Buf, FecEncoder, overwrite, fill, mark_fec, mark_all, write_header, contents,
}
use tcpraw.Fec.Encoder.Memory.{IsBuf, length-overwrite}

abbrev pub parity_packet : ℕ → Bytes → Bytes
parity_packet seqid p = header seqid type_fec ++ p

-- The parity packets of a group, numbered from `s`.
abbrev pub parity_packets : ℕ → List Bytes → List Bytes
parity_packets s [] = []
parity_packets s (p ∷ ps) = parity_packet s p ∷ parity_packets (s + 1) ps

-- A buffer with the codec's shard in it.
abbrev pub filled_buf : Buf → Bytes → Buf
filled_buf buf p = record buf { mem = overwrite 6 p buf.mem }

-- Its memory when the header is written too.
abbrev pub marked_mem : ℕ → Buf → Bytes → Bytes
marked_mem seqid buf p =
    (header seqid type_fec ++ drop 6 (take buf.len (overwrite 6 p buf.mem)))
    ++ drop buf.len (overwrite 6 p buf.mem)

module _ (buf : Buf) (p : Bytes) (i : IsBuf buf) (h : 6 + length p ≤ mtu_limit) where
  length_filled : length (overwrite 6 p buf.mem) ≡ mtu_limit
  length_filled = let c = i.capacity in length-overwrite 6 p buf.mem (omega arith) ∙ i.capacity

  length_seen : length (take buf.len (overwrite 6 p buf.mem)) ≡ buf.len
  length_seen =
      let w = i.within in omega (arith, length_filled, length-take buf.len (overwrite 6 p buf.mem))

  -- Behind the header stands the shard.
  marked_mem-split :
      (seqid : ℕ)
      → marked_mem seqid buf p ≡ (header seqid type_fec ++ p) ++ drop (6 + length p) buf.mem
  marked_mem-split seqid =
      let m = overwrite 6 p buf.mem in
      let r = i.room in
      let c = i.capacity in
      let whole : drop 6 (take buf.len m) ++ drop buf.len m ≡ drop 6 m =
        sym (drop-append_before 6 (take buf.len m) (drop buf.len m) (omega (arith, length_seen)))
        ∙ ap (drop 6) (take-append-drop buf.len m) in
      let behind : drop 6 m ≡ p ++ drop (6 + length p) buf.mem =
        ap (drop 6) (append_assoc (take 6 buf.mem) p (drop (6 + length p) buf.mem))
        ∙ drop-append 6 (take 6 buf.mem) (p ++ drop (6 + length p) buf.mem)
            (omega (arith, length-take 6 buf.mem)) in
      append_assoc (header seqid type_fec) (drop 6 (take buf.len m)) (drop buf.len m)
      ∙ ap (◌++◌ (header seqid type_fec)) (whole ∙ behind)
      ∙ sym (append_assoc (header seqid type_fec) p (drop (6 + length p) buf.mem))

  pub take-marked_mem :
      (seqid n : ℕ) → 6 + length p ≡ n → take n (marked_mem seqid buf p) ≡ parity_packet seqid p
  take-marked_mem seqid n e =
      ap (take n) (marked_mem-split seqid)
      ∙ take-append n (header seqid type_fec ++ p) (drop (6 + length p) buf.mem)
          (omega (arith, length-append (header seqid type_fec) p))

  pub length-marked_mem : (seqid : ℕ) → length (marked_mem seqid buf p) ≡ mtu_limit
  length-marked_mem seqid =
      let c = i.capacity in
      ap length (marked_mem-split seqid)
      ∙ omega (
        arith,
        length-append (header seqid type_fec ++ p) (drop (6 + length p) buf.mem),
        length-append (header seqid type_fec) p,
        length-drop (6 + length p) buf.mem,
      )

  pub mark_fec-marked :
      (enc : FecEncoder)
      → enc.header_offset ≡ 0
      → enc.max_size ≤ mtu_limit
      → 0 < enc.paws
      → mark_fec enc (filled_buf buf p)
        ≡ ok (
          record enc { next = u32 (enc.next + 1) % enc.paws },
          record { mem = marked_mem enc.next buf p; len = enc.max_size },
        )
  unfolding mark_fec write_header
  mark_fec-marked enc off small pos =
      let r = i.room in
      rw (
        off,
        le→leb 6 (length (take buf.len (overwrite 6 p buf.mem))) (omega (arith, length_seen)),
        ==_ne enc.paws 0 (λ e. absurd (omega arith)),
        le→ltb (length (overwrite 6 p buf.mem)) enc.max_size (omega (arith, length_filled)),
      )

-- The loop over the parity shards numbers them upwards, and the number after the last is cut by
-- `paws`.
pub mark_all-parity :
    (enc : FecEncoder) (size s : ℕ) (bufs : List Buf) (ps : List Bytes)
    → enc.header_offset ≡ 0
    → enc.max_size ≡ 6 + size
    → 2 ≤ size
    → 6 + size ≤ mtu_limit
    → enc.next ≡ s % enc.paws
    → s + length ps ≤ enc.paws
    → enc.paws ≤ 4294967295
    → 0 < enc.paws
    → length bufs ≡ length ps
    → All IsBuf bufs
    → HasSize size ps
    → (v : ℕ) × (bufs' : List Buf) × (mark_all enc (fill 6 bufs ps)
        ≡ ok (record enc { next = v }, bufs'))
      × (v ≡ (s + length ps) % enc.paws)
      × (contents bufs' ≡ parity_packets s ps)
      × All IsBuf bufs'
      × (length bufs' ≡ length ps)
unfolding mark_all fill
mark_all-parity enc size s [] [] off m h2 hm n below pf pos l a hs =
    let e : s + 0 ≡ s = omega arith in (enc.next, [], refl, rw e n, refl, tt, refl)
mark_all-parity enc size s [] (p ∷ ps) off m h2 hm n below pf pos l a hs = absurd (omega arith)
mark_all-parity enc size s (b ∷ bufs) [] off m h2 hm n below pf pos l a hs = absurd (omega arith)
mark_all-parity enc size s (b ∷ bufs) (p ∷ ps) off m h2 hm n below pf pos l a hs =
    let now : enc.next ≡ s = n ∙ mod-eq_of_lt (omega arith) in
    let small : u32 (enc.next + 1) ≡ s + 1 = omega arith in
    let fits : 6 + length p ≤ mtu_limit = omega (arith, hs.0) in
    let one = mark_fec-marked b p a.0 fits enc off (omega arith) pos in
    let marked : Buf = record { mem = marked_mem enc.next b p; len = enc.max_size } in
    let (v, rest, e, ev, ec, ea, el) =
      mark_all-parity (record enc { next = u32 (enc.next + 1) % enc.paws }) size (s + 1) bufs ps off
        m h2 hm (ap (λ (t : ℕ). t % enc.paws) small) (omega arith) pf pos (omega arith) a.1 hs.1 in
    let shift : s + 1 + length ps ≡ s + suc (length ps) = omega arith in
    let head : take enc.max_size (marked_mem enc.next b p) ≡ parity_packet s p =
      take-marked_mem b p a.0 fits enc.next enc.max_size (omega (arith, hs.0))
      ∙ ap (λ (t : ℕ). parity_packet t p) now in
    (
      v,
      marked ∷ rest,
      rw (one, e),
      rw shift at ev,
      ap₂ ◌∷◌ head ec,
      (
        record {
          capacity = length-marked_mem b p a.0 fits enc.next;
          room = omega arith;
          within = omega arith;
        },
        ea,
      ),
      ap suc el,
    )
