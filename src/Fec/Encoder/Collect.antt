-- ===== src/Fec/Encoder/Collect.antt =====
-- Encode while a group is being collected: the packet gets the next sequence number and is stored.
use tcpraw.Base.{
  ℕ, suc, ◌+◌, ◌%◌, ◌≤◌, ◌<◌, ◌≡◌, refl, sym, ◌∙◌, List, [], ◌∷◌, ◌++◌, arith, length, replicate,
  All, append_assoc, length-append, set-append, get_elem?-append, le→leb, ==_ne, ltb, false, ◌==◌,
  if◌then◌else◌, Bytes, u32, Run, ok, ◌>>=◌,
}
use tcpraw.Fec.Wire.{header, type_data, protected_part, mtu_limit}
use tcpraw.Fec.Encoder.{Buf, FecEncoder, overwrite, mark_data, store_shard, finish_group, encode}
use tcpraw.Fec.Encoder.Memory.{
  IsBuf, AllHold, AllHold-length, AllHold-snoc, stored-Holds, write_header-fresh, write_size-header,
}

-- The length that `maxSize` records of the packets.
abbrev pub longest : ℕ → List Bytes → ℕ
longest m [] = m
longest m (b ∷ bs) = longest (if ltb m (length b) then length b else m) bs

pub longest-snoc :
    (m : ℕ) (bs : List Bytes) (b : Bytes)
    → longest m (bs ++ b ∷ []) ≡ (if ltb (longest m bs) (length b) then length b else longest m bs)
longest-snoc m [] b = refl
longest-snoc m (x ∷ bs) b = longest-snoc (if ltb m (length x) then length x else m) bs b

-- A data packet as it goes over the wire.
abbrev pub data_packet : ℕ → Bytes → Bytes
data_packet seqid b = header seqid type_data ++ protected_part b

-- The buffer that EncodeData hands to Encode: room for the header and the size, then the payload.
abbrev pub fresh : Bytes → Bytes
fresh b = replicate 8 0 ++ b

-- The encoder has collected the packets `sent` of a group that began with the number `start`; `rest`
-- are the buffers of the shards to come.
pub record IsCollecting (k p start : ℕ) (sent : List Bytes) (enc : FecEncoder) : Type 0 where
  pub no_offset : enc.header_offset ≡ 0
  pub payload_at : enc.payload_offset ≡ 6
  pub num_data : enc.data_shards ≡ k
  pub counted : enc.shard_count ≡ length sent
  pub numbered : enc.next ≡ start + length sent
  pub aligned : start % (k + p) ≡ 0
  pub paws_aligned : enc.paws % (k + p) ≡ 0
  pub below_paws : start + (k + p) ≤ enc.paws
  pub paws_fits : enc.paws ≤ 4294967295
  pub filled : List Buf
  pub rest : List Buf
  pub cache : enc.shard_cache ≡ filled ++ rest
  pub holds : AllHold sent filled
  pub rest_bufs : All IsBuf rest
  pub num_bufs : length filled + length rest ≡ k + p
  pub max : enc.max_size ≡ longest 0 sent

module _ {k p start : ℕ} {sent : List Bytes} {enc : FecEncoder}
    (c : IsCollecting k p start sent enc) (b : Bytes) (fits : length b ≤ 2040)
    (more : length sent < k) where
  abbrev pub packet : Bytes
  packet = data_packet (start + length sent) b

  -- The encoder with the packet stored, before the test for a full group.
  abbrev pub stored_in : List Buf → FecEncoder
  stored_in bufs = record enc {
    next = enc.next + 1;
    shard_cache = bufs;
    shard_count = enc.shard_count + 1;
    max_size = if ltb enc.max_size (length packet) then length packet else enc.max_size;
  }

  pub marks :
      mark_data enc (fresh b)
      ≡ ok (
        record enc { next = enc.next + 1 },
        header (start + length sent) type_data ++ (0 ∷ 0 ∷ b),
      )
  unfolding mark_data
  marks =
      let n = c.numbered in
      let f = c.below_paws in
      let w = c.paws_fits in
      let small : u32 (enc.next + 1) ≡ enc.next + 1 = omega arith in
      rw (c.no_offset, write_header-fresh enc.next b fits, small, c.numbered)

  size_of_packet : (8 ≤ length packet) × (length packet ≤ mtu_limit)
  size_of_packet = omega arith

  -- The store at the first free buffer.
  stores_at :
      (filled : List Buf) (buf : Buf) (rest : List Buf)
      → enc.shard_cache ≡ filled ++ buf ∷ rest
      → AllHold sent filled
      → All IsBuf (buf ∷ rest)
      → length filled + suc (length rest) ≡ k + p
      → (bufs : List Buf) × (store_shard (record enc { next = enc.next + 1 }) packet ≡ ok bufs)
        × IsCollecting k p start (sent ++ packet ∷ []) (stored_in bufs)
  unfolding store_shard
  stores_at filled buf rest e h r n =
      let at : length filled ≡ enc.shard_count = AllHold-length sent filled h ∙ sym c.counted in
      let kept : Buf = record { mem = overwrite 0 packet buf.mem; len = length packet } in
      let size = size_of_packet in
      let cap = r.0.capacity in
      (
        filled ++ kept ∷ rest,
        rw (
          e,
          ← at,
          get_elem?-append (length filled) filled rest buf refl,
          le→leb (length packet) (length buf.mem) (omega arith),
          set-append (length filled) filled rest buf kept refl,
        ),
        record {
          no_offset = c.no_offset;
          payload_at = c.payload_at;
          num_data = c.num_data;
          counted = omega (arith, c.counted, length-append sent (packet ∷ []));
          numbered = omega (arith, c.numbered, length-append sent (packet ∷ []));
          aligned = c.aligned;
          paws_aligned = c.paws_aligned;
          below_paws = c.below_paws;
          paws_fits = c.paws_fits;
          filled = filled ++ kept ∷ [];
          rest = rest;
          cache = sym (append_assoc filled (kept ∷ []) rest);
          holds =
              AllHold-snoc sent filled packet kept h (stored-Holds packet buf r.0 size.0 size.1);
          rest_bufs = r.1;
          num_bufs = omega (arith, length-append filled (kept ∷ []));
          max = rw c.max (sym (longest-snoc 0 sent packet));
        },
      )

  pub stores :
      (bufs : List Buf) × (store_shard (record enc { next = enc.next + 1 }) packet ≡ ok bufs)
      × IsCollecting k p start (sent ++ packet ∷ []) (stored_in bufs)
  stores = go c.rest c.cache c.rest_bufs c.num_bufs
    where
      go :
          (rest : List Buf)
          → enc.shard_cache ≡ c.filled ++ rest
          → All IsBuf rest
          → length c.filled + length rest ≡ k + p
          → (bufs : List Buf) × (store_shard (record enc { next = enc.next + 1 }) packet ≡ ok bufs)
            × IsCollecting k p start (sent ++ packet ∷ []) (stored_in bufs)
      go [] e r n = let same = AllHold-length sent c.filled c.holds in absurd (omega arith)
      go (buf ∷ rest) e r n = stores_at c.filled buf rest e c.holds r n

  -- What Encode does after the store.
  abbrev pub after_store : FecEncoder → Run (FecEncoder × Bytes × List Bytes)
  after_store stored =
      if stored.shard_count == enc.data_shards
      then (finish_group stored >>= λ (done, ps). ok (done, packet, ps))
      else ok (stored, packet, [])

  pub encode-stored : encode enc (fresh b) ≡ after_store (stored_in stores.0)
  unfolding encode
  encode-stored = rw (marks, c.payload_at, write_size-header (start + length sent) b fits, stores.1)

  -- Before the last data packet of a group, Encode gives the packet its header and size, keeps a
  -- copy of it, and sends no parity.
  pub encode-collects :
      length sent + 1 < k
      → (enc' : FecEncoder) × (encode enc (fresh b) ≡ ok (enc', packet, []))
        × IsCollecting k p start (sent ++ packet ∷ []) enc'
        × (enc'.codec ≡ enc.codec)
        × (enc'.paws ≡ enc.paws)
  encode-collects h =
      let not_full : (enc.shard_count + 1 == enc.data_shards) ≡ false =
        ==_ne _ _ λ e. absurd (omega (arith, c.counted, c.num_data)) in
      (stored_in stores.0, rw (encode-stored, not_full), stores.2, refl, refl)
