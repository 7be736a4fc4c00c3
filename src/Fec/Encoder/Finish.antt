-- ===== src/Fec/Encoder/Finish.antt =====
-- Encode when a group is full: the parity packets, and the counters for the next group.
use native.Mathlib.Nat.{mod-eq_of_lt, div-add-mod, mod-add-mod, mod_self, mul-le-mul_left}
use mathlib.Core.Path.{ap₂}
use native.Mathlib.Decide.{dec_lt}
use tcpraw.Base.{
  ℕ, ◌+◌, ◌-◌, ◌/◌, ◌%◌, ◌≤◌, ◌<◌, ◌≡◌, refl, sym, ap, ◌∙◌, List, [], ◌∷◌, ◌++◌, map, arith, length,
  take, drop, replicate, All, length-append, length-replicate, take-append, drop-append, le→ltb,
  some, Bytes, pad, ok, All-append, length-map,
}
use tcpraw.Fec.Codec.{HasSize}
use tcpraw.Fec.Wire.{mtu_limit}
use tcpraw.Fec.Encoder.{
  Buf, FecEncoder, overwrite, zero_tail, zero_tails, cut, cut_all, fill, mark_all, finish_group,
  contents,
}
use tcpraw.Fec.Encoder.Memory.{
  IsBuf, Holds, AllHold, AllHold-length, length-overwrite, take-overwrite,
}
use tcpraw.Fec.Encoder.Parity.{parity_packets, mark_all-parity}
use tcpraw.Fec.Encoder.Collect.{IsCollecting}

-- A data shard after its tail is zeroed: the packet, padded, and its memory.
abbrev pub zeroed : ℕ → Buf → Buf
zeroed size buf = record buf { mem = overwrite buf.len (replicate (size - buf.len) 0) buf.mem }

abbrev pub zeroed_all : ℕ → List Buf → List Buf
zeroed_all size = map (zeroed size)

abbrev pub AtMost : ℕ → List Bytes → Type 0
AtMost size = All (λ b. length b ≤ size)

module _ (size : ℕ) (h : size ≤ mtu_limit) where
  pub zero_tails-zeroed :
      (bs : List Bytes) (bufs : List Buf)
      → AllHold bs bufs
      → AtMost size bs
      → zero_tails size bufs ≡ ok (zeroed_all size bufs)
  unfolding zero_tails zero_tail
  zero_tails-zeroed [] [] k a = refl
  zero_tails-zeroed [] (x ∷ bufs) k a = absurd k
  zero_tails-zeroed (b ∷ bs) [] k a = absurd k
  zero_tails-zeroed (b ∷ bs) (buf ∷ bufs) k a =
      let e = k.0.size in
      let q = a.0 in
      let c = k.0.is_buf.capacity in
      rw (
        le→ltb size buf.len (omega arith),
        le→ltb (length buf.mem) size (omega arith),
        zero_tails-zeroed bs bufs k.1 a.1,
      )

  -- The zeroed shard begins with its packet, padded.
  take-zeroed :
      (b : Bytes) (buf : Buf)
      → Holds b buf
      → length b ≤ size
      → take size (zeroed size buf).mem ≡ pad size b
  take-zeroed b buf k a =
      let e = k.size in
      let c = k.is_buf.capacity in
      take-overwrite buf.len size (replicate (size - buf.len) 0) buf.mem (omega arith)
        (omega (arith, length-replicate {A = ℕ} (size - buf.len) 0))
      ∙ rw (k.size, k.same)

  length-zeroed :
      (b : Bytes) (buf : Buf)
      → Holds b buf
      → length b ≤ size
      → length (zeroed size buf).mem ≡ mtu_limit
  length-zeroed b buf k a =
      let e = k.size in
      let c = k.is_buf.capacity in
      length-overwrite buf.len (replicate (size - buf.len) 0) buf.mem
        (omega (arith, length-replicate {A = ℕ} (size - buf.len) 0))
      ∙ k.is_buf.capacity

  -- The codec is given the padded packets without their headers.
  pub cut_all-zeroed :
      (lo : ℕ) (bs : List Bytes) (bufs : List Buf)
      → lo ≤ size
      → AllHold bs bufs
      → AtMost size bs
      → cut_all lo size (zeroed_all size bufs) ≡ ok (map (λ b. drop lo (pad size b)) bs)
  unfolding cut_all cut
  cut_all-zeroed lo [] [] l k a = refl
  cut_all-zeroed lo [] (x ∷ bufs) l k a = absurd k
  cut_all-zeroed lo (b ∷ bs) [] l k a = absurd k
  cut_all-zeroed lo (b ∷ bs) (buf ∷ bufs) l k a = rw (
    le→ltb size lo l,
    le→ltb (length (zeroed size buf).mem) size (omega (arith, length-zeroed b buf k.0 a.0)),
    take-zeroed b buf k.0 a.0,
    cut_all-zeroed lo bs bufs l k.1 a.1,
  )

  pub cut_all-returns :
      (lo : ℕ) (bufs : List Buf)
      → lo ≤ size
      → All IsBuf bufs
      → (cs : List Bytes) × (cut_all lo size bufs ≡ ok cs)
  unfolding cut_all cut
  cut_all-returns lo [] l a = ([], refl)
  cut_all-returns lo (buf ∷ bufs) l a =
      let c = a.0.capacity in
      let (cs, e) = cut_all-returns lo bufs l a.1 in
      (
        drop lo (take size buf.mem) ∷ cs,
        rw (le→ltb size lo l, le→ltb (length buf.mem) size (omega arith), e),
      )

-- The shards that the codec encodes for the packets `sent`: what stands behind each header, padded.
abbrev pub coded : ℕ → List Bytes → List Bytes
coded size sent = map (λ b. drop 6 (pad size b)) sent

IsBuf-zeroed :
    (size : ℕ) (bs : List Bytes) (bufs : List Buf)
    → size ≤ mtu_limit
    → AllHold bs bufs
    → AtMost size bs
    → All IsBuf (zeroed_all size bufs)
IsBuf-zeroed size [] [] h k a = tt
IsBuf-zeroed size [] (x ∷ bufs) h k a = absurd k
IsBuf-zeroed size (b ∷ bs) [] h k a = absurd k
IsBuf-zeroed size (b ∷ bs) (buf ∷ bufs) h k a = (
  record {
    capacity = length-zeroed size h b buf k.0 a.0;
    room = k.0.is_buf.room;
    within = k.0.is_buf.within;
  },
  IsBuf-zeroed size bs bufs h k.1 a.1,
)

-- Multiples of `n`: the next one, and the gap between two.
add_multiple : (n a : ℕ) → a % n ≡ 0 → (a + n) % n ≡ 0
add_multiple n a h = rw (← mod-add-mod a n n, h) (ap (λ (t : ℕ). t % n) (omega arith) ∙ mod_self n)

multiple_gap : (n a b : ℕ) → a % n ≡ 0 → b % n ≡ 0 → a < b → a + n ≤ b
multiple_gap n a b ha hb h =
    let da = div-add-mod a n in
    let db = div-add-mod b n in
    elim (dec_lt (a / n) (b / n)) [
      | yes q ↦ omega (arith, da, db, mul-le-mul_left n q)
      | no q ↦
          absurd (omega (arith, da, db, mul-le-mul_left {m = b / n} {n = a / n} n (omega arith)))
    ]

-- Groups begin at multiples of their size, and `paws` is one: the next group begins at one again,
-- and has room below `paws`.
pub next_group :
    (n start paws : ℕ)
    → 0 < n
    → start % n ≡ 0
    → paws % n ≡ 0
    → start + n ≤ paws
    → (((start + n) % paws) % n ≡ 0) × ((start + n) % paws + n ≤ paws)
next_group n start paws pos a w h = elim (dec_lt (start + n) paws) [
  | yes lt ↦
      let same : (start + n) % paws ≡ start + n = mod-eq_of_lt lt in
      let aligned = add_multiple n start a in
      rw same (aligned, multiple_gap n (start + n) paws aligned w lt)
  | no ge ↦
      let same : start + n ≡ paws = omega arith in
      let wraps : (start + n) % paws ≡ 0 = rw same (mod_self paws) in rw wraps (omega arith)
]

-- The steps of `finish_group`, when none of them panics.
finish_group-steps :
    {k p start : ℕ} {sent : List Bytes} {enc : FecEncoder} (c : IsCollecting k p start sent enc)
    → length c.filled ≡ enc.data_shards
    → 6 ≤ enc.max_size
    → enc.max_size ≤ mtu_limit
    → AtMost enc.max_size sent
    → (cs : List Bytes) → cut_all 6 enc.max_size c.rest ≡ ok cs
    → (ps : List Bytes) → enc.codec.encode (coded enc.max_size sent) ≡ some ps
    → (v : ℕ) (marked : List Buf)
    → mark_all enc (fill 6 c.rest ps) ≡ ok (record enc { next = v }, marked)
    → finish_group enc
      ≡ ok (
        record enc {
          next = v;
          shard_cache = zeroed_all enc.max_size c.filled ++ marked;
          shard_count = 0;
          max_size = 0;
        },
        contents marked,
      )
unfolding finish_group
finish_group-steps {k} {p} {start} {sent} {enc} c full six small a cs cut_rest ps e v marked em =
    let bufs : take enc.data_shards enc.shard_cache ≡ c.filled =
      ap (take enc.data_shards) c.cache ∙ take-append enc.data_shards c.filled c.rest full in
    let parity : drop enc.data_shards enc.shard_cache ≡ c.rest =
      ap (drop enc.data_shards) c.cache ∙ drop-append enc.data_shards c.filled c.rest full in
    rw (
      bufs,
      zero_tails-zeroed enc.max_size small sent c.filled c.holds a,
      ap (λ (o : ℕ). cut_all o enc.max_size (zeroed_all enc.max_size c.filled)) c.payload_at
          ∙ cut_all-zeroed enc.max_size small 6 sent c.filled six c.holds a,
      ap₂ (λ (o : ℕ) (bs : List Buf). cut_all o enc.max_size bs) c.payload_at parity ∙ cut_rest,
      e,
      ap₂ (λ (o : ℕ) (bs : List Buf). mark_all enc (fill o bs ps)) c.payload_at parity ∙ em,
    )

-- The group is full: what `finish_group` gives when the codec encodes the shards.
pub finish_group-full :
    {k p start : ℕ} {sent : List Bytes} {enc : FecEncoder}
    → IsCollecting k p start sent enc
    → (size : ℕ) (ps : List Bytes) → length sent ≡ k
    → 0 < k
    → 0 < p
    → enc.max_size ≡ 6 + size
    → 2 ≤ size
    → 6 + size ≤ mtu_limit
    → AtMost (6 + size) sent
    → enc.codec.encode (coded (6 + size) sent) ≡ some ps
    → length ps ≡ p
    → HasSize size ps
    → (enc' : FecEncoder) × (finish_group enc ≡ ok (enc', parity_packets (start + k) ps))
      × IsCollecting k p ((start + (k + p)) % enc.paws) [] enc'
      × (enc'.codec ≡ enc.codec)
      × (enc'.paws ≡ enc.paws)
finish_group-full {k} {p} {start} {sent} {enc} c size ps full pos pp m h2 hm a e l hs =
    let same = AllHold-length sent c.filled c.holds in
    let size_eq : 6 + size ≡ enc.max_size = sym m in
    let (cs, cut_parity) =
      cut_all-returns enc.max_size (omega arith) 6 c.rest (omega arith) c.rest_bufs in
    let n = c.numbered in
    let pl = c.paws_fits in
    let bp = c.below_paws in
    let now : enc.next ≡ (start + k) % enc.paws =
      omega (arith, mod-eq_of_lt {n = start + k} {m = enc.paws} (omega arith)) in
    let (v, marked, em, ev, ec, ea, el) =
      mark_all-parity enc size (start + k) c.rest ps c.no_offset m h2 hm now (omega arith) pl
        (omega arith) (omega (arith, c.num_bufs)) c.rest_bufs hs in
    let next =
      next_group (k + p) start enc.paws (omega arith) c.aligned c.paws_aligned c.below_paws in
    let shift : start + k + length ps ≡ start + (k + p) = omega arith in
    (
      record enc {
        next = v;
        shard_cache = zeroed_all enc.max_size c.filled ++ marked;
        shard_count = 0;
        max_size = 0;
      },
      rw (← ec) (
          finish_group-steps c (omega (arith, c.num_data)) (omega arith) (omega arith)
            (rw size_eq at a) cs cut_parity ps (rw size_eq at e) v marked em),
      record {
        no_offset = c.no_offset;
        payload_at = c.payload_at;
        num_data = c.num_data;
        counted = refl;
        numbered = ev ∙ ap (λ (t : ℕ). t % enc.paws) shift ∙ omega arith;
        aligned = next.0;
        paws_aligned = c.paws_aligned;
        below_paws = next.1;
        paws_fits = c.paws_fits;
        filled = [];
        rest = zeroed_all enc.max_size c.filled ++ marked;
        cache = refl;
        holds = tt;
        rest_bufs =
            All-append IsBuf (zeroed_all enc.max_size c.filled) marked
              (IsBuf-zeroed enc.max_size sent c.filled (omega arith) c.holds (rw size_eq at a)) ea;
        num_bufs = omega (
          arith,
          length-append (zeroed_all enc.max_size c.filled) marked,
          length-map (zeroed enc.max_size) c.filled,
          c.num_bufs,
        );
        max = refl;
      },
      refl,
      refl,
    )
