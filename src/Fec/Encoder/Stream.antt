-- ===== src/Fec/Encoder/Stream.antt =====
-- What the encoder sends for a whole group of payloads, and for one group after another.
use mathlib.Core.Path.{ap₂}
use native.Mathlib.Decide.{dec_lt}
use native.Mathlib.Nat.{
  div-add-mod, mod-lt, zero-mod, mul-mod_left, mul-le-mul_left, mul-le-mul_right, mul_comm,
  mod-eq_of_lt,
}
use tcpraw.Base.{
  All, zero, replicate, ◌/◌, ◌-◌, ◌*◌, u32, Option, ==_ne, length-replicate, ℕ, suc, ◌+◌, ◌%◌, ◌<◌,
  ◌≤◌, ◌≡◌, refl, sym, ap, ◌∙◌, subst, List, [], ◌∷◌, ◌++◌, map, arith, length, append_assoc,
  append-nil, length-append, length-map, some, Bytes, pad, length-pad, ok,
}
use tcpraw.Fec.Codec.{Codec, IsCodec, HasSize}
use tcpraw.Fec.Encoder.{FecEncoder, empty_buf, paws_of, new_fec_encoder, encode}
use tcpraw.Fec.Encoder.Memory.{IsBuf}
use tcpraw.Fec.Encoder.Collect.{IsCollecting, data_packet, fresh, encode-collects}
use tcpraw.Fec.Encoder.Parity.{parity_packets}
use tcpraw.Fec.Encoder.Finish.{AtMost}
use tcpraw.Fec.Encoder.Sizes.{
  data_packets, data_packets-snoc, length-data_packets, encode_all, protected_parts, group_size,
  AtMost-longest, Fit,
}
use tcpraw.Fec.Encoder.Group.{data_shards_of, IsNext, Fit-append, group_size_bounds, finishes}

encode_all-cons :
    (enc enc1 enc2 : FecEncoder) (b pkt : Bytes) (bs ps out : List Bytes)
    → encode enc (fresh b) ≡ ok (enc1, pkt, ps)
    → encode_all enc1 bs ≡ ok (enc2, out)
    → encode_all enc (b ∷ bs) ≡ ok (enc2, pkt ∷ (ps ++ out))
unfolding encode_all
encode_all-cons enc enc1 enc2 b pkt bs ps out e1 e2 = rw (e1, e2)

encode_all-rest :
    {k p start : ℕ} (done : List Bytes) (b : Bytes) (bs all ps : List Bytes) (enc : FecEncoder)
    → all ≡ done ++ b ∷ bs
    → IsCollecting k p start (data_packets start done) enc
    → Fit all
    → length done + suc (length bs) ≡ k
    → 0 < p
    → enc.codec.encode (data_shards_of all) ≡ some ps
    → length ps ≡ p
    → HasSize (group_size all) ps
    → (enc' : FecEncoder) × (encode_all enc (b ∷ bs)
        ≡ ok (enc', data_packets (start + length done) (b ∷ bs) ++ parity_packets (start + k) ps))
      × IsNext k p start enc enc'
unfolding encode_all
encode_all-rest {k} {p} {start} done b [] all ps enc ea c f n pp e l h =
    let (enc', run, next) =
      finishes done b c (rw ea at f) (omega arith) pp ps (rw ea at e) l (rw ea at h) in
    (enc', rw (run, append-nil (parity_packets (start + k) ps)), next)
encode_all-rest {k} {p} {start} done b (b2 ∷ bs) all ps enc ea c f n pp e l h =
    let fb : length b ≤ 2040 = (Fit-append done (b ∷ b2 ∷ bs) (rw ea at f)).1.0 in
    let few : length (data_packets start done) < k =
      omega (arith, length-data_packets start done) in
    let (enc1, run, c1, sc, sp) =
      encode-collects c b fb few (omega (arith, length-data_packets start done)) in
    let snoc =
      ap (λ (t : ℕ). data_packets start done ++ data_packet (start + t) b ∷ [])
        (length-data_packets start done)
      ∙ sym (data_packets-snoc start done b) in
    let (enc', run', next) =
      encode_all-rest (done ++ b ∷ []) b2 bs all ps enc1
        (ea ∙ sym (append_assoc done (b ∷ []) (b2 ∷ bs)))
        (subst (λ (ds : List Bytes). IsCollecting k p start ds enc1) snoc c1) f
        (omega (arith, length-append done (b ∷ []))) pp
        (ap (λ (q : Codec). q.encode (data_shards_of all)) sc ∙ e) l h in
    let shift : start + length (done ++ b ∷ []) ≡ start + length done + 1 =
      omega (arith, length-append done (b ∷ [])) in
    (
      enc',
      encode_all-cons enc enc1 enc' b (data_packet (start + length (data_packets start done)) b)
            (b2 ∷ bs) [] _ run run'
          ∙ ap₂
              (λ (n m : ℕ). ok (
                enc',
                data_packet (start + n) b
                    ∷ (data_packets m (b2 ∷ bs) ++ parity_packets (start + k) ps),
              ))
              (length-data_packets start done) shift,
      record {
        collecting =
            subst (λ (w : ℕ). IsCollecting k p ((start + (k + p)) % w) [] enc') sp next.collecting;
        same_codec = next.same_codec ∙ sc;
        same_paws = next.same_paws ∙ sp;
      },
    )

HasSize-pad_all : (size : ℕ) (bs : List Bytes) → AtMost size bs → HasSize size (map (pad size) bs)
HasSize-pad_all size [] a = tt
HasSize-pad_all size (b ∷ bs) a = (length-pad size b a.0, HasSize-pad_all size bs a.1)

-- With a codec that behaves as documented, from the start of a group, `k` payloads that fit are sent
-- as `k` data packets with consecutive sequence numbers, in order, then the parity packets with the
-- numbers after them, which carry the codec's shards for the padded payloads; the encoder is then at
-- the start of the next group.
pub encode_all-group :
    {k p start : ℕ} {enc : FecEncoder} (bs : List Bytes)
    → IsCodec k p enc.codec
    → IsCollecting k p start [] enc
    → length bs ≡ k
    → 0 < k
    → 0 < p
    → Fit bs
    → (enc' : FecEncoder) × (ps : List Bytes) × (encode_all enc bs
        ≡ ok (enc', data_packets start bs ++ parity_packets (start + k) ps))
      × IsNext k p start enc enc'
      × (enc.codec.encode (data_shards_of bs) ≡ some ps)
      × (length ps ≡ p)
      × HasSize (group_size bs) ps
encode_all-group [] law c e kp pp f = absurd (omega arith)
encode_all-group {k} {p} {start} {enc} (b ∷ bs) law c e kp pp f =
    let size = group_size (b ∷ bs) in
    let bounds = group_size_bounds b bs f in
    let (ps, encoded, num, sizes) =
      law.encodes (data_shards_of (b ∷ bs)) size
        (length-map (pad size) (protected_parts (b ∷ bs)) ∙ length-map _ (b ∷ bs) ∙ e) (omega arith)
        (HasSize-pad_all size (protected_parts (b ∷ bs))
          (AtMost-longest 0 (protected_parts (b ∷ bs)))) in
    let (enc', run, next) =
      encode_all-rest [] b bs (b ∷ bs) ps enc refl c f (omega arith) pp encoded num sizes in
    let zero_shift : start + 0 ≡ start = omega arith in
    (enc', ps, rw zero_shift at run, next, encoded, num, sizes)

-- `paws` of a new encoder, when the uint32 operations do not wrap.
paws_of-eq :
    (n : ℕ)
    → 0 < n
    → n ≤ 65536
    → (j : ℕ) × (paws_of n ≡ j * n) × (1 ≤ j) × (j * n + n ≤ 4294967295) × (2147483648 < j * n)
paws_of-eq n pos small =
    let q = 4294967295 / n in
    let whole = div-add-mod 4294967295 n in
    let below = mod-lt 4294967295 {m = n} pos in
    let same : u32 n ≡ n = omega arith in
    let big : 2 ≤ q = elim (dec_lt 1 q) [
      | yes h ↦ h
      | no h ↦ absurd (omega (arith, whole, below, mul-le-mul_left {m = q} {n = 1} n (omega arith)))
    ] in
    let split : n * q ≡ n * (q - 1) + n = ap (λ (t : ℕ). n * t) (sub_back q big) ∙ omega arith in
    let q_fits : q ≤ 4294967295 = omega (arith, whole, mul-le-mul_right {m = 1} {n = n} q pos) in
    let flip : (q - 1) * n ≡ n * (q - 1) = mul_comm (q - 1) n in
    let pred_q : (q + 4294967296 - 1) % 4294967296 ≡ q - 1 = omega arith in
    let fits : (q - 1) * n + n ≤ 4294967295 = omega (arith, whole) in
    let half : 2147483648 < (q - 1) * n = omega (arith, whole, below) in
    (q - 1, rw (same, pred_q) (mod-eq_of_lt (omega arith)), omega arith, fits, half)
  where
    sub_back : (q : ℕ) → 2 ≤ q → q ≡ suc (q - 1)
    sub_back q h = omega arith

-- For a group size from 1 to 65536, the number at which parity numbering wraps is a multiple of the
-- group size, fits a uint32 and leaves room for a group.
pub paws_of-aligned :
    (n : ℕ) → 0 < n → n ≤ 65536 → (paws_of n % n ≡ 0) × (n ≤ paws_of n) × (paws_of n ≤ 4294967295)
paws_of-aligned n pos small =
    let (j, e, one, fits, half) = paws_of-eq n pos small in
    (
      rw e (mul-mod_left j n),
      rw e (omega (arith, mul-le-mul_right {m = 1} {n = j} n one)),
      rw e (omega arith),
    )

-- The sequence numbers begin anew beyond half their range.
pub paws_of-big : (n : ℕ) → 0 < n → n ≤ 65536 → 2147483648 < paws_of n
paws_of-big n pos small = let (j, e, one, fits, half) = paws_of-eq n pos small in rw e half

All-replicate : (n : ℕ) → All IsBuf (replicate n empty_buf)
All-replicate zero = tt
All-replicate (suc n) =
    (record { capacity = refl; room = omega arith; within = omega arith }, All-replicate n)

-- With data and parity shards, at most 65536 together, and a codec for them, a new encoder is made
-- with that codec, and it is at the start of a group with the number 0; its numbers begin anew where
-- the constructor says.
pub new_fec_encoder-IsCollecting :
    (new_codec : ℕ → ℕ → Option Codec) (k p : ℕ) (codec : Codec)
    → 0 < k
    → 0 < p
    → k + p ≤ 65536
    → new_codec k p ≡ some codec
    → (enc : FecEncoder) × (new_fec_encoder new_codec k p 0 ≡ some enc)
      × IsCollecting k p 0 [] enc
      × (enc.codec ≡ codec)
      × (enc.paws ≡ paws_of (k + p))
unfolding new_fec_encoder
new_fec_encoder-IsCollecting new_codec k p codec hk hp small e =
    let a = paws_of-aligned (k + p) (omega arith) small in
    (
      record {
        data_shards = k;
        parity_shards = p;
        shard_size = k + p;
        paws = paws_of (k + p);
        next = 0;
        shard_count = 0;
        max_size = 0;
        header_offset = 0;
        payload_offset = 6;
        shard_cache = replicate (k + p) empty_buf;
        codec = codec;
      },
      rw (==_ne k 0 (λ h. absurd (omega arith)), ==_ne p 0 (λ h. absurd (omega arith)), e),
      record {
        no_offset = refl;
        payload_at = refl;
        num_data = refl;
        counted = refl;
        numbered = refl;
        aligned = zero-mod (k + p);
        paws_aligned = a.0;
        below_paws = omega arith;
        paws_fits = a.2;
        filled = [];
        rest = replicate (k + p) empty_buf;
        cache = refl;
        holds = tt;
        rest_bufs = All-replicate (k + p);
        num_bufs = omega (arith, length-replicate (k + p) empty_buf);
        max = refl;
      },
      refl,
      refl,
    )
