-- ===== src/Fec/Decoder/Sent.antt =====
-- The packets of a group as the encoder sends them, and what the passes over their bodies compute.
use tcpraw.Base.{
  ℕ, ◌+◌, ◌≤◌, ◌<◌, ◌≡◌, refl, ap, ◌∙◌, Bool, true, false, not, List, [], ◌∷◌, ◌++◌, map, some,
  arith, ltb, if◌then◌else◌, length, All, count, pick, append_assoc, length-append, take-append,
  drop-append, pad, length-pad, pad_full, le→leb, le→ltb, Bytes, ok,
}
use tcpraw.Fec.Codec.{Codec, HasSize, erase}
use tcpraw.Fec.Wire.{FecPacket, type_data, type_fec, mtu_limit}
use tcpraw.Fec.Decoder.{free_range, extend_shards, missing}
use tcpraw.Fec.Decoder.Group.{bodies, data_count, max_body}

-- The data shards that the mask says were lost.
abbrev pub lost : List Bool → List Bytes → List Bytes
lost mask ds = pick (map not mask) ds

pub pad_all_full : (size : ℕ) (ds : List Bytes) → HasSize size ds → map (pad size) ds ≡ ds
pad_all_full size [] h = refl
pad_all_full size (d ∷ ds) h = rw (pad_full size d h.0, pad_all_full size ds h.1)

pub extend_shards-erase :
    (size : ℕ) (mask : List Bool) (xs : List Bytes)
    → size ≤ mtu_limit
    → extend_shards size (erase mask xs) ≡ ok (erase mask (map (pad size) xs))
unfolding extend_shards
extend_shards-erase size [] xs h = refl
extend_shards-erase size (m ∷ mask) [] h = refl
extend_shards-erase size (true ∷ mask) (x ∷ xs) h =
    rw (le→ltb mtu_limit size h, extend_shards-erase size mask xs h)
extend_shards-erase size (false ∷ mask) (x ∷ xs) h = rw (extend_shards-erase size mask xs h)

pub max_body-append :
    (m : ℕ) (xs ys : List FecPacket) → max_body m (xs ++ ys) ≡ max_body (max_body m xs) ys
max_body-append m [] ys = refl
max_body-append m (x ∷ xs) ys =
    max_body-append (if ltb m (length x.body) then length x.body else m) xs ys

abbrev pub BodyAtMost : ℕ → FecPacket → Type 0
BodyAtMost size p = length p.body ≤ size

pub max_body-le :
    (mask : List Bool) (m size : ℕ) (ps : List FecPacket)
    → All (BodyAtMost size) ps
    → m ≤ size
    → max_body m (pick mask ps) ≤ size
max_body-le [] m size ps a h = h
max_body-le (b ∷ mask) m size [] a h = h
max_body-le (false ∷ mask) m size (p ∷ ps) a h = max_body-le mask m size ps a.1 h
max_body-le (true ∷ mask) m size (p ∷ ps) a h =
    max_body-le mask (if ltb m (length p.body) then length p.body else m) size ps a.1
      (let q = a.0 in ground arith)

abbrev pub BodyIs : ℕ → FecPacket → Type 0
BodyIs size p = length p.body ≡ size

max_body-stays :
    (mask : List Bool) (size : ℕ) (ps : List FecPacket)
    → All (BodyIs size) ps
    → max_body size (pick mask ps) ≡ size
max_body-stays [] size ps a = refl
max_body-stays (b ∷ mask) size [] a = refl
max_body-stays (false ∷ mask) size (p ∷ ps) a = max_body-stays mask size ps a.1
max_body-stays (true ∷ mask) size (p ∷ ps) a =
    let q = a.0 in
    let kept : (if ltb size (length p.body) then length p.body else size) ≡ size = ground arith in
    ap (λ (t : ℕ). max_body t (pick mask ps)) kept ∙ max_body-stays mask size ps a.1

-- One parity packet makes the longest body the parity's size.
pub max_body-full :
    (mask : List Bool) (m size : ℕ) (ps : List FecPacket)
    → All (BodyIs size) ps
    → m ≤ size
    → 0 < count (mask)
    → length mask ≡ length ps
    → max_body m (pick mask ps) ≡ size
max_body-full [] m size ps a h c e = absurd (omega arith)
max_body-full (b ∷ mask) m size [] a h c e = absurd (omega arith)
max_body-full (false ∷ mask) m size (p ∷ ps) a h c e =
    max_body-full mask m size ps a.1 h c (omega arith)
max_body-full (true ∷ mask) m size (p ∷ ps) a h c e =
    let q = a.0 in
    let grown : (if ltb m (length p.body) then length p.body else m) ≡ size = ground arith in
    ap (λ (t : ℕ). max_body t (pick mask ps)) grown ∙ max_body-stays mask size ps a.1

abbrev pub HasFlag : ℕ → FecPacket → Type 0
HasFlag flag p = p.flag ≡ flag

pub data_count-append :
    (xs ys : List FecPacket) → data_count (xs ++ ys) ≡ data_count xs + data_count ys
data_count-append [] ys = omega arith
data_count-append (x ∷ xs) ys = omega (arith, data_count-append xs ys)

pub data_count-data :
    (mask : List Bool) (ps : List FecPacket)
    → All (HasFlag type_data) ps
    → length mask ≡ length ps
    → data_count (pick mask ps) ≡ count mask
data_count-data [] ps a e = refl
data_count-data (b ∷ mask) [] a e = absurd (omega arith)
data_count-data (false ∷ mask) (p ∷ ps) a e = data_count-data mask ps a.1 (omega arith)
data_count-data (true ∷ mask) (p ∷ ps) a e =
    rw (a.0) (omega (arith, data_count-data mask ps a.1 (omega arith)))

pub data_count-parity :
    (mask : List Bool) (ps : List FecPacket)
    → All (HasFlag type_fec) ps
    → data_count (pick mask ps) ≡ 0
data_count-parity [] ps a = refl
data_count-parity (b ∷ mask) [] a = refl
data_count-parity (false ∷ mask) (p ∷ ps) a = data_count-parity mask ps a.1
data_count-parity (true ∷ mask) (p ∷ ps) a = rw (a.0) (omega (arith, data_count-parity mask ps a.1))

pub missing-lost :
    (mask : List Bool) (ds : List Bytes)
    → length mask ≡ length ds
    → missing mask (map some ds) ≡ lost mask ds
unfolding missing
missing-lost [] [] e = refl
missing-lost [] (d ∷ ds) e = absurd (omega arith)
missing-lost (b ∷ mask) [] e = absurd (omega arith)
missing-lost (true ∷ mask) (d ∷ ds) e = missing-lost mask ds (omega arith)
missing-lost (false ∷ mask) (d ∷ ds) e = ap (◌∷◌ d) (missing-lost mask ds (omega arith))

-- Freeing the range of the middle part leaves the two others.
pub free_range-append :
    (xs ys zs : List FecPacket) (n : ℕ)
    → length ys ≡ n
    → free_range (length xs) n (xs ++ (ys ++ zs)) ≡ ok (xs ++ zs)
unfolding free_range
free_range-append xs ys zs n e =
    let fits : length xs + n ≤ length (xs ++ (ys ++ zs)) =
      omega (arith, length-append xs (ys ++ zs), length-append ys zs) in
    let size : length (xs ++ ys) ≡ length xs + n = omega (arith, length-append xs ys) in
    rw (
      le→leb (length xs + n) (length (xs ++ (ys ++ zs))) fits,
      take-append (length xs) xs (ys ++ zs) refl,
      ← append_assoc xs ys zs,
      drop-append (length xs + n) (xs ++ ys) zs size,
    )

-- A group as the encoder sends it: data packets whose bodies, padded to `size`, are the shards that
-- the codec encodes, and the parity packets.
pub record IsSent (k p size : ℕ) (c : Codec) (data_pkts parity_pkts : List FecPacket) : Type 0 where
  pub num_data : length data_pkts ≡ k
  pub num_parity : length parity_pkts ≡ p
  pub data_flags : All (HasFlag type_data) data_pkts
  pub parity_flags : All (HasFlag type_fec) parity_pkts
  pub data_sizes : All (BodyAtMost size) data_pkts
  pub parity_sizes : All (BodyIs size) parity_pkts
  pub size_pos : 0 < size
  pub size_fits : size ≤ mtu_limit
  pub encoded : c.encode (map (pad size) (bodies data_pkts)) ≡ some (bodies parity_pkts)

-- The data shards as the codec sees them.
abbrev pub shards_of : ℕ → List FecPacket → List Bytes
shards_of size ps = map (pad size) (bodies ps)

pub HasSize-pad :
    (size : ℕ) (ps : List FecPacket) → All (BodyAtMost size) ps → HasSize size (shards_of size ps)
HasSize-pad size [] a = tt
HasSize-pad size (p ∷ ps) a = (length-pad size p.body a.0, HasSize-pad size ps a.1)

pub HasSize-bodies :
    (size : ℕ) (ps : List FecPacket) → All (BodyIs size) ps → HasSize size (bodies ps)
HasSize-bodies size [] a = tt
HasSize-bodies size (p ∷ ps) a = (a.0, HasSize-bodies size ps a.1)
