-- ===== src/Fec/Encoder/Sizes.antt =====
-- The packets of a whole group, and the sizes of its shards.
use mathlib.Core.Path.{ap₂}
use tcpraw.Base.{
  ℕ, suc, ◌+◌, ◌≤◌, ◌≡◌, refl, ap, ◌∙◌, List, [], ◌∷◌, ◌++◌, map, arith, length, drop, All, ltb,
  if◌then◌else◌, Bytes, pad, pad-append, Run, ok, ◌>>=◌,
}
use tcpraw.Fec.Wire.{header, type_data, protected_part}
use tcpraw.Fec.Encoder.{FecEncoder, encode}
use tcpraw.Fec.Encoder.Collect.{longest, data_packet, fresh}
use tcpraw.Fec.Encoder.Finish.{AtMost, coded}

-- The data packets for payloads, numbered from `s`.
abbrev pub data_packets : ℕ → List Bytes → List Bytes
data_packets s [] = []
data_packets s (b ∷ bs) = data_packet s b ∷ data_packets (s + 1) bs

-- What EncodeData sends for payloads, one after another: each packet, and behind it the parity
-- packets that Encode gives.
unfoldable pub encode_all : FecEncoder → List Bytes → Run (FecEncoder × List Bytes)
encode_all enc [] = ok (enc, [])
encode_all enc (b ∷ bs) = encode enc (fresh b) >>= λ (enc', pkt, ps).
    encode_all enc' bs >>= λ (enc'', out). ok (enc'', pkt ∷ (ps ++ out))

abbrev pub protected_parts : List Bytes → List Bytes
protected_parts = map protected_part

-- The size of a group's shards: the longest protected part.
abbrev pub group_size : List Bytes → ℕ
group_size bs = longest 0 (protected_parts bs)

pub data_packets-snoc :
    (s : ℕ) (bs : List Bytes) (b : Bytes)
    → data_packets s (bs ++ b ∷ []) ≡ data_packets s bs ++ data_packet (s + length bs) b ∷ []
data_packets-snoc s [] b = let e : s + 0 ≡ s = omega arith in rw e
data_packets-snoc s (x ∷ bs) b =
    let e : s + 1 + length bs ≡ s + suc (length bs) = omega arith in
    ap (◌∷◌ (data_packet s x)) (
      data_packets-snoc (s + 1) bs b
      ∙ ap (λ (t : ℕ). data_packets (s + 1) bs ++ data_packet t b ∷ []) e)

pub length-data_packets : (s : ℕ) (bs : List Bytes) → length (data_packets s bs) ≡ length bs
length-data_packets s [] = refl
length-data_packets s (b ∷ bs) = ap suc (length-data_packets (s + 1) bs)

longest-data_packets :
    (s m : ℕ) (bs : List Bytes)
    → longest (6 + m) (data_packets s bs) ≡ 6 + longest m (protected_parts bs)
longest-data_packets s m [] = refl
longest-data_packets s m (b ∷ bs) =
    let l = length (protected_part b) in
    let e : (if ltb (6 + m) (length (data_packet s b)) then length (data_packet s b) else 6 + m)
        ≡ 6 + (if ltb m l then l else m) =
      ground arith in
    ap (λ (t : ℕ). longest t (data_packets (s + 1) bs)) e
    ∙ longest-data_packets (s + 1) (if ltb m l then l else m) bs

-- `maxSize` starts at 0, and the first packet is longer than a header.
pub longest-group :
    (s : ℕ) (b : Bytes) (bs : List Bytes)
    → longest 0 (data_packets s (b ∷ bs)) ≡ 6 + group_size (b ∷ bs)
longest-group s b bs =
    let l = length (protected_part b) in
    let e : (if ltb 0 (length (data_packet s b)) then length (data_packet s b) else 0)
        ≡ 6 + (if ltb 0 l then l else 0) =
      ground arith in
    ap (λ (t : ℕ). longest t (data_packets (s + 1) bs)) e
    ∙ longest-data_packets (s + 1) (if ltb 0 l then l else 0) bs

pub longest-ge : (m : ℕ) (bs : List Bytes) → m ≤ longest m bs
longest-ge m [] = omega arith
longest-ge m (b ∷ bs) =
    let r = longest-ge (if ltb m (length b) then length b else m) bs in ground arith

pub AtMost-longest : (m : ℕ) (bs : List Bytes) → AtMost (longest m bs) bs
AtMost-longest m [] = tt
AtMost-longest m (b ∷ bs) =
    let r = longest-ge (if ltb m (length b) then length b else m) bs in
    (ground arith, AtMost-longest (if ltb m (length b) then length b else m) bs)

pub longest-le : (m size : ℕ) (bs : List Bytes) → m ≤ size → AtMost size bs → longest m bs ≤ size
longest-le m size [] h a = h
longest-le m size (b ∷ bs) h a =
    longest-le (if ltb m (length b) then length b else m) size bs (let q = a.0 in ground arith) a.1

-- Behind the headers stand the padded protected parts.
pub coded-data_packets :
    (s size : ℕ) (bs : List Bytes)
    → coded (6 + size) (data_packets s bs) ≡ map (pad size) (protected_parts bs)
coded-data_packets s size [] = refl
coded-data_packets s size (b ∷ bs) =
    ap₂ ◌∷◌ (ap (drop 6) (pad-append size (header s type_data) (protected_part b)))
      (coded-data_packets (s + 1) size bs)

-- Payloads that fit a packet with its header.
abbrev pub Fit : List Bytes → Type 0
Fit = All (λ b. length b ≤ 2040)

pub Fit-AtMost : (bs : List Bytes) → Fit bs → AtMost 2042 (protected_parts bs)
Fit-AtMost [] f = tt
Fit-AtMost (b ∷ bs) f = let q = f.0 in (omega arith, Fit-AtMost bs f.1)
