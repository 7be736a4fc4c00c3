-- ===== src/Fec/Channel/Wires.antt =====
-- The bytes of a group's packets: what each of them is read as, and the payload that it carries.
use tcpraw.Base.{
  ℕ, zero, suc, ◌+◌, ◌≤◌, ◌<◌, ◌≡◌, refl, sym, ap, ◌∙◌, List, [], ◌∷◌, ◌++◌, Option, none, some,
  arith, ltb, if◌then◌else◌, length, drop, get_elem?, get_or, All, Bytes, Run, ok, panic, ◌>>=◌,
  ltb→lt, Bool-cases, inl, inr, length-drop, le→leb,
}
use tcpraw.Fec.Wire.{FecPacket, decode_fec_packet, protected_part, type_data, type_fec}
use tcpraw.Fec.Encoder.Sizes.{protected_parts}
use tcpraw.Fec.Decoder.Group.{bodies}
use tcpraw.Fec.Decoder.Sent.{HasFlag}
use tcpraw.Fec.Channel.{payload_of}
use tcpraw.Fec.Channel.Transmission.{decode_packets}

-- A packet that was read is its bytes behind the header.
decode_fec_packet-body :
    (bytes : Bytes) (pkt : FecPacket)
    → decode_fec_packet bytes ≡ ok pkt
    → (6 ≤ length bytes) × (pkt.body ≡ drop 6 bytes)
unfolding decode_fec_packet
decode_fec_packet-body [] pkt e = cc
decode_fec_packet-body (a ∷ []) pkt e = cc
decode_fec_packet-body (a ∷ b ∷ []) pkt e = cc
decode_fec_packet-body (a ∷ b ∷ c ∷ []) pkt e = cc
decode_fec_packet-body (a ∷ b ∷ c ∷ d ∷ []) pkt e = cc
decode_fec_packet-body (a ∷ b ∷ c ∷ d ∷ f ∷ []) pkt e = cc
decode_fec_packet-body (a ∷ b ∷ c ∷ d ∷ f ∷ g ∷ rest) pkt e = (omega arith, ground (arith, e))

drop-drop : (m n : ℕ) (xs : Bytes) → drop m (drop n xs) ≡ drop (n + m) xs
drop-drop m zero xs = let e : 0 + m ≡ m = omega arith in rw e
drop-drop m (suc n) [] = let e : suc n + m ≡ suc (n + m) = omega arith in rw e (none_left m)
  where
    none_left : (m : ℕ) → drop m [] ≡ drop {A = ℕ} (suc (n + m)) []
    none_left zero = refl
    none_left (suc m) = refl
drop-drop m (suc n) (x ∷ xs) =
    let e : suc n + m ≡ suc (n + m) = omega arith in rw e (drop-drop m n xs)

-- A data packet that was read has its payload behind the size field.
pub payload_of-data :
    (bytes : Bytes) (pkt : FecPacket) (b : Bytes)
    → decode_fec_packet bytes ≡ ok pkt
    → pkt.flag ≡ type_data
    → pkt.body ≡ protected_part b
    → payload_of pkt bytes ≡ ok (some b)
unfolding payload_of
payload_of-data bytes pkt b parsed flag body =
    let (long, tail) = decode_fec_packet-body bytes pkt parsed in
    let behind : drop 8 bytes ≡ b = sym (drop-drop 2 6 bytes) ∙ ap (drop 2) (sym tail ∙ body) in
    let len : 8 ≤ length bytes =
      omega (arith, ap length (sym tail ∙ body), length-drop 6 bytes, long) in
    simp (flag, le→leb 8 (length bytes) len, behind)

pub payload_of-parity :
    (bytes : Bytes) (pkt : FecPacket) → pkt.flag ≡ type_fec → payload_of pkt bytes ≡ ok none
unfolding payload_of
payload_of-parity bytes pkt flag = simp flag

pub ok-inj {ℓ} : {A : Type ℓ} {x y : A} → Path (Run A) (ok x) (ok y) → x ≡ y
ok-inj {x} e = ap (λ (r : Run _). elim r [ ok z ↦ z | panic ↦ x ]) e

pub cons_run :
    (r : Run FecPacket) (rs : Run (List FecPacket)) (out : List FecPacket)
    → (r >>= λ p. rs >>= λ ps. ok (p ∷ ps)) ≡ ok out
    → (p : FecPacket) × (ps : List FecPacket) × (r ≡ ok p) × (rs ≡ ok ps) × (out ≡ p ∷ ps)
cons_run panic rs out e = cc
cons_run (ok p) panic out e = cc
cons_run (ok p) (ok ps) out e = (p, ps, refl, refl, sym (ok-inj e))

-- What is read of the packet at a position.
pub decode_packets-at :
    (wire : List Bytes) (pkts : List FecPacket) (j : ℕ) (pkt : FecPacket)
    → decode_packets wire ≡ ok pkts
    → get_elem? pkts j ≡ some pkt
    → decode_fec_packet (get_or wire j []) ≡ ok pkt
unfolding decode_packets
decode_packets-at [] pkts j pkt e at_j =
    let none_here : get_elem? pkts j ≡ none =
      ap (λ (xs : List FecPacket). get_elem? xs j) (sym (ok-inj e)) in
    cc
decode_packets-at (b ∷ wire) pkts zero pkt e at_j =
    let (p, ps, first, rest, out) = cons_run (decode_fec_packet b) (decode_packets wire) pkts e in
    let here : get_elem? (p ∷ ps) zero ≡ some pkt =
      ap (λ (xs : List FecPacket). get_elem? xs zero) (sym out) ∙ at_j in
    let same : p ≡ pkt = cc in first ∙ ap ok same
decode_packets-at (b ∷ wire) pkts (suc j) pkt e at_j =
    let (p, ps, first, rest, out) = cons_run (decode_fec_packet b) (decode_packets wire) pkts e in
    decode_packets-at wire ps j pkt rest
      (ap (λ (xs : List FecPacket). get_elem? xs (suc j)) (sym out) ∙ at_j)

-- The payload that the packet at a position carries: of the first `k`, one of the payloads.
abbrev pub own_payload : ℕ → List Bytes → ℕ → Option Bytes
own_payload k bs j = if ltb j k then some (get_or bs j []) else none

get_elem?-data :
    (dps pps : List FecPacket) (bs : List Bytes) (j : ℕ) (pkt : FecPacket)
    → bodies dps ≡ protected_parts bs
    → All (HasFlag type_data) dps
    → j < length dps
    → get_elem? (dps ++ pps) j ≡ some pkt
    → (pkt.flag ≡ type_data) × (pkt.body ≡ protected_part (get_or bs j []))
get_elem?-data [] pps bs j pkt body flags lt here = absurd (omega arith)
get_elem?-data (d ∷ dps) pps [] j pkt body flags lt here = cc
get_elem?-data (d ∷ dps) pps (b ∷ bs) zero pkt body flags lt here =
    let same : d ≡ pkt = cc in
    let first : d.body ≡ protected_part b = ap (λ (xs : List Bytes). get_or xs 0 []) body in
    (
      ap (λ (x : FecPacket). x.flag) (sym same) ∙ flags.0,
      ap (λ (x : FecPacket). x.body) (sym same) ∙ first,
    )
get_elem?-data (d ∷ dps) pps (b ∷ bs) (suc j) pkt body flags lt here =
    get_elem?-data dps pps bs j pkt (ap (drop 1) body) flags.1 (omega arith) here

get_elem?-parity :
    (dps pps : List FecPacket) (j : ℕ) (pkt : FecPacket)
    → All (HasFlag type_fec) pps
    → length dps ≤ j
    → get_elem? (dps ++ pps) j ≡ some pkt
    → pkt.flag ≡ type_fec
get_elem?-parity [] [] j pkt flags le here = cc
get_elem?-parity [] (q ∷ pps) zero pkt flags le here =
    let same : q ≡ pkt = cc in ap (λ (x : FecPacket). x.flag) (sym same) ∙ flags.0
get_elem?-parity [] (q ∷ pps) (suc j) pkt flags le here =
    get_elem?-parity [] pps j pkt flags.1 (omega arith) here
get_elem?-parity (d ∷ dps) pps zero pkt flags le here = absurd (omega arith)
get_elem?-parity (d ∷ dps) pps (suc j) pkt flags le here =
    get_elem?-parity dps pps j pkt flags (omega arith) here

pub payload_of-own :
    (dps pps : List FecPacket) (bs : List Bytes) (j k : ℕ) (bytes : Bytes) (pkt : FecPacket)
    → length dps ≡ k
    → bodies dps ≡ protected_parts bs
    → All (HasFlag type_data) dps
    → All (HasFlag type_fec) pps
    → get_elem? (dps ++ pps) j ≡ some pkt
    → decode_fec_packet bytes ≡ ok pkt
    → payload_of pkt bytes ≡ ok (own_payload k bs j)
payload_of-own dps pps bs j k bytes pkt len body data_flags parity_flags here parsed =
    elim (Bool-cases (ltb j k)) [
      | inl yes_data ↦
          let (flag, part) =
            get_elem?-data dps pps bs j pkt body data_flags
              (omega (arith, ltb→lt j k yes_data, len)) here in
          rw yes_data (payload_of-data bytes pkt (get_or bs j []) parsed flag part)
      | inr parity ↦ rw parity (
          payload_of-parity bytes pkt
            (get_elem?-parity dps pps j pkt parity_flags (ground (arith, parity, len)) here))
    ]
