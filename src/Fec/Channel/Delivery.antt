-- ===== src/Fec/Channel/Delivery.antt =====
-- What becomes of the recovered shards of a group: the payloads, in order.
use tcpraw.Base.{
  ℕ, ◌+◌, ◌-◌, ◌*◌, ◌/◌, ◌%◌, ◌≤◌, ◌<◌, ◌≡◌, ap, ◌∙◌, sym, List, [], ◌∷◌, ◌++◌, map, arith, length,
  take, drop, append_assoc, append-nil, take-append, length-append, length-pad, le→ltb, lt→leb,
  lt→ltb, Bytes, pad, ok, replicate,
}
use tcpraw.Fec.Wire.{protected_part}
use tcpraw.Fec.Encoder.Finish.{AtMost}
use tcpraw.Fec.Encoder.Sizes.{protected_parts}
use tcpraw.Fec.Channel.{Fec, deliver}

-- A padded protected part gives back its payload.
take-protected :
    (size : ℕ) (b : Bytes) → drop 2 (take (length b + 2) (pad size (protected_part b))) ≡ b
take-protected size b =
    let n = length b + 2 in
    let e : length (protected_part b) ≡ n = omega arith in
    ap (drop 2)
      (take-append n (protected_part b) (replicate (size - length (protected_part b)) 0) e)

deliver-one :
    (fec : Fec) (size : ℕ) (b : Bytes) (rs : List Bytes)
    → 2 < size
    → size ≤ 2048
    → length (protected_part b) ≤ size
    → length fec.data_ch < fec.capacity
    → deliver fec (pad size (protected_part b) ∷ rs)
      ≡ deliver (record fec { data_ch = fec.data_ch ++ b ∷ [] }) rs
unfolding deliver
deliver-one fec size b rs big fits h room =
    let n = length b + 2 in
    let len = length-pad size (protected_part b) h in
    let sz : n % 256 + 256 * (n / 256 % 256) ≡ n = omega arith in
    rw (
      len,
      lt→leb size 2 big,
      sz,
      le→ltb n 2 (omega arith),
      le→ltb size n (omega arith),
      lt→ltb (length fec.data_ch) fec.capacity room,
      take-protected size b,
    )

-- Shards that are the protected parts of payloads, padded to a common size above 2 and up to
-- mtuLimit, are unpacked to exactly the payloads, in order, behind what the channel holds, when it
-- has room for all of them.
pub deliver-payloads :
    (bs : List Bytes) (fec : Fec) (size : ℕ)
    → 2 < size
    → size ≤ 2048
    → AtMost size (protected_parts bs)
    → length fec.data_ch + length bs ≤ fec.capacity
    → deliver fec (map (pad size) (protected_parts bs))
      ≡ ok (record fec { data_ch = fec.data_ch ++ bs })
unfolding deliver
deliver-payloads [] fec size big fits h room =
    ap (λ (ch : List Bytes). ok (record fec { data_ch = ch })) (sym (append-nil fec.data_ch))
deliver-payloads (b ∷ bs) fec size big fits h room =
    deliver-one fec size b (map (pad size) (protected_parts bs)) big fits h.0 (omega arith)
    ∙ deliver-payloads bs (record fec { data_ch = fec.data_ch ++ b ∷ [] }) size big fits h.1
        (omega (arith, length-append fec.data_ch (b ∷ [])))
    ∙ ap (λ (ch : List Bytes). ok (record fec { data_ch = ch }))
        (append_assoc fec.data_ch (b ∷ []) bs)
