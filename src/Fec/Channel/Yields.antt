-- ===== src/Fec/Channel/Yields.antt =====
-- Reading with DecodeData until a call waits for the network: the payloads that come out, packet by
-- packet.
use tcpraw.Base.{
  ℕ, zero, suc, ◌+◌, ◌≡◌, refl, ap, ◌∙◌, List, [], ◌∷◌, ◌++◌, Option, none, some, length, Bytes,
  u64, Run, ok, ◌>>=◌,
}
use tcpraw.Fec.Wire.{decode_fec_packet}
use tcpraw.Fec.Decoder.{FecDecoder}
use tcpraw.Fec.Channel.{
  Fec, Input, received, Reading, payload, failure, waiting, decode_one, decode_data,
}
use tcpraw.Fec.Channel.AnyOrder.{with_payload}
use tcpraw.Fec.Channel.Reads.{decode_data-received, decode_data-channel}

abbrev pub add_payload : Bytes → Option (Fec × List Bytes) → Option (Fec × List Bytes)
add_payload d none = none
add_payload d (some (fec, out)) = some (fec, d ∷ out)

abbrev pub add_reading :
    Fec → Reading → Run (Option (Fec × List Bytes)) → Run (Option (Fec × List Bytes))
add_reading fec (payload d) later = later >>= λ o. ok (add_payload d o)
add_reading fec (failure e) later = ok (some (fec, []))
add_reading fec waiting later = ok (some (fec, []))

-- At most so many calls, up to the first that waits or fails, and the payloads that they return;
-- `none` means that there are more.
unfoldable pub decode_until_wait : ℕ → List Input → Fec → Run (Option (Fec × List Bytes))
unfolding decode_data
decode_until_wait zero is fec = ok none
decode_until_wait (suc n) is fec =
    let later = λ (is' : List Input) (fec' : Fec). decode_until_wait n is' fec' in
    decode_data is fec >>= λ (fec', r, is'). add_reading fec' r (later is' fec')

-- A packet without bytes is not decoded.
decode_one-not_empty :
    (fec : Fec) (decoder : Option FecDecoder) (r : Fec × Option Bytes)
    → decode_one (record fec { decoder = decoder }) [] ≡ ok r
    → ⊥
unfolding decode_one decode_fec_packet
decode_one-not_empty fec none r e = cc
decode_one-not_empty fec (some dec) r e = cc

-- A packet that comes while the channel is empty: its payload is returned, or the call goes on.
until_wait-data :
    (n : ℕ) (fec fec' : Fec) (b d : Bytes) (is : List Input)
    → decode_one (record fec { data_ch = [] }) b ≡ ok (fec', some d)
    → decode_until_wait (suc n) (received b ∷ is) (record fec { data_ch = [] })
      ≡ (decode_until_wait n is fec' >>= λ o. ok (add_payload d o))
unfolding decode_until_wait decode_data
until_wait-data n fec fec' [] d is e =
    absurd (decode_one-not_empty (record fec { data_ch = [] }) fec.decoder (fec', some d) e)
until_wait-data n fec fec' (x ∷ xs) d is e = rw e

until_wait-parity :
    (n : ℕ) (fec fec' : Fec) (b : Bytes) (is : List Input)
    → decode_one (record fec { data_ch = [] }) b ≡ ok (fec', none)
    → decode_until_wait (suc n) (received b ∷ is) (record fec { data_ch = [] })
      ≡ decode_until_wait (suc n) is fec'
unfolding decode_until_wait
until_wait-parity n fec fec' [] is e =
    absurd (decode_one-not_empty (record fec { data_ch = [] }) fec.decoder (fec', none) e)
until_wait-parity n fec fec' (x ∷ xs) is e =
    ap (λ r. r >>= λ (f, r', is'). add_reading f r' (decode_until_wait n is' f))
      (decode_data-received fec fec' x xs is e)

-- The user gets these payloads and then waits, at an end of this kind.
abbrev pub Yields : (Fec → Type 0) → List Input → Fec → List Bytes → Type 0
Yields End is fec out =
    (f : Fec) × (decode_until_wait (suc (length out)) is fec ≡ ok (some (f, out))) × End f

-- Nothing is left to read.
pub Yields-end :
    (End : Fec → Type 0) (fec : Fec)
    → End (record fec { data_ch = [] })
    → Yields End [] (record fec { data_ch = [] }) []
unfolding decode_until_wait decode_data
Yields-end End fec at_end = (record fec { data_ch = [] }, refl, at_end)

pub Yields-packet :
    (End : Fec → Type 0) (fec fec' : Fec) (b : Bytes) (own : Option Bytes) (is : List Input)
    (out : List Bytes)
    → decode_one (record fec { data_ch = [] }) b ≡ ok (fec', own)
    → Yields End is fec' out
    → Yields End (received b ∷ is) (record fec { data_ch = [] }) (with_payload own out)
Yields-packet End fec fec' b none is out e (f, ran, at_end) =
    (f, until_wait-parity (length out) fec fec' b is e ∙ ran, at_end)
Yields-packet End fec fec' b (some d) is out e (f, ran, at_end) = (
  f,
  until_wait-data (suc (length out)) fec fec' b d is e
      ∙ ap (λ r. r >>= λ o. ok (add_payload d o)) ran,
  at_end,
)

-- The payloads in the channel are read first.
pub Yields-channel :
    (End : Fec → Type 0) (ds : List Bytes) (fec : Fec) (is : List Input) (out : List Bytes)
    → ((n : ℕ) → Yields End is (record fec { data_ch = []; rx_bytes = n }) out)
    → Yields End is (record fec { data_ch = ds }) (ds ++ out)
unfolding decode_until_wait
Yields-channel End [] fec is out rest = rest fec.rx_bytes
Yields-channel End (d ∷ ds) fec is out rest =
    let (f, ran, at_end) =
      Yields-channel End ds (record fec { rx_bytes = u64 (fec.rx_bytes + length d) }) is out rest in
    (f, rw (decode_data-channel fec d ds is, ran), at_end)
