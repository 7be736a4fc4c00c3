-- ===== src/Fec/Channel/Repeats.antt =====
-- More parity packets than data packets: what a group without losses comes to.
use mathlib.Core.List.{Perm}
use tcpraw.Base.{
  ℕ, zero, suc, ◌+◌, ◌≤◌, ◌<◌, ◌≡◌, refl, sym, ap, subst, ◌∙◌, Bool, true, false, List, [], ◌∷◌,
  ◌++◌, Option, some, arith, length, take, get_elem?, set, replicate, marked, Fresh, All, Bytes,
  Run, ok, panic, ◌>>=◌, append-nil, le→ltb, length-map,
}
use tcpraw.Fec.Wire.{FecPacket, protected_part}
use tcpraw.Fec.Encoder.Sizes.{protected_parts}
use tcpraw.Fec.Decoder.{FecDecoder}
use tcpraw.Fec.Decoder.Group.{bodies}
use tcpraw.Fec.Decoder.Step.{IsReceiver}
use tcpraw.Fec.Channel.{Fec, decode_one}
use tcpraw.Fec.Channel.Arrivals.{lost_payloads}
use tcpraw.Fec.Channel.Transmission.{decode_packets}
use tcpraw.Fec.Channel.AnyOrder.{
  with_payload, with_payload-append, decode_all, packets_at, payloads_at, decode_all-any_order,
}
use tcpraw.Fec.Channel.EachOnce.{lost-set_outside, payloads_at-each_once, lost-none, lost-take}

abbrev then_all : List Bytes → Run (Fec × List Bytes) → Run (Fec × List Bytes)
then_all ys m = m >>= λ (f, o). decode_all ys f >>= λ (f', o'). ok (f', o ++ o')

abbrev prepend : Option Bytes → Run (Fec × List Bytes) → Run (Fec × List Bytes)
prepend out m = m >>= λ (f, o). ok (f, with_payload out o)

joined-prepend :
    (out : Option Bytes) (o : List Bytes) (m : Run (Fec × List Bytes))
    → prepend out (m >>= λ (f', o'). ok (f', o ++ o'))
      ≡ (m >>= λ (f', o'). ok (f', with_payload out o ++ o'))
joined-prepend out o panic = refl
joined-prepend out o (ok (f', o')) =
    ap (λ (x : List Bytes). ok (f', x)) (with_payload-append out o o')

then_all-prepend :
    (ys : List Bytes) (out : Option Bytes) (m : Run (Fec × List Bytes))
    → prepend out (then_all ys m) ≡ then_all ys (prepend out m)
then_all-prepend ys out panic = refl
then_all-prepend ys out (ok (f, o)) = joined-prepend out o (decode_all ys f)

decode_all-append :
    (xs ys : List Bytes) (fec : Fec) → decode_all (xs ++ ys) fec ≡ then_all ys (decode_all xs fec)
unfolding decode_all
decode_all-append [] ys fec = whole (decode_all ys fec)
  where
    whole : (m : Run (Fec × List Bytes)) → m ≡ (m >>= λ (f', o'). ok (f', o'))
    whole (ok (f, o)) = refl
    whole panic = refl
decode_all-append (b ∷ xs) ys fec = first (decode_one fec b) (decode_all-append xs ys)
  where
    first :
        (r : Run (Fec × Option Bytes))
        → ((f : Fec) → decode_all (xs ++ ys) f ≡ then_all ys (decode_all xs f))
        → (r >>= λ (f, out). prepend out (decode_all (xs ++ ys) f))
          ≡ then_all ys (r >>= λ (f, out). prepend out (decode_all xs f))
    first panic ih = refl
    first (ok (f, out)) ih = ap (prepend out) (ih f) ∙ then_all-prepend ys out (decode_all xs f)

-- Positions of data packets, and of parity packets.
abbrev pub DataPosition : ℕ → ℕ → Type 0
DataPosition k j = j < k

abbrev pub ParityPosition : ℕ → ℕ → Type 0
ParityPosition k j = k ≤ j

length-lost-set :
    (m : List Bool) (j : ℕ) (bs : List Bytes)
    → get_elem? m j ≡ some false
    → j < length bs
    → length (lost_payloads (set m j true) bs) + 1 ≡ length (lost_payloads m bs)
length-lost-set [] j bs e h = cc
length-lost-set (b ∷ m) j [] e h = absurd (omega arith)
length-lost-set (true ∷ m) zero (x ∷ bs) e h = cc
length-lost-set (false ∷ m) zero (x ∷ bs) e h = omega arith
length-lost-set (true ∷ m) (suc j) (x ∷ bs) e h = length-lost-set m j bs e (omega arith)
length-lost-set (false ∷ m) (suc j) (x ∷ bs) e h =
    omega (arith, length-lost-set m j bs e (omega arith))

length-lost-marked :
    (bs : List Bytes) (js : List ℕ) (m : List Bool)
    → Fresh m js
    → All (DataPosition (length bs)) js
    → length (lost_payloads (marked m js) bs) + length js ≡ length (lost_payloads m bs)
length-lost-marked bs [] m fresh a = omega arith
length-lost-marked bs (j ∷ js) m fresh a =
    omega (
      arith,
      length-lost-set m j bs fresh.0 a.0,
      length-lost-marked bs js (set m j true) fresh.1 a.1,
    )

pub payloads_at-parity :
    (k : ℕ) (bs : List Bytes) (js : List ℕ) → All (ParityPosition k) js → payloads_at k bs js ≡ []
payloads_at-parity k bs [] a = refl
payloads_at-parity k bs (j ∷ js) a = rw (le→ltb j k a.0) (payloads_at-parity k bs js a.1)

lost-parity :
    (bs : List Bytes) (js : List ℕ) (m : List Bool)
    → All (ParityPosition (length bs)) js
    → lost_payloads (marked m js) bs ≡ lost_payloads m bs
lost-parity bs [] m a = refl
lost-parity bs (j ∷ js) m a = lost-parity bs js (set m j true) a.1 ∙ lost-set_outside m j bs a.0

length_zero : (xs : List Bytes) → length xs ≡ 0 → xs ≡ []
length_zero [] e = refl
length_zero (x ∷ xs) e = absurd (omega arith)

module _ {dec : FecDecoder} {k p size base start : ℕ} {dps pps : List FecPacket}
    (h : IsReceiver dec k p size base start dps pps) (fec : Fec) (wire bs : List Bytes)
    (parsed : decode_packets wire ≡ ok (dps ++ pps)) (payloads : bodies dps ≡ protected_parts bs)
    (room : k ≤ fec.capacity) (big : 2 < size) where
  num_payloads : length bs ≡ k
  num_payloads =
      sym (length-map protected_part bs)
      ∙ sym (ap length payloads)
      ∙ length-map (λ (q : FecPacket). q.body) dps
      ∙ h.is_sent.num_data

  -- All data packets of a group, of which not all payloads are empty, come, in any order, and behind
  -- them k different parity packets of the same group, as there are where the group has no fewer
  -- parity packets than data packets: each payload is delivered twice, first when its packet comes
  -- and once more through the channel.
  pub decode_all-repeats :
      (ds qs : List ℕ)
      → Fresh (replicate (k + p) false) ds
      → Fresh (replicate (k + p) false) qs
      → All (DataPosition k) ds
      → All (ParityPosition k) qs
      → length ds ≡ k
      → length qs ≡ k
      → 0 < k
      → (decode_all
            (packets_at wire ds ++ packets_at wire qs)
            (record fec { decoder = some (record dec { rx = [] }); data_ch = [] })
          ≡ ok (
            record fec { decoder = some (record dec { rx = [] }); data_ch = bs },
            payloads_at k bs ds,
          ))
        × Perm (payloads_at k bs ds) bs
  decode_all-repeats ds qs fresh_d fresh_q at_d at_q num_d num_q pos =
      let none_held = replicate (k + p) false in
      let all_lost = lost-none (k + p) bs (omega (arith, num_payloads)) in
      let within : length bs ≤ k = omega (arith, num_payloads) in
      let once : Perm (payloads_at k bs ds ++ lost_payloads (marked none_held ds) bs) bs =
        subst (Perm (payloads_at k bs ds ++ lost_payloads (marked none_held ds) bs)) all_lost
          (payloads_at-each_once k bs ds none_held num_payloads fresh_d) in
      let few = length-lost-marked bs ds none_held fresh_d (rw num_payloads at_d) in
      let none_lost : lost_payloads (marked none_held ds) bs ≡ [] =
        length_zero (lost_payloads (marked none_held ds) bs)
          (omega (arith, few, ap length all_lost, num_payloads, num_d)) in
      let first_none : lost_payloads (take k (marked none_held ds)) bs ≡ [] =
        lost-take k (marked none_held ds) bs within ∙ none_lost in
      let again : lost_payloads (take k (marked none_held qs)) bs ≡ bs =
        lost-take k (marked none_held qs) bs within
        ∙ lost-parity bs qs none_held (rw num_payloads at_q)
        ∙ all_lost in
      let quiet = payloads_at-parity k bs qs at_q in
      let pass = decode_all-any_order h fec wire bs parsed payloads room big in
      let first = rw first_none at (pass ds fresh_d num_d pos) in
      let second = rw (again, quiet) at (pass qs fresh_q num_q pos) in
      (
        decode_all-append (packets_at wire ds) (packets_at wire qs)
              (record fec { decoder = some (record dec { rx = [] }); data_ch = [] })
            ∙ rw (first, second, append-nil (payloads_at k bs ds)),
        subst (λ (xs : List Bytes). Perm xs bs)
            (ap (λ (xs : List Bytes). payloads_at k bs ds ++ xs) none_lost
              ∙ append-nil (payloads_at k bs ds))
            once,
      )
