-- ===== src/Faketcp/FakeConn/Payloads.antt =====
-- Read of a FakeConn with error correction, into buffers with room for a payload: it returns what
-- DecodeData returns.
use tcpraw.Base.{
  ℕ, zero, suc, ◌+◌, ◌≤◌, ◌≡◌, refl, sym, ap, subst, ◌∙◌, Option, none, some, List, [], ◌∷◌, map,
  arith, length, take, min, All, le→ltb, Bytes, u64, Run, ok, panic, ◌>>=◌,
}
use tcpraw.Fec.Channel.{
  Fec, Input, received, Reading, payload, failure, waiting, decode_one, decode_data,
}
use tcpraw.Fec.Channel.Wires.{ok-inj}
use tcpraw.Fec.Channel.EndToEnd.{bind-ok}
use tcpraw.Fec.Channel.Yields.{decode_until_wait, add_reading, add_payload}
use tcpraw.Faketcp.FakeConn.{FakeConn, read, copy_out, received_bytes}

abbrev pub then_payload : Bytes → Option (FakeConn × List Bytes) → Option (FakeConn × List Bytes)
then_payload d none = none
then_payload d (some (f, out)) = some (f, d ∷ out)

abbrev pub then_reading :
    FakeConn → Reading → Run (Option (FakeConn × List Bytes)) → Run (Option (FakeConn × List Bytes))
then_reading f (payload d) later = later >>= λ o. ok (then_payload d o)
then_reading f (failure e) later = ok (some (f, []))
then_reading f waiting later = ok (some (f, []))

-- At most so many calls of Read, up to the first that waits or fails.
unfoldable pub read_until_wait : ℕ → ℕ → FakeConn → Run (Option (FakeConn × List Bytes))
unfolding read
read_until_wait zero size f = ok none
read_until_wait (suc n) size f =
    let later = λ (f' : FakeConn). read_until_wait n size f' in
    read size f >>= λ (f', r). then_reading f' r (later f')

-- Only packets, no errors.
abbrev pub AreReceived : List Input → Type 0
AreReceived is = map received (received_bytes is) ≡ is

AreReceived-map : (bs : List Bytes) → AreReceived (map received bs)
AreReceived-map [] = refl
AreReceived-map (b ∷ bs) = ap (◌∷◌ (received b)) (AreReceived-map bs)

abbrev Read : Type 0
Read = Fec × Reading × List Input

settled : (r out : Read) → AreReceived r.2 → Path (Run Read) (ok r) (ok out) → AreReceived out.2
settled r out a e = subst (λ (q : Read). AreReceived q.2) (ok-inj e) a

-- What DecodeData leaves of packets are packets.
decode_data-rest :
    (bs : List Bytes) (fec : Fec) (ds : List Bytes) (out : Read)
    → decode_data (map received bs) (record fec { data_ch = ds }) ≡ ok out
    → AreReceived out.2
unfolding decode_data
decode_data-rest [] fec [] out e = settled _ out refl e
decode_data-rest [] fec (d ∷ ds) out e = settled _ out refl e
decode_data-rest (b ∷ bs) fec (d ∷ ds) out e = settled _ out (AreReceived-map (b ∷ bs)) e
decode_data-rest ([] ∷ bs) fec [] out e = decode_data-rest bs fec [] out e
decode_data-rest ((x ∷ xs) ∷ bs) fec [] out e =
    go (decode_one (record fec { data_ch = [] }) (x ∷ xs))
      (λ f. decode_data-rest bs f f.data_ch out) e
  where
    go :
        (r : Run (Fec × Option Bytes))
        → ((f : Fec) → decode_data (map received bs) f ≡ ok out → AreReceived out.2)
        → (r >>= λ (fec', o). elim o [
          | none ↦ decode_data (map received bs) fec'
          | some d ↦ ok (fec', payload d, map received bs)
        ])
          ≡ ok out
        → AreReceived out.2
    go panic ih e = cc
    go (ok (fec', none)) ih e = ih fec' e
    go (ok (fec', some d)) ih e = settled _ out (AreReceived-map bs) e

-- A payload that fits is copied whole.
take_whole : (n : ℕ) (d : Bytes) → length d ≤ n → take n d ≡ d
take_whole zero [] h = refl
take_whole zero (x ∷ d) h = absurd (omega arith)
take_whole (suc n) [] h = refl
take_whole (suc n) (x ∷ d) h = ap (◌∷◌ x) (take_whole n d (omega arith))

copy_out-whole :
    (size : ℕ) (f : FakeConn) (d : Bytes)
    → length d ≤ size
    → copy_out size f d ≡ (record f { rx_bytes = u64 (f.rx_bytes + length d) }, payload d)
unfolding copy_out
copy_out-whole size f d fits =
    let all : min size (length d) ≡ length d = ground arith in
    rw (all, le→ltb (length d) (length d) (omega arith), take_whole (length d) d (omega arith)) refl

-- A connection at rest, with these packets in its channel.
abbrev pub resting : FakeConn → Fec → List Bytes → FakeConn
resting f fec bs = record f { recv_left = []; recvch = bs; fec = some fec }

abbrev pub FitsBuffer : ℕ → Bytes → Type 0
FitsBuffer size d = length d ≤ size

abbrev Ended : Type 0
Ended = Option (Fec × List Bytes)

some-pair :
    (o : Ended) (d : Bytes) (f' : Fec) (out : List Bytes)
    → Path (Run Ended) (ok (add_payload d o)) (ok (some (f', out)))
    → (f : Fec) × (rest : List Bytes) × (o ≡ some (f, rest)) × (out ≡ d ∷ rest)
some-pair none d f' out e = absurd (let wrong : none ≡ some (f', out) = ok-inj e in cc)
some-pair (some (f, rest)) d f' out e =
    let same : Path Ended (some (f, d ∷ rest)) (some (f', out)) = ok-inj e in
    (f, rest, refl, sym (ap (λ (o : Ended). elim o [ none ↦ d ∷ rest | some q ↦ q.1 ]) same))

-- So many calls of Read return what so many calls of DecodeData return.
abbrev Agrees : ℕ → ℕ → Type 0
Agrees n size =
    (bs : List Bytes) (fec f' : Fec) (out : List Bytes) (c : FakeConn)
    → All (FitsBuffer size) out
    → decode_until_wait n (map received bs) fec ≡ ok (some (f', out))
    → (c' : FakeConn) × (read_until_wait n size (resting c fec bs) ≡ ok (some (c', out)))

read-payload :
    (size : ℕ) (bs : List Bytes) (fec fec₁ : Fec) (d : Bytes) (is : List Input) (c : FakeConn)
    → length d ≤ size
    → decode_data (map received bs) fec ≡ ok (fec₁, payload d, is)
    → read size (resting c fec bs)
      ≡ ok (
        resting (record c { rx_bytes = u64 (c.rx_bytes + length d) }) fec₁ (received_bytes is),
        payload d,
      )
unfolding read
read-payload size bs fec fec₁ d is c fits made =
    rw made (ap ok (copy_out-whole size (resting c fec₁ (received_bytes is)) d fits))

-- One more call.
read-Agrees :
    (n size : ℕ) (bs : List Bytes) (fec f' : Fec) (out : List Bytes) (c : FakeConn) (r : Read)
    → Agrees n size
    → All (FitsBuffer size) out
    → decode_data (map received bs) fec ≡ ok r
    → add_reading r.0 r.1 (decode_until_wait n r.2 r.0) ≡ ok (some (f', out))
    → (c' : FakeConn) × (read_until_wait (suc n) size (resting c fec bs) ≡ ok (some (c', out)))
unfolding read_until_wait read
read-Agrees n size bs fec f' out c (fec₁, failure x, is) ih fits made e =
    let c' = resting c fec₁ (received_bytes is) in
    let same : Path Ended (some (fec₁, [])) (some (f', out)) = ok-inj e in
    let none_read : [] ≡ out = ap (λ (o : Ended). elim o [ none ↦ [] | some q ↦ q.1 ]) same in
    (c', rw made (ap (λ (xs : List Bytes). ok (some (c', xs))) none_read))
read-Agrees n size bs fec f' out c (fec₁, waiting, is) ih fits made e =
    let c' = resting c fec₁ (received_bytes is) in
    let same : Path Ended (some (fec₁, [])) (some (f', out)) = ok-inj e in
    let none_read : [] ≡ out = ap (λ (o : Ended). elim o [ none ↦ [] | some q ↦ q.1 ]) same in
    (c', rw made (ap (λ (xs : List Bytes). ok (some (c', xs))) none_read))
read-Agrees n size bs fec f' out c (fec₁, payload d, is) ih fits made e =
    let (o, ran, e') = bind-ok (decode_until_wait n is fec₁) _ (some (f', out)) e in
    let (f₂, rest, o_is, out_is) = some-pair o d f' out e' in
    let fits' = subst (All (FitsBuffer size)) out_is fits in
    let packets = decode_data-rest bs fec fec.data_ch (fec₁, payload d, is) made in
    let c₁ : FakeConn = record c { rx_bytes = u64 (c.rx_bytes + length d) } in
    let (c', read_rest) =
      ih (received_bytes is) fec₁ f₂ rest c₁ fits'.1
        (ap (λ (xs : List Input). decode_until_wait n xs fec₁) packets ∙ ran ∙ ap ok o_is) in
    let now = read-payload size bs fec fec₁ d is c fits'.0 made in
    (c', rw (now, read_rest) (ap (λ (xs : List Bytes). ok (some (c', xs))) (sym out_is)))

-- A connection with error correction and nothing left over, whose buffers have room for each
-- payload: the calls of Read up to the first that waits return what the calls of DecodeData return.
pub read_until_wait-Agrees : (n size : ℕ) → Agrees n size
unfolding decode_until_wait
read_until_wait-Agrees zero size bs fec f' out c fits e =
    absurd (let wrong : Path Ended none (some (f', out)) = ok-inj e in cc)
read_until_wait-Agrees (suc n) size bs fec f' out c fits e =
    let (r, made, e') = bind-ok (decode_data (map received bs) fec) _ (some (f', out)) e in
    read-Agrees n size bs fec f' out c r (read_until_wait-Agrees n size) fits made e'
