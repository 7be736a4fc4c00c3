-- ===== src/Fec/Channel/EndToEnd.antt =====
-- NewFec at both ends of a connection: EncodeData over a stream of payloads, and DecodeData over
-- what the network delivers of it.
use mathlib.Core.List.{Perm}
use native.Mathlib.Nat.{mod-eq_of_lt, suc-mul}
use tcpraw.Base.{
  ==_ne, le→ltb, ℕ, suc, ◌+◌, ◌*◌, ◌%◌, ◌≤◌, ◌<◌, ◌≡◌, refl, sym, ap, subst, ◌∙◌, List, [], ◌∷◌,
  ◌++◌, map, Option, none, some, arith, length, All, u64, Bytes, Error, Run, ok, panic, ◌>>=◌,
  append_assoc, append-nil,
}
use tcpraw.Fec.Codec.{Codec, IsCodec}
use tcpraw.Fec.Encoder.{FecEncoder, encode, paws_of}
use tcpraw.Fec.Encoder.Collect.{IsCollecting, fresh}
use tcpraw.Fec.Encoder.Stream.{new_fec_encoder-IsCollecting, paws_of-big}
use tcpraw.Fec.Encoder.Sizes.{encode_all}
use tcpraw.Fec.Decoder.{FecDecoder, new_fec_decoder}
use tcpraw.Fec.Channel.{Fec, received, new_fec, encode_data, send_parity}
use tcpraw.Fec.Channel.Wires.{ok-inj}
use tcpraw.Fec.Channel.Yields.{decode_until_wait}
use tcpraw.Fec.Channel.Groups.{
  Sending, IsSending, all_payloads, arriving, due, LateParity, due-parity, Windows,
}
use tcpraw.Fec.Channel.Stream.{IsStream, Yields-stream}

-- A network that takes every packet.
abbrev pub taken : List Bytes → Bytes → List Bytes × Option Error
taken sent b = (sent ++ b ∷ [], none)

-- EncodeData for payloads, one after another.
unfoldable pub encode_data_all : Fec → List Bytes → List Bytes → Run (Fec × List Bytes)
unfolding encode_data
encode_data_all fec sent [] = ok (fec, sent)
encode_data_all fec sent (b ∷ bs) =
    let rest = λ (f : Fec) (s : List Bytes). encode_data_all f s bs in
    encode_data taken fec sent b >>= λ (fec', sent', err). rest fec' sent'

-- All parity packets are sent, and only the counter of bytes changes.
send_parity-taken :
    (ps sent : List Bytes) (fec : Fec)
    → (n : ℕ) × (send_parity taken fec sent ps ≡ (record fec { tx_bytes = n }, sent ++ ps, none))
unfolding send_parity
send_parity-taken [] sent fec = (fec.tx_bytes, rw (append-nil sent) refl)
send_parity-taken (p ∷ ps) sent fec =
    let (n, e) =
      send_parity-taken ps (sent ++ p ∷ [])
        (record fec { tx_bytes = u64 (fec.tx_bytes + length p) }) in
    (
      n,
      e
          ∙ ap (λ (s : List Bytes). (record fec { tx_bytes = n }, s, none))
              (append_assoc sent (p ∷ []) ps),
    )

pub bind-ok {ℓ κ} :
    {A : Type ℓ} {B : Type κ} (m : Run A) (f : A → Run B) (y : B)
    → (m >>= f) ≡ ok y
    → (x : A) × (m ≡ ok x) × (f x ≡ ok y)
bind-ok (ok x) f y e = (x, refl, e)
bind-ok panic f y e = cc

-- What EncodeData sends is what Encode gives.
pub encode_data_all-encode_all :
    (bs sent out : List Bytes) (enc enc' : FecEncoder) (fec : Fec)
    → encode_all enc bs ≡ ok (enc', out)
    → (fec' : Fec) × (encode_data_all (record fec { encoder = some enc }) sent bs
        ≡ ok (fec', sent ++ out))
      × (fec'.encoder ≡ some enc')
unfolding encode_data_all encode_data encode_all
encode_data_all-encode_all [] sent out enc enc' fec e =
    let same = ok-inj e in
    let sent_all : sent ≡ sent ++ out =
      sym (append-nil sent) ∙ ap (λ (r : FecEncoder × List Bytes). sent ++ r.1) same in
    (
      record fec { encoder = some enc },
      ap (λ (s : List Bytes). ok (record fec { encoder = some enc }, s)) sent_all,
      ap (λ (r : FecEncoder × List Bytes). some r.0) same,
    )
encode_data_all-encode_all (b ∷ bs) sent out enc enc' fec e =
    let (r, made, e') = bind-ok (encode enc (fresh b)) _ (enc', out) e in
    let (r', rest, e'') = bind-ok (encode_all r.0 bs) _ (enc', out) e' in
    let same = ok-inj e'' in
    let sent' = sent ++ r.1 ∷ [] in
    let (n, parity) = send_parity-taken r.2 sent' (record fec { encoder = some r.0 }) in
    let (fec', ran, at_end) =
      encode_data_all-encode_all bs (sent' ++ r.2) r'.1 r.0 r'.0 (record fec { tx_bytes = n })
        rest in
    let sent_all : (sent' ++ r.2) ++ r'.1 ≡ sent ++ out =
      append_assoc sent' r.2 r'.1
      ∙ append_assoc sent (r.1 ∷ []) (r.2 ++ r'.1)
      ∙ ap (λ (x : FecEncoder × List Bytes). sent ++ x.1) same in
    (
      fec',
      rw (made, parity, ran) (ap (λ (s : List Bytes). ok (fec', s)) sent_all),
      at_end ∙ ap (λ (x : FecEncoder × List Bytes). some x.0) same,
    )

-- A stream from the number 0 that stays below 2 ^ 31 needs no more of the window.
Windows-stream :
    (n paws : ℕ) (gs : List Sending) (start : ℕ)
    → 2147483648 < paws
    → start + length gs * n ≤ 2147483648
    → Windows n paws 0 start gs
Windows-stream n paws [] start big few = tt
Windows-stream n paws (g ∷ gs) start big few =
    let more = suc-mul (length gs) n in
    let inside : (start + n) % paws ≡ start + n = mod-eq_of_lt (omega (arith, few, more, big)) in
    (
      omega (arith, few, more),
      rw inside (Windows-stream n paws gs (start + n) big (omega (arith, few, more))),
    )

module _ (new_codec : ℕ → ℕ → Option Codec) (k p : ℕ) (codec : Codec) (kp : 0 < k) (pp : 0 < p)
    (small : k + p ≤ 65536) (made : new_codec k p ≡ some codec) where
  -- The decoder of a new channel.
  abbrev new_decoder : FecDecoder
  new_decoder = record {
    rxlimit = 3 * (k + p);
    data_shards = k;
    parity_shards = p;
    shard_size = k + p;
    rx = [];
    codec = codec;
  }

  abbrev with_encoder : FecEncoder → Fec
  with_encoder enc = record {
    encoder = some enc;
    decoder = some new_decoder;
    data_ch = [];
    capacity = k + p;
    tx_bytes = 0;
    rx_bytes = 0;
    drop_packets = 0;
  }

  new_fec_decoder-new : new_fec_decoder new_codec (3 * (k + p)) k p ≡ some new_decoder
  unfolding new_fec_decoder
  new_fec_decoder-new = rw (
    ==_ne k 0 (λ h. absurd (omega (arith, kp))),
    ==_ne p 0 (λ h. absurd (omega (arith, pp))),
    le→ltb (3 * (k + p)) (k + p) (omega arith),
    made,
  )

  new_fec-new :
      (enc : FecEncoder) × (new_fec new_codec k p 0 ≡ with_encoder enc)
      × IsCollecting k p 0 [] enc
      × (enc.codec ≡ codec)
      × (enc.paws ≡ paws_of (k + p))
  unfolding new_fec
  new_fec-new =
      let (enc, new, c, same, paws) =
        new_fec_encoder-IsCollecting new_codec k p codec kp pp small made in
      (enc, rw (new, new_fec_decoder-new), c, same, paws)

  -- Two ends are made by NewFec for k data and p parity shards, with a codec that behaves as
  -- documented, as it does for at most 256 shards. The payloads of at most 2 ^ 31 / (k + p) groups,
  -- which fit and are not all empty in a group, are given to EncodeData, and the network takes every
  -- packet. Of each group any k different packets come to the other end, in any order, and then
  -- fewer than k different packets of the same group, which may have come before. Then the calls of
  -- DecodeData up to the first that waits return, each as often as it was sent, exactly the
  -- payloads, and beside them those of the data packets that came when their group was complete.
  pub new_fec-delivers :
      (gs : List Sending)
      → IsCodec k p codec
      → All (IsSending k p) gs
      → length gs * (k + p) ≤ 2147483648
      → (fec : Fec) × (out : List Bytes) × (f : Fec) × (reads : List Bytes) × (encode_data_all
            (new_fec new_codec k p 0)
            []
            (all_payloads gs)
          ≡ ok (fec, out))
        × (decode_until_wait
              (suc (length reads))
              (map received (arriving (k + p) out gs))
              (new_fec new_codec k p 0)
            ≡ ok (some (f, reads)))
        × Perm reads (due k gs)
        × (f.data_ch ≡ [])
  new_fec-delivers gs law all few =
      let (enc, new, c, same, paws) = new_fec-new in
      let stream : IsStream codec k p enc.paws 0 new_decoder (with_encoder enc) = record {
        law = law;
        data_pos = kp;
        parity_pos = pp;
        base_fits = omega arith;
        paws_big = rw paws (paws_of-big (k + p) (omega (arith, kp)) small);
        same_codec = refl;
        num_data = refl;
        num_all = refl;
        limit = omega arith;
        room = omega arith;
      } in
      let (enc', out, reads, run, perm, yields) =
        Yields-stream stream gs 0 enc same refl c all
          (Windows-stream (k + p) enc.paws gs 0 stream.paws_big (omega (arith, few))) in
      let (fec, sent, at_end) =
        encode_data_all-encode_all (all_payloads gs) [] out enc enc' (with_encoder enc) run in
      let (f, ran, empty) = yields 0 [] tt in
      (fec, out, f, reads, rw new sent, rw new ran, perm, empty)

  -- Two ends are made by NewFec for k data and p parity shards, with a codec that behaves as
  -- documented, as it does for at most 256 shards. The payloads of at most 2 ^ 31 / (k + p) groups,
  -- which fit and are not all empty in a group, are given to EncodeData, and the network takes every
  -- packet. Of each group any k different packets come to the other end, in any order, and then
  -- fewer than k different packets of the same group, all of them parity packets. Then the calls of
  -- DecodeData up to the first that waits return exactly the payloads that were given to EncodeData,
  -- each as often as it was given.
  pub new_fec-exactly_once :
      (gs : List Sending)
      → IsCodec k p codec
      → All (IsSending k p) gs
      → length gs * (k + p) ≤ 2147483648
      → All (LateParity k) gs
      → (fec : Fec) × (out : List Bytes) × (f : Fec) × (reads : List Bytes) × (encode_data_all
            (new_fec new_codec k p 0)
            []
            (all_payloads gs)
          ≡ ok (fec, out))
        × (decode_until_wait
              (suc (length reads))
              (map received (arriving (k + p) out gs))
              (new_fec new_codec k p 0)
            ≡ ok (some (f, reads)))
        × Perm reads (all_payloads gs)
  new_fec-exactly_once gs law all few late =
      let (fec, out, f, reads, sent, read, perm, empty) = new_fec-delivers gs law all few in
      (fec, out, f, reads, sent, read, subst (Perm reads) (due-parity k gs late) perm)
