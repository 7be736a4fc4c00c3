-- ===== src/Fec/Channel/Groups.antt =====
-- A stream of groups: what the encoder sends for one group after another, which packets of each come
-- to the other end, and what DecodeData returns there.

use native.Mathlib.Nat.{mod-eq_of_lt, mod_self}
use native.Mathlib.Decide.{dec_lt}
use tcpraw.Base.{
  ℕ, suc, ◌+◌, ◌%◌, ◌≤◌, ◌<◌, ◌≡◌, refl, sym, ap, ◌∙◌, false, List, [], ◌∷◌, ◌++◌, arith, length,
  take, drop, replicate, Fresh, All, sub32, Bytes, Run, ok, panic, ◌>>=◌, append_assoc,
}
use tcpraw.Fec.Wire.{FecPacket, decode_fec_packet}
use tcpraw.Fec.Encoder.{FecEncoder, encode}
use tcpraw.Fec.Encoder.Collect.{fresh}
use tcpraw.Fec.Encoder.Sizes.{encode_all, group_size, Fit}
use tcpraw.Fec.Channel.Transmission.{decode_packets}
use tcpraw.Fec.Channel.Wires.{ok-inj, cons_run}
use tcpraw.Fec.Channel.AnyOrder.{packets_at, payloads_at}
use tcpraw.Fec.Channel.Repeats.{ParityPosition, payloads_at-parity}

-- A group of a stream: its payloads, the positions of the packets that complete it at the other end,
-- in the order in which they come, and of those that come behind them.
pub record Sending : Type 0 where
  pub payloads : List Bytes
  pub first : List ℕ
  pub late : List ℕ

-- Any `k` different packets complete the group, and fewer than `k` different ones come behind them,
-- which may be packets that have come before.
pub record IsSending (k p : ℕ) (g : Sending) : Type 0 where
  pub num : length g.payloads ≡ k
  pub fit : Fit g.payloads
  pub not_empty : 2 < group_size g.payloads
  pub fresh : Fresh (replicate (k + p) false) g.first
  pub taken : length g.first ≡ k
  pub fresh_late : Fresh (replicate (k + p) false) g.late
  pub few_late : length g.late < k

abbrev pub all_payloads : List Sending → List Bytes
all_payloads [] = []
all_payloads (g ∷ gs) = g.payloads ++ all_payloads gs

-- What comes of packets that were sent in groups of `n`.
abbrev pub arriving : ℕ → List Bytes → List Sending → List Bytes
arriving n wire [] = []
arriving n wire (g ∷ gs) =
    packets_at (take n wire) (g.first ++ g.late) ++ arriving n (drop n wire) gs

-- The payloads of each group once, and those of its late data packets once more.
abbrev pub due : ℕ → List Sending → List Bytes
due k [] = []
due k (g ∷ gs) = g.payloads ++ (payloads_at k g.payloads g.late ++ due k gs)

-- Only parity packets of the group come when it is complete.
abbrev pub LateParity : ℕ → Sending → Type 0
LateParity k g = All (ParityPosition k) g.late

pub due-parity : (k : ℕ) (gs : List Sending) → All (LateParity k) gs → due k gs ≡ all_payloads gs
due-parity k [] a = refl
due-parity k (g ∷ gs) a = rw (payloads_at-parity k g.payloads g.late a.0, due-parity k gs a.1) refl

-- The groups stay within 2 ^ 31 sequence numbers of `base`, where numbering begins anew at `paws`.
abbrev pub Windows : ℕ → ℕ → ℕ → ℕ → List Sending → Type 0
Windows n paws base start [] = Unit {0}
Windows n paws base start (g ∷ gs) =
    (sub32 start base + n ≤ 2147483648) × Windows n paws base ((start + n) % paws) gs

-- The next group stands behind this one in the window.
pub next_behind :
    (n paws base start : ℕ)
    → base < 4294967296
    → paws ≤ 4294967295
    → 2147483648 < paws
    → start + n ≤ paws
    → sub32 start base + n ≤ 2147483648
    → sub32 start base + n ≤ sub32 ((start + n) % paws) base
next_behind n paws base start hb hp big below window = elim (dec_lt (start + n) paws) [
  | yes inside ↦ rw (mod-eq_of_lt inside) (omega arith)
  | no over ↦
      let at_end : start + n ≡ paws = omega arith in
      let back : (start + n) % paws ≡ 0 = rw at_end (mod_self paws) in rw back (omega arith)
]

abbrev then_encode : List Bytes → Run (FecEncoder × List Bytes) → Run (FecEncoder × List Bytes)
then_encode ys m = m >>= λ (e, o). encode_all e ys >>= λ (e', o'). ok (e', o ++ o')

abbrev add_packets :
    Bytes → List Bytes → Run (FecEncoder × List Bytes) → Run (FecEncoder × List Bytes)
add_packets pkt ps m = m >>= λ (e, out). ok (e, pkt ∷ (ps ++ out))

joined-packets :
    (pkt : Bytes) (ps o : List Bytes) (m : Run (FecEncoder × List Bytes))
    → add_packets pkt ps (m >>= λ (e', o'). ok (e', o ++ o'))
      ≡ (m >>= λ (e', o'). ok (e', (pkt ∷ (ps ++ o)) ++ o'))
joined-packets pkt ps o panic = refl
joined-packets pkt ps o (ok (e', o')) =
    ap (λ (out : List Bytes). ok (e', pkt ∷ out)) (sym (append_assoc ps o o'))

then_encode-packets :
    (ys : List Bytes) (pkt : Bytes) (ps : List Bytes) (m : Run (FecEncoder × List Bytes))
    → add_packets pkt ps (then_encode ys m) ≡ then_encode ys (add_packets pkt ps m)
then_encode-packets ys pkt ps panic = refl
then_encode-packets ys pkt ps (ok (e, o)) = joined-packets pkt ps o (encode_all e ys)

encode_all-then :
    (xs ys : List Bytes) (enc : FecEncoder)
    → encode_all enc (xs ++ ys) ≡ then_encode ys (encode_all enc xs)
unfolding encode_all
encode_all-then [] ys enc = whole (encode_all enc ys)
  where
    whole : (m : Run (FecEncoder × List Bytes)) → m ≡ (m >>= λ (e', o'). ok (e', o'))
    whole (ok (e, o)) = refl
    whole panic = refl
encode_all-then (b ∷ xs) ys enc = first (encode enc (fresh b)) (encode_all-then xs ys)
  where
    first :
        (r : Run (FecEncoder × Bytes × List Bytes))
        → ((e : FecEncoder) → encode_all e (xs ++ ys) ≡ then_encode ys (encode_all e xs))
        → (r >>= λ (e, pkt, ps). add_packets pkt ps (encode_all e (xs ++ ys)))
          ≡ then_encode ys (r >>= λ (e, pkt, ps). add_packets pkt ps (encode_all e xs))
    first panic ih = refl
    first (ok (e, pkt, ps)) ih =
        ap (add_packets pkt ps) (ih e) ∙ then_encode-packets ys pkt ps (encode_all e xs)

-- Payloads one after another are encoded as the first of them and then the others.
pub encode_all-append :
    (xs ys : List Bytes) (enc enc₁ enc₂ : FecEncoder) (o₁ o₂ : List Bytes)
    → encode_all enc xs ≡ ok (enc₁, o₁)
    → encode_all enc₁ ys ≡ ok (enc₂, o₂)
    → encode_all enc (xs ++ ys) ≡ ok (enc₂, o₁ ++ o₂)
encode_all-append xs ys enc enc₁ enc₂ o₁ o₂ e₁ e₂ = encode_all-then xs ys enc ∙ rw (e₁, e₂)

-- As many packets are read as were sent.
pub decode_packets-length :
    (bs : List Bytes) (pkts : List FecPacket)
    → decode_packets bs ≡ ok pkts
    → length bs ≡ length pkts
unfolding decode_packets
decode_packets-length [] pkts e = ap length (ok-inj e)
decode_packets-length (b ∷ bs) pkts e =
    let (p, ps, first, rest, out) = cons_run (decode_fec_packet b) (decode_packets bs) pkts e in
    ap suc (decode_packets-length bs ps rest) ∙ sym (ap length out)
