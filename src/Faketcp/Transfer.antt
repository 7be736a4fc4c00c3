-- ===== src/Faketcp/Transfer.antt =====
-- From Write of a client to Read of the server's connection, with error correction on both sides.
use mathlib.Core.List.{
  Perm, Mem, mem-cons_self, mem-cons_of_mem, not-mem-nil, eq-or-mem_of_mem-cons,
}
use mathlib.Core.List.Perm
use tcpraw.Base.{
  append-nil, take, drop, get_or, length-map, ℕ, suc, ◌+◌, ◌*◌, ◌≤◌, ◌<◌, ◌≡◌, refl, sym, ap, ◌∙◌,
  true, Option, some, List, [], ◌∷◌, ◌++◌, arith, length, All, Bytes, ok, append_assoc,
  length-append, ltb, lt→ltb,
}
use native.Mathlib.Bridge.{le_prop}
use mathlib.Core.Logic.Or
use tcpraw.Fec.Channel.AnyOrder.{packets_at}
use tcpraw.Tcp.Addr.{NetAddr}
use tcpraw.Fec.Codec.{Codec, IsCodec}
use tcpraw.Fec.Channel.{Fec, new_fec}
use tcpraw.Fec.Channel.Groups.{Sending, IsSending, all_payloads, arriving, LateParity}
use tcpraw.Fec.Channel.EndToEnd.{new_fec-exactly_once}
use tcpraw.Faketcp.FakeConn.{FakeConn, new_fake_conn, push, recvch_capacity}
use tcpraw.Faketcp.FakeConn.Payloads.{read_until_wait, FitsBuffer, read_until_wait-Agrees}
use tcpraw.Faketcp.Client.{Client}
use tcpraw.Faketcp.Client.Writing.{
  IsWritable, all_written, client_write_all, client_write_all-sends,
}

-- The accept loop gives these packets to the connection.
unfoldable pub push_all : ℕ → FakeConn → List Bytes → FakeConn
unfolding push
push_all now f [] = f
push_all now f (b ∷ bs) = push_all now (push now f b) bs

push_all-room :
    (now : ℕ) (bs : List Bytes) (f : FakeConn)
    → length f.recvch + length bs ≤ recvch_capacity
    → (t : ℕ) × (push_all now f bs ≡ record f { recvch = f.recvch ++ bs; ts = t })
unfolding push_all push
push_all-room now [] f room =
    (f.ts, ap (λ (xs : List Bytes). record f { recvch = xs }) (sym (append-nil f.recvch)))
push_all-room now (b ∷ bs) f room =
    let space : ltb (length f.recvch) recvch_capacity ≡ true =
      lt→ltb (length f.recvch) recvch_capacity (omega (arith, room)) in
    let (t, pushed) =
      push_all-room now bs (record f { recvch = f.recvch ++ b ∷ []; ts = now })
        (omega (arith, room, length-append f.recvch (b ∷ []))) in
    (
      t,
      rw space (
          pushed
          ∙ ap (λ (xs : List Bytes). record f { recvch = xs; ts = t })
              (append_assoc f.recvch (b ∷ []) bs)),
    )

-- So many packets come.
abbrev pub num_arriving : List Sending → ℕ
num_arriving [] = 0
num_arriving (g ∷ gs) = length (g.first ++ g.late) + num_arriving gs

length-arriving :
    (n : ℕ) (wire : List Bytes) (gs : List Sending) → length (arriving n wire gs) ≡ num_arriving gs
length-arriving n wire [] = refl
length-arriving n wire (g ∷ gs) =
    let here = packets_at (take n wire) (g.first ++ g.late) in
    let rest = length-arriving n (drop n wire) gs in
    length-append here (arriving n (drop n wire) gs)
    ∙ omega (arith, rest, length-map (λ j. get_or (take n wire) j []) (g.first ++ g.late))

-- A bound on what is in a list.
mem-fits :
    (size : ℕ) (x : Bytes) (xs : List Bytes) → All (FitsBuffer size) xs → Mem x xs → length x ≤ size
mem-fits size x [] a m = absurd (not-mem-nil m)
mem-fits size x (y ∷ xs) a m =
    Or.elim le_prop (eq-or-mem_of_mem-cons m) (λ e. rw e (a.0)) (λ m'. mem-fits size x xs a.1 m')

fits-mem :
    (size : ℕ) (xs : List Bytes)
    → ((x : Bytes) → Mem x xs → length x ≤ size)
    → All (FitsBuffer size) xs
fits-mem size [] h = tt
fits-mem size (x ∷ xs) h = (h x mem-cons_self, fits-mem size xs (λ y m. h y (mem-cons_of_mem x m)))

writable-fits :
    (size : ℕ) (xs : List Bytes) → 1530 ≤ size → All IsWritable xs → All (FitsBuffer size) xs
writable-fits size [] h a = tt
writable-fits size (x ∷ xs) h a = let w = a.0 in (omega (arith, w, h), writable-fits size xs h a.1)

-- The connections of a client, and of a server to it, as their constructors make them.
abbrev pub client_with : Fec → Client
client_with fec = record { tx_bytes = 0; rx_bytes = 0; fec = some fec }

module _ (new_codec : ℕ → ℕ → Option Codec) (k p : ℕ) (codec : Codec) (kp : 0 < k) (pp : 0 < p)
    (small : k + p ≤ 65536) (made : new_codec k p ≡ some codec) where
  -- A client and a server have error correction with the same k data and p parity shards, and a
  -- codec that behaves as documented, as it does for at most 256 shards. The client writes the
  -- payloads of groups, from 1 to 1530 bytes each, to a TcpConn that takes every packet. Of each
  -- group any k different packets come to the server's connection, in any order, and then fewer than
  -- k different parity packets of the group; at most 2048 packets come before the first call of
  -- Read, in 2 ^ 31 / (k + p) groups at most. Then every Write returns the length of its payload and
  -- no error, and the calls of Read with buffers of at least 1530 bytes, up to the first that waits,
  -- return exactly the payloads that were written, each as often as it was written.
  pub client_write-read :
      (gs : List Sending) (addr : NetAddr) (now size : ℕ)
      → IsCodec k p codec
      → All (IsSending k p) gs
      → length gs * (k + p) ≤ 2147483648
      → All (LateParity k) gs
      → All IsWritable (all_payloads gs)
      → num_arriving gs ≤ recvch_capacity
      → 1530 ≤ size
      → (c : Client) × (out : List Bytes) × (f : FakeConn) × (reads : List Bytes)
        × (client_write_all (client_with (new_fec new_codec k p 0)) [] (all_payloads gs)
            ≡ ok (c, out, all_written (all_payloads gs)))
        × (read_until_wait (suc (length reads)) size (
              push_all now
                (new_fake_conn addr (some (new_fec new_codec k p 0)))
                (arriving (k + p) out gs))
            ≡ ok (some (f, reads)))
        × Perm reads (all_payloads gs)
  unfolding new_fake_conn
  client_write-read gs addr now size law all few late writable room large =
      let fec = new_fec new_codec k p 0 in
      let (fec₁, out, fec₂, reads, sent, read, perm) =
        new_fec-exactly_once new_codec k p codec kp pp small made gs law all few late in
      let (c, wrote) = client_write_all-sends (all_payloads gs) [] out 0 0 fec fec₁ writable sent in
      let come = arriving (k + p) out gs in
      let conn = new_fake_conn addr (some fec) in
      let (t, pushed) =
        push_all-room now come conn (omega (arith, length-arriving (k + p) out gs, room)) in
      let fits = fits-mem size reads (λ x m.
        mem-fits size x (all_payloads gs) (writable-fits size (all_payloads gs) large writable)
          (Perm.subset perm x m)) in
      let (f, got) =
        read_until_wait-Agrees (suc (length reads)) size come fec fec₂ reads
          (record conn { ts = t }) fits read in
      (c, out, f, reads, wrote, ap (read_until_wait (suc (length reads)) size) pushed ∙ got, perm)
