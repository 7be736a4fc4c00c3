-- ===== src/Tcp/Conn/Sync.antt =====
-- The sequence numbers of two peers: one writes payloads on its flow, the other gets the segments.
use tcpraw.Base.{
  ℕ, ◌+◌, ◌<◌, ◌≡◌, refl, ◌∙◌, false, List, [], ◌∷◌, ◌==◌, length, Bytes, u32, arith, ==_ne,
}
use tcpraw.Tcp.Flows.{TcpFlow}
use tcpraw.Tcp.Conn.Capture.{Segment, next_ack, update_flow}
use tcpraw.Tcp.Conn.Write.{segment_of, advance}

-- The segments that a flow sends for payloads, and the flow after them.
unfoldable pub segments : ℕ → ℕ → TcpFlow → List Bytes → List Segment
unfolding segment_of advance
segments lport rport e [] = []
segments lport rport e (p ∷ ps) = segment_of lport rport e p ∷ segments lport rport (advance e p) ps

unfoldable pub advance_all : TcpFlow → List Bytes → TcpFlow
unfolding advance
advance_all e [] = e
advance_all e (p ∷ ps) = advance_all (advance e p) ps

-- The flow of the peer after segments.
unfoldable pub receive_all : ℕ → ℕ → TcpFlow → List Segment → TcpFlow
unfolding update_flow
receive_all now handle r [] = r
receive_all now handle r (s ∷ ss) = receive_all now handle ((update_flow now handle s r 0).1) ss

abbrev pub total : List Bytes → ℕ
total [] = 0
total (p ∷ ps) = length p + total ps

module _ (lport rport now handle : ℕ) where
  -- When all the segments arrive in order, the receiver that expected the sender's number expects
  -- the sender's next number afterwards, also where the numbers wrap.
  pub receive_all-in_order :
      (ps : List Bytes) (e r : TcpFlow)
      → r.ack ≡ e.seq
      → (receive_all now handle r (segments lport rport e ps)).ack ≡ (advance_all e ps).seq
  unfolding segments advance_all receive_all update_flow next_ack segment_of advance
  receive_all-in_order [] e r h = h
  receive_all-in_order (p ∷ ps) e r h =
      receive_all-in_order ps (advance e p)
        ((update_flow now handle (segment_of lport rport e p) r 0).1) (ground (arith, h))

  -- Behind a gap no segment moves what the receiver expects.
  receive_all-gap :
      (ps : List Bytes) (e r : TcpFlow) (d : ℕ)
      → e.seq ≡ u32 (r.ack + d)
      → r.ack < 4294967296
      → 0 < d
      → d + total ps < 4294967296
      → (receive_all now handle r (segments lport rport e ps)).ack ≡ r.ack
  unfolding segments receive_all update_flow next_ack segment_of advance
  receive_all-gap [] e r d h small pos bound = refl
  receive_all-gap (p ∷ ps) e r d h small pos bound =
      let ne : (r.ack == e.seq) ≡ false = ==_ne r.ack e.seq λ q. absurd (omega (arith, h, q)) in
      let r' = (update_flow now handle (segment_of lport rport e p) r 0).1 in
      let kept : r'.ack ≡ r.ack = rw ne in
      receive_all-gap ps (advance e p) r' (d + length p) (omega (arith, h, kept))
        (omega (arith, kept)) (omega arith) (omega arith)
      ∙ kept

  -- The receiver expects the sender's number. A non-empty payload is lost, later ones arrive, all of
  -- them together shorter than 2^32 bytes, and then the peer answers: the receiver still
  -- expects the lost payload's number, and the answer sets the sender back to that number, so the
  -- two agree again.
  pub lost_payload-resync :
      (p : Bytes) (ps : List Bytes) (q : Bytes) (e r : TcpFlow)
      → r.ack ≡ e.seq
      → e.seq < 4294967296
      → 0 < length p
      → length p + total ps < 4294967296
      → ((receive_all now handle r (segments lport rport (advance e p) ps)).ack ≡ e.seq)
        × ((receive_all now handle (advance_all e (p ∷ ps)) (
              segments rport lport
                (receive_all now handle r (segments lport rport (advance e p) ps))
                (q ∷ []))).seq
            ≡ e.seq)
  unfolding segments advance_all receive_all update_flow segment_of advance
  lost_payload-resync p ps q e r h small pos bound =
      let gap =
        receive_all-gap ps (advance e p) r (length p) (omega (arith, h)) (omega (arith, h)) pos
          bound in
      (gap ∙ h, gap ∙ h)
