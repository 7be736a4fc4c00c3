-- ===== src/Faketcp/FakeConn/Stream.antt =====
-- A FakeConn without error correction is a stream of bytes.
use tcpraw.Base.{
  ℕ, zero, suc, ◌+◌, ◌≤◌, ◌≡◌, refl, sym, ap, ◌∙◌, Bool, none, List, [], ◌∷◌, ◌++◌, ltb,
  if◌then◌else◌, length, take, drop, min, take-append-drop, append_assoc, Bytes, u64, ok, arith,
  Bool-cases, inl, inr,
}
use tcpraw.Fec.Channel.{Reading, payload, failure, waiting}
use tcpraw.Faketcp.FakeConn.{FakeConn, read, copy_out}

abbrev pub flatten : List Bytes → Bytes
flatten [] = []
flatten (b ∷ bs) = b ++ flatten bs

-- What is still to be read.
abbrev pub stream : FakeConn → Bytes
stream f = f.recv_left ++ flatten f.recvch

abbrev pub bytes_of : Reading → Bytes
bytes_of (payload b) = b
bytes_of (failure e) = []
bytes_of waiting = []

drop-nothing : (n : ℕ) (d : Bytes) → length d ≤ n → drop n d ≡ []
drop-nothing zero [] h = refl
drop-nothing zero (x ∷ d) h = absurd (omega arith)
drop-nothing (suc n) [] h = refl
drop-nothing (suc n) (x ∷ d) h = drop-nothing n d (omega arith)

copy_out-stream :
    (size : ℕ) (f : FakeConn) (d : Bytes)
    → f.recv_left ≡ []
    → bytes_of ((copy_out size f d).1) ++ stream ((copy_out size f d).0) ≡ d ++ flatten f.recvch
unfolding copy_out
copy_out-stream size f d idle =
    let n = min size (length d) in
    elim (Bool-cases (ltb n (length d))) [
      | inl part ↦
          ap (λ (left : Bytes). take n d ++ (left ++ flatten f.recvch))
            (ap (λ (b : Bool). if b then drop n d else f.recv_left) part)
          ∙ sym (append_assoc (take n d) (drop n d) (flatten f.recvch))
          ∙ ap (λ (x : Bytes). x ++ flatten f.recvch) (take-append-drop n d)
      | inr whole ↦
          ap (λ (left : Bytes). take n d ++ (left ++ flatten f.recvch))
            (ap (λ (b : Bool). if b then drop n d else f.recv_left) whole
              ∙ idle
              ∙ sym (drop-nothing n d (ground (arith, whole))))
          ∙ sym (append_assoc (take n d) (drop n d) (flatten f.recvch))
          ∙ ap (λ (x : Bytes). x ++ flatten f.recvch) (take-append-drop n d)
    ]

-- A read without error correction never panics, and the bytes that it returns, with those that are
-- then still to be read, are the bytes that were to be read before: none is lost, repeated or moved,
-- whatever the size of the buffer.
pub read-stream :
    (size : ℕ) (f : FakeConn)
    → f.fec ≡ none
    → (f' : FakeConn) × (r : Reading) × (read size f ≡ ok (f', r))
      × (bytes_of r ++ stream f' ≡ stream f)
unfolding read
read-stream size f no_fec = go f.recv_left f.recvch refl refl
  where
    go :
        (left : Bytes) (ch : List Bytes)
        → f.recv_left ≡ left
        → f.recvch ≡ ch
        → (f' : FakeConn) × (r : Reading) × (read size f ≡ ok (f', r))
          × (bytes_of r ++ stream f' ≡ stream f)
    go [] [] el ec = (f, waiting, simp (read, el, no_fec, ec), refl)
    go [] (d ∷ ds) el ec =
        let f₁ : FakeConn = record f { recvch = ds } in
        let (f', r) = copy_out size f₁ d in
        (f', r, simp (read, el, no_fec, ec), copy_out-stream size f₁ d el ∙ simp (el, ec))
    go (x ∷ left) ch el ec =
        let n = min size (length (x ∷ left)) in
        (
          record f { recv_left = drop n (x ∷ left); rx_bytes = u64 (f.rx_bytes + n) },
          payload (take n (x ∷ left)),
          simp (read, el),
          sym (append_assoc (take n (x ∷ left)) (drop n (x ∷ left)) (flatten f.recvch))
              ∙ ap (λ (y : Bytes). y ++ flatten f.recvch) (take-append-drop n (x ∷ left) ∙ sym el),
        )
