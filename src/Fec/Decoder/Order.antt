-- ===== src/Fec/Decoder/Order.antt =====
-- The order of the receive queue: sequence numbers in a window of 2 ^ 31 from a base, compared as
-- distances from it, which is what the signed difference of `_itimediff` decides there.
use tcpraw.Base.{
  ℕ, zero, suc, ◌+◌, ◌≤◌, ◌<◌, ◌≡◌, refl, ap, ◌∙◌, List, [], ◌∷◌, ◌++◌, Option, none, some, arith,
  ltb, ◌==◌, length, get_or, All, take-append, drop-append, append-nil, get_or-append, get_or-left,
  All-get_or, length-append, sub32, ==_refl, ==_ne, append_assoc, true, false,
}
use tcpraw.Fec.Wire.{FecPacket}
use tcpraw.Fec.Decoder.{is_later, is_earlier, no_packet, find_place, insert_at}

-- A sequence number of the window.
abbrev pub InWindow : ℕ → ℕ → Type 0
InWindow base s = (s < 4294967296) × (sub32 s base < 2147483648)

pub is_later-window :
    (base s t : ℕ)
    → base < 4294967296
    → InWindow base s
    → InWindow base t
    → is_later s t ≡ ltb (sub32 t base) (sub32 s base)
is_later-window base s t hb hs ht = ground arith

pub is_earlier-window :
    (base s t : ℕ)
    → base < 4294967296
    → InWindow base s
    → InWindow base t
    → is_earlier s t ≡ ltb (sub32 s base) (sub32 t base)
is_earlier-window base s t hb hs ht = ground arith

pub sub32-injective :
    (base s t : ℕ)
    → base < 4294967296
    → InWindow base s
    → InWindow base t
    → sub32 s base ≡ sub32 t base
    → s ≡ t
sub32-injective base s t hb hs ht e = omega arith

-- The packet stands before, or after, the number `s`.
abbrev pub Before : ℕ → ℕ → FecPacket → Type 0
Before base s p = InWindow base p.seqid × (sub32 p.seqid base < sub32 s base)

abbrev pub After : ℕ → ℕ → FecPacket → Type 0
After base s p = InWindow base p.seqid × (sub32 s base < sub32 p.seqid base)

module _ (base s : ℕ) (hb : base < 4294967296) (hs : InWindow base s) where
  pub is_later-Before : (p : FecPacket) → Before base s p → is_later s p.seqid ≡ true
  is_later-Before p h = ground (arith, is_later-window base s p.seqid hb hs h.0)

  pub is_later-After : (p : FecPacket) → After base s p → is_later s p.seqid ≡ false
  is_later-After p h = ground (arith, is_later-window base s p.seqid hb hs h.0)

  pub ne-Before : (p : FecPacket) → Before base s p → (s == p.seqid) ≡ false
  ne-Before p h = ==_ne s p.seqid λ e. absurd (omega arith)

  pub ne-After : (p : FecPacket) → After base s p → (s == p.seqid) ≡ false
  ne-After p h = ==_ne s p.seqid λ e. absurd (omega arith)

  -- The loop passes every packet that stands after `s`.
  skips_after :
      (xs ys : List FecPacket) (j i : ℕ)
      → All (After base s) ys
      → j ≤ length ys
      → length xs + j ≡ i
      → find_place s (xs ++ ys) i ≡ find_place s (xs ++ ys) (length xs)
  unfolding find_place
  skips_after xs ys zero i a h e = let e' : i ≡ length xs = omega arith in rw e'
  skips_after xs ys (suc j) zero a h e = absurd (omega arith)
  skips_after xs ys (suc j) (suc i) a h e =
      let at = get_or-append xs ys j i no_packet (omega arith) in
      let after = All-get_or (After base s) ys j no_packet a (omega arith) in
      rw (at, ne-After (get_or ys j no_packet) after, is_later-After (get_or ys j no_packet) after)
        (skips_after xs ys j i a (omega arith) (omega arith))

  stops-Before :
      (xs ys : List FecPacket) (i : ℕ)
      → All (Before base s) xs
      → length xs ≡ i
      → find_place s (xs ++ ys) i ≡ some i
  unfolding find_place
  stops-Before xs ys zero a e = refl
  stops-Before xs ys (suc i) a e =
      let at = get_or-left xs ys i no_packet (omega arith) in
      let before = All-get_or (Before base s) xs i no_packet a (omega arith) in
      rw
        (
          at,
          ne-Before (get_or xs i no_packet) before,
          is_later-Before (get_or xs i no_packet) before,
        )
        (ap {B = Option ℕ} some (omega arith))

  -- A new number is placed between what stands before it and what stands after it.
  pub find_place-new :
      (xs ys : List FecPacket)
      → All (Before base s) xs
      → All (After base s) ys
      → find_place s (xs ++ ys) (length (xs ++ ys)) ≡ some (length xs)
  find_place-new xs ys before after =
      skips_after xs ys (length ys) _ after (omega arith) (omega (arith, length-append xs ys))
      ∙ stops-Before xs ys (length xs) before refl

  -- A number that the queue has is found, wherever it stands.
  pub find_place-duplicate :
      (xs ys : List FecPacket) (p : FecPacket)
      → p.seqid ≡ s
      → All (After base s) ys
      → find_place s (xs ++ p ∷ ys) (length (xs ++ p ∷ ys)) ≡ none
  unfolding find_place
  find_place-duplicate xs ys p e after = rw (← append_assoc xs (p ∷ []) ys) (
      skips_after (xs ++ p ∷ []) ys (length ys) _ after (omega arith)
        (omega (arith, length-append (xs ++ p ∷ []) ys))
      ∙ found)
    where
      found : find_place s ((xs ++ p ∷ []) ++ ys) (length (xs ++ p ∷ [])) ≡ none
      found =
          let size : length (xs ++ p ∷ []) ≡ suc (length xs) =
            omega (arith, length-append xs (p ∷ [])) in
          let at = get_or-append xs (p ∷ ys) 0 (length xs) no_packet (omega arith) in
          rw (size, append_assoc xs (p ∷ []) ys, at, e, ==_refl s)

-- Inserting at the length of the first part puts the packet between the two parts.
pub insert_at-append :
    (xs ys : List FecPacket) (p : FecPacket) → insert_at (length xs) p (xs ++ ys) ≡ xs ++ p ∷ ys
unfolding insert_at
insert_at-append xs [] p = rw (append-nil xs, ==_refl (length xs))
insert_at-append xs (y ∷ ys) p =
    let longer : (length xs == length (xs ++ y ∷ ys)) ≡ false =
      ==_ne _ _ λ e. absurd (omega (arith, length-append xs (y ∷ ys))) in
    rw (longer, take-append (length xs) xs (y ∷ ys) refl, drop-append (length xs) xs (y ∷ ys) refl)
