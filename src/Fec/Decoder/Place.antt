-- ===== src/Fec/Decoder/Place.antt =====
-- An ordered receive queue, and where a sequence number stands in it.
use tcpraw.Base.{ℕ, zero, suc, ◌+◌, ◌≤◌, ◌<◌, ◌≡◌, refl, ap, List, [], ◌∷◌, ◌++◌, arith, All, sub32}
use tcpraw.Fec.Wire.{FecPacket}
use tcpraw.Fec.Decoder.Order.{InWindow, Before, After, sub32-injective}

-- Sequence numbers ascend from `lo`, counted from the base; in particular no two are equal.
abbrev pub Ordered : ℕ → ℕ → List FecPacket → Type 0
Ordered base lo [] = Unit {0}
Ordered base lo (p ∷ ps) =
    InWindow base p.seqid × (lo ≤ sub32 p.seqid base) × Ordered base (sub32 p.seqid base + 1) ps

pub Ordered-After :
    (base s lo : ℕ) (ps : List FecPacket)
    → Ordered base lo ps
    → sub32 s base < lo
    → All (After base s) ps
Ordered-After base s lo [] o h = tt
Ordered-After base s lo (p ∷ ps) o h =
    ((o.0, omega arith), Ordered-After base s (sub32 p.seqid base + 1) ps o.2 (omega arith))

pub Ordered-weaken :
    (base lo lo' : ℕ) (ps : List FecPacket) → lo' ≤ lo → Ordered base lo ps → Ordered base lo' ps
Ordered-weaken base lo lo' [] h o = tt
Ordered-weaken base lo lo' (p ∷ ps) h o = (o.0, omega arith, o.2)

data Trichotomy (a b : ℕ) : Type 0 where
  below : a < b → Trichotomy a b
  same : a ≡ b → Trichotomy a b
  above : b < a → Trichotomy a b

compare_cases : (a b : ℕ) → Trichotomy a b
compare_cases zero zero = same refl
compare_cases zero (suc b) = below (omega arith)
compare_cases (suc a) zero = above (omega arith)
compare_cases (suc a) (suc b) = elim (compare_cases a b) [
  | below h ↦ below (omega arith)
  | same h ↦ same (ap suc h)
  | above h ↦ above (omega arith)
]

-- How the number `s` stands to an ordered queue: it is there, or it has a place.
pub data Place (base lo s : ℕ) (rx : List FecPacket) : Type 0 where
  there :
      (xs ys : List FecPacket) (p : FecPacket)
      → rx ≡ xs ++ p ∷ ys
      → p.seqid ≡ s
      → All (After base s) ys
      → Place base lo s rx
  new :
      (xs ys : List FecPacket)
      → rx ≡ xs ++ ys
      → All (Before base s) xs
      → All (After base s) ys
      → ((p : FecPacket) → p.seqid ≡ s → Ordered base lo (xs ++ p ∷ ys))
      → Place base lo s rx

pub find-Place :
    (base lo s : ℕ) (rx : List FecPacket)
    → base < 4294967296
    → InWindow base s
    → lo ≤ sub32 s base
    → Ordered base lo rx
    → Place base lo s rx
find-Place base lo s [] hb hs h o = new [] [] refl tt tt λ p e. rw e (hs, h, tt)
find-Place base lo s (q ∷ qs) hb hs h o = elim (compare_cases (sub32 q.seqid base) (sub32 s base)) [
  | below lt ↦ elim (find-Place base (sub32 q.seqid base + 1) s qs hb hs (omega arith) o.2) [
    | there xs ys p e ep a ↦ there (q ∷ xs) ys p (ap (◌∷◌ q) e) ep a
    | new xs ys e b a k ↦ new (q ∷ xs) ys (ap (◌∷◌ q) e) ((o.0, lt), b) a λ p ep. (o.0, o.1, k p ep)
  ]
  | same eq ↦
      there [] qs q refl (sub32-injective base q.seqid s hb o.0 hs eq)
        (Ordered-After base s (sub32 q.seqid base + 1) qs o.2 (omega arith))
  | above gt ↦
      new [] (q ∷ qs) refl tt
        ((o.0, gt), Ordered-After base s (sub32 q.seqid base + 1) qs o.2 (omega arith))
        λ p ep. rw ep (hs, h, (o.0, omega arith, o.2))
]

-- What stands behind a packet of an ordered queue is after it.
pub Ordered-behind :
    (base lo : ℕ) (p : FecPacket) (xs ys : List FecPacket)
    → Ordered base lo (xs ++ p ∷ ys)
    → InWindow base p.seqid × All (After base p.seqid) ys
Ordered-behind base lo p [] ys o =
    (o.0, Ordered-After base p.seqid (sub32 p.seqid base + 1) ys o.2 (omega arith))
Ordered-behind base lo p (x ∷ xs) ys o = Ordered-behind base (sub32 x.seqid base + 1) p xs ys o.2
