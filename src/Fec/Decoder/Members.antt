-- ===== src/Fec/Decoder/Members.antt =====
-- How the members of a group stand to one another and to the rest of the queue.
use tcpraw.Base.{
  ℕ, ◌+◌, ◌-◌, ◌≤◌, ◌<◌, ◌≡◌, Bool, true, false, List, [], ◌∷◌, ◌++◌, arith, length, take, drop,
  All, pick, take-append_past, drop-append_before, suc, sub32,
}
use tcpraw.Fec.Wire.{FecPacket}
use tcpraw.Fec.Decoder.Order.{Before, After}
use tcpraw.Fec.Decoder.Group.{IsGroup, Numbered, member_window}

-- The members that a mask keeps stand before, or after, another member.
pub Numbered-Before :
    {n base start : ℕ} (g : IsGroup n base start) (mask : List Bool) (ps : List FecPacket) (j r : ℕ)
    → Numbered (start + j) ps
    → j + length ps ≤ r
    → r < n
    → All (Before base (start + r)) (pick mask ps)
Numbered-Before g [] ps j r h e lt = tt
Numbered-Before g (m ∷ mask) [] j r h e lt = tt
Numbered-Before {n} {base} {start} g (true ∷ mask) (p ∷ ps) j r h e lt =
    let next : start + j + 1 ≡ start + (j + 1) = omega arith in
    (
      rw (h.0) (
        (member_window g j (omega arith)).0,
        omega (arith, (member_window g j (omega arith)).1, (member_window g r lt).1),
      ),
      Numbered-Before g mask ps (j + 1) r (rw next at h.1) (omega arith) lt,
    )
Numbered-Before {n} {base} {start} g (false ∷ mask) (p ∷ ps) j r h e lt =
    let next : start + j + 1 ≡ start + (j + 1) = omega arith in
    Numbered-Before g mask ps (j + 1) r (rw next at h.1) (omega arith) lt

pub Numbered-After :
    {n base start : ℕ} (g : IsGroup n base start) (mask : List Bool) (ps : List FecPacket) (j r : ℕ)
    → Numbered (start + j) ps
    → r < j
    → j + length ps ≤ n
    → All (After base (start + r)) (pick mask ps)
Numbered-After g [] ps j r h lt e = tt
Numbered-After g (m ∷ mask) [] j r h lt e = tt
Numbered-After {n} {base} {start} g (true ∷ mask) (p ∷ ps) j r h lt e =
    let next : start + j + 1 ≡ start + (j + 1) = omega arith in
    (
      rw (h.0) (
        (member_window g j (omega arith)).0,
        omega (arith, (member_window g j (omega arith)).1, (member_window g r (omega arith)).1),
      ),
      Numbered-After g mask ps (j + 1) r (rw next at h.1) (omega arith) (omega arith),
    )
Numbered-After {n} {base} {start} g (false ∷ mask) (p ∷ ps) j r h lt e =
    let next : start + j + 1 ≡ start + (j + 1) = omega arith in
    Numbered-After g mask ps (j + 1) r (rw next at h.1) (omega arith) (omega arith)

pub Before-mono :
    (base s t : ℕ) (ps : List FecPacket)
    → sub32 s base ≤ sub32 t base
    → All (Before base s) ps
    → All (Before base t) ps
Before-mono base s t [] h a = tt
Before-mono base s t (p ∷ ps) h a = ((a.0.0, omega arith), Before-mono base s t ps h a.1)

pub After-mono :
    (base s t : ℕ) (ps : List FecPacket)
    → sub32 t base ≤ sub32 s base
    → All (After base s) ps
    → All (After base t) ps
After-mono base s t [] h a = tt
After-mono base s t (p ∷ ps) h a = ((a.0.0, omega arith), After-mono base s t ps h a.1)

pub Numbered-append :
    (s : ℕ) (xs ys : List FecPacket)
    → Numbered s (xs ++ ys)
    → Numbered s xs × Numbered (s + length xs) ys
Numbered-append s [] ys h = let e : s + 0 ≡ s = omega arith in (tt, rw e h)
Numbered-append s (x ∷ xs) ys h =
    let r = Numbered-append (s + 1) xs ys h.1 in
    let e : s + 1 + length xs ≡ s + suc (length xs) = omega arith in ((h.0, r.0), rw e at r.1)

-- The window begins in what stands before the group and ends in what stands after it.
pub window_split :
    (pre mine post : List FecPacket) (lo hi : ℕ)
    → lo ≤ length pre
    → length pre + length mine ≤ hi
    → drop lo (take hi (pre ++ (mine ++ post)))
      ≡ drop lo pre ++ (mine ++ take (hi - length pre - length mine) post)
window_split pre mine post lo hi h1 h2 =
    rw
      (
        take-append_past hi pre (mine ++ post) (omega arith),
        take-append_past (hi - length pre) mine post (omega arith),
      )
      (drop-append_before lo pre _ h1)
