-- ===== src/Fec/Decoder/Group.antt =====
-- The assembly loop over the packets of one group: the sent packets are numbered from the group's
-- first sequence number, and a mask says which of them the queue holds.
use native.Mathlib.Nat.{mod-eq_of_lt, mod-add-mod}
use tcpraw.Base.{
  ℕ, ◌+◌, ◌-◌, ◌%◌, ◌≤◌, ◌<◌, ◌≡◌, refl, sym, ◌∙◌, Bool, true, false, List, [], ◌∷◌, ◌++◌, map,
  Option, none, some, arith, ltb, ◌==◌, if◌then◌else◌, length, replicate, All, count, pick,
  set-append, append_assoc, length-append, sub32, u32, Bytes,
}
use tcpraw.Fec.Codec.{erase}
use tcpraw.Fec.Wire.{FecPacket, type_data}
use tcpraw.Fec.Decoder.{is_later, is_earlier, Assembly, collect, assemble}
use tcpraw.Fec.Decoder.Order.{InWindow, Before, After, is_later-window, is_earlier-window}

-- Sequence numbers count up from `s`.
abbrev pub Numbered : ℕ → List FecPacket → Type 0
Numbered s [] = Unit {0}
Numbered s (p ∷ ps) = (p.seqid ≡ s) × Numbered (s + 1) ps

abbrev pub bodies : List FecPacket → List Bytes
bodies = map λ p. p.body

abbrev pub data_count : List FecPacket → ℕ
data_count [] = 0
data_count (p ∷ ps) = (if p.flag == type_data then 1 else 0) + data_count ps

abbrev pub max_body : ℕ → List FecPacket → ℕ
max_body m [] = m
max_body m (p ∷ ps) = max_body (if ltb m (length p.body) then length p.body else m) ps

-- A group of `n` sequence numbers from `start`, which do not wrap and lie in the window.
pub record IsGroup (n base start : ℕ) : Type 0 where
  pub pos : 0 < n
  pub aligned : start % n ≡ 0
  pub fits : start + n ≤ 4294967296
  pub base_fits : base < 4294967296
  pub in_window : sub32 start base + n ≤ 2147483648

module _ {n base start : ℕ} (g : IsGroup n base start) where
  abbrev pub last : ℕ
  last = start + n - 1

  pub slot : (j : ℕ) → j < n → (start + j) % u32 n ≡ j
  slot j h =
      let small : u32 n ≡ n = mod-eq_of_lt (ground (arith, g.pos, g.fits)) in
      let shifted : 0 + j ≡ j = omega arith in
      rw (small, ← mod-add-mod start n j, g.aligned, shifted) (mod-eq_of_lt h)

  pub member_window :
      (j : ℕ) → j < n → InWindow base (start + j) × (sub32 (start + j) base ≡ sub32 start base + j)
  member_window j h = let f = g.fits in let w = g.in_window in let b = g.base_fits in omega arith

  pub member_not_early : (j : ℕ) → j < n → is_earlier (start + j) start ≡ false
  member_not_early j h =
      let m = member_window j h in
      let z = (member_window 0 g.pos).0 in
      let f = g.fits in
      let w = g.in_window in
      let b = g.base_fits in
      rw (is_earlier-window base (start + j) start g.base_fits m.0 (omega arith)) (ground arith)

  pub last_window : InWindow base last × (sub32 last base ≡ sub32 start base + (n - 1))
  last_window =
      let p = g.pos in let f = g.fits in let w = g.in_window in let b = g.base_fits in omega arith

  pub member_not_late : (j : ℕ) → j < n → is_later (start + j) last ≡ false
  member_not_late j h =
      let m = member_window j h in
      let l = last_window in
      rw (is_later-window base (start + j) last g.base_fits m.0 l.0) (ground arith)

  pub Before-early :
      (p : FecPacket)
      → Before base start p
      → (is_earlier p.seqid start ≡ true) × (is_later p.seqid last ≡ false)
  Before-early p h =
      let z = (member_window 0 g.pos).0 in
      let l = last_window in
      let f = g.fits in
      let w = g.in_window in
      let b = g.base_fits in
      (
        rw (is_earlier-window base p.seqid start g.base_fits h.0 (omega arith)) (ground arith),
        rw (is_later-window base p.seqid last g.base_fits h.0 l.0) (ground arith),
      )

  pub after_late : (p : FecPacket) → After base last p → is_later p.seqid last ≡ true
  after_late p h =
      let l = last_window in
      rw (is_later-window base p.seqid last g.base_fits h.0 l.0) (ground arith)

  -- What stands before the group is passed over.
  pub assemble-Before :
      (xs ys : List FecPacket) (i j : ℕ) (a : Assembly)
      → All (Before base start) xs
      → i + length xs ≡ j
      → assemble n start last (xs ++ ys) i a ≡ assemble n start last ys j a
  unfolding assemble
  assemble-Before [] ys i j a h e = let e' : i ≡ j = omega arith in rw e'
  assemble-Before (p ∷ xs) ys i j a h e =
      rw ((Before-early p h.0).0, (Before-early p h.0).1)
        (assemble-Before xs ys (i + 1) j a h.1 (omega arith))

  -- What stands after it stops the loop.
  pub assemble-After :
      (ys : List FecPacket) (i : ℕ) (a : Assembly)
      → All (After base last) ys
      → assemble n start last ys i a ≡ a
  unfolding assemble
  assemble-After [] i a h = refl
  assemble-After (p ∷ ys) i a h = rw (after_late p h.0)

  -- What the loop has gathered from the packets that the mask keeps, the first of them at index `i`,
  -- when `done` and `fdone` stood for the packets before.
  pub record Gathered (mask : List Bool) (sent : List FecPacket) (done : List (Option Bytes))
      (fdone : List Bool) (i : ℕ) (a a' : Assembly) : Type 0 where
    pub shards : a'.shards ≡ done ++ erase mask (bodies sent)
    pub flags : a'.flags ≡ fdone ++ mask
    pub numshard : a'.numshard ≡ a.numshard + count mask
    pub num_data : a'.num_data_shard ≡ a.num_data_shard + data_count (pick mask sent)
    pub first :
        a'.first ≡ (if a.numshard == 0 then (if count mask == 0 then a.first else i) else a.first)
    pub maxlen : a'.maxlen ≡ max_body a.maxlen (pick mask sent)

  collect_shards :
      (p : FecPacket) (j i : ℕ) (a : Assembly) (done rest : List (Option Bytes))
      → p.seqid ≡ start + j
      → j < n
      → length done ≡ j
      → a.shards ≡ done ++ none ∷ rest
      → (collect n i p a).shards ≡ done ++ some p.body ∷ rest
  unfolding collect
  collect_shards p j i a done rest ep hj hd es =
      rw (ep, slot j hj, es) (set-append j done rest none (some p.body) hd)

  collect_flags :
      (p : FecPacket) (j i : ℕ) (a : Assembly) (done rest : List Bool)
      → p.seqid ≡ start + j
      → j < n
      → length done ≡ j
      → a.flags ≡ done ++ false ∷ rest
      → (collect n i p a).flags ≡ done ++ true ∷ rest
  unfolding collect
  collect_flags p j i a done rest ep hj hd es =
      rw (ep, slot j hj, es) (set-append j done rest false true hd)

  pub assemble-gathers :
      (mask : List Bool) (sent ys : List FecPacket) (done : List (Option Bytes)) (fdone : List Bool)
      (i j : ℕ) (a : Assembly)
      → length mask ≡ length sent
      → Numbered (start + j) sent
      → j + length sent ≡ n
      → length done ≡ j
      → length fdone ≡ j
      → a.shards ≡ done ++ replicate (length sent) none
      → a.flags ≡ fdone ++ replicate (length sent) false
      → (a' : Assembly) × (assemble n start last (pick mask sent ++ ys) i a
          ≡ assemble n start last ys (i + count mask) a')
        × Gathered mask sent done fdone i a a'
  unfolding assemble collect
  assemble-gathers [] [] ys done fdone i j a hm hn hj hd hf es ef =
      let e : i + 0 ≡ i = omega arith in
      (
        a,
        rw e,
        record {
          shards = es;
          flags = ef;
          numshard = omega arith;
          num_data = omega arith;
          first = ground arith;
          maxlen = refl;
        },
      )
  assemble-gathers [] (p ∷ sent) ys done fdone i j a hm hn hj hd hf es ef = absurd (omega arith)
  assemble-gathers (m ∷ mask) [] ys done fdone i j a hm hn hj hd hf es ef = absurd (omega arith)
  assemble-gathers (false ∷ mask) (p ∷ sent) ys done fdone i j a hm hn hj hd hf es ef =
      let next : start + j + 1 ≡ start + (j + 1) = omega arith in
      let (a', e, r) =
        assemble-gathers mask sent ys (done ++ none ∷ []) (fdone ++ false ∷ []) i (j + 1) a
          (omega arith) (rw next at hn.1) (omega arith)
          (omega (arith, length-append done (none ∷ [])))
          (omega (arith, length-append fdone (false ∷ [])))
          (es ∙ sym (append_assoc done (none ∷ []) (replicate (length sent) none)))
          (ef ∙ sym (append_assoc fdone (false ∷ []) (replicate (length sent) false))) in
      (
        a',
        e,
        record {
          shards = r.shards ∙ append_assoc done (none ∷ []) (erase mask (bodies sent));
          flags = r.flags ∙ append_assoc fdone (false ∷ []) mask;
          numshard = r.numshard;
          num_data = r.num_data;
          first = r.first;
          maxlen = r.maxlen;
        },
      )
  assemble-gathers (true ∷ mask) (p ∷ sent) ys done fdone i j a hm hn hj hd hf es ef =
      let next : start + j + 1 ≡ start + (j + 1) = omega arith in
      let shift : i + (1 + count mask) ≡ i + 1 + count mask = omega arith in
      let early : is_earlier p.seqid start ≡ false = rw (hn.0) (member_not_early j (omega arith)) in
      let late : is_later p.seqid last ≡ false = rw (hn.0) (member_not_late j (omega arith)) in
      let (a', e, r) =
        assemble-gathers mask sent ys (done ++ some p.body ∷ []) (fdone ++ true ∷ []) (i + 1)
          (j + 1) (collect n i p a) (omega arith) (rw next at hn.1) (omega arith)
          (omega (arith, length-append done (some p.body ∷ [])))
          (omega (arith, length-append fdone (true ∷ [])))
          (collect_shards p j i a done (replicate (length sent) none) hn.0 (omega arith) hd es
            ∙ sym (append_assoc done (some p.body ∷ []) (replicate (length sent) none)))
          (collect_flags p j i a fdone (replicate (length sent) false) hn.0 (omega arith) hf ef
            ∙ sym (append_assoc fdone (true ∷ []) (replicate (length sent) false))) in
      (
        a',
        rw (late, early, shift) e,
        record {
          shards = r.shards ∙ append_assoc done (some p.body ∷ []) (erase mask (bodies sent));
          flags = r.flags ∙ append_assoc fdone (true ∷ []) mask;
          numshard = omega (arith, r.numshard);
          num_data = ground (arith, r.num_data);
          first = ground (arith, r.first);
          maxlen = r.maxlen;
        },
      )
