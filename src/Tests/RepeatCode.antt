-- ===== src/Tests/RepeatCode.antt =====
-- A codec for one data shard and one parity shard, its copy, which meets the documented behaviour of
-- the Reed-Solomon library.
use tcpraw.Base.{
  ℕ, ◌≤◌, ◌≡◌, refl, ap, subst, Bool, true, false, Option, none, some, List, [], ◌∷◌, ◌++◌, map,
  length, take, count, Bytes, arith,
}
use tcpraw.Fec.Codec.{Codec, IsCodec, HasSize, erase}

abbrev pub copy_encode : List Bytes → Option (List Bytes)
copy_encode (a ∷ []) = some (a ∷ [])
copy_encode _ = none

abbrev pub copy_reconstruct : List (Option Bytes) → Option (List (Option Bytes))
copy_reconstruct (some a ∷ p ∷ []) = some (some a ∷ p ∷ [])
copy_reconstruct (none ∷ some p ∷ []) = some (some p ∷ some p ∷ [])
copy_reconstruct _ = none

abbrev pub copy_code : Codec
copy_code = record { encode = copy_encode; reconstruct_data = copy_reconstruct }

encodes :
    (ds : List Bytes) (size : ℕ)
    → length ds ≡ 1
    → HasSize size ds
    → (ps : List Bytes) × (copy_encode ds ≡ some ps) × (length ps ≡ 1) × HasSize size ps
encodes [] size e h = absurd (omega arith)
encodes (a ∷ []) size e h = (a ∷ [], refl, refl, h)
encodes (a ∷ b ∷ ds) size e h = absurd (omega arith)

Recovers : List Bytes → List Bool → List Bytes → Type 0
Recovers ds kept ps =
    (out : List (Option Bytes)) × (copy_reconstruct (erase kept (ds ++ ps)) ≡ some out)
    × (take 1 out ≡ map some ds)

recovers :
    (a : Bytes) (kept : List Bool)
    → length kept ≡ 2
    → 1 ≤ count kept
    → Recovers (a ∷ []) kept (a ∷ [])
unfolding Recovers
recovers a (true ∷ true ∷ []) l q = (some a ∷ some a ∷ [], refl, refl)
recovers a (true ∷ false ∷ []) l q = (some a ∷ none ∷ [], refl, refl)
recovers a (false ∷ true ∷ []) l q = (some a ∷ some a ∷ [], refl, refl)
recovers a (false ∷ false ∷ []) l q = absurd (omega arith)
recovers a [] l q = absurd (omega arith)
recovers a (x ∷ []) l q = absurd (omega arith)
recovers a (x ∷ y ∷ z ∷ ms) l q = absurd (omega arith)

some-inj : {x y : List Bytes} → Path (Option (List Bytes)) (some x) (some y) → x ≡ y
some-inj {x} e = ap (λ (o : Option (List Bytes)). elim o [ none ↦ x | some z ↦ z ]) e

reconstructs :
    (ds ps : List Bytes) (size : ℕ) (kept : List Bool)
    → length ds ≡ 1
    → HasSize size ds
    → copy_encode ds ≡ some ps
    → length kept ≡ 2
    → 1 ≤ count kept
    → Recovers ds kept ps
reconstructs [] ps size kept e h enc l q = absurd (omega arith)
reconstructs (a ∷ []) ps size kept e h enc l q =
    subst (Recovers (a ∷ []) kept) (some-inj enc) (recovers a kept l q)
reconstructs (a ∷ b ∷ ds) ps size kept e h enc l q = absurd (omega arith)

pub copy_code-IsCodec : IsCodec 1 1 copy_code
unfolding Recovers
copy_code-IsCodec = record {
  few = omega arith;
  encodes = λ ds size l pos h. encodes ds size l h;
  reconstructs = reconstructs;
}
