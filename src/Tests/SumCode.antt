-- ===== src/Tests/SumCode.antt =====
-- A codec for two data shards and one parity shard, their sum byte by byte, which meets the
-- documented behaviour of the Reed-Solomon library.
use tcpraw.Base.{
  ℕ, suc, ◌+◌, ◌-◌, ◌≤◌, ◌≡◌, refl, sym, ap, ◌∙◌, subst, Bool, true, false, Option, none, some,
  List, [], ◌∷◌, ◌++◌, map, length, take, count, Bytes, arith,
}
use tcpraw.Fec.Codec.{Codec, IsCodec, HasSize, erase}

abbrev pub add : Bytes → Bytes → Bytes
add (x ∷ xs) (y ∷ ys) = (x + y) ∷ add xs ys
add _ _ = []

abbrev pub sub : Bytes → Bytes → Bytes
sub (x ∷ xs) (y ∷ ys) = (x - y) ∷ sub xs ys
sub _ _ = []

abbrev pub sum_encode : List Bytes → Option (List Bytes)
sum_encode (a ∷ b ∷ []) = some (add a b ∷ [])
sum_encode _ = none

abbrev pub sum_reconstruct : List (Option Bytes) → Option (List (Option Bytes))
sum_reconstruct (some a ∷ some b ∷ p ∷ []) = some (some a ∷ some b ∷ p ∷ [])
sum_reconstruct (none ∷ some b ∷ some p ∷ []) = some (some (sub p b) ∷ some b ∷ some p ∷ [])
sum_reconstruct (some a ∷ none ∷ some p ∷ []) = some (some a ∷ some (sub p a) ∷ some p ∷ [])
sum_reconstruct _ = none

abbrev pub sum_code : Codec
sum_code = record { encode = sum_encode; reconstruct_data = sum_reconstruct }

sub-add_left : (a b : Bytes) → length a ≡ length b → sub (add a b) b ≡ a
sub-add_left [] [] e = refl
sub-add_left [] (y ∷ ys) e = absurd (omega arith)
sub-add_left (x ∷ xs) [] e = absurd (omega arith)
sub-add_left (x ∷ xs) (y ∷ ys) e =
    let h : x + y - y ≡ x = omega arith in rw (h, sub-add_left xs ys (omega arith))

sub-add_right : (a b : Bytes) → length a ≡ length b → sub (add a b) a ≡ b
sub-add_right [] [] e = refl
sub-add_right [] (y ∷ ys) e = absurd (omega arith)
sub-add_right (x ∷ xs) [] e = absurd (omega arith)
sub-add_right (x ∷ xs) (y ∷ ys) e =
    let h : x + y - x ≡ y = omega arith in rw (h, sub-add_right xs ys (omega arith))

length-add : (a b : Bytes) → length a ≡ length b → length (add a b) ≡ length a
length-add [] [] e = refl
length-add [] (y ∷ ys) e = absurd (omega arith)
length-add (x ∷ xs) [] e = absurd (omega arith)
length-add (x ∷ xs) (y ∷ ys) e = ap suc (length-add xs ys (omega arith))

some-inj : {x y : List Bytes} → Path (Option (List Bytes)) (some x) (some y) → x ≡ y
some-inj {x} e = ap (λ (o : Option (List Bytes)). elim o [ none ↦ x | some z ↦ z ]) e

Recovers : List Bytes → List Bool → List Bytes → Type 0
Recovers ds kept ps =
    (out : List (Option Bytes)) × (sum_reconstruct (erase kept (ds ++ ps)) ≡ some out)
    × (take 2 out ≡ map some ds)

recovers :
    (a b : Bytes) (kept : List Bool)
    → length a ≡ length b
    → length kept ≡ 3
    → 2 ≤ count kept
    → Recovers (a ∷ b ∷ []) kept (add a b ∷ [])
unfolding Recovers
recovers a b (true ∷ true ∷ true ∷ []) e l q = (some a ∷ some b ∷ some (add a b) ∷ [], refl, refl)
recovers a b (true ∷ true ∷ false ∷ []) e l q = (some a ∷ some b ∷ none ∷ [], refl, refl)
recovers a b (true ∷ false ∷ true ∷ []) e l q = (
  some a ∷ some (sub (add a b) a) ∷ some (add a b) ∷ [],
  refl,
  ap (λ (x : Bytes). some a ∷ some x ∷ []) (sub-add_right a b e),
)
recovers a b (false ∷ true ∷ true ∷ []) e l q = (
  some (sub (add a b) b) ∷ some b ∷ some (add a b) ∷ [],
  refl,
  ap (λ (x : Bytes). some x ∷ some b ∷ []) (sub-add_left a b e),
)
recovers a b (true ∷ false ∷ false ∷ []) e l q = absurd (omega arith)
recovers a b (false ∷ true ∷ false ∷ []) e l q = absurd (omega arith)
recovers a b (false ∷ false ∷ true ∷ []) e l q = absurd (omega arith)
recovers a b (false ∷ false ∷ false ∷ []) e l q = absurd (omega arith)
recovers a b [] e l q = absurd (omega arith)
recovers a b (x ∷ []) e l q = absurd (omega arith)
recovers a b (x ∷ y ∷ []) e l q = absurd (omega arith)
recovers a b (x ∷ y ∷ z ∷ w ∷ ms) e l q = absurd (omega arith)

encodes :
    (ds : List Bytes) (size : ℕ)
    → length ds ≡ 2
    → HasSize size ds
    → (ps : List Bytes) × (sum_encode ds ≡ some ps) × (length ps ≡ 1) × HasSize size ps
encodes [] size e h = absurd (omega arith)
encodes (a ∷ []) size e h = absurd (omega arith)
encodes (a ∷ b ∷ []) size e h =
    let same : length a ≡ length b = h.0 ∙ sym (h.1.0) in
    (add a b ∷ [], refl, refl, (length-add a b same ∙ h.0, tt))
encodes (a ∷ b ∷ c ∷ ds) size e h = absurd (omega arith)

reconstructs :
    (ds ps : List Bytes) (size : ℕ) (kept : List Bool)
    → length ds ≡ 2
    → HasSize size ds
    → sum_encode ds ≡ some ps
    → length kept ≡ 3
    → 2 ≤ count kept
    → Recovers ds kept ps
reconstructs [] ps size kept e h enc l q = absurd (omega arith)
reconstructs (a ∷ []) ps size kept e h enc l q = absurd (omega arith)
reconstructs (a ∷ b ∷ []) ps size kept e h enc l q =
    subst (Recovers (a ∷ b ∷ []) kept) (some-inj enc) (recovers a b kept (h.0 ∙ sym (h.1.0)) l q)
reconstructs (a ∷ b ∷ c ∷ ds) ps size kept e h enc l q = absurd (omega arith)

pub sum_code-IsCodec : IsCodec 2 1 sum_code
unfolding Recovers
sum_code-IsCodec = record {
  few = omega arith;
  encodes = λ ds size l pos h. encodes ds size l h;
  reconstructs = reconstructs;
}
