-- ===== src/Base/Masks.antt =====
-- A mask over a list, changed at one position.
use Prim.Native.Nat.{ℕ, zero, suc, ◌+◌, ◌<◌}
use mathlib.Core.Path.{◌≡◌, refl, ap}
use mathlib.Core.Bool.{Bool, true, false}
use mathlib.Core.List.{List, [], ◌∷◌, ◌++◌}
use mathlib.Core.Option.{some}
use native.Mathlib.Omega.{arith}
use tcpraw.Base.Lists.{length, get_elem?, set, take, drop, replicate, pick, count}

module _ {ℓ} {A : Type ℓ} where
  -- A list around one of its elements.
  pub split_at :
      (xs : List A) (j : ℕ) (x : A)
      → get_elem? xs j ≡ some x
      → xs ≡ take j xs ++ x ∷ drop (suc j) xs
  split_at [] j x e = cc
  split_at (y ∷ xs) zero x e = let h : y ≡ x = cc in ap (λ (z : A). z ∷ xs) h
  split_at (y ∷ xs) (suc j) x e = ap (◌∷◌ y) (split_at xs j x e)

  pub set_split :
      (xs : List A) (j : ℕ) (x v : A)
      → get_elem? xs j ≡ some x
      → set xs j v ≡ take j xs ++ v ∷ drop (suc j) xs
  set_split [] j x v e = cc
  set_split (y ∷ xs) zero x v e = refl
  set_split (y ∷ xs) (suc j) x v e = ap (◌∷◌ y) (set_split xs j x v e)

  pub get_elem?-lt_length : (xs : List A) (j : ℕ) (x : A) → get_elem? xs j ≡ some x → j < length xs
  get_elem?-lt_length [] j x e = cc
  get_elem?-lt_length (y ∷ xs) zero x e = omega arith
  get_elem?-lt_length (y ∷ xs) (suc j) x e = omega (arith, get_elem?-lt_length xs j x e)

  -- What a mask keeps, around a position that it does not keep.
  pub pick_around :
      (m : List Bool) (xs : List A) (j : ℕ)
      → get_elem? m j ≡ some false
      → pick m xs ≡ pick (take j m) (take j xs) ++ pick (drop (suc j) m) (drop (suc j) xs)
  pick_around [] xs j e = cc
  pick_around (b ∷ m) [] zero e = none_picked m
    where
      none_picked : (m : List Bool) → [] ≡ pick {A = A} m []
      none_picked [] = refl
      none_picked (b ∷ m) = refl
  pick_around (true ∷ m) (x ∷ xs) zero e = cc
  pick_around (false ∷ m) (x ∷ xs) zero e = refl
  pick_around (b ∷ m) [] (suc j) e = none_picked (drop (suc j) m)
    where
      none_picked : (m : List Bool) → [] ≡ pick {A = A} m []
      none_picked [] = refl
      none_picked (b ∷ m) = refl
  pick_around (true ∷ m) (x ∷ xs) (suc j) e = ap (◌∷◌ x) (pick_around m xs j e)
  pick_around (false ∷ m) (x ∷ xs) (suc j) e = pick_around m xs j e

pub count-set :
    (m : List Bool) (j : ℕ) → get_elem? m j ≡ some false → count (set m j true) ≡ count m + 1
count-set [] j e = cc
count-set (true ∷ m) zero e = cc
count-set (false ∷ m) zero e = omega arith
count-set (true ∷ m) (suc j) e = omega (arith, count-set m j e)
count-set (false ∷ m) (suc j) e = count-set m j e

pub count-replicate : (n : ℕ) → count (replicate n false) ≡ 0
count-replicate zero = refl
count-replicate (suc n) = count-replicate n

pub pick-replicate {ℓ} : {A : Type ℓ} (n : ℕ) (xs : List A) → pick (replicate n false) xs ≡ []
pick-replicate zero xs = refl
pick-replicate (suc n) [] = refl
pick-replicate (suc n) (x ∷ xs) = pick-replicate n xs

-- The mask after the positions have been kept one by one, and that they are new each time: they are
-- positions of the mask, no two the same.
abbrev pub marked : List Bool → List ℕ → List Bool
marked m [] = m
marked m (j ∷ js) = marked (set m j true) js

abbrev pub Fresh : List Bool → List ℕ → Type 0
Fresh m [] = Unit {0}
Fresh m (j ∷ js) = (get_elem? m j ≡ some false) × Fresh (set m j true) js
