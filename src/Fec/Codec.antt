-- ===== src/Fec/Codec.antt =====
-- The Reed-Solomon library github.com/klauspost/reedsolomon, which faketcp/fec.go calls, as a
-- parameter: two operations, and the documented behaviour that the code relies on.
use tcpraw.Base.{
  ℕ, ◌+◌, ◌≤◌, ◌<◌, ◌≡◌, Bool, true, false, Option, none, some, List, [], ◌∷◌, ◌++◌, map, Bytes,
  length, take, All, count,
}

-- `encode` reads the data shards and gives the parity shards that Encode writes. `reconstruct_data`
-- is ReconstructData: a missing shard is `none`, and the result holds the data shards filled in.
-- Both give `none` where the library returns an error.
pub record Codec : Type 0 where
  pub encode : List Bytes → Option (List Bytes)
  pub reconstruct_data : List (Option Bytes) → Option (List (Option Bytes))

-- The shards that the mask keeps; the others are missing.
abbrev pub erase : List Bool → List Bytes → List (Option Bytes)
erase [] xs = []
erase (m ∷ ms) [] = []
erase (true ∷ ms) (x ∷ xs) = some x ∷ erase ms xs
erase (false ∷ ms) (x ∷ xs) = none ∷ erase ms xs

abbrev pub HasSize : ℕ → List Bytes → Type 0
HasSize size = All (λ d. length d ≡ size)

-- There are at most 256 shards: with more the library takes only sizes that are multiples of 64,
-- which the program does not see to. `k` data shards of one positive size have `p` parity shards of
-- that size, and any `k` of the `k + p` shards give all the data shards back.
pub record IsCodec (k p : ℕ) (c : Codec) : Type 0 where
  pub few : k + p ≤ 256
  pub encodes :
      (ds : List Bytes) (size : ℕ)
      → length ds ≡ k
      → 0 < size
      → HasSize size ds
      → (ps : List Bytes) × (c.encode ds ≡ some ps) × (length ps ≡ p) × HasSize size ps
  pub reconstructs :
      (ds ps : List Bytes) (size : ℕ) (kept : List Bool)
      → length ds ≡ k
      → HasSize size ds
      → c.encode ds ≡ some ps
      → length kept ≡ k + p
      → k ≤ count kept
      → (out : List (Option Bytes)) × (c.reconstruct_data (erase kept (ds ++ ps)) ≡ some out)
        × (take k out ≡ map some ds)
