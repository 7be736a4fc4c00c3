-- ===== src/Base/Outcome.antt =====
-- How a call ends: with a value, or in a Go run-time panic.
use Prim.Native.Nat.{ℕ, ◌+◌, ◌*◌}
use mathlib.Core.List.{List, ◌∷◌}
use mathlib.Core.Option.{Option, none, some}
use tcpraw.Base.Tests.{leb, if◌then◌else◌}
use tcpraw.Base.Lists.{length, take, drop, get_elem?}
use tcpraw.Base.Word.{Bytes}

pub data Run {ℓ} (A : Type ℓ) : Type ℓ where
  ok : A → Run A
  panic : Run A

-- The error values that the modelled functions return.
pub data Error : Type 0 where
  timeout eof flow_not_found not_tcp_addr wrong_port recv_closed too_large context_done
        wrong_remote :
      Error
  io_error : ℕ → Error

infixl 5 ◌>>=◌
abbrev pub ◌>>=◌ {ℓ κ} : {A : Type ℓ} {B : Type κ} → Run A → (A → Run B) → Run B
ok a >>= next = next a
panic >>= next = panic

-- The run ends with a value that satisfies `P`.
abbrev pub Returns {ℓ} : {A : Type ℓ} → (A → Type 0) → Run A → Type 0
Returns P (ok a) = P a
Returns P panic = ⊥

module _ {ℓ} {A : Type ℓ} where
  abbrev pub or_panic : Option A → Run A
  or_panic none = panic
  or_panic (some a) = ok a

  -- `s[i]`
  abbrev pub index : List A → ℕ → Run A
  index xs i = or_panic (get_elem? xs i)

  -- `s[n:]` and `s[:n]`, where the capacity of `s` is its length.
  abbrev pub slice_from : List A → ℕ → Run (List A)
  slice_from xs n = if leb n (length xs) then ok (drop n xs) else panic

  abbrev pub slice_to : List A → ℕ → Run (List A)
  slice_to xs n = if leb n (length xs) then ok (take n xs) else panic

-- `Uint16` and `Uint32` of binary.LittleEndian: they panic on a slice that is too short.
abbrev pub get_le16 : Bytes → Run ℕ
get_le16 (a ∷ b ∷ _) = ok (a + 256 * b)
get_le16 _ = panic

abbrev pub get_le32 : Bytes → Run ℕ
get_le32 (a ∷ b ∷ c ∷ d ∷ _) = ok (a + 256 * b + 65536 * c + 16777216 * d)
get_le32 _ = panic
