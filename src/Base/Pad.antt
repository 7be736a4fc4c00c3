-- ===== src/Base/Pad.antt =====
-- Padding a byte string with zeros.
use Prim.Native.Nat.{ℕ, ◌+◌, ◌-◌, ◌≤◌}
use mathlib.Core.Path.{◌≡◌}
use mathlib.Core.List.{◌++◌, append-nil, append_assoc}
use native.Mathlib.Omega.{arith}
use tcpraw.Base.Lists.{length, replicate, length-append, length-replicate}
use tcpraw.Base.Word.{Bytes}

-- The bytes, with zeros behind them up to the size `size`.
abbrev pub pad : ℕ → Bytes → Bytes
pad size d = d ++ replicate (size - length d) 0

pub length-pad : (size : ℕ) (d : Bytes) → length d ≤ size → length (pad size d) ≡ size
length-pad size d h = omega (
  arith,
  length-append d (replicate (size - length d) 0),
  length-replicate {A = ℕ} (size - length d) 0,
)

pub pad_full : (size : ℕ) (d : Bytes) → length d ≡ size → pad size d ≡ d
pad_full size d h = let e : size - length d ≡ 0 = omega arith in rw e (append-nil d)

-- A prefix is padded by padding what is behind it.
pub pad-append : (size : ℕ) (h d : Bytes) → pad (length h + size) (h ++ d) ≡ h ++ pad size d
pad-append size h d =
    let e : length h + size - length (h ++ d) ≡ size - length d =
      omega (arith, length-append h d) in
    rw e (append_assoc h d (replicate (size - length d) 0))
