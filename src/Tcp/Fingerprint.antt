-- ===== src/Tcp/Fingerprint.antt =====
-- fingerprints.go: the TCP options of the segments that are sent. The options of a fingerprint are
-- one slice that all connections share; makeOption writes the time into it before every segment.
use tcpraw.Base.{
  ℕ, ◌+◌, ◌/◌, ◌%◌, ◌≡◌, refl, List, [], ◌∷◌, ◌++◌, drop, length, replicate, Bytes, u32, Run, ok,
  ◌>>=◌, index, slice_from, slice_to, set, panic, leb, if◌then◌else◌,
}

pub record TcpOption : Type 0 where
  pub option_type : ℕ
  pub option_length : ℕ
  pub option_data : Bytes

pub data FingerPrintType : Type 0 where
  type_linux : FingerPrintType

pub record FingerPrint : Type 0 where
  pub kind : FingerPrintType
  pub window : ℕ
  pub options : List TcpOption
  pub ttl : ℕ

-- Two fillers, and the time stamps.
abbrev pub finger_print_linux : FingerPrint
finger_print_linux = record {
  kind = type_linux;
  window = 65535;
  options =
      record { option_type = 1; option_length = 0; option_data = [] }
      ∷ record { option_type = 1; option_length = 0; option_data = [] }
      ∷ record { option_type = 8; option_length = 10; option_data = replicate 10 0 }
      ∷ [];
  ttl = 64;
}

abbrev pub default_finger_print : FingerPrint
default_finger_print = finger_print_linux

-- `PutUint32` of binary.BigEndian, which panics on a slice that is too short.
abbrev pub be32 : ℕ → Bytes
be32 v = v / 16777216 % 256 ∷ v / 65536 % 256 ∷ v / 256 % 256 ∷ v % 256 ∷ []

abbrev pub put_be32 : ℕ → Bytes → Run Bytes
put_be32 v b = if leb 4 (length b) then ok (be32 v ++ drop 4 b) else panic

-- `makeOption` at a time in nanoseconds: it counts seconds.
unfoldable pub make_option : FingerPrintType → ℕ → ℕ → List TcpOption → Run (List TcpOption)
make_option type_linux seed nanos options =
    let now = u32 (nanos / 1000000000) in
    index options 2 >>= λ o. slice_to o.option_data 4 >>= λ head. put_be32 now head >>= λ head'.
    slice_from (head' ++ drop 4 o.option_data) 4 >>= λ tail.
    put_be32 (u32 (seed + now)) tail >>= λ tail'.
    ok (set options 2 (record o { option_data = head' ++ tail' }))

-- The time stamps of a fingerprint.
abbrev pub stamped : ℕ → ℕ → List TcpOption
stamped seed nanos =
    let now = u32 (nanos / 1000000000) in
    record { option_type = 1; option_length = 0; option_data = [] }
    ∷ record { option_type = 1; option_length = 0; option_data = [] }
    ∷ record {
      option_type = 8;
      option_length = 10;
      option_data = be32 now ++ (be32 (u32 (seed + now)) ++ 0 ∷ 0 ∷ []);
    }
    ∷ []

-- The options of segments that are sent one after another.
unfoldable pub make_options : ℕ → List ℕ → List TcpOption → Run (List TcpOption)
unfolding make_option
make_options seed [] options = ok options
make_options seed (t ∷ ts) options =
    let rest = λ (o : List TcpOption). make_options seed ts o in
    make_option type_linux seed t options >>= λ options'. rest options'

-- However often the time was written into the shared options of the fingerprint, no call of
-- makeOption panics, and they hold the time of the last call alone: its seconds, and these moved by
-- the seed.
pub make_options-last :
    (seed : ℕ) (ts : List ℕ) (last : ℕ)
    → make_options seed (ts ++ last ∷ []) finger_print_linux.options ≡ ok (stamped seed last)
unfolding make_options
make_options-last seed [] last = refl
make_options-last seed (t ∷ ts) last = go ts t
  where
    go :
        (ts : List ℕ) (t : ℕ)
        → make_options seed (ts ++ last ∷ []) (stamped seed t) ≡ ok (stamped seed last)
    go [] t = refl
    go (u ∷ us) t = go us u
