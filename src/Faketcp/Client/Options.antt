-- ===== src/Faketcp/Client/Options.antt =====
-- WithClientFec and NewClient of faketcp/client.go.
use tcpraw.Base.{
  ℕ, ◌||◌, Option, none, some, List, [], ◌∷◌, ◌==◌, if◌then◌else◌, Run, ok, panic, ◌>>=◌,
}
use tcpraw.Fec.Codec.{Codec}
use tcpraw.Fec.Channel.{new_fec}
use tcpraw.Faketcp.Client.{Client}

-- `WithClientFec`; negative numbers, which are refused like zero, are left out.
pub data ClientOption : Type 0 where
  with_client_fec : ℕ → ℕ → ClientOption

unfoldable pub apply_client_option : (ℕ → ℕ → Option Codec) → ClientOption → Client → Run Client
unfolding new_fec
apply_client_option new_codec (with_client_fec data_shards parity_shards) c =
    if (data_shards == 0) || (parity_shards == 0)
    then panic
    else ok (record c { fec = some (new_fec new_codec data_shards parity_shards 0) })

unfoldable pub apply_client_options :
    (ℕ → ℕ → Option Codec) → List ClientOption → Client → Run Client
unfolding apply_client_option
apply_client_options new_codec [] c = ok c
apply_client_options new_codec (o ∷ os) c =
    let rest = λ (c' : Client). apply_client_options new_codec os c' in
    apply_client_option new_codec o c >>= rest

-- `NewClient`
unfoldable pub new_client : (ℕ → ℕ → Option Codec) → List ClientOption → Run Client
unfolding apply_client_options
new_client new_codec opts =
    apply_client_options new_codec opts (record { tx_bytes = 0; rx_bytes = 0; fec = none })
