-- ===== src/Faketcp/Listener/Options.antt =====
-- WithListenerFec and NewFakeTcpListener of faketcp/listener.go.
use tcpraw.Base.{ℕ, ◌||◌, none, some, List, [], ◌∷◌, ◌==◌, if◌then◌else◌, Run, ok, panic, ◌>>=◌}
use tcpraw.Faketcp.Listener.{Listener, new_listener}

-- Negative numbers, which are refused like zero, are left out.
pub data ListenerOption : Type 0 where
  with_listener_fec : ℕ → ℕ → ListenerOption

unfoldable pub apply_listener_option : ListenerOption → Listener → Run Listener
apply_listener_option (with_listener_fec data_shards parity_shards) l =
    if (data_shards == 0) || (parity_shards == 0)
    then panic
    else ok (record l { make_fec = some (data_shards, parity_shards) })

unfoldable pub apply_listener_options : List ListenerOption → Listener → Run Listener
unfolding apply_listener_option
apply_listener_options [] l = ok l
apply_listener_options (o ∷ os) l =
    let rest = λ (l' : Listener). apply_listener_options os l' in apply_listener_option o l >>= rest

-- A new listener with these options.
unfoldable pub listener_of : List ListenerOption → Run Listener
unfolding apply_listener_options new_listener
listener_of opts = apply_listener_options opts (new_listener none)
