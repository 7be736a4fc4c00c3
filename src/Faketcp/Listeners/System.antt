-- ===== src/Faketcp/Listeners/System.antt =====
-- Listeners as a system of interleaved steps, of its listeners, of the goroutines that its Accept
-- starts, and of Accept itself.
use tcpraw.Base.{
  ℕ, ◌≡◌, Bool, Option, none, some, List, [], ◌∷◌, ◌++◌, ◌==◌, if◌then◌else◌, Error, ok,
}
use tcpraw.Fec.Codec.{Codec}
use tcpraw.Faketcp.Listener.{Listener}
use tcpraw.Faketcp.Listener.System.{Event, serve, IsPossible}
use tcpraw.Faketcp.Listeners.{
  Listeners, put_at, new_listeners, forward_take, forward_send, accept_any,
}

abbrev pub add_given : List (ℕ × ℕ) → Option (ℕ × ℕ) → List (ℕ × ℕ)
add_given given none = given
add_given given (some c) = given ++ c ∷ []

-- The listeners can be in this state when Accept of Listeners has returned these connections.
pub data ReachAll (new_codec : ℕ → ℕ → Option Codec) (make_fec : Option (ℕ × ℕ))
    : List (ℕ × ℕ) → Listeners → Type 0 where
  start_all : ReachAll new_codec make_fec [] (new_listeners make_fec)
  served_at :
      {given : List (ℕ × ℕ)} {s : Listeners} {l : Listener} (i now : ℕ) (e : Event)
      → ReachAll new_codec make_fec given s
      → IsPossible (s.listeners i) e
      → serve new_codec now e (s.listeners i) ≡ ok l
      → ReachAll new_codec make_fec given (record s { listeners = put_at s.listeners i l })
  taken :
      {given : List (ℕ × ℕ)} {s s' : Listeners} (done_first : Bool) (i : ℕ)
      → ReachAll new_codec make_fec given s
      → forward_take done_first i s ≡ some s'
      → ReachAll new_codec make_fec given s'
  sent :
      {given : List (ℕ × ℕ)} {s s' : Listeners} (i : ℕ)
      → ReachAll new_codec make_fec given s
      → forward_send i s ≡ some s'
      → ReachAll new_codec make_fec given s'
  returned :
      {given : List (ℕ × ℕ)} {s s' : Listeners} (done_first : Bool) (c : Option (ℕ × ℕ))
      (err : Option Error)
      → ReachAll new_codec make_fec given s
      → accept_any done_first s ≡ some (s', (c, err))
      → ReachAll new_codec make_fec (add_given given c) s'

-- The numbers of the connections that come from listener `j`.
abbrev pub from : ℕ → List (ℕ × ℕ) → List ℕ
from j [] = []
from j ((i, id) ∷ cs) = let rest = from j cs in if j == i then id ∷ rest else rest

abbrev pub in_hand : Option ℕ → List ℕ
in_hand none = []
in_hand (some id) = id ∷ []
