-- ===== src/Faketcp/Listeners/Opening.antt =====
-- FakeTcpListeners of faketcp/listeners.go: one listener after another, each with the system's
-- answers for its address.
use tcpraw.Base.{ℕ, ◌≡◌, ap, List, [], ◌∷◌, ◌++◌, some, Error, ◌⊎◌, inl, ok}
use tcpraw.Tcp.Addr.{NetAddr}
use tcpraw.Tcp.Action.{Action}
use tcpraw.Tcp.Conn.{TcpConn}
use tcpraw.Tcp.Setup.{Os, Setup, Result, done, failed, crashed, ◌>>=◌, after, pure}
use tcpraw.Faketcp.Listener.{Listener}
use tcpraw.Faketcp.Listener.Options.{ListenerOption, listener_of}
use tcpraw.Faketcp.Listener.Opening.{listener_listen, fake_tcp_listen}

-- An address: what the system answers for it.
abbrev pub Address : Type 0
Address = Os × (Error ⊎ NetAddr)

unfoldable pub fake_tcp_listeners :
    ℕ → List ListenerOption → List Address → Setup (List (Listener × TcpConn))
unfolding fake_tcp_listen
fake_tcp_listeners window opts [] = pure []
fake_tcp_listeners window opts ((os, resolved) ∷ addrs) =
    let rest = fake_tcp_listeners window opts addrs in
    fake_tcp_listen os resolved window opts >>= λ l. rest >>= λ ls. pure (l ∷ ls)

abbrev pub with_first :
    Listener × TcpConn
    → List Action × Result (List (Listener × TcpConn))
    → List Action × Result (List (Listener × TcpConn))
with_first l r = after (λ ls. pure (l ∷ ls)) r

-- The later listeners, whose history and result decide about the whole.
later-fails :
    (l : Listener × TcpConn) (r r' : List Action × Result (List (Listener × TcpConn)))
    (h₁ : List Action) (ls : List (Listener × TcpConn)) (e : Error)
    → with_first l r ≡ (h₁, done ls)
    → ((ls' : List (Listener × TcpConn)) → r ≡ (h₁, done ls') → r' ≡ (h₁, failed (some e)))
    → with_first l r' ≡ (h₁, failed (some e))
later-fails l (h, done ls') r' h₁ ls e all ih =
    let same : h ≡ h₁ = ap (λ x. x.0) all in
    ap (with_first l) (ih ls' (ap (λ (x : List Action). (x, done ls')) same))
later-fails l (h, failed x) r' h₁ ls e all ih =
    absurd (let wrong : failed x ≡ done ls = ap (λ y. y.1) all in cc)
later-fails l (h, crashed) r' h₁ ls e all ih =
    absurd (let wrong : crashed ≡ done ls = ap (λ y. y.1) all in cc)

first-fails :
    (r : List Action × Result (Listener × TcpConn)) (rest rest' : Setup (List (Listener × TcpConn)))
    (h₁ : List Action) (ls : List (Listener × TcpConn)) (e : Error)
    → after (λ l. λ h. with_first l (rest h)) r ≡ (h₁, done ls)
    → ((h : List Action) (ls' : List (Listener × TcpConn))
        → rest h ≡ (h₁, done ls')
        → rest' h ≡ (h₁, failed (some e)))
    → after (λ l. λ h. with_first l (rest' h)) r ≡ (h₁, failed (some e))
first-fails (h, done l) rest rest' h₁ ls e all ih =
    later-fails l (rest h) (rest' h) h₁ ls e all (ih h)
first-fails (h, failed x) rest rest' h₁ ls e all ih =
    absurd (let wrong : failed x ≡ done ls = ap (λ y. y.1) all in cc)
first-fails (h, crashed) rest rest' h₁ ls e all ih =
    absurd (let wrong : crashed ≡ done ls = ap (λ y. y.1) all in cc)

-- When one of the addresses is not resolved, FakeTcpListeners returns that error and does nothing
-- more: the listeners that it has made for the addresses before stay as they are, open.
pub fake_tcp_listeners-keeps_open :
    (window : ℕ) (opts : List ListenerOption) (l : Listener) (before rest : List Address) (os : Os)
    (e : Error) (h h₁ : List Action) (ls : List (Listener × TcpConn))
    → listener_of opts ≡ ok l
    → fake_tcp_listeners window opts before h ≡ (h₁, done ls)
    → fake_tcp_listeners window opts (before ++ (os, inl e) ∷ rest) h ≡ (h₁, failed (some e))
unfolding fake_tcp_listeners fake_tcp_listen listener_listen ◌>>=◌
fake_tcp_listeners-keeps_open window opts l [] rest os e h h₁ ls made all =
    rw made (ap (λ (x : List Action). (x, failed (some e))) (ap (λ x. x.0) all))
fake_tcp_listeners-keeps_open window opts l ((os', resolved) ∷ before) rest os e h h₁ ls made all =
    first-fails (fake_tcp_listen os' resolved window opts h) (fake_tcp_listeners window opts before)
      (fake_tcp_listeners window opts (before ++ (os, inl e) ∷ rest)) h₁ ls e all
      (λ h'. λ ls'. fake_tcp_listeners-keeps_open window opts l before rest os e h' h₁ ls' made)
