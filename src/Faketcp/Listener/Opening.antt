-- ===== src/Faketcp/Listener/Opening.antt =====
-- Listen and FakeTcpListen of faketcp/listener.go, on the system of Tcp/Setup. The first resolution
-- of the address is a parameter. The goroutines that Listen starts are the steps of System.
use tcpraw.Base.{ℕ, ◌*◌, List, Error, ◌⊎◌}
use tcpraw.Tcp.Addr.{NetAddr}
use tcpraw.Tcp.Action.{Action}
use tcpraw.Tcp.Conn.{TcpConn}
use tcpraw.Tcp.Setup.{Os, Setup, Result, done, failed, crashed, ◌>>=◌, answer, of_run, pure}
use tcpraw.Tcp.Setup.Options.{set_read_buffer_all, set_write_buffer_all}
use tcpraw.Tcp.Setup.Listen.{listen}
use tcpraw.Faketcp.Listener.{Listener}
use tcpraw.Faketcp.Listener.Options.{ListenerOption, listener_of}

abbrev pub listener_buffer : ℕ
listener_buffer = 1024 * 1024 * 5

-- An error is a panic, and so is a nil connection without one, which the next call uses.
abbrev pub or_crash {ℓ} : {A : Type ℓ} → List Action × Result A → List Action × Result A
or_crash (h, done a) = (h, done a)
or_crash (h, failed e) = (h, crashed)
or_crash (h, crashed) = (h, crashed)

-- An error is only logged.
abbrev pub or_logged : List Action × Result (Unit {0}) → List Action × Result (Unit {0})
or_logged (h, done a) = (h, done a)
or_logged (h, failed e) = (h, done tt)
or_logged (h, crashed) = (h, crashed)

-- `Listen`
unfoldable pub listener_listen : Os → Error ⊎ NetAddr → ℕ → Listener → Setup (Listener × TcpConn)
unfolding listen set_read_buffer_all set_write_buffer_all
listener_listen os resolved window l = answer resolved >>= λ laddr.
    (λ h. or_crash (listen os window h)) >>= λ conn.
    (λ h. or_logged (set_read_buffer_all os conn listener_buffer h)) >>= λ reading.
    (λ h. or_logged (set_write_buffer_all os conn listener_buffer h)) >>= λ writing. pure (l, conn)

-- `FakeTcpListen`
unfoldable pub fake_tcp_listen :
    Os → Error ⊎ NetAddr → ℕ → List ListenerOption → Setup (Listener × TcpConn)
unfolding listener_listen
fake_tcp_listen os resolved window opts =
    of_run (listener_of opts) >>= listener_listen os resolved window
