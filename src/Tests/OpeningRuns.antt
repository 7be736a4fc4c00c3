-- ===== src/Tests/OpeningRuns.antt =====
-- Two listeners of which the second address is not resolved, and two listeners that are closed.
use tcpraw.Tests.TcpRuns.{server_conn}
use tcpraw.Base.{
  Run, panic, Option, Bool, ◌≡◌, refl, false, none, some, List, [], ◌∷◌, ok, io_error, inl, inr,
}
use tcpraw.Tcp.Addr.{addr_to_key}
use tcpraw.Tcp.Action.{Action}
use tcpraw.Tcp.Conn.{close, TcpConn, listen_conn}
use tcpraw.Tcp.Flows.{init_flow_table}
use tcpraw.Tcp.Setup.{Os, Result, done, failed, crashed, ◌>>=◌, attempt, check}
use tcpraw.Tcp.Setup.Options.{
  append_once, append_reset_rule, set_read_buffer_all, set_write_buffer_all, set_each,
}
use tcpraw.Tcp.Setup.Listen.{
  listen, listen_handles, listen_everywhere, listen_interfaces, listen_addrs, listen_on,
  listen_rest,
}
use tcpraw.Faketcp.Listener.{
  close_listener, close_all, close_conn, delete_fake_conn, delete_conn, Listener, new_listener,
}
use tcpraw.Faketcp.Listener.Options.{listener_of}
use tcpraw.Faketcp.Listener.Opening.{fake_tcp_listen, listener_listen}
use tcpraw.Faketcp.Listeners.{close_listeners, Listeners}
use tcpraw.Faketcp.Listeners.Opening.{fake_tcp_listeners, fake_tcp_listeners-keeps_open}
use tcpraw.Tests.SetupRuns.{calm_os}
use tcpraw.Tests.FaketcpRuns.{client_addr, one_conn, two_packets}

abbrev free_os : Os
free_os = record calm_os {
  listen_tcp = λ h ip port. inr (record { socket = 9; local = client_addr });
}

abbrev opened : List Action × Result (List (Listener × TcpConn))
opened = fake_tcp_listeners 64240 [] ((free_os, inr client_addr) ∷ []) []

abbrev listeners_in : Result (List (Listener × TcpConn)) → List (Listener × TcpConn)
listeners_in (done ls) = ls
listeners_in (failed e) = []
listeners_in crashed = []

all_opened : opened ≡ (opened.0, done (listeners_in opened.1))
unfolding fake_tcp_listeners fake_tcp_listen listener_listen listen listen_handles listen_everywhere
    listen_interfaces listen_addrs listen_on listen_rest attempt check ◌>>=◌ append_once
    append_reset_rule listen_conn init_flow_table set_read_buffer_all set_write_buffer_all set_each
    listener_of new_listener
all_opened = refl

fake_tcp_listeners-keeps_open_example :
    fake_tcp_listeners 64240 [] ((free_os, inr client_addr) ∷ (calm_os, inl (io_error 2)) ∷ []) []
    ≡ (opened.0, failed (some (io_error 2)))
unfolding listener_of new_listener
fake_tcp_listeners-keeps_open_example =
    fake_tcp_listeners-keeps_open 64240 [] (new_listener none) ((free_os, inr client_addr) ∷ []) []
      calm_os (io_error 2) [] opened.0 (listeners_in opened.1) refl all_opened

abbrev two_listeners : Listeners
two_listeners = record {
  listeners = λ i. one_conn two_packets;
  held = λ i. none;
  conn_chan = [];
  done = false;
}

-- What Close of Listeners leaves of the context, where it ends.
abbrev context_of : Run (Option Listeners) → Option Bool
context_of (ok (some s)) = some s.done
context_of (ok none) = none
context_of panic = none

closing_keeps_context :
    context_of (close_listeners 5 1 (λ i. server_conn) (0 ∷ 1 ∷ []) two_listeners) ≡ some false
unfolding close_listeners close_listener close_all close_conn delete_fake_conn delete_conn
    addr_to_key close
closing_keeps_context = refl
