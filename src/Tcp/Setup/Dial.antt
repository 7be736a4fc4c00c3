-- ===== src/Tcp/Setup/Dial.antt =====
-- Dial of tcp_linux.go. What attachBPFFilter answers is not looked at, but for its panic.
use tcpraw.Base.{ℕ, Option, none, some, List, ◌∷◌, Bytes, Error, Run, ok, panic, ◌⊎◌, inl, inr}
use tcpraw.Tcp.Addr.{Ip, NetAddr, no_addr, other_addr, tcp_addr}
use tcpraw.Tcp.Action.{
  Action, drop_ttl_one, drop_reset_to, drop_hop_one, open_handle, open_conn, close_handle,
  set_port_filter, drop_all_input, start_capture, start_cleaner, enter_list,
}
use tcpraw.Tcp.Conn.{TcpConn, Dialed, dial_conn}
use tcpraw.Tcp.Setup.{
  Os, ipv4, ipv6, Setup, Result, done, failed, ◌>>=◌, pure, act, crash, panic_unless, answer,
  attempt, of_run, either, check,
}
use tcpraw.Tcp.Setup.Options.{set_conn_ttl, append_once, append_reset_rule}

-- The port of a *net.TCPAddr; another type is a panic.
abbrev pub port_of_tcp : NetAddr → Run ℕ
port_of_tcp no_addr = panic
port_of_tcp other_addr = panic
port_of_tcp (tcp_addr ip port) = ok port

-- net.DialTCP; when it fails, the handle is closed.
abbrev pub close_on_error : ℕ → List Action → Error ⊎ Dialed → List Action × Result Dialed
close_on_error handle h (inl e) = (close_handle handle ∷ h, failed (some e))
close_on_error handle h (inr dialed) = (open_conn dialed.socket ∷ h, done dialed)

unfoldable pub dial_or_close : Os → ℕ → Ip → ℕ → Setup Dialed
dial_or_close os handle ip port h = close_on_error handle h (os.dial_tcp h ip port)

-- `attachBPFFilter`, which fails in setsockopt with a panic.
abbrev pub attached : ℕ → List Action → Option Error → List Action × Result (Unit {0})
attached socket h (some e) = crash h
attached socket h none = act (drop_all_input socket) h

unfoldable pub attach_filter : Os → ℕ → Setup (Unit {0})
attach_filter os socket h =
    either (os.syscall_conn h socket) (h, done tt) (attached socket h (os.attach_filter h socket))

-- Dial up to the TTL of the system connection: the connection and the strings of its address.
unfoldable pub dial_sockets : Os → Ip → ℕ → ℕ → ℕ → Setup (Dialed × TcpConn × Bytes × Bytes)
unfolding dial_or_close dial_conn
dial_sockets os ip port window now = attempt open_handle (λ h. os.dial_ip h ip) >>= λ handle.
    dial_or_close os handle ip port >>= λ dialed.
    answer (os.split_host_port dialed.local) >>= λ (host, local_port).
    panic_unless (os.same_host handle host) >>= λ same.
    of_run (dial_conn dialed handle window now) >>= λ conn.
    of_run (port_of_tcp dialed.local) >>= λ lport.
    check (set_port_filter handle lport) (λ h. os.set_bpf h handle lport) >>= λ filtered.
    act (start_capture handle lport) >>= λ capturing. act start_cleaner >>= λ cleaning.
    set_conn_ttl os dialed.socket 1 >>= λ ttl. pure (dialed, conn, host, local_port)

-- The rules of iptables, and the end.
unfoldable pub dial_rules : Os → Ip → ℕ → Dialed × TcpConn × Bytes × Bytes → Setup TcpConn
unfolding append_once append_reset_rule attach_filter
dial_rules os ip port (dialed, conn, host, local_port) =
    append_once os ipv4 drop_ttl_one >>= λ rule.
    append_reset_rule os ipv4 (drop_reset_to ip port) >>= λ reset.
    append_once os ipv6 (drop_hop_one host local_port ip port) >>= λ rule6.
    attach_filter os dialed.socket >>= λ attached.
    act enter_list >>= λ entered. pure (record conn { iptables = rule; ip6tables = rule6 })

-- `Dial`
unfoldable pub dial : Os → ℕ → ℕ → Setup TcpConn
unfolding dial_sockets dial_rules
dial os window now = answer os.resolve_dial >>= λ (ip, port).
    dial_sockets os ip port window now >>= λ sockets. dial_rules os ip port sockets
