-- ===== src/Tcp/Setup/Listen.antt =====
-- Listen of tcp_linux.go, with reuseportNum as the code sets it, one.
use tcpraw.Base.{
  ℕ, Bool, true, Option, none, some, List, [], ◌∷◌, ◌++◌, if◌then◌else◌, ◌==◌, Error, ◌⊎◌, inl, inr,
}
use tcpraw.Tcp.Addr.{Ip, v4, v6}
use tcpraw.Tcp.Action.{
  Action, drop_ttl_one_from, drop_reset_from, drop_hop_one_from, open_handle, open_listener,
  set_reuse_port, set_port_filter, start_capture, start_cleaner, start_accept, enter_list,
}
use tcpraw.Tcp.Conn.{TcpConn, Listening, listen_conn}
use tcpraw.Tcp.Setup.{
  Os, ipv4, ipv6, Setup, Result, done, ◌>>=◌, pure, act, fail, crash, answer, attempt, check,
  no_error,
}
use tcpraw.Tcp.Setup.Options.{append_once, append_reset_rule}

-- The IP is nil, or IsUnspecified holds of it.
abbrev pub is_unspecified : Option Ip → Bool
is_unspecified none = true
is_unspecified (some (v4 ip)) = ip == 0
is_unspecified (some (v6 ip)) = ip == 0

-- The handles so far, and `lasterr`.
abbrev pub Handles : Type 0
Handles = List ℕ × Option Error

-- A handle on an address of an interface, and its capture; an error is kept.
abbrev pub captured : ℕ → Handles → List Action → Error ⊎ ℕ → List Action × Result Handles
captured port (handles, lasterr) h (inl e) = (h, done (handles, some e))
captured port (handles, lasterr) h (inr handle) =
    (start_capture handle port ∷ open_handle handle ∷ h, done (handles ++ handle ∷ [], lasterr))

unfoldable pub listen_on : Os → ℕ → Ip → Handles → Setup Handles
listen_on os port ip hs h = captured port hs h (os.listen_ip h ip)

unfoldable pub listen_addrs : Os → ℕ → List (Option Ip) → Handles → Setup Handles
unfolding listen_on
listen_addrs os port [] hs = pure hs
listen_addrs os port (none ∷ addrs) hs = listen_addrs os port addrs hs
listen_addrs os port (some ip ∷ addrs) hs =
    let rest = λ (hs' : Handles). listen_addrs os port addrs hs' in listen_on os port ip hs >>= rest

unfoldable pub listen_interfaces :
    Os → ℕ → List (Option (List (Option Ip))) → Handles → Setup Handles
unfolding listen_addrs
listen_interfaces os port [] hs = pure hs
listen_interfaces os port (none ∷ ifaces) hs = listen_interfaces os port ifaces hs
listen_interfaces os port (some addrs ∷ ifaces) hs =
    let rest = λ (hs' : Handles). listen_interfaces os port ifaces hs' in
    listen_addrs os port addrs hs >>= rest

-- Without a handle the last error is returned, be it nil.
abbrev pub some_handles : Handles → Setup (List ℕ)
some_handles ([], lasterr) = fail lasterr
some_handles (handle ∷ handles, lasterr) = pure (handle ∷ handles)

unfoldable pub listen_everywhere : Os → ℕ → List (Option (List (Option Ip))) → Setup (List ℕ)
unfolding listen_interfaces
listen_everywhere os port ifaces = listen_interfaces os port ifaces ([], none) >>= some_handles

-- SO_REUSEPORT of a handle, which panics when it fails.
unfoldable pub reuse_port : Os → ℕ → Setup (Unit {0})
reuse_port os handle h = elim (os.set_reuse_port h handle) [
  | some e ↦ crash h
  | none ↦ (set_reuse_port handle ∷ h, done tt)
]

-- One handle on the one address.
unfoldable pub listen_at : Os → Ip → ℕ → Setup (List ℕ)
unfolding reuse_port
listen_at os ip port = attempt open_handle (λ h. os.listen_ip h ip) >>= λ handle.
    (λ h. no_error (os.syscall_conn h handle) h) >>= λ raw. reuse_port os handle >>= λ reused.
    check (set_port_filter handle port) (λ h. os.set_bpf h handle port) >>= λ filtered.
    act (start_capture handle port) >>= λ capturing. pure (handle ∷ [])

unfoldable pub listen_handles :
    Os → Option Ip → ℕ → List (Option (List (Option Ip))) → Setup (List ℕ)
unfolding listen_everywhere listen_at
listen_handles os none port ifaces = listen_everywhere os port ifaces
listen_handles os (some ip) port ifaces =
    if is_unspecified (some ip) then listen_everywhere os port ifaces else listen_at os ip port

-- From the system listener on: the cleaner, the rules, the accept loop, the list.
unfoldable pub listen_rest : Os → Option Ip → ℕ → ℕ → List ℕ → Setup TcpConn
unfolding append_once append_reset_rule listen_conn
listen_rest os ip port window handles =
    attempt (λ (l : Listening). open_listener l.socket) (λ h. os.listen_tcp h ip port)
    >>= λ listening. act start_cleaner >>= λ cleaning.
        append_once os ipv4 (drop_ttl_one_from port) >>= λ rule.
        append_reset_rule os ipv4 (drop_reset_from port) >>= λ reset.
        append_once os ipv6 (drop_hop_one_from port) >>= λ rule6. act start_accept >>= λ accepting.
        act enter_list >>= λ entered.
        pure (record (listen_conn listening handles window) { iptables = rule; ip6tables = rule6 })

-- `Listen`
unfoldable pub listen : Os → ℕ → Setup TcpConn
unfolding listen_handles listen_rest
listen os window = answer os.resolve_listen >>= λ (ip, port). answer os.interfaces >>= λ ifaces.
    listen_handles os ip port ifaces >>= λ handles. listen_rest os ip port window handles
