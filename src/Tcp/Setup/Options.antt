-- ===== src/Tcp/Setup/Options.antt =====
-- setTTL, setDSCP and the methods of tcpConn that set something of every handle; the steps on
-- iptables that Dial and Listen share.
use tcpraw.Base.{
  ℕ, ◌*◌, Option, none, some, Bool, true, false, List, [], ◌∷◌, if◌then◌else◌, Error, ◌⊎◌, inl, inr,
}
use tcpraw.Tcp.Action.{Rule, Action, add_rule, set_ttl, set_dscp, set_read_buffer, set_write_buffer}
use tcpraw.Tcp.Conn.{TcpConn}
use tcpraw.Tcp.Setup.{
  Os, Family, Setup, Result, crashed, unicast_hops, ip_ttl, traffic_class, ip_tos, done, ◌>>=◌,
  pure, either, no_error, check,
}

-- `setTTL`
abbrev pub set_conn_ttl : Os → ℕ → ℕ → Setup (Unit {0})
set_conn_ttl os socket ttl = (λ h. no_error (os.syscall_conn h socket) h) >>= λ raw.
    check (set_ttl socket ttl)
      (λ h. os.set_option h socket (if os.has_ipv4 socket then ip_ttl else unicast_hops) ttl)

-- `setDSCP`
abbrev pub set_handle_dscp : Os → ℕ → ℕ → Setup (Unit {0})
set_handle_dscp os dscp handle = (λ h. no_error (os.syscall_conn h handle) h) >>= λ raw.
    check (set_dscp handle dscp) (λ h.
      if os.has_ipv4 handle
      then os.set_option h handle ip_tos (dscp * 4)
      else os.set_option h handle traffic_class dscp)

-- A loop over the handles that returns the first error.
unfoldable pub set_each : (ℕ → Setup (Unit {0})) → List ℕ → Setup (Unit {0})
set_each set [] = pure tt
set_each set (handle ∷ handles) = let rest = set_each set handles in set handle >>= λ ok. rest

-- `SetDSCP`, `SetReadBuffer` and `SetWriteBuffer`
unfoldable pub set_dscp_all : Os → TcpConn → ℕ → Setup (Unit {0})
unfolding set_each
set_dscp_all os conn dscp = set_each (set_handle_dscp os dscp) conn.handles

unfoldable pub set_read_buffer_all : Os → TcpConn → ℕ → Setup (Unit {0})
unfolding set_each
set_read_buffer_all os conn bytes =
    set_each (λ k. check (set_read_buffer k bytes) (λ h. os.read_buffer h k bytes)) conn.handles

unfoldable pub set_write_buffer_all : Os → TcpConn → ℕ → Setup (Unit {0})
unfolding set_each
set_write_buffer_all os conn bytes =
    set_each (λ k. check (set_write_buffer k bytes) (λ h. os.write_buffer h k bytes)) conn.handles

-- What the append of a rule comes to, and the append where the rule is not there: an error is
-- passed over.
abbrev pub appended : Rule → List Action → Option Error → List Action × Result (Option Rule)
appended rule h none = (add_rule rule ∷ h, done (some rule))
appended rule h (some e) = (h, done none)

abbrev pub append_unless :
    Rule → List Action → Option Error → Error ⊎ Bool → List Action × Result (Option Rule)
append_unless rule h answer (inl e) = (h, done none)
append_unless rule h answer (inr true) = (h, done none)
append_unless rule h answer (inr false) = appended rule h answer

-- The rule is appended unless it is there; the result is what the connection keeps of it.
unfoldable pub append_once : Os → Family → Rule → Setup (Option Rule)
append_once os family rule h =
    either (os.new_iptables h family) (h, done none)
      (append_unless rule h (os.append_rule h rule) (os.rule_exists h rule))

-- The same for the rule against resets, where an error of the check or of the append is a panic.
abbrev pub must_append :
    Rule → List Action → Option Error → Error ⊎ Bool → List Action × Result (Unit {0})
must_append rule h answer (inl e) = (h, crashed)
must_append rule h answer (inr true) = (h, done tt)
must_append rule h (some e) (inr false) = (h, crashed)
must_append rule h none (inr false) = (add_rule rule ∷ h, done tt)

unfoldable pub append_reset_rule : Os → Family → Rule → Setup (Unit {0})
append_reset_rule os family rule h =
    either (os.new_iptables h family) (h, done tt)
      (must_append rule h (os.append_rule h rule) (os.rule_exists h rule))
