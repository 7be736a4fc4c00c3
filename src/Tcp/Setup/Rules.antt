-- ===== src/Tcp/Setup/Rules.antt =====
-- The rule of iptables against packets with a time to live of one, which all dialed connections
-- share.
use tcpraw.Base.{
  ℕ, ◌+◌, ◌-◌, ◌≡◌, refl, sym, subst, ◌∙◌, Bool, true, false, Option, none, some, List, [], ◌∷◌,
  ltb, if◌then◌else◌, ◌⊎◌, inl, inr, Bytes, Error, arith,
}
use tcpraw.Tcp.Addr.{Ip}
use tcpraw.Tcp.Action.{
  Rule, drop_ttl_one, drop_ttl_one_from, drop_reset_from, drop_hop_one_from, drop_reset_to,
  drop_hop_one, Action, add_rule, delete_rule, set_ttl, set_port_filter, open_handle,
}
use tcpraw.Tcp.Conn.{TcpConn, Dialed, dial_conn}
use tcpraw.Tcp.Conn.Opening.{IsDialed, dial_conn-IsDialed}
use tcpraw.Tcp.Setup.{Os, ip_ttl, unicast_hops, ipv4, ipv6, answer}
use tcpraw.Tcp.Setup.Options.{
  set_conn_ttl, append_unless, append_once, must_append, append_reset_rule,
}
use tcpraw.Tcp.Setup.Dial.{
  port_of_tcp, close_on_error, attached, dial_or_close, attach_filter, dial_sockets, dial_rules,
}
use tcpraw.Tcp.Setup.Ends.{
  Ends, bind-Ends, either-Ends, At, answer-At, attempt-At, no_error-At, check-At, panic_unless-At,
  of_run-At,
}

abbrev pub is_ttl_one : Rule → Bool
is_ttl_one drop_ttl_one = true
is_ttl_one (drop_ttl_one_from port) = false
is_ttl_one (drop_reset_from port) = false
is_ttl_one (drop_hop_one_from port) = false
is_ttl_one (drop_reset_to ip port) = false
is_ttl_one (drop_hop_one host local ip port) = false

abbrev pub count_step : Action → ℕ → ℕ
count_step (add_rule r) n = if is_ttl_one r then n + 1 else n
count_step (delete_rule r) n = if is_ttl_one r then n - 1 else n
count_step _ n = n

-- How often the shared rule stands in the chain after these actions, of which the newest is first.
abbrev pub ttl_rules : List Action → ℕ
ttl_rules [] = 0
ttl_rules (a ∷ h) = count_step a (ttl_rules h)

-- What iptables says of the shared rule is what was done to it: it is there when it was appended
-- more often than deleted.
abbrev pub KnowsRules : Os → Type 0
KnowsRules os = (h : List Action) → os.rule_exists h drop_ttl_one ≡ inr (ltb 0 (ttl_rules h))

dial_or_close-At :
    (n : ℕ) (os : Os) (handle : ℕ) (ip : Ip) (port : ℕ) (h : List Action)
    → ttl_rules h ≡ n
    → Ends (At ttl_rules n) (dial_or_close os handle ip port h)
unfolding dial_or_close
dial_or_close-At n os handle ip port h q = go (os.dial_tcp h ip port)
  where
    go : (r : Error ⊎ Dialed) → Ends (At ttl_rules n) (close_on_error handle h r)
    go (inl e) = tt
    go (inr dialed) = q

set_conn_ttl-At :
    (n : ℕ) (os : Os) (socket ttl : ℕ) (h : List Action)
    → ttl_rules h ≡ n
    → Ends (At ttl_rules n) (set_conn_ttl os socket ttl h)
set_conn_ttl-At n os socket ttl h q =
    bind-Ends (At ttl_rules n) (At ttl_rules n) _ _ h
      (no_error-At ttl_rules n (os.syscall_conn h socket) h q)
      (λ raw h q.
        check-At ttl_rules n (set_ttl socket ttl)
          (λ h'. os.set_option h' socket (if os.has_ipv4 socket then ip_ttl else unicast_hops) ttl)
          h (λ h'. refl) q)

abbrev pub Sockets : Type 0
Sockets = Dialed × TcpConn × Bytes × Bytes

abbrev pub DialedAt : ℕ → Sockets → List Action → Type 0
DialedAt n (dialed, conn, host, local_port) h = IsDialed conn × (ttl_rules h ≡ n)

-- Dialing leaves the rules as they are.
pub dial_sockets-DialedAt :
    (n : ℕ) (os : Os) (ip : Ip) (port window now : ℕ) (h : List Action)
    → ttl_rules h ≡ n
    → Ends (DialedAt n) (dial_sockets os ip port window now h)
unfolding dial_sockets
dial_sockets-DialedAt n os ip port window now h q =
    bind-Ends A (DialedAt n) _ _ h
      (attempt-At ttl_rules n open_handle (λ h. os.dial_ip h ip) h (λ a. refl) q)
      (λ handle h q.
        bind-Ends A (DialedAt n) _ _ h (dial_or_close-At n os handle ip port h q) (λ dialed h q.
          bind-Ends A (DialedAt n) _ _ h
            (answer-At ttl_rules n (os.split_host_port dialed.local) h q)
            (λ host h q.
              bind-Ends A (DialedAt n) _ _ h
                (panic_unless-At ttl_rules n (os.same_host handle host.0) h q)
                (λ same h q.
                  bind-Ends (λ conn h. IsDialed conn × (ttl_rules h ≡ n)) (DialedAt n) _ _ h
                    (of_run-At ttl_rules n IsDialed (dial_conn dialed handle window now) h
                      (dial_conn-IsDialed dialed handle window now) q)
                    (λ conn h dq.
                      bind-Ends (λ p h'. Unit {0} × (ttl_rules h' ≡ n)) (DialedAt n) _ _ h
                        (of_run-At ttl_rules n (λ p. Unit {0}) (port_of_tcp dialed.local) h
                          (λ p e. tt) dq.1)
                        (λ lport h uq.
                          bind-Ends A (DialedAt n) _ _ h
                            (check-At ttl_rules n (set_port_filter handle lport)
                              (λ h'. os.set_bpf h' handle lport) h (λ h'. refl) uq.1)
                            (λ filtered h q. bind-Ends A (DialedAt n) _ _ h q (λ capturing h q.
                              bind-Ends A (DialedAt n) _ _ h q (λ cleaning h q.
                                bind-Ends A (DialedAt n) _ _ h
                                  (set_conn_ttl-At n os dialed.socket 1 h q)
                                  (λ ttl h q. (dq.0, q)))))))))))
  where
    A : {X : Type 0} → X → List Action → Type 0
    A = At ttl_rules n

-- Who owns the shared rule after a step: the connection that appended it, or none.
abbrev pub OwnsRule : ℕ → Option Rule → List Action → Type 0
OwnsRule n own h =
    ((own ≡ some drop_ttl_one) × (n ≡ 0) × (ttl_rules h ≡ 1)) ⊎ ((own ≡ none) × (ttl_rules h ≡ n))

append_once-OwnsRule :
    (os : Os) (h : List Action)
    → KnowsRules os
    → Ends (OwnsRule (ttl_rules h)) (append_once os ipv4 drop_ttl_one h)
unfolding append_once
append_once-OwnsRule os h knows =
    either-Ends (OwnsRule (ttl_rules h)) (os.new_iptables h ipv4) _ _ (inr (refl, refl)) (
      subst
        (λ r.
          Ends (OwnsRule (ttl_rules h))
            (append_unless drop_ttl_one h (os.append_rule h drop_ttl_one) r))
        (sym (knows h)) (go (os.append_rule h drop_ttl_one) (ltb 0 (ttl_rules h)) refl))
  where
    go :
        (answer : Option Error) (there : Bool)
        → ltb 0 (ttl_rules h) ≡ there
        → Ends (OwnsRule (ttl_rules h)) (append_unless drop_ttl_one h answer (inr there))
    go answer true q = inr (refl, refl)
    go none false q =
        let none_there : ttl_rules h ≡ 0 = ground (arith, q) in
        inl (refl, none_there, omega (arith, none_there))
    go (some e) false q = inr (refl, refl)

append_reset_rule-At :
    (n : ℕ) (os : Os) (rule : Rule) (h : List Action)
    → is_ttl_one rule ≡ false
    → ttl_rules h ≡ n
    → Ends (At ttl_rules n) (append_reset_rule os ipv4 rule h)
unfolding append_reset_rule
append_reset_rule-At n os rule h other q =
    either-Ends (At ttl_rules n) (os.new_iptables h ipv4) _ _ q
      (go (os.append_rule h rule) (os.rule_exists h rule))
  where
    go :
        (answer : Option Error) (r : Error ⊎ Bool)
        → Ends (At ttl_rules n) (must_append rule h answer r)
    go answer (inl e) = tt
    go answer (inr true) = q
    go (some e) (inr false) = tt
    go none (inr false) = rw other q

append_once-At :
    (n : ℕ) (os : Os) (rule : Rule) (h : List Action)
    → is_ttl_one rule ≡ false
    → ttl_rules h ≡ n
    → Ends (At ttl_rules n) (append_once os ipv6 rule h)
unfolding append_once
append_once-At n os rule h other q =
    either-Ends (At ttl_rules n) (os.new_iptables h ipv6) _ _ q
      (go (os.append_rule h rule) (os.rule_exists h rule))
  where
    go :
        (answer : Option Error) (r : Error ⊎ Bool)
        → Ends (At ttl_rules n) (append_unless rule h answer r)
    go answer (inl e) = q
    go answer (inr true) = q
    go (some e) (inr false) = q
    go none (inr false) = rw other q

attach_filter-At :
    (n : ℕ) (os : Os) (socket : ℕ) (h : List Action)
    → ttl_rules h ≡ n
    → Ends (At ttl_rules n) (attach_filter os socket h)
unfolding attach_filter
attach_filter-At n os socket h q =
    either-Ends (At ttl_rules n) (os.syscall_conn h socket) _ _ q (go (os.attach_filter h socket))
  where
    go : (e : Option Error) → Ends (At ttl_rules n) (attached socket h e)
    go (some e) = tt
    go none = q

-- What a dialed connection keeps: it is open, and it owns the shared rule if it appended it.
abbrev pub DialsTo : ℕ → TcpConn → List Action → Type 0
DialsTo n conn h = IsDialed conn × OwnsRule n conn.iptables h

owns-At :
    (n : ℕ) (own : Option Rule) (h h' : List Action)
    → OwnsRule n own h
    → ttl_rules h' ≡ ttl_rules h
    → OwnsRule n own h'
owns-At n own h h' (inl (mine, before, now)) q = inl (mine, before, q ∙ now)
owns-At n own h h' (inr (others, same)) q = inr (others, q ∙ same)

pub dial_rules-DialsTo :
    (os : Os) (ip : Ip) (port : ℕ) (dialed : Dialed) (conn : TcpConn) (host local_port : Bytes)
    (h : List Action)
    → KnowsRules os
    → IsDialed conn
    → Ends (DialsTo (ttl_rules h)) (dial_rules os ip port (dialed, conn, host, local_port) h)
unfolding dial_rules
dial_rules-DialsTo os ip port dialed conn host local_port h knows live =
    bind-Ends (OwnsRule (ttl_rules h)) Q _ _ h (append_once-OwnsRule os h knows) (λ rule h' owns.
      bind-Ends (At ttl_rules (ttl_rules h')) Q _ _ h'
        (append_reset_rule-At (ttl_rules h') os (drop_reset_to ip port) h' refl refl)
        (λ reset h₁ q.
          bind-Ends (At ttl_rules (ttl_rules h')) Q _ _ h₁
            (append_once-At (ttl_rules h') os (drop_hop_one host local_port ip port) h₁ refl q)
            (λ rule6 h₂ q.
              bind-Ends (At ttl_rules (ttl_rules h')) Q _ _ h₂
                (attach_filter-At (ttl_rules h') os dialed.socket h₂ q)
                (λ attached h₃ q.
                  bind-Ends (At ttl_rules (ttl_rules h')) Q _ _ h₃ q
                    (λ entered h₄ q. (live, owns-At (ttl_rules h) rule h' h₄ owns q))))))
  where
    Q : TcpConn → List Action → Type 0
    Q = DialsTo (ttl_rules h)
