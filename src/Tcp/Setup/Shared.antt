-- ===== src/Tcp/Setup/Shared.antt =====
-- Two dialed connections share one rule of iptables, and the first one to close deletes it.
use tcpraw.Base.{
  ℕ, ◌≡◌, refl, sym, ap, subst, ◌∙◌, false, Option, none, some, List, [], ◌∷◌, ◌++◌, map, inl, inr,
  Bool-cases, arith,
}
use tcpraw.Tcp.Action.{
  Rule, drop_ttl_one, Action, close_handle, delete_rule, set_ttl, close_conn, leave_list,
}
use tcpraw.Tcp.Conn.{TcpConn, close, last_actions, delete_own}
use tcpraw.Tcp.Conn.Opening.{IsDialed}
use tcpraw.Tcp.Setup.{Os, done}
use tcpraw.Tcp.Setup.Dial.{dial, dial_rules}
use tcpraw.Tcp.Setup.Ends.{Ends, bind-Ends, Ends-done, At, answer-At}
use tcpraw.Tcp.Setup.Rules.{
  is_ttl_one, ttl_rules, KnowsRules, OwnsRule, DialedAt, dial_sockets-DialedAt, DialsTo,
  dial_rules-DialsTo,
}

dial-DialsTo :
    (os : Os) (window now : ℕ) (h : List Action)
    → KnowsRules os
    → Ends (DialsTo (ttl_rules h)) (dial os window now h)
unfolding dial
dial-DialsTo os window now h knows =
    bind-Ends (At ttl_rules (ttl_rules h)) Q _ _ h
      (answer-At ttl_rules (ttl_rules h) os.resolve_dial h refl)
      (λ (ip, port) h₁ q.
        bind-Ends (DialedAt (ttl_rules h)) Q _ _ h₁
          (dial_sockets-DialedAt (ttl_rules h) os ip port window now h₁ q)
          (λ (dialed, conn, host, local_port) h₂ (live, q).
            subst
              (λ n. Ends (DialsTo n) (dial_rules os ip port (dialed, conn, host, local_port) h₂)) q
              (dial_rules-DialsTo os ip port dialed conn host local_port h₂ knows live)))
  where
    Q : TcpConn → List Action → Type 0
    Q = DialsTo (ttl_rules h)

-- A connection that Dial returns is open. It owns the rule against packets with a time to live of
-- one when it found none in the chain and appended it, so that there is one now; else it owns no
-- such rule, and there are as many as before.
pub dial-OwnsRule :
    (os : Os) (window now : ℕ) (h h' : List Action) (conn : TcpConn)
    → KnowsRules os
    → dial os window now h ≡ (h', done conn)
    → IsDialed conn × OwnsRule (ttl_rules h) conn.iptables h'
dial-OwnsRule os window now h h' conn knows e =
    Ends-done (DialsTo (ttl_rules h)) (dial os window now h) h' conn e
      (dial-DialsTo os window now h knows)

-- The history after these actions.
abbrev pub did : List Action → List Action → List Action
did [] h = h
did (a ∷ later) h = did later (a ∷ h)

did-append : (xs ys h : List Action) → did (xs ++ ys) h ≡ did ys (did xs h)
did-append [] ys h = refl
did-append (x ∷ xs) ys h = did-append xs ys (x ∷ h)

ttl_rules-handles :
    (ks : List ℕ) (h : List Action) → ttl_rules (did (map close_handle ks) h) ≡ ttl_rules h
ttl_rules-handles [] h = refl
ttl_rules-handles (k ∷ ks) h = ttl_rules-handles ks (close_handle k ∷ h)

ttl_rules-none_left :
    (own : Option Rule) (h : List Action) → ttl_rules h ≡ 0 → ttl_rules (did (delete_own own) h) ≡ 0
ttl_rules-none_left none h q = q
ttl_rules-none_left (some r) h q = elim (Bool-cases (is_ttl_one r)) [
  | inl shared ↦ rw shared (omega (arith, q))
  | inr other ↦ rw other q
]

-- The end of Close deletes the rule that the connection owns.
last_actions-deletes :
    (conn : TcpConn) (h : List Action)
    → conn.iptables ≡ some drop_ttl_one
    → ttl_rules h ≡ 1
    → ttl_rules (did (last_actions conn) h) ≡ 0
unfolding last_actions
last_actions-deletes conn h own q =
    ap ttl_rules (did-append (map close_handle conn.handles) _ h)
    ∙ subst
        (λ o.
          ttl_rules (did (delete_own o ++ (delete_own conn.ip6tables ++ leave_list ∷ [])) h₁) ≡ 0)
        (sym own)
        (ap ttl_rules (
            did-append (delete_own conn.ip6tables) (leave_list ∷ [])
              (delete_rule drop_ttl_one ∷ h₁))
          ∙ ttl_rules-none_left conn.ip6tables (delete_rule drop_ttl_one ∷ h₁)
              (omega (arith, still, q)))
  where
    h₁ : List Action
    h₁ = did (map close_handle conn.handles) h

    still : ttl_rules h₁ ≡ ttl_rules h
    still = ttl_rules-handles conn.handles h

-- Two connections are dialed one after the other, and the first of them appended the rule against
-- packets with a time to live of one: then the second one owns no such rule and relies on that one,
-- and when the first is closed the rule is gone, though the second connection is still open.
pub close-takes_shared_rule :
    (os : Os) (window now now' : ℕ) (h h₁ h₂ : List Action) (first second : TcpConn)
    → KnowsRules os
    → dial os window now h ≡ (h₁, done first)
    → first.iptables ≡ some drop_ttl_one
    → dial os window now' h₁ ≡ (h₂, done second)
    → (second.closed ≡ false)
      × (second.iptables ≡ none)
      × (ttl_rules h₂ ≡ 1)
      × (ttl_rules (did ((close first).1) h₂) ≡ 0)
unfolding close
close-takes_shared_rule os window now now' h h₁ h₂ first second knows e own e' =
    let ((live, d, dialed), owner) = dial-OwnsRule os window now h h₁ first knows e in
    let ((live', d', dialed'), owner') = dial-OwnsRule os window now' h₁ h₂ second knows e' in
    let there : ttl_rules h₁ ≡ 1 = appended first.iptables own owner in
    let (none_owned, now_one) = found second.iptables there owner' in
    (
      live',
      none_owned,
      now_one,
      rw (live, dialed)
          (last_actions-deletes first (close_conn d.socket ∷ set_ttl d.socket 64 ∷ h₂) own now_one),
    )
  where
    appended :
        (own : Option Rule)
        → own ≡ some drop_ttl_one
        → OwnsRule (ttl_rules h) own h₁
        → ttl_rules h₁ ≡ 1
    appended own mine (inl (o, none_before, one)) = one
    appended own mine (inr (o, same)) = cc

    found :
        (own : Option Rule)
        → ttl_rules h₁ ≡ 1
        → OwnsRule (ttl_rules h₁) own h₂
        → (own ≡ none) × (ttl_rules h₂ ≡ 1)
    found own there (inl (o, none_before, one)) = absurd (omega (arith, there, none_before))
    found own there (inr (o, same)) = (o, same ∙ there)
