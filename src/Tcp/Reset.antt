-- ===== src/Tcp/Reset.antt =====
-- clear.go: IPTablesReset closes all connections of the list that Dial and Listen enter. Each is
-- closed by a goroutine of its own; no Close reads what another one changes, and the list's order
-- stands for theirs.
use mathlib.Core.List.{Mem, mem-cons_self, mem-cons_of_mem, mem-append_left, mem-append_right}
use tcpraw.Base.{◌≡◌, true, false, some, List, [], ◌∷◌, ◌++◌, map, All, Option-cases, inl, inr, ◌⊎◌}
use tcpraw.Tcp.Action.{
  Rule, Action, delete_rule, close_handle, leave_list, set_ttl, close_conn, close_listener,
}
use tcpraw.Tcp.Conn.{TcpConn, close, last_actions, delete_own, release_tables}
use tcpraw.Tcp.Conn.Closing.{close-closed}

-- `IPTablesReset`: the connections after it, and what is done outside of them.
unfoldable pub ip_tables_reset : List TcpConn → List TcpConn × List Action
unfolding close
ip_tables_reset [] = ([], [])
ip_tables_reset (c ∷ cs) =
    let (c', done) = close c in let (cs', rest) = ip_tables_reset cs in (c' ∷ cs', done ++ rest)

abbrev pub IsClosed : TcpConn → Type 0
IsClosed c = c.closed ≡ true

-- The connection has appended the rule to one of the two tables.
abbrev pub Owns : TcpConn → Rule → Type 0
Owns c r = (c.iptables ≡ some r) ⊎ (c.ip6tables ≡ some r)

delete_own-some : (r : Rule) → Mem (delete_rule r) (delete_own (some r))
delete_own-some r = mem-cons_self

last_actions-deletes : (c : TcpConn) (r : Rule) → Owns c r → Mem (delete_rule r) (last_actions c)
unfolding last_actions
last_actions-deletes c r (inl own) =
    mem-append_right (map close_handle c.handles)
      (mem-append_left (delete_own c.ip6tables ++ leave_list ∷ []) (rw own (delete_own-some r)))
last_actions-deletes c r (inr own) = mem-append_right (map close_handle c.handles) (
    mem-append_right (delete_own c.iptables)
      (mem-append_left (leave_list ∷ []) (rw own (delete_own-some r))))

close-deletes :
    (c : TcpConn) (r : Rule) → c.closed ≡ false → Owns c r → Mem (delete_rule r) ((close c).1)
unfolding close
close-deletes c r live own = rw live (elim (Option-cases c.tcpconn) [
  | inr (d, dialed) ↦ rw dialed (
      mem-cons_of_mem (set_ttl d.socket 64)
        (mem-cons_of_mem (close_conn d.socket) (last_actions-deletes c r own)))
  | inl not_dialed ↦ rw not_dialed (elim (Option-cases c.listener) [
    | inl no_listener ↦ rw no_listener (last_actions-deletes c r own)
    | inr (l, listening) ↦ rw listening (
        mem-cons_of_mem (close_listener l.socket)
          (mem-append_right (release_tables c.flows.tables) (last_actions-deletes c r own)))
  ])
])

-- After IPTablesReset all connections of the list are closed, and every rule of iptables and
-- ip6tables that one of them had appended and that was not closed before is deleted.
pub ip_tables_reset-deletes :
    (cs ds : List TcpConn) (c : TcpConn) (r : Rule)
    → c.closed ≡ false
    → Owns c r
    → All IsClosed ((ip_tables_reset (cs ++ c ∷ ds)).0)
      × Mem (delete_rule r) ((ip_tables_reset (cs ++ c ∷ ds)).1)
unfolding ip_tables_reset
ip_tables_reset-deletes cs ds c r live own = (all_closed (cs ++ c ∷ ds), deletes cs)
  where
    all_closed : (cs : List TcpConn) → All IsClosed ((ip_tables_reset cs).0)
    all_closed [] = tt
    all_closed (c ∷ cs) = (close-closed c, all_closed cs)

    deletes : (cs : List TcpConn) → Mem (delete_rule r) ((ip_tables_reset (cs ++ c ∷ ds)).1)
    deletes [] = mem-append_left ((ip_tables_reset ds).1) (close-deletes c r live own)
    deletes (x ∷ cs) = mem-append_right ((close x).1) (deletes cs)
