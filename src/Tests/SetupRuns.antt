-- ===== src/Tests/SetupRuns.antt =====
-- A system that answers every call, on which two connections are dialed, and on which the port of
-- Listen is in use.
use tcpraw.Base.{
  arith, ℕ, ◌≡◌, refl, Bool, true, false, Option, none, some, List, [], ◌∷◌, ltb, if◌then◌else◌,
  inl, inr, io_error,
}
use tcpraw.Tcp.Addr.{v4, tcp_addr, AddrKey, addr_split, hash_number}
use tcpraw.Tcp.Action.{
  Rule, drop_ttl_one, drop_reset_to, drop_hop_one, Action, open_handle, open_conn, set_port_filter,
  start_capture, start_cleaner, set_ttl, add_rule, drop_all_input, enter_list, set_read_buffer,
  set_write_buffer,
}
use tcpraw.Tcp.Flows.{find, put, init_flow_table, lockflow}
use tcpraw.Tcp.Conn.{TcpConn, Dialed, dial_conn, fresh_conn, close}
use tcpraw.Tcp.Setup.{Os, done, failed, ◌>>=◌, attempt, check}
use tcpraw.Tcp.Setup.Options.{
  append_once, append_reset_rule, set_read_buffer_all, set_write_buffer_all,
}
use tcpraw.Tcp.Setup.Dial.{dial, dial_sockets, dial_rules, dial_or_close, attach_filter}
use tcpraw.Tcp.Setup.Listen.{listen}
use tcpraw.Tcp.Setup.Rules.{is_ttl_one, ttl_rules, KnowsRules}
use tcpraw.Tcp.Setup.Shared.{did, close-takes_shared_rule}
use tcpraw.Tcp.Setup.Each.{SetsUpTo, set_buffers-first_error}
use tcpraw.Tcp.Setup.Leaks.{Leaves, listen-leaks, listen-nil_error}

abbrev dialed_socket : Dialed
dialed_socket = record {
  socket = 8;
  local = tcp_addr (v4 0x0a000001) 4000;
  remote = tcp_addr (v4 0x0a000002) 9191;
}

abbrev pub calm_os : Os
calm_os = record {
  resolve_dial = inr (v4 0x0a000002, 9191);
  resolve_listen = inr (none, 9191);
  interfaces = inr (some (some (v4 0x0a000001) ∷ none ∷ []) ∷ none ∷ []);
  dial_ip = λ h ip. inr 7;
  dial_tcp = λ h ip port. inr dialed_socket;
  listen_ip = λ h ip. inr 7;
  listen_tcp = λ h ip port. inl (io_error 98);
  split_host_port = λ addr. inr (1 ∷ [], 2 ∷ []);
  same_host = λ handle host. true;
  has_ipv4 = λ socket. true;
  syscall_conn = λ h socket. none;
  set_option = λ h socket opt v. none;
  set_reuse_port = λ h socket. none;
  set_bpf = λ h handle port. none;
  read_buffer = λ h handle bytes. none;
  write_buffer = λ h handle bytes. some (io_error 22);
  attach_filter = λ h socket. none;
  new_iptables = λ h family. none;
  rule_exists = λ h rule. if is_ttl_one rule then inr (ltb 0 (ttl_rules h)) else inr false;
  append_rule = λ h rule. none;
}

calm_os-KnowsRules : KnowsRules calm_os
calm_os-KnowsRules h = refl

abbrev peer_key : AddrKey
peer_key = record { dip = 0x0a000002; dport = 9191 }

abbrev pub dialed_at : ℕ → Option Rule → TcpConn
dialed_at now own = record (fresh_conn 1 64240) {
  tcpconn = some dialed_socket;
  handles = 7 ∷ [];
  iptables = own;
  ip6tables = some (drop_hop_one (1 ∷ []) (2 ∷ []) (v4 0x0a000002) 9191);
  flows = record {
    sharding = 1;
    tables =
        ((peer_key, record { conn = some 8; handle = none; seq = 0; ack = 0; ts = now }) ∷ []) ∷ [];
  };
}

abbrev after_sockets : List Action → List Action
after_sockets h =
    set_ttl 8 1
    ∷ start_cleaner
    ∷ start_capture 7 4000
    ∷ set_port_filter 7 4000
    ∷ open_conn 8
    ∷ open_handle 7
    ∷ h

abbrev with_reset : List Action → List Action
with_reset h =
    enter_list
    ∷ drop_all_input 8
    ∷ add_rule (drop_hop_one (1 ∷ []) (2 ∷ []) (v4 0x0a000002) 9191)
    ∷ add_rule (drop_reset_to (v4 0x0a000002) 9191)
    ∷ h

abbrev pub after_first : List Action
after_first = with_reset (add_rule drop_ttl_one ∷ after_sockets [])

abbrev after_second : List Action
after_second = with_reset (after_sockets after_first)

pub first_dial : dial calm_os 64240 5 [] ≡ (after_first, done (dialed_at 5 (some drop_ttl_one)))
unfolding dial dial_sockets dial_rules dial_or_close attach_filter append_once append_reset_rule
    attempt check ◌>>=◌ dial_conn addr_split lockflow init_flow_table find put hash_number
first_dial = refl

second_dial : dial calm_os 64240 6 after_first ≡ (after_second, done (dialed_at 6 none))
unfolding dial dial_sockets dial_rules dial_or_close attach_filter append_once append_reset_rule
    attempt check ◌>>=◌ dial_conn addr_split lockflow init_flow_table find put hash_number
second_dial = refl

close-takes_shared_rule_example :
    (Path Bool false false)
    × (Path (Option Rule) none none)
    × (ttl_rules after_second ≡ 1)
    × (ttl_rules (did ((close (dialed_at 5 (some drop_ttl_one))).1) after_second) ≡ 0)
close-takes_shared_rule_example =
    close-takes_shared_rule calm_os 64240 5 6 [] after_first after_second
      (dialed_at 5 (some drop_ttl_one)) (dialed_at 6 none) calm_os-KnowsRules first_dial refl
      second_dial

set_buffers-first_error_example :
    SetsUpTo
      (λ k. set_read_buffer k 4096)
      (λ h'. λ k. none)
      (7 ∷ [])
      []
      (set_read_buffer_all calm_os (dialed_at 5 none) 4096 [])
    × SetsUpTo
        (λ k. set_write_buffer k 4096)
        (λ h'. λ k. some (io_error 22))
        (7 ∷ [])
        []
        (set_write_buffer_all calm_os (dialed_at 5 none) 4096 [])
set_buffers-first_error_example = set_buffers-first_error calm_os (dialed_at 5 none) 4096 []

listen-leaks_example : Leaves 1 (io_error 98) [] (listen calm_os 64240 [])
listen-leaks_example =
    listen-leaks calm_os 64240 9191 (some (some (v4 0x0a000001) ∷ none ∷ []) ∷ none ∷ [])
      (io_error 98) [] refl refl (omega arith) (λ h' ip. (7, refl)) (λ h'. refl)

abbrev bare_os : Os
bare_os = record calm_os { interfaces = inr (some [] ∷ none ∷ []) }

listen-nil_error_example : listen bare_os 64240 [] ≡ ([], failed none)
listen-nil_error_example =
    listen-nil_error bare_os 64240 9191 (some [] ∷ none ∷ []) [] refl refl (tt, (tt, tt))
