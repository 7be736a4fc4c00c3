-- ===== src/Tcp/Action.antt =====
-- What tcp_linux.go has done outside the program: to sockets, to iptables, to the list of
-- connections and to the goroutines that it starts.
use tcpraw.Base.{ℕ, Bytes}
use tcpraw.Tcp.Addr.{Ip}

-- The rules of the chain OUTPUT, all of which drop packets: those with a time to live (or hop limit)
-- of one, and the resets, from a port or to a peer.
pub data Rule : Type 0 where
  drop_ttl_one : Rule
  drop_ttl_one_from drop_reset_from drop_hop_one_from : ℕ → Rule
  drop_reset_to : Ip → ℕ → Rule
  drop_hop_one : Bytes → Bytes → Ip → ℕ → Rule

pub data Action : Type 0 where
  open_handle open_conn open_listener : ℕ → Action
  close_handle close_conn close_listener : ℕ → Action
  set_ttl set_dscp set_read_buffer set_write_buffer set_port_filter : ℕ → ℕ → Action
  set_reuse_port drop_all_input : ℕ → Action
  add_rule delete_rule : Rule → Action
  start_capture : ℕ → ℕ → Action
  start_cleaner start_accept enter_list leave_list : Action
