-- ===== src/Tcp/Flows.antt =====
-- The flow table of tcp_linux.go: `sharding` maps, of which the hash number of a key chooses one. A
-- Go map is a list of keys and flows. The locks make each operation one step and are left out.
pub mod Table
pub mod Sharded
pub mod Expiry
use tcpraw.Tcp.Action.{Action, set_ttl, close_conn}
use tcpraw.Base.{
  ℕ, zero, suc, ◌+◌, ◌-◌, Bool, true, Option, none, some, List, [], ◌∷◌, ◌++◌, ltb, if◌then◌else◌,
  length, set, replicate, bit_and, Run, ok, panic, ◌>>=◌, index,
}
use tcpraw.Tcp.Addr.{AddrKey, same_key, hash_number}

-- `tcpFlow`. A system connection or a handle is the number of its socket; times are in
-- nanoseconds. The buffers for writing, which WriteTo clears, are left out.
pub record TcpFlow : Type 0 where
  pub conn : Option ℕ
  pub handle : Option ℕ
  pub seq : ℕ
  pub ack : ℕ
  pub ts : ℕ

abbrev pub Table : Type 0
Table = List (AddrKey × TcpFlow)

unfoldable pub find : AddrKey → Table → Option TcpFlow
find key [] = none
find key ((k, e) ∷ t) = if same_key k key then some e else find key t

-- `m[key] = e`
unfoldable pub put : AddrKey → TcpFlow → Table → Table
put key e [] = (key, e) ∷ []
put key e ((k, d) ∷ t) = if same_key k key then (k, e) ∷ t else (k, d) ∷ put key e t

pub record FlowTables : Type 0 where
  pub sharding : ℕ
  pub tables : List Table

-- `initFlowTable`
unfoldable pub init_flow_table : ℕ → FlowTables
init_flow_table sharding = record { sharding = sharding; tables = replicate sharding [] }

abbrev pub shard_index : FlowTables → AddrKey → ℕ
shard_index flows key = bit_and (hash_number key) (flows.sharding - 1)

-- `getflow`: the flow and the shard that `f` gets.
unfoldable pub getflow : FlowTables → AddrKey → Run (Option TcpFlow × ℕ)
getflow flows key = do
  table ← index flows.tables (shard_index flows key)
  ok (find key table, shard_index flows key)

-- A flow as `lockflow` makes it.
abbrev pub new_flow : ℕ → TcpFlow
new_flow now = record { conn = none; handle = none; seq = 0; ack = 0; ts = now }

abbrev pub or_new : ℕ → Option TcpFlow → TcpFlow
or_new now none = new_flow now
or_new now (some e) = e

-- A new flow is logged, with an address of the system connection or, where there is none, of the
-- listener; `named` says that the connection has one of the two.
abbrev pub can_log : Bool → Option TcpFlow → Bool
can_log named none = named
can_log named (some e) = true

-- `lockflow`, where `f` changes the flow in place and gives a result. Without a system connection
-- and a listener the logging of a new flow panics.
unfoldable pub lockflow {ℓ} :
    {R : Type ℓ}
    → Bool
    → FlowTables
    → ℕ
    → AddrKey
    → (TcpFlow → ℕ → R × TcpFlow)
    → Run (FlowTables × R)
lockflow named flows now key f =
    let i = shard_index flows key in
    index flows.tables i >>= λ table.
    let (r, e) = f (or_new now (find key table)) i in
    if can_log named (find key table)
    then ok (record flows { tables = set flows.tables i (put key e table) }, r)
    else panic

abbrev pub expire : ℕ
expire = 60000000000

abbrev pub release : Option ℕ → List Action
release none = []
release (some c) = set_ttl c 64 ∷ close_conn c ∷ []

-- A pass of `cleaner` over one map.
unfoldable pub clean_table : ℕ → Table → Table × List Action
clean_table now [] = ([], [])
clean_table now ((k, e) ∷ t) =
    let (t', actions) = clean_table now t in
    if ltb expire (now - e.ts) then (t', release e.conn ++ actions) else ((k, e) ∷ t', actions)

unfoldable pub clean_tables : ℕ → List Table → List Table × List Action
unfolding clean_table
clean_tables now [] = ([], [])
clean_tables now (t ∷ ts) =
    let (t', actions) = clean_table now t in
    let (ts', more) = clean_tables now ts in (t' ∷ ts', actions ++ more)

-- A tick of `cleaner`.
unfoldable pub clean : FlowTables → ℕ → FlowTables × List Action
unfolding clean_tables
clean flows now =
    let (tables, actions) = clean_tables now flows.tables in
    (record flows { tables = tables }, actions)
