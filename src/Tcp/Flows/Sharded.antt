-- ===== src/Tcp/Flows/Sharded.antt =====
-- The sharded flow table as one map from keys to flows.
use tcpraw.Base.{
  ℕ, ◌-◌, ◌<◌, ◌≡◌, refl, sym, ap, ◌∙◌, Bool, true, false, Option, none, some, [], length, get_or,
  set, replicate, All, length-set, length-replicate, bit_and, bit_and_le, index-get_or,
  get_or-set_self, get_or-set_ne, All-set, All-replicate, All-default, ok, panic, arith, ◌==◌,
  Bool-cases, inl, inr, ==_iff, ◌≢◌,
}
use tcpraw.Tcp.Addr.{AddrKey, same_key, hash_number}
use tcpraw.Tcp.Flows.{
  TcpFlow, Table, FlowTables, find, put, shard_index, getflow, lockflow, init_flow_table, or_new,
  can_log,
}
use tcpraw.Tcp.Flows.Table.{Distinct, find-put_same, find-put_other, put-Distinct}

-- There is at least one map, and none has a key twice.
pub record IsValid (flows : FlowTables) : Type 0 where
  pub pos : 0 < flows.sharding
  pub counted : length flows.tables ≡ flows.sharding
  pub distinct : All Distinct flows.tables

-- The one map.
abbrev pub lookup : FlowTables → AddrKey → Option TcpFlow
lookup flows key = find key (get_or flows.tables (shard_index flows key) [])

pub init_flow_table-IsValid :
    (n : ℕ)
    → 0 < n
    → IsValid (init_flow_table n) × ((key : AddrKey) → lookup (init_flow_table n) key ≡ none)
unfolding init_flow_table find
init_flow_table-IsValid n h = (
  record { pos = h; counted = length-replicate n []; distinct = All-replicate Distinct n [] tt },
  λ key. empty n (bit_and (hash_number key) (n - 1)) key,
)
  where
    empty : (n i : ℕ) (key : AddrKey) → find key (get_or (replicate n []) i []) ≡ none
    empty n i key =
        All-default (λ t. find key t ≡ none) (replicate n []) i []
          (All-replicate (λ t. find key t ≡ none) n [] refl) refl

module _ (flows : FlowTables) (v : IsValid flows) (key : AddrKey) where
  -- The mask never leads out of the slice of maps.
  pub shard_index_lt : shard_index flows key < length flows.tables
  shard_index_lt =
      let b = bit_and_le (hash_number key) (flows.sharding - 1) in
      omega (arith, v.pos, v.counted, b)

  -- On well-formed tables `getflow` never panics, and it finds what the one map has.
  pub getflow-lookup : getflow flows key ≡ ok (lookup flows key, shard_index flows key)
  unfolding getflow
  getflow-lookup = rw (index-get_or flows.tables (shard_index flows key) [] shard_index_lt)

  module _ {ℓ} {R : Type ℓ} (now : ℕ) (f : TcpFlow → ℕ → R × TcpFlow) where
    abbrev applied : R × TcpFlow
    applied = f (or_new now (lookup flows key)) (shard_index flows key)

    abbrev table : Table
    table = get_or flows.tables (shard_index flows key) []

    abbrev after : FlowTables
    after = record flows {
      tables = set flows.tables (shard_index flows key) (put key applied.1 table);
    }

    runs :
        (named : Bool)
        → can_log named (lookup flows key) ≡ true
        → lockflow named flows now key f ≡ ok (after, applied.0)
    unfolding lockflow
    runs named logs =
        rw (index-get_or flows.tables (shard_index flows key) [] shard_index_lt, logs) refl

    -- Without an address to log, a new flow makes lockflow panic.
    pub lockflow-unnamed : lookup flows key ≡ none → lockflow false flows now key f ≡ panic
    unfolding lockflow
    lockflow-unnamed absent =
        rw (index-get_or flows.tables (shard_index flows key) [] shard_index_lt, absent) refl

    pub after-IsValid : IsValid after
    after-IsValid = record {
      pos = v.pos;
      counted =
          length-set flows.tables (shard_index flows key) (put key applied.1 table) ∙ v.counted;
      distinct =
          All-set Distinct flows.tables (shard_index flows key) (put key applied.1 table) v.distinct
            (put-Distinct key applied.1 table
              (All-default Distinct flows.tables (shard_index flows key) [] v.distinct tt));
    }

    pub same_entry : lookup after key ≡ some applied.1
    same_entry =
        ap (find key) (
          get_or-set_self flows.tables (shard_index flows key) (put key applied.1 table) []
            shard_index_lt)
        ∙ find-put_same key applied.1 table

    pub other_entry :
        (other : AddrKey) → same_key key other ≡ false → lookup after other ≡ lookup flows other
    other_entry other ne = elim (Bool-cases (shard_index flows key == shard_index flows other)) [
      | inl same ↦
          let e : shard_index flows key ≡ shard_index flows other = (==_iff _ _).0 same in
          ap (λ i. find other (get_or after.tables i [])) (sym e)
          ∙ ap (find other) (
              get_or-set_self flows.tables (shard_index flows key) (put key applied.1 table) []
                shard_index_lt)
          ∙ find-put_other key other applied.1 table ne
          ∙ ap (λ i. find other (get_or flows.tables i [])) e
      | inr apart ↦
          let d : shard_index flows key ≢ shard_index flows other =
            λ e. absurd (ground (arith, e, apart)) in
          ap (find other) (
            get_or-set_ne flows.tables (shard_index flows key) (shard_index flows other)
              (put key applied.1 table) [] d)
    ]

    -- On well-formed tables, when the connection has a system connection or a listener to log, or
    -- the key has a flow already, `lockflow` does not panic. It applies the function to the key's
    -- flow, or to a new one, stores what the function made of it under the key, leaves every other
    -- key's flow as it was, and keeps the tables well formed.
    pub lockflow-lookup :
        (named : Bool)
        → can_log named (lookup flows key) ≡ true
        → (flows' : FlowTables) × (lockflow named flows now key f
            ≡ ok (flows', (f (or_new now (lookup flows key)) (shard_index flows key)).0))
          × IsValid flows'
          × (lookup flows' key
              ≡ some ((f (or_new now (lookup flows key)) (shard_index flows key)).1))
          × ((other : AddrKey)
              → same_key key other ≡ false
              → lookup flows' other ≡ lookup flows other)
    lockflow-lookup named logs = (after, runs named logs, after-IsValid, same_entry, other_entry)
