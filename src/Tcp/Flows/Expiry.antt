-- ===== src/Tcp/Flows/Expiry.antt =====
-- A tick of the cleaner, seen on the one map.
use tcpraw.Base.{
  ℕ, zero, suc, ◌-◌, ◌≡◌, refl, ap, ◌∙◌, List, [], ◌∷◌, ltb, length, get_or, All, Bool-cases, inl,
  inr,
}
use tcpraw.Tcp.Addr.{AddrKey}
use tcpraw.Tcp.Flows.{
  Table, FlowTables, find, shard_index, clean_table, clean_tables, clean, expire,
}
use tcpraw.Tcp.Flows.Table.{Distinct, fresh_only, find-clean_table}
use tcpraw.Tcp.Flows.Sharded.{IsValid, lookup}

get_or-clean_tables :
    (now : ℕ) (ts : List Table) (i : ℕ)
    → get_or ((clean_tables now ts).0) i [] ≡ (clean_table now (get_or ts i [])).0
unfolding clean_table clean_tables
get_or-clean_tables now [] i = refl
get_or-clean_tables now (t ∷ ts) zero = refl
get_or-clean_tables now (t ∷ ts) (suc i) = get_or-clean_tables now ts i

length-clean_tables : (now : ℕ) (ts : List Table) → length ((clean_tables now ts).0) ≡ length ts
unfolding clean_tables
length-clean_tables now [] = refl
length-clean_tables now (t ∷ ts) = ap suc (length-clean_tables now ts)

clean_table-Distinct : (now : ℕ) (t : Table) → Distinct t → Distinct ((clean_table now t).0)
unfolding clean_table
clean_table-Distinct now [] d = d
clean_table-Distinct now ((k, e) ∷ t) d = elim (Bool-cases (ltb expire (now - e.ts))) [
  | inl old ↦ rw old (clean_table-Distinct now t d.1)
  | inr young ↦
      rw young
        (find-clean_table now k t d.1 ∙ ap (fresh_only now) (d.0), clean_table-Distinct now t d.1)
]

clean_tables-Distinct :
    (now : ℕ) (ts : List Table) → All Distinct ts → All Distinct ((clean_tables now ts).0)
unfolding clean_tables
clean_tables-Distinct now [] d = d
clean_tables-Distinct now (t ∷ ts) d =
    (clean_table-Distinct now t d.0, clean_tables-Distinct now ts d.1)

All-Distinct-get_or : (ts : List Table) (i : ℕ) → All Distinct ts → Distinct (get_or ts i [])
All-Distinct-get_or [] i d = tt
All-Distinct-get_or (t ∷ ts) zero d = d.0
All-Distinct-get_or (t ∷ ts) (suc i) d = All-Distinct-get_or ts i d.1

-- On well-formed tables a tick of the cleaner removes exactly the flows that have been silent for
-- longer than the expiry time, leaves the others as they are, and keeps the tables well formed.
pub clean-lookup :
    (flows : FlowTables) (now : ℕ)
    → IsValid flows
    → IsValid ((clean flows now).0)
      × ((key : AddrKey) → lookup ((clean flows now).0) key ≡ fresh_only now (lookup flows key))
unfolding clean
clean-lookup flows now v = (
  record {
    pos = v.pos;
    counted = length-clean_tables now flows.tables ∙ v.counted;
    distinct = clean_tables-Distinct now flows.tables v.distinct;
  },
  λ key.
      ap (find key) (get_or-clean_tables now flows.tables (shard_index flows key))
      ∙ find-clean_table now key (get_or flows.tables (shard_index flows key) [])
          (All-Distinct-get_or flows.tables (shard_index flows key) v.distinct),
)
