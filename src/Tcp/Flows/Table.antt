-- ===== src/Tcp/Flows/Table.antt =====
-- One map of the flow table: finding after storing and after cleaning.
use mathlib.Core.Path.{ap₂}
use tcpraw.Base.{
  ℕ, ◌-◌, ◌≡◌, refl, ap, ◌∙◌, true, false, Option, none, some, [], ◌∷◌, ltb, if◌then◌else◌,
  Bool-cases, inl, inr, ==_refl, arith,
}
use tcpraw.Tcp.Addr.{AddrKey, same_key}
use tcpraw.Tcp.Flows.{TcpFlow, Table, find, put, expire, clean_table}

pub same_key_refl : (k : AddrKey) → same_key k k ≡ true
same_key_refl k = rw (==_refl k.dip, ==_refl k.dport)

pub same_key-eq : (a b : AddrKey) → same_key a b ≡ true → a ≡ b
same_key-eq a b h =
    let d : a.dip ≡ b.dip = ground (arith, h) in
    let p : a.dport ≡ b.dport = ground (arith, h) in
    ap₂ (λ (x y : ℕ). record { dip = x; dport = y }) d p

pub find-put_same : (key : AddrKey) (e : TcpFlow) (t : Table) → find key (put key e t) ≡ some e
unfolding find put
find-put_same key e [] = rw (same_key_refl key)
find-put_same key e ((k, d) ∷ t) = elim (Bool-cases (same_key k key)) [
  | inl here ↦ rw (here, here)
  | inr there ↦ rw (there, there) (find-put_same key e t)
]

pub find-put_other :
    (key other : AddrKey) (e : TcpFlow) (t : Table)
    → same_key key other ≡ false
    → find other (put key e t) ≡ find other t
unfolding find put
find-put_other key other e [] h = rw h
find-put_other key other e ((k, d) ∷ t) h = elim (Bool-cases (same_key k key)) [
  | inl here ↦
      let not_other : same_key k other ≡ false = rw (same_key-eq k key here) h in
      rw (here, not_other)
  | inr there ↦ rw there (
      ap (λ (o : Option TcpFlow). if same_key k other then some d else o)
        (find-put_other key other e t h))
]

-- No key stands twice.
abbrev pub Absent : AddrKey → Table → Type 0
Absent key t = find key t ≡ none

abbrev pub Distinct : Table → Type 0
Distinct [] = Unit {0}
Distinct ((k, e) ∷ t) = Absent k t × Distinct t

pub put-Distinct : (key : AddrKey) (e : TcpFlow) (t : Table) → Distinct t → Distinct (put key e t)
unfolding find put
put-Distinct key e [] d = (refl, tt)
put-Distinct key e ((k, x) ∷ t) d = elim (Bool-cases (same_key k key)) [
  | inl here ↦ rw here d
  | inr there ↦
      rw there (find-put_other key k e t (swap key k there) ∙ d.0, put-Distinct key e t d.1)
]
  where
    swap : (a b : AddrKey) → same_key b a ≡ false → same_key a b ≡ false
    swap a b h = ground (arith, h)

-- A flow that has been silent for longer than `expire` is gone, and another stays.
abbrev pub fresh_only : ℕ → Option TcpFlow → Option TcpFlow
fresh_only now none = none
fresh_only now (some e) = if ltb expire (now - e.ts) then none else some e

fresh_only-none : (now : ℕ) (o : Option TcpFlow) → o ≡ none → fresh_only now o ≡ none
fresh_only-none now o h = rw h

pub find-clean_table :
    (now : ℕ) (key : AddrKey) (t : Table)
    → Distinct t
    → find key ((clean_table now t).0) ≡ fresh_only now (find key t)
unfolding find clean_table
find-clean_table now key [] d = refl
find-clean_table now key ((k, e) ∷ t) d =
    let rest = find-clean_table now key t d.1 in
    elim (Bool-cases (ltb expire (now - e.ts))) [
      | inl old ↦ rw old (elim (Bool-cases (same_key k key)) [
        | inl here ↦
            let gone : find key t ≡ none = rw (← same_key-eq k key here) (d.0) in
            rw (here, old) (rest ∙ fresh_only-none now (find key t) gone)
        | inr there ↦ rw there rest
      ])
      | inr young ↦ rw young (elim (Bool-cases (same_key k key)) [
        | inl here ↦ rw (here, young)
        | inr there ↦ rw there rest
      ])
    ]
