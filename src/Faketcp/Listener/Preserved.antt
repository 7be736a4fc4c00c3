-- ===== src/Faketcp/Listener/Preserved.antt =====
-- A packet that the listener takes keeps its invariant, and so does each change it is made of.
use tcpraw.Base.{
  ℕ, ◌≡◌, refl, sym, ap, ◌∙◌, Option, none, some, List, [], ◌∷◌, ◌++◌, ltb, length, length-set,
  length-append, get_elem?, get_elem?-append, set, All, All-set, All-append, Bytes, Run, ok, panic,
  ◌>>=◌, Returns, Bool-cases, Option-cases, inl, inr, arith,
}
use tcpraw.Tcp.Addr.{NetAddr, AddrKey, same_key, addr_to_key}
use tcpraw.Fec.Codec.{Codec}
use tcpraw.Fec.Channel.{Fec}
use tcpraw.Faketcp.FakeConn.{FakeConn, new_fake_conn, push, recvch_capacity}
use tcpraw.Faketcp.Listener.{
  Listener, find_conn, fec_of, give_data, accept_data, delete_conn, accept_capacity,
}
use tcpraw.Faketcp.Listener.Invariant.{
  IsFiled, HasKey, IsKnown, IsValid, All-get, IsFiled-append, IsFiled-set, IsFiled-delete,
  OneEach-delete,
}

pub All-mono {ℓ κ κ'} :
    {A : Type ℓ} {P : A → Type κ} {Q : A → Type κ'} (xs : List A)
    → ((x : A) → P x → Q x)
    → All P xs
    → All Q xs
All-mono [] f a = tt
All-mono (x ∷ xs) f a = (f x a.0, All-mono xs f a.1)

pub >>=-Returns {ℓ κ} :
    {A : Type ℓ} {B : Type κ} (P : A → Type 0) (Q : B → Type 0) (m : Run A) (f : A → Run B)
    → Returns P m
    → ((a : A) → P a → Returns Q (f a))
    → Returns Q (m >>= f)
>>=-Returns P Q (ok a) f r k = k a r
>>=-Returns P Q panic f r k = absurd r

-- A connection is changed and keeps its address.
pub set-IsValid :
    (l : Listener) (id : ℕ) (fc fc' : FakeConn)
    → IsValid l
    → get_elem? l.conns id ≡ some fc
    → fc.addr ≡ fc'.addr
    → IsValid (record l { conns = set l.conns id fc' })
set-IsValid l id fc fc' v here same =
    let (k, at_k) = All-get HasKey l.conns id fc v.keyed here in
    let len = length-set l.conns id fc' in
    record {
      filed = IsFiled-set l.conns id fc fc' l.conn_map here same v.filed;
      one_each = v.one_each;
      keyed = All-set HasKey l.conns id fc' v.keyed (k, ap addr_to_key (sym same) ∙ at_k);
      delayed = All-mono l.delay_map (λ e lt. omega (arith, lt, len)) v.delayed;
      queued = All-mono l.conn_chan (λ i lt. omega (arith, lt, len)) v.queued;
    }

pub delete-IsValid :
    (l : Listener) (k : AddrKey)
    → IsValid l
    → IsValid (record l { conn_map = delete_conn k l.conn_map })
delete-IsValid l k v = record {
  filed = IsFiled-delete l.conns k l.conn_map v.filed;
  one_each = OneEach-delete k l.conn_map v.one_each;
  keyed = v.keyed;
  delayed = v.delayed;
  queued = v.queued;
}

push-addr : (now : ℕ) (f : FakeConn) (b : Bytes) → f.addr ≡ (push now f b).addr
unfolding push
push-addr now f b = elim (Bool-cases (ltb (length f.recvch) recvch_capacity)) [
  | inl room ↦ rw room
  | inr full ↦ rw full
]

new_fake_conn-addr :
    (now : ℕ) (addr : NetAddr) (fec : Option Fec) (b : Bytes)
    → (push now (new_fake_conn addr fec) b).addr ≡ addr
unfolding new_fake_conn
new_fake_conn-addr now addr fec b = sym (push-addr now (new_fake_conn addr fec) b)

pub find_conn-filed :
    (conns : List FakeConn) (key : AddrKey) (id : ℕ) (m : List (AddrKey × ℕ))
    → All (IsFiled conns) m
    → find_conn key m ≡ some id
    → (fc : FakeConn) × (get_elem? conns id ≡ some fc)
unfolding find_conn
find_conn-filed conns key id [] a e = cc
find_conn-filed conns key id ((k, i) ∷ m) a e = elim (Bool-cases (same_key k key)) [
  | inl here ↦
      let (fc, at_i, at_k) = a.0 in
      let same : i ≡ id = some-inj (rw here at e) in (fc, ap (get_elem? conns) (sym same) ∙ at_i)
  | inr there ↦ find_conn-filed conns key id m a.1 (rw there at e)
]
  where
    some-inj : {a b : ℕ} → Path (Option ℕ) (some a) (some b) → a ≡ b
    some-inj e = cc

-- A new connection, with its first packet.
added-IsValid :
    (l : Listener) (fc : FakeConn) (key : AddrKey)
    → IsValid l
    → addr_to_key fc.addr ≡ ok key
    → find_conn key l.conn_map ≡ none
    → IsValid (record l {
      conns = l.conns ++ fc ∷ [];
      conn_map = (key, length l.conns) ∷ l.conn_map;
      conn_chan = l.conn_chan ++ length l.conns ∷ [];
    })
added-IsValid l fc key v at_key unknown =
    let len = length-append l.conns (fc ∷ []) in
    record {
      filed = (
        (fc, get_elem?-append (length l.conns) l.conns [] fc refl, at_key),
        IsFiled-append l.conns fc l.conn_map v.filed,
      );
      one_each = (unknown, v.one_each);
      keyed = All-append HasKey l.conns (fc ∷ []) v.keyed ((key, at_key), tt);
      delayed = All-mono l.delay_map (λ e lt. omega (arith, lt, len)) v.delayed;
      queued =
          All-append (IsKnown (l.conns ++ fc ∷ [])) l.conn_chan (length l.conns ∷ [])
            (All-mono l.conn_chan (λ i lt. omega (arith, lt, len)) v.queued)
            (omega (arith, len), tt);
    }

pub accept_data-IsValid :
    (new_codec : ℕ → ℕ → Option Codec) (now : ℕ) (l : Listener) (b : Bytes) (addr : NetAddr)
    (key : AddrKey)
    → IsValid l
    → addr_to_key addr ≡ ok key
    → Returns IsValid (accept_data new_codec now l b addr)
unfolding accept_data give_data
accept_data-IsValid new_codec now l b addr key v at_key =
    elim (Option-cases (find_conn key l.conn_map)) [
      | inl unknown ↦ elim (Bool-cases (ltb (length l.conn_chan) accept_capacity)) [
        | inl room ↦
            let fc = push now (new_fake_conn addr (fec_of new_codec l.make_fec)) b in
            let same = new_fake_conn-addr now addr (fec_of new_codec l.make_fec) b in
            rw (at_key, unknown, room)
              (added-IsValid l fc key v (ap addr_to_key same ∙ at_key) unknown)
        | inr full ↦ rw (at_key, unknown, full) v
      ]
      | inr (id, known) ↦
          let (fc, here) = find_conn-filed l.conns key id l.conn_map v.filed known in
          rw (at_key, known, here) (set-IsValid l id fc (push now fc b) v here (push-addr now fc b))
    ]
