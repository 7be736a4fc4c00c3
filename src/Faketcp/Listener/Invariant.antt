-- ===== src/Faketcp/Listener/Invariant.antt =====
-- What holds of a listener between two steps: the maps speak of connections that there are, under
-- the keys of their addresses, and no key stands twice.
use tcpraw.Base.{
  ℕ, zero, suc, ◌<◌, ◌≡◌, refl, sym, ap, subst, ◌∙◌, Option, none, some, List, [], ◌∷◌, ◌++◌,
  length, get_elem?, set, All, ok, Bool-cases, inl, inr,
}
use tcpraw.Tcp.Addr.{AddrKey, same_key, addr_to_key}
use tcpraw.Faketcp.FakeConn.{FakeConn}
use tcpraw.Faketcp.Listener.{Listener, find_conn, delete_conn}

-- The connection with this number stands under the key of its address.
abbrev pub IsFiled : List FakeConn → AddrKey × ℕ → Type 0
IsFiled conns (k, id) =
    (fc : FakeConn) × (get_elem? conns id ≡ some fc) × (addr_to_key fc.addr ≡ ok k)

abbrev pub HasKey : FakeConn → Type 0
HasKey fc = (k : AddrKey) × (addr_to_key fc.addr ≡ ok k)

abbrev pub OneEach : List (AddrKey × ℕ) → Type 0
OneEach [] = Unit {0}
OneEach ((k, id) ∷ m) = (find_conn k m ≡ none) × OneEach m

abbrev pub IsKnown : List FakeConn → ℕ → Type 0
IsKnown conns id = id < length conns

abbrev pub IsDelayed : List FakeConn → ℕ × ℕ → Type 0
IsDelayed conns (id, t) = id < length conns

pub record IsValid (l : Listener) : Type 0 where
  pub filed : All (IsFiled l.conns) l.conn_map
  pub one_each : OneEach l.conn_map
  pub keyed : All HasKey l.conns
  pub delayed : All (IsDelayed l.conns) l.delay_map
  pub queued : All (IsKnown l.conns) l.conn_chan

pub All-get {ℓ κ} :
    {A : Type ℓ} (P : A → Type κ) (xs : List A) (i : ℕ) (x : A)
    → All P xs
    → get_elem? xs i ≡ some x
    → P x
All-get P [] i x a e = absurd (let h : Path (Option _) none (some x) = e in cc)
All-get P (y ∷ xs) zero x a e =
    subst P (ap (λ (o : Option _). elim o [ none ↦ y | some z ↦ z ]) e) a.0
All-get P (y ∷ xs) (suc i) x a e = All-get P xs i x a.1 e

-- More connections, or a change of one that keeps its address, keep the entries right.
pub IsFiled-append :
    (conns : List FakeConn) (fc : FakeConn) (m : List (AddrKey × ℕ))
    → All (IsFiled conns) m
    → All (IsFiled (conns ++ fc ∷ [])) m
IsFiled-append conns fc [] a = tt
IsFiled-append conns fc ((k, id) ∷ m) a =
    let (c, here, at_k) = a.0 in
    ((c, get_elem?-front conns id c here, at_k), IsFiled-append conns fc m a.1)
  where
    get_elem?-front :
        (xs : List FakeConn) (i : ℕ) (c : FakeConn)
        → get_elem? xs i ≡ some c
        → get_elem? (xs ++ fc ∷ []) i ≡ some c
    get_elem?-front [] i c e = cc
    get_elem?-front (x ∷ xs) zero c e = e
    get_elem?-front (x ∷ xs) (suc i) c e = get_elem?-front xs i c e

-- Which connection stands at a number after one was changed.
set_cases :
    (xs : List FakeConn) (i j : ℕ) (x y c : FakeConn)
    → get_elem? xs i ≡ some x
    → x.addr ≡ y.addr
    → get_elem? xs j ≡ some c
    → (c' : FakeConn) × (get_elem? (set xs i y) j ≡ some c') × (c.addr ≡ c'.addr)
set_cases [] i j x y c e same f = cc
set_cases (z ∷ xs) zero zero x y c e same f =
    let z_x : z ≡ x = cc in
    let z_c : z ≡ c = cc in (y, refl, ap (λ (w : FakeConn). w.addr) (sym z_c ∙ z_x) ∙ same)
set_cases (z ∷ xs) zero (suc j) x y c e same f = (c, f, refl)
set_cases (z ∷ xs) (suc i) zero x y c e same f = (c, f, refl)
set_cases (z ∷ xs) (suc i) (suc j) x y c e same f = set_cases xs i j x y c e same f

pub IsFiled-set :
    (conns : List FakeConn) (id : ℕ) (fc fc' : FakeConn) (m : List (AddrKey × ℕ))
    → get_elem? conns id ≡ some fc
    → fc.addr ≡ fc'.addr
    → All (IsFiled conns) m
    → All (IsFiled (set conns id fc')) m
IsFiled-set conns id fc fc' [] here same a = tt
IsFiled-set conns id fc fc' ((k, j) ∷ m) here same a =
    let (c, at_j, at_k) = a.0 in
    let (c', at_j', addr) = set_cases conns id j fc fc' c here same at_j in
    ((c', at_j', ap addr_to_key (sym addr) ∙ at_k), IsFiled-set conns id fc fc' m here same a.1)

pub IsFiled-delete :
    (conns : List FakeConn) (k : AddrKey) (m : List (AddrKey × ℕ))
    → All (IsFiled conns) m
    → All (IsFiled conns) (delete_conn k m)
unfolding delete_conn
IsFiled-delete conns k [] a = tt
IsFiled-delete conns k ((k', id) ∷ m) a =
    let rest = IsFiled-delete conns k m a.1 in
    elim (Bool-cases (same_key k' k)) [ inl same ↦ rw same rest | inr ne ↦ rw ne (a.0, rest) ]

find_conn-delete :
    (k k' : AddrKey) (m : List (AddrKey × ℕ))
    → find_conn k' m ≡ none
    → find_conn k' (delete_conn k m) ≡ none
unfolding find_conn delete_conn
find_conn-delete k k' [] e = refl
find_conn-delete k k' ((j, id) ∷ m) e = elim (Bool-cases (same_key j k')) [
  | inl here ↦ let h : Path (Option ℕ) (some id) none = rw here at e in cc
  | inr there ↦
      let rest = find_conn-delete k k' m (rw there at e) in
      elim (Bool-cases (same_key j k)) [ inl same ↦ rw same rest | inr ne ↦ rw (ne, there) rest ]
]

pub OneEach-delete : (k : AddrKey) (m : List (AddrKey × ℕ)) → OneEach m → OneEach (delete_conn k m)
unfolding delete_conn
OneEach-delete k [] a = tt
OneEach-delete k ((j, id) ∷ m) a = elim (Bool-cases (same_key j k)) [
  | inl same ↦ rw same (OneEach-delete k m a.1)
  | inr ne ↦ rw ne (find_conn-delete k j m a.0, OneEach-delete k m a.1)
]
