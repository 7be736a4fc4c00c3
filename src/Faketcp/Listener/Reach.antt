-- ===== src/Faketcp/Listener/Reach.antt =====
-- What holds of a listener after every sequence of steps.
use tcpraw.Base.{
  ◌<◌, get_elem?, get_elem?-lt_length, ℕ, suc, ◌+◌, ◌≡◌, refl, sym, ap, subst, ◌∙◌, ◌⊎◌, Bool,
  false, Option, none, some, true, false, List, [], ◌∷◌, ◌++◌, append_assoc, ltb, length,
  length-append, length-set, Bytes, Error, Run, ok, panic, Returns, All, Bool-cases, Option-cases,
  inl, inr, arith,
}
use tcpraw.Tcp.Addr.{NetAddr, v4, tcp_addr, AddrKey, addr_to_key}
use tcpraw.Fec.Codec.{Codec}
use tcpraw.Faketcp.Listener.{
  Listener, new_listener, accept_data, accept, close_conn, clean_delayed, clean_expired, find_conn,
  give_data, accept_capacity,
}
use tcpraw.Faketcp.Listener.Invariant.{IsValid, IsKnown, IsFiled, All-get}
use tcpraw.Faketcp.Listener.Preserved.{accept_data-IsValid, find_conn-filed}
use tcpraw.Faketcp.Listener.Ticks.{
  Kept, close_conn-IsValid, clean_delayed-IsValid, clean_expired-IsValid,
}
use tcpraw.Faketcp.Listener.System.{
  Event, packet, user_close, delete_tick, expire_tick, cancelled, close_turn, close_found,
  fetch_one, serve, IsPossible, add_accepted, Reach, start, served, accepted, made,
}

new_listener-IsValid : (make_fec : Option (ℕ × ℕ)) → IsValid (new_listener make_fec)
unfolding new_listener
new_listener-IsValid make_fec = record {
  filed = tt;
  one_each = tt;
  keyed = tt;
  delayed = tt;
  queued = tt;
}

-- The connections that Accept has returned and those that it still has to return are all that the
-- listener made, in the order in which it made them.
abbrev InOrder : List ℕ → Listener → Type 0
InOrder given l = given ++ l.conn_chan ≡ made (length l.conns)

abbrev Good : List ℕ → Listener → Type 0
Good given l = IsValid l × InOrder given l

made-append : (n m : ℕ) → m ≡ n + 1 → made m ≡ made n ++ n ∷ []
made-append n m e = ap made (let s : m ≡ suc n = omega (arith, e) in s)

accept_data-InOrder :
    (new_codec : ℕ → ℕ → Option Codec) (now : ℕ) (given : List ℕ) (l : Listener) (b : Bytes)
    (addr : NetAddr) (key : AddrKey)
    → Good given l
    → addr_to_key addr ≡ ok key
    → Returns (InOrder given) (accept_data new_codec now l b addr)
unfolding accept_data give_data
accept_data-InOrder new_codec now given l b addr key (v, o) at_key =
    elim (Option-cases (find_conn key l.conn_map)) [
      | inl unknown ↦ elim (Bool-cases (ltb (length l.conn_chan) accept_capacity)) [
        | inl room ↦
            rw (at_key, unknown, room)
              (sym (append_assoc given l.conn_chan (length l.conns ∷ []))
                ∙ ap (λ ids. ids ++ length l.conns ∷ []) o
                ∙ sym (made-append (length l.conns) _ (length-append l.conns _)))
        | inr full ↦ rw (at_key, unknown, full) o
      ]
      | inr (id, known) ↦
          let (fc, here) = find_conn-filed l.conns key id l.conn_map v.filed known in
          rw (at_key, known, here) (o ∙ ap made (sym (length-set l.conns id _)))
    ]

Returns-both {ℓ} :
    {A : Type ℓ} (P Q : A → Type 0) (r : Run A)
    → Returns P r
    → Returns Q r
    → Returns (λ a. P a × Q a) r
Returns-both P Q (ok a) p q = (p, q)
Returns-both P Q panic p q = absurd p

Kept-Good :
    (given : List ℕ) (l : Listener) (r : Run Listener)
    → InOrder given l
    → Returns (Kept l) r
    → Returns (Good given) r
Kept-Good given l (ok l') o k = (k.0, ap (λ ids. given ++ ids) k.2 ∙ o ∙ ap made (sym k.1))
Kept-Good given l panic o k = absurd k

-- What stands in the map is the number of a connection.
filed-known :
    (l : Listener) (m : List (AddrKey × ℕ)) (place : ℕ) (key : AddrKey) (id : ℕ)
    → All (IsFiled l.conns) m
    → get_elem? m place ≡ some (key, id)
    → id < length l.conns
filed-known l m place key id a found =
    let (fc, here, at_key) = All-get (IsFiled l.conns) m place (key, id) a found in
    get_elem?-lt_length l.conns id fc here

serve-Good :
    (new_codec : ℕ → ℕ → Option Codec) (now : ℕ) (given : List ℕ) (e : Event) (l : Listener)
    → Good given l
    → IsPossible l e
    → Returns (Good given) (serve new_codec now e l)
unfolding addr_to_key fetch_one close_found
serve-Good new_codec now given (packet b ip port) l (v, o) p =
    let addr = tcp_addr (v4 ip) port in
    Returns-both IsValid (InOrder given) (accept_data new_codec now l b addr)
      (accept_data-IsValid new_codec now l b addr _ v refl)
      (accept_data-InOrder new_codec now given l b addr _ (v, o) refl)
serve-Good new_codec now given (user_close id) l (v, o) p =
    Kept-Good given l (close_conn false now id l) o (close_conn-IsValid false now id l v p)
serve-Good new_codec now given delete_tick l (v, o) p =
    Kept-Good given l (clean_delayed now l) o (clean_delayed-IsValid now l v)
serve-Good new_codec now given expire_tick l (v, o) p =
    Kept-Good given l (clean_expired now l) o (clean_expired-IsValid now l v)
serve-Good new_codec now given cancelled l (v, o) p = (
  record {
    filed = v.filed;
    one_each = v.one_each;
    keyed = v.keyed;
    delayed = v.delayed;
    queued = v.queued;
  },
  o,
)
serve-Good new_codec now given (close_turn place) l (v, o) p =
    elim (Option-cases (get_elem? l.conn_map place)) [
      | inl none_found ↦ rw none_found (v, o)
      | inr ((key, id), found) ↦ rw found (
          Kept-Good given l (close_conn true now id l) o (
            close_conn-IsValid true now id l v
              (filed-known l l.conn_map place key id v.filed found)))
    ]

-- What Accept takes is the first of the queue, if anything.
abbrev Taken : Listener → Listener → Option ℕ → Type 0
Taken l l' id =
    ((l' ≡ l) × (id ≡ none))
    ⊎ ((i : ℕ) × (ids : List ℕ) × (l.conn_chan ≡ i ∷ ids)
        × (l' ≡ record l { conn_chan = ids })
        × (id ≡ some i))

abbrev Accepted : Type 0
Accepted = Listener × (Option ℕ × Option Error)

accepted-inj :
    {a b : Accepted} → Path (Option Accepted) (some a) (some b) → (b.0 ≡ a.0) × (b.1.0 ≡ a.1.0)
accepted-inj {a} {b} e =
    let h : a ≡ b = ap (λ (o : Option Accepted). elim o [ none ↦ a | some x ↦ x ]) e in
    (sym (ap (λ p. p.0) h), sym (ap (λ p. p.1.0) h))

accept-first :
    (done_first done : Bool) (queue : List ℕ) (l l' : Listener) (id : Option ℕ) (err : Option Error)
    → accept done_first (record l { conn_chan = queue; done = done }) ≡ some (l', (id, err))
    → Taken (record l { conn_chan = queue; done = done }) l' id
unfolding accept
accept-first done_first true [] l l' id err e = inl (accepted-inj e)
accept-first done_first false [] l l' id err e = cc
accept-first true true (i ∷ ids) l l' id err e = inl (accepted-inj e)
accept-first false true (i ∷ ids) l l' id err e =
    let (left, taken) = accepted-inj e in inr (i, ids, refl, left, taken)
accept-first done_first false (i ∷ ids) l l' id err e =
    let (left, taken) = accepted-inj e in inr (i, ids, refl, left, taken)

accept-Good :
    (done_first : Bool) (given : List ℕ) (l l' : Listener) (id : Option ℕ) (err : Option Error)
    → Good given l
    → accept done_first l ≡ some (l', (id, err))
    → Good (add_accepted given id) l'
accept-Good done_first given l l' id err (v, o) e =
    elim (accept-first done_first l.done l.conn_chan l l' id err e) [
      | inl (same, nothing) ↦ rw (same, nothing) (v, o)
      | inr (i, ids, first, left, taken) ↦
          let q : All (IsKnown l.conns) (i ∷ ids) = subst (All (IsKnown l.conns)) first v.queued in
          rw (left, taken)
            (
              record {
                filed = v.filed;
                one_each = v.one_each;
                keyed = v.keyed;
                delayed = v.delayed;
                queued = q.1;
              },
              append_assoc given (i ∷ []) ids ∙ ap (λ xs. given ++ xs) (sym first) ∙ o,
            )
    ]

Reach-Good :
    (new_codec : ℕ → ℕ → Option Codec) (make_fec : Option (ℕ × ℕ)) (given : List ℕ) (l : Listener)
    → Reach new_codec make_fec given l
    → Good given l
unfolding new_listener
Reach-Good new_codec make_fec _ _ start = (new_listener-IsValid make_fec, refl)
Reach-Good new_codec make_fec given _ (served {l = l} now e r p ran) =
    subst (Returns (Good given)) ran
      (serve-Good new_codec now given e l (Reach-Good new_codec make_fec given l r) p)
Reach-Good new_codec make_fec _ _
      (accepted {given = given} {l = l} {l' = l'} done_first id err r took) =
    accept-Good done_first given l l' id err (Reach-Good new_codec make_fec given l r) took

-- The maps of a listener speak of connections that there are, a connection stands in connMap under
-- the key of its address, and no key stands there twice: this holds after every sequence of packets,
-- calls of Accept and of the connections' Close, ticks of the cleaner and steps of the listener's
-- Close.
pub Reach-IsValid :
    (new_codec : ℕ → ℕ → Option Codec) (make_fec : Option (ℕ × ℕ)) (given : List ℕ) (l : Listener)
    → Reach new_codec make_fec given l
    → IsValid l
Reach-IsValid new_codec make_fec given l r = (Reach-Good new_codec make_fec given l r).0

-- Accept returns every connection that the listener makes exactly once, in the order in which they
-- are made: after every sequence of steps the connections that it has returned, and those in its
-- queue, are all the connections made so far.
pub Reach-accepted_once :
    (new_codec : ℕ → ℕ → Option Codec) (make_fec : Option (ℕ × ℕ)) (given : List ℕ) (l : Listener)
    → Reach new_codec make_fec given l
    → given ++ l.conn_chan ≡ made (length l.conns)
Reach-accepted_once new_codec make_fec given l r = (Reach-Good new_codec make_fec given l r).1

-- In every state that a listener comes to, what the accept loop does with a packet from an IPv4
-- address, the Close of a connection that there is, each tick of the cleaner, and each turn of
-- closeAllFakeConns run to their end without a panic. Not among these steps are a read of the
-- TcpConn that fails, on which the accept loop panics, and the closing of the TcpConn.
pub Reach-serve :
    (new_codec : ℕ → ℕ → Option Codec) (make_fec : Option (ℕ × ℕ)) (now : ℕ) (given : List ℕ)
    (e : Event) (l : Listener)
    → Reach new_codec make_fec given l
    → IsPossible l e
    → (l' : Listener) × (serve new_codec now e l ≡ ok l') × Reach new_codec make_fec given l'
Reach-serve new_codec make_fec now given e l r p =
    ends (serve new_codec now e l) refl
      (serve-Good new_codec now given e l (Reach-Good new_codec make_fec given l r) p)
  where
    ends :
        (run : Run Listener)
        → serve new_codec now e l ≡ run
        → Returns (Good given) run
        → (l' : Listener) × (run ≡ ok l') × Reach new_codec make_fec given l'
    ends (ok l') ran g = (l', refl, served now e r p ran)
    ends panic ran g = absurd g
