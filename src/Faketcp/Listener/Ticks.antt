-- ===== src/Faketcp/Listener/Ticks.antt =====
-- Closing a connection and the two ticks of the cleaner keep the listener's invariant, and none of
-- them panics.
use tcpraw.Base.{
  ℕ, ◌+◌, ◌-◌, ◌<◌, ◌≡◌, refl, sym, ap, subst, ◌∙◌, Bool, true, some, List, [], ◌∷◌, ◌++◌, ltb,
  ◌==◌, length, length-set, get_elem?, get_elem?-lt, get_elem?-lt_length, set, All, All-append, Run,
  ok, panic, Returns, Bool-cases, inl, inr, arith,
}
use tcpraw.Tcp.Addr.{AddrKey}
use tcpraw.Faketcp.FakeConn.{FakeConn}
use tcpraw.Faketcp.Listener.{
  Listener, delete_fake_conn, put_delay, close_conn, clean_entries, clean_delayed, expired_conns,
  close_each, clean_expired, delay_time, expire_time,
}
use tcpraw.Faketcp.Listener.Invariant.{IsFiled, HasKey, IsKnown, IsDelayed, IsValid, All-get}
use tcpraw.Faketcp.Listener.Preserved.{All-mono, >>=-Returns, set-IsValid, delete-IsValid}

-- The listener is valid, has as many connections as before, and offers the same ones to Accept.
abbrev pub Kept : Listener → Listener → Type 0
Kept l l' = IsValid l' × (length l'.conns ≡ length l.conns) × (l'.conn_chan ≡ l.conn_chan)

Kept-trans :
    (l l' : Listener) (r : Run Listener) → Kept l l' → Returns (Kept l') r → Returns (Kept l) r
Kept-trans l l' (ok l'') k k' = (k'.0, k'.1 ∙ k.1, k'.2 ∙ k.2)
Kept-trans l l' panic k k' = absurd k'

put_delay-IsDelayed :
    (conns : List FakeConn) (id t : ℕ) (m : List (ℕ × ℕ))
    → id < length conns
    → All (IsDelayed conns) m
    → All (IsDelayed conns) (put_delay id t m)
unfolding put_delay
put_delay-IsDelayed conns id t [] lt a = (lt, tt)
put_delay-IsDelayed conns id t ((i, s) ∷ m) lt a = elim (Bool-cases (i == id)) [
  | inl here ↦ rw here (a.0, a.1)
  | inr there ↦ rw there (a.0, put_delay-IsDelayed conns id t m lt a.1)
]

delay-IsValid :
    (l : Listener) (id t : ℕ)
    → IsValid l
    → id < length l.conns
    → IsValid (record l { delay_map = put_delay id t l.delay_map })
delay-IsValid l id t v lt = record {
  filed = v.filed;
  one_each = v.one_each;
  keyed = v.keyed;
  delayed = put_delay-IsDelayed l.conns id t l.delay_map lt v.delayed;
  queued = v.queued;
}

pub close_conn-IsValid :
    (immediately : Bool) (now id : ℕ) (l : Listener)
    → IsValid l
    → id < length l.conns
    → Returns (Kept l) (close_conn immediately now id l)
unfolding close_conn delete_fake_conn
close_conn-IsValid immediately now id l v lt =
    let (fc, here) = get_elem?-lt l.conns id lt in
    let (key, at_key) = All-get HasKey l.conns id fc v.keyed here in
    let fc' : FakeConn = record fc { closed = true } in
    let l' : Listener = record l { conns = set l.conns id fc' } in
    let v' = set-IsValid l id fc fc' v here refl in
    let len = length-set l.conns id fc' in
    elim (Bool-cases fc.closed) [
      | inl done ↦ rw (here, done) (v, refl, refl)
      | inr live ↦ elim (Bool-cases immediately) [
        | inl at_once ↦ rw (here, live, at_once, at_key) (delete-IsValid l' key v', len, refl)
        | inr later ↦
            rw (here, live, later)
              (delay-IsValid l' id (now + delay_time) v' (omega (arith, lt, len)), len, refl)
      ]
    ]

abbrev Unfiled : Listener → Listener → Type 0
Unfiled l l' = IsValid l' × (l'.conns ≡ l.conns) × (l'.conn_chan ≡ l.conn_chan)

delete_fake_conn-IsValid :
    (l : Listener) (id : ℕ) (fc : FakeConn)
    → IsValid l
    → get_elem? l.conns id ≡ some fc
    → Returns (Unfiled l) (delete_fake_conn fc l)
unfolding delete_fake_conn
delete_fake_conn-IsValid l id fc v here =
    let (key, at_key) = All-get HasKey l.conns id fc v.keyed here in
    rw at_key (delete-IsValid l key v, refl, refl)

keep_entries-IsValid :
    (l : Listener) (kept : List (ℕ × ℕ))
    → IsValid l
    → All (IsDelayed l.conns) kept
    → IsValid (record l { delay_map = kept })
keep_entries-IsValid l kept v a = record {
  filed = v.filed;
  one_each = v.one_each;
  keyed = v.keyed;
  delayed = a;
  queued = v.queued;
}

clean_entries-IsValid :
    (now : ℕ) (kept m : List (ℕ × ℕ)) (l : Listener)
    → IsValid l
    → All (IsDelayed l.conns) kept
    → All (IsDelayed l.conns) m
    → Returns (Kept l) (clean_entries now kept m l)
unfolding clean_entries
clean_entries-IsValid now kept [] l v a b = (keep_entries-IsValid l kept v a, refl, refl)
clean_entries-IsValid now kept ((id, t) ∷ m) l v a b =
    let (fc, here) = get_elem?-lt l.conns id b.0 in
    let stays =
      clean_entries-IsValid now (kept ++ (id, t) ∷ []) m l v
        (All-append (IsDelayed l.conns) kept ((id, t) ∷ []) a (b.0, tt)) b.1 in
    let dropped = λ (l' : Listener) (k : Unfiled l l').
      let known = λ (m' : List (ℕ × ℕ)) (c : All (IsDelayed l.conns) m').
        subst (λ cs. All (IsDelayed cs) m') (sym k.1) c in
      Kept-trans l l' (clean_entries now kept m l') (k.0, ap length k.1, k.2)
        (clean_entries-IsValid now kept m l' k.0 (known kept a) (known m b.1)) in
    elim (Bool-cases (ltb t now)) [
      | inl past ↦
          rw (past, here)
            (>>=-Returns (Unfiled l) (Kept l) (delete_fake_conn fc l)
              (λ l'. clean_entries now kept m l') (delete_fake_conn-IsValid l id fc v here) dropped)
      | inr future ↦ rw future stays
    ]

pub clean_delayed-IsValid :
    (now : ℕ) (l : Listener) → IsValid l → Returns (Kept l) (clean_delayed now l)
unfolding clean_delayed
clean_delayed-IsValid now l v = clean_entries-IsValid now [] l.delay_map l v tt v.delayed

expired_conns-IsKnown :
    (now : ℕ) (conns : List FakeConn) (m : List (AddrKey × ℕ))
    → All (IsFiled conns) m
    → Returns (All (IsKnown conns)) (expired_conns now conns m)
unfolding expired_conns
expired_conns-IsKnown now conns [] a = tt
expired_conns-IsKnown now conns ((k, id) ∷ m) a =
    let (fc, here, at_k) = a.0 in
    let lt = get_elem?-lt_length conns id fc here in
    rw here (
      >>=-Returns (All (IsKnown conns)) (All (IsKnown conns)) (expired_conns now conns m) (λ ids. _)
        (expired_conns-IsKnown now conns m a.1)
        (λ ids known. elim (Bool-cases (ltb expire_time (now - fc.ts))) [
          | inl old ↦ rw old (lt, known)
          | inr new ↦ rw new known
        ]))

close_each-IsValid :
    (now : ℕ) (ids : List ℕ) (l : Listener)
    → IsValid l
    → All (IsKnown l.conns) ids
    → Returns (Kept l) (close_each now ids l)
unfolding close_each
close_each-IsValid now [] l v a = (v, refl, refl)
close_each-IsValid now (id ∷ ids) l v a =
    >>=-Returns (Kept l) (Kept l) (close_conn true now id l) (λ l'. close_each now ids l')
      (close_conn-IsValid true now id l v a.0)
      (λ l' k.
        Kept-trans l l' (close_each now ids l') k
          (close_each-IsValid now ids l' k.0 (All-mono ids (λ i lt. omega (arith, lt, k.1)) a.1)))

pub clean_expired-IsValid :
    (now : ℕ) (l : Listener) → IsValid l → Returns (Kept l) (clean_expired now l)
unfolding clean_expired
clean_expired-IsValid now l v =
    >>=-Returns (All (IsKnown l.conns)) (Kept l) (expired_conns now l.conns l.conn_map)
      (λ ids. close_each now ids l) (expired_conns-IsKnown now l.conns l.conn_map v.filed)
      (λ ids known. close_each-IsValid now ids l v known)
