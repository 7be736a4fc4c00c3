-- ===== src/Faketcp/Listeners/Order.antt =====
-- No connection is lost or doubled on its way through Listeners, and each listener's keep their
-- order.
use tcpraw.Base.{
  ℕ, ◌≡◌, refl, sym, ap, subst, ◌∙◌, Bool, true, false, Option, none, some, List, [], ◌∷◌, ◌++◌,
  append_assoc, append-nil, ◌==◌, ==_refl, ==_iff, length, Error, context_done, ok, Bool-cases, inl,
  inr,
}
use tcpraw.Faketcp.Listeners.System.{
  add_given, ReachAll, start_all, served_at, taken, sent, returned, from, in_hand,
}
use tcpraw.Fec.Codec.{Codec}
use tcpraw.Faketcp.Listener.{Listener, accept}
use tcpraw.Faketcp.Listener.System.{Event, serve, IsPossible, Reach, start, served, accepted, made}
use tcpraw.Faketcp.Listener.Reach.{Reach-accepted_once}
use tcpraw.Faketcp.Listeners.{
  Listeners, put_at, new_listeners, take_conn, forward_take, send_conn, forward_send, accept_from,
  accept_any,
}

from-append : (j : ℕ) (xs ys : List (ℕ × ℕ)) → from j (xs ++ ys) ≡ from j xs ++ from j ys
from-append j [] ys = refl
from-append j ((i, id) ∷ xs) ys = elim (Bool-cases (j == i)) [
  | inl same ↦ rw same (ap (◌∷◌ id) (from-append j xs ys))
  | inr other ↦ rw other (from-append j xs ys)
]

-- What listener `j` has given to Accept is with the user, in the channel or in hand, in this order.
abbrev Passed : (ℕ → ℕ → Option Codec) → Option (ℕ × ℕ) → ℕ → List (ℕ × ℕ) → Listeners → Type 0
Passed new_codec make_fec j given s =
    Reach new_codec make_fec (from j given ++ (from j s.conn_chan ++ in_hand (s.held j)))
      (s.listeners j)

listeners-inj : {a b : Listeners} → Path (Option Listeners) (some a) (some b) → b ≡ a
listeners-inj {a} e = sym (ap (λ (o : Option Listeners). elim o [ none ↦ a | some s ↦ s ]) e)

take_conn-taken :
    (i : ℕ) (s s' : Listeners) (answer : Option (Listener × (Option ℕ × Option Error)))
    (h : Option ℕ)
    → take_conn i s answer h ≡ some s'
    → (l : Listener) × (id : ℕ) × (err : Option Error) × (answer ≡ some (l, (some id, err)))
      × (h ≡ none)
      × (s' ≡ record s { listeners = put_at s.listeners i l; held = put_at s.held i (some id) })
take_conn-taken i s s' answer (some id) e = cc
take_conn-taken i s s' none none e = cc
take_conn-taken i s s' (some (l, (none, err))) none e = cc
take_conn-taken i s s' (some (l, (some id, err))) none e = (l, id, err, refl, refl, listeners-inj e)

send_conn-sent :
    (i : ℕ) (s s' : Listeners) (room : Bool) (h : Option ℕ)
    → send_conn i s room h ≡ some s'
    → (id : ℕ) × (h ≡ some id)
      × (s' ≡ record s { held = put_at s.held i none; conn_chan = s.conn_chan ++ (i, id) ∷ [] })
send_conn-sent i s s' room none e = cc
send_conn-sent i s s' false (some id) e = cc
send_conn-sent i s s' true (some id) e = (id, refl, listeners-inj e)

-- A value put at another index is not seen, and one put at this index is.
put_at-here {ℓ} : {A : Type ℓ} (f : ℕ → A) (i : ℕ) (x : A) → put_at f i x i ≡ x
put_at-here f i x = rw (==_refl i)

abbrev Answer : Type 0
Answer = Listeners × (Option (ℕ × ℕ) × Option Error)

answer-inj : {a b : Answer} → Path (Option Answer) (some a) (some b) → (a.0 ≡ b.0) × (a.1.0 ≡ b.1.0)
answer-inj {a} e =
    let same = ap (λ (o : Option Answer). elim o [ none ↦ a | some x ↦ x ]) e in
    (ap (λ p. p.0) same, ap (λ p. p.1.0) same)

module _ (new_codec : ℕ → ℕ → Option Codec) (make_fec : Option (ℕ × ℕ)) where
  taken-Passed :
      (j : ℕ) (given : List (ℕ × ℕ)) (s : Listeners) (i id : ℕ) (l : Listener) (err : Option Error)
      (done_first : Bool)
      → accept done_first (s.listeners i) ≡ some (l, (some id, err))
      → s.held i ≡ none
      → Passed new_codec make_fec j given s
      → Passed new_codec make_fec j given
          (record s { listeners = put_at s.listeners i l; held = put_at s.held i (some id) })
  taken-Passed j given s i id l err done_first answer free r = elim (Bool-cases (j == i)) [
    | inl same ↦
        let at_i : j ≡ i = (==_iff j i).0 same in
        let g = from j given in
        let c = from j s.conn_chan in
        let before : Reach new_codec make_fec (g ++ (c ++ [])) (s.listeners j) =
          subst (λ h. Reach new_codec make_fec (g ++ (c ++ in_hand h)) (s.listeners j))
            (ap s.held at_i ∙ free) r in
        let after : Reach new_codec make_fec ((g ++ (c ++ [])) ++ id ∷ []) l =
          accepted done_first (some id) err before
            (ap (λ k. accept done_first (s.listeners k)) at_i ∙ answer) in
        rw same (
          subst (λ xs. Reach new_codec make_fec xs l)
            (append_assoc g (c ++ []) (id ∷ []) ∙ ap (λ xs. g ++ xs) (append_assoc c [] (id ∷ [])))
            after)
    | inr other ↦ rw other r
  ]

  sent-Passed :
      (j : ℕ) (given : List (ℕ × ℕ)) (s : Listeners) (i id : ℕ)
      → s.held i ≡ some id
      → Passed new_codec make_fec j given s
      → Passed new_codec make_fec j given
          (record s { held = put_at s.held i none; conn_chan = s.conn_chan ++ (i, id) ∷ [] })
  sent-Passed j given s i id busy r =
      let move =
        λ (h : Option ℕ)
            (to : from j (s.conn_chan ++ (i, id) ∷ []) ++ in_hand h
              ≡ from j s.conn_chan ++ in_hand (s.held j)).
          subst (λ xs. Reach new_codec make_fec (from j given ++ xs) (s.listeners j)) (sym to) r in
      let joined = from-append j s.conn_chan ((i, id) ∷ []) in
      elim (Bool-cases (j == i)) [
        | inl same ↦
            let at_i : j ≡ i = (==_iff j i).0 same in
            let in_chan : from j (s.conn_chan ++ (i, id) ∷ []) ≡ from j s.conn_chan ++ id ∷ [] =
              rw same at joined in
            rw same (
              move none (
                append-nil _
                ∙ in_chan
                ∙ ap (λ h. from j s.conn_chan ++ in_hand h) (sym (ap s.held at_i ∙ busy))))
        | inr other ↦
            let in_chan : from j (s.conn_chan ++ (i, id) ∷ []) ≡ from j s.conn_chan ++ [] =
              rw other at joined in
            rw other
              (move (s.held j) (ap (λ xs. xs ++ in_hand (s.held j)) (in_chan ∙ append-nil _)))
      ]

  returned-Passed :
      (j : ℕ) (given : List (ℕ × ℕ)) (s : Listeners) (c : ℕ × ℕ) (cs : List (ℕ × ℕ))
      → s.conn_chan ≡ c ∷ cs
      → Passed new_codec make_fec j given s
      → Passed new_codec make_fec j (given ++ c ∷ []) (record s { conn_chan = cs })
  returned-Passed j given s (i, id) cs first r =
      let h = in_hand (s.held j) in
      let now : Reach new_codec make_fec (from j given ++ (from j ((i, id) ∷ cs) ++ h))
          (s.listeners j) =
        subst (λ xs. Reach new_codec make_fec (from j given ++ (from j xs ++ h)) (s.listeners j))
          first r in
      let joined = from-append j given ((i, id) ∷ []) in
      let whole = λ (xs : List ℕ) (e : from j given ++ (from j ((i, id) ∷ cs) ++ h) ≡ xs).
        subst (λ ys. Reach new_codec make_fec ys (s.listeners j)) e now in
      elim (Bool-cases (j == i)) [
        | inl same ↦
            let given' : from j (given ++ (i, id) ∷ []) ≡ from j given ++ id ∷ [] =
              rw same at joined in
            let head : from j ((i, id) ∷ cs) ≡ id ∷ from j cs = rw same in
            whole _ (
              ap (λ xs. from j given ++ (xs ++ h)) head
              ∙ sym (append_assoc (from j given) (id ∷ []) (from j cs ++ h))
              ∙ ap (λ xs. xs ++ (from j cs ++ h)) (sym given'))
        | inr other ↦
            let given' : from j (given ++ (i, id) ∷ []) ≡ from j given ++ [] = rw other at joined in
            let head : from j ((i, id) ∷ cs) ≡ from j cs = rw other in
            whole _ (
              ap (λ xs. from j given ++ (xs ++ h)) head
              ∙ ap (λ xs. xs ++ (from j cs ++ h)) (sym (given' ∙ append-nil _)))
      ]

  served-Passed :
      (j : ℕ) (given : List (ℕ × ℕ)) (s : Listeners) (i now : ℕ) (e : Event) (l : Listener)
      → IsPossible (s.listeners i) e
      → serve new_codec now e (s.listeners i) ≡ ok l
      → Passed new_codec make_fec j given s
      → Passed new_codec make_fec j given (record s { listeners = put_at s.listeners i l })
  served-Passed j given s i now e l p ran r = elim (Bool-cases (j == i)) [
    | inl same ↦
        let at_i : j ≡ i = (==_iff j i).0 same in
        rw same (
          served now e r (subst (λ k. IsPossible (s.listeners k) e) (sym at_i) p)
            (ap (λ k. serve new_codec now e (s.listeners k)) at_i ∙ ran))
    | inr other ↦ rw other r
  ]

  accept_from-Passed :
      (j : ℕ) (given : List (ℕ × ℕ)) (s s' : Listeners) (done_first done : Bool)
      (queue : List (ℕ × ℕ)) (c : Option (ℕ × ℕ)) (err : Option Error)
      → s.conn_chan ≡ queue
      → accept_from done_first done s queue ≡ some (s', (c, err))
      → Passed new_codec make_fec j given s
      → Passed new_codec make_fec j (add_given given c) s'
  accept_from-Passed j given s s' done_first done queue c err first e r =
      go done_first done queue first e
    where
      settle :
          (s₁ : Listeners) (c₁ : Option (ℕ × ℕ)) (err₁ : Option Error)
          → Path (Option Answer) (some (s₁, (c₁, err₁))) (some (s', (c, err)))
          → Passed new_codec make_fec j (add_given given c₁) s₁
          → Passed new_codec make_fec j (add_given given c) s'
      settle s₁ c₁ err₁ e q =
          let (to_s, to_c) = answer-inj e in
          subst (Passed new_codec make_fec j (add_given given c)) to_s
            (subst (λ c₂. Passed new_codec make_fec j (add_given given c₂) s₁) to_c q)

      go :
          (done_first done : Bool) (queue : List (ℕ × ℕ))
          → s.conn_chan ≡ queue
          → accept_from done_first done s queue ≡ some (s', (c, err))
          → Passed new_codec make_fec j (add_given given c) s'
      go done_first false [] first e = cc
      go done_first true [] first e = settle s none (some context_done) e r
      go true true (x ∷ xs) first e = settle s none (some context_done) e r
      go false true (x ∷ xs) first e =
          settle (record s { conn_chan = xs }) (some x) none e
            (returned-Passed j given s x xs first r)
      go done_first false (x ∷ xs) first e =
          settle (record s { conn_chan = xs }) (some x) none e
            (returned-Passed j given s x xs first r)

  ReachAll-Passed :
      (j : ℕ) (given : List (ℕ × ℕ)) (s : Listeners)
      → ReachAll new_codec make_fec given s
      → Passed new_codec make_fec j given s
  unfolding new_listeners forward_take forward_send accept_any
  ReachAll-Passed j _ _ start_all = start
  ReachAll-Passed j given _ (served_at {s = s} {l = l} i now e r p ran) =
      served-Passed j given s i now e l p ran (ReachAll-Passed j given s r)
  ReachAll-Passed j given s' (taken {s = s} done_first i r took) =
      let (l, id, err, answer, free, now) =
        take_conn-taken i s s' (accept done_first (s.listeners i)) (s.held i) took in
      subst (Passed new_codec make_fec j given) (sym now)
        (taken-Passed j given s i id l err done_first answer free (ReachAll-Passed j given s r))
  ReachAll-Passed j given s' (sent {s = s} i r did) =
      let (id, busy, now) = send_conn-sent i s s' _ (s.held i) did in
      subst (Passed new_codec make_fec j given) (sym now)
        (sent-Passed j given s i id busy (ReachAll-Passed j given s r))
  ReachAll-Passed j _ s' (returned {given = given} {s = s} done_first c err r got) =
      accept_from-Passed j given s s' done_first s.done s.conn_chan c err refl got
        (ReachAll-Passed j given s r)

  -- Listeners neither lose nor double a connection: after every sequence of packets, ticks, closes,
  -- calls of Accept and steps of its goroutines, the connections of one listener that Accept has
  -- returned, those in the channel, the one that its goroutine has in hand and those in its own
  -- queue are, in this order, all that this listener has made.
  pub ReachAll-once :
      (j : ℕ) (given : List (ℕ × ℕ)) (s : Listeners)
      → ReachAll new_codec make_fec given s
      → (from j given ++ (from j s.conn_chan ++ in_hand (s.held j))) ++ (s.listeners j).conn_chan
        ≡ made (length (s.listeners j).conns)
  ReachAll-once j given s r =
      Reach-accepted_once new_codec make_fec _ (s.listeners j) (ReachAll-Passed j given s r)
