-- ===== src/Tcp/Setup/Ends.antt =====
-- What holds where a step of setting up ends with a value.
use tcpraw.Base.{
  ℕ, ◌≡◌, refl, subst, ◌∙◌, Option, none, some, List, ◌∷◌, ◌⊎◌, inl, inr, Error, Run, ok, panic,
  Bool, true, false,
}
use tcpraw.Tcp.Action.{Action}
use tcpraw.Tcp.Setup.{
  Setup, Result, done, failed, crashed, after, ◌>>=◌, act, answer, attempt, of_run, either,
  no_error, check, panic_unless,
}

abbrev pub Ends {ℓ} : {A : Type ℓ} → (A → List Action → Type 0) → List Action × Result A → Type 0
Ends Q (h, done a) = Q a h
Ends Q (h, failed e) = Unit {0}
Ends Q (h, crashed) = Unit {0}

pub bind-Ends {ℓ κ} :
    {A : Type ℓ} {B : Type κ} (P : A → List Action → Type 0) (Q : B → List Action → Type 0)
    (m : Setup A) (next : A → Setup B) (h : List Action)
    → Ends P (m h)
    → ((a : A) (h' : List Action) → P a h' → Ends Q (next a h'))
    → Ends Q ((m >>= next) h)
unfolding ◌>>=◌
bind-Ends {A = A} P Q m next h p k = go (m h) p
  where
    go : (r : List Action × Result A) → Ends P r → Ends Q (after next r)
    go (h', done a) p = k a h' p
    go (h', failed e) p = tt
    go (h', crashed) p = tt

pub either-Ends {ℓ} :
    {A : Type ℓ} (Q : A → List Action → Type 0) (o : Option Error) (a b : List Action × Result A)
    → Ends Q a
    → Ends Q b
    → Ends Q (either o a b)
either-Ends Q (some e) a b p q = p
either-Ends Q none a b p q = q

-- From the end to what it says of a given value.
pub Ends-done {ℓ} :
    {A : Type ℓ} (Q : A → List Action → Type 0) (r : List Action × Result A) (h : List Action)
    (a : A)
    → r ≡ (h, done a)
    → Ends Q r
    → Q a h
Ends-done Q r h a e q = subst (Ends Q) e q

-- Steps that leave a count of the actions as it is.
module _ (count : List Action → ℕ) (n : ℕ) where
  abbrev pub At {ℓ} : {A : Type ℓ} → A → List Action → Type 0
  At a h = count h ≡ n

  pub answer-At {ℓ} :
      {A : Type ℓ} (r : Error ⊎ A) (h : List Action) → count h ≡ n → Ends At (answer r h)
  answer-At (inl e) h q = tt
  answer-At (inr a) h q = q

  pub attempt-At {ℓ} :
      {A : Type ℓ} (made : A → Action) (call : List Action → Error ⊎ A) (h : List Action)
      → ((a : A) → count (made a ∷ h) ≡ count h)
      → count h ≡ n
      → Ends At (attempt made call h)
  unfolding attempt
  attempt-At {A = A} made call h same q = go (call h)
    where
      go : (r : Error ⊎ A) → Ends At (after (λ a h'. (made a ∷ h', done a)) (answer r h))
      go (inl e) = tt
      go (inr a) = same a ∙ q

  pub no_error-At : (e : Option Error) (h : List Action) → count h ≡ n → Ends At (no_error e h)
  no_error-At none h q = q
  no_error-At (some e) h q = tt

  pub check-At :
      (a : Action) (call : List Action → Option Error) (h : List Action)
      → ((h' : List Action) → count (a ∷ h') ≡ count h')
      → count h ≡ n
      → Ends At (check a call h)
  unfolding check
  check-At a call h same q = go (call h) (no_error-At (call h) h q)
    where
      then_act : Unit {0} → Setup (Unit {0})
      then_act u = act a

      go : (e : Option Error) → Ends At (no_error e h) → Ends At (after then_act (no_error e h))
      go none q = same h ∙ q
      go (some e) q = tt

  pub panic_unless-At : (b : Bool) (h : List Action) → count h ≡ n → Ends At (panic_unless b h)
  panic_unless-At true h q = q
  panic_unless-At false h q = tt

  pub of_run-At {ℓ} :
      {A : Type ℓ} (P : A → Type 0) (r : Run A) (h : List Action)
      → ((a : A) → r ≡ ok a → P a)
      → count h ≡ n
      → Ends (λ a h'. P a × (count h' ≡ n)) (of_run r h)
  of_run-At P (ok a) h p q = (p a refl, q)
  of_run-At P panic h p q = tt
