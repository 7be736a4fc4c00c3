-- ===== src/Tcp/Setup/Each.antt =====
-- What SetReadBuffer and SetWriteBuffer come to when one of the handles refuses.
use tcpraw.Base.{
  ℕ, ◌≡◌, refl, ap, Option, some, List, [], ◌∷◌, ◌++◌, ◌⊎◌, inl, inr, Error, Option-cases,
}
use tcpraw.Tcp.Action.{Action, set_read_buffer, set_write_buffer}
use tcpraw.Tcp.Conn.{TcpConn}
use tcpraw.Tcp.Setup.{Os, Result, done, failed, ◌>>=◌, check}
use tcpraw.Tcp.Setup.Options.{set_each, set_read_buffer_all, set_write_buffer_all}

-- The history when these handles have been set.
abbrev pub all_set : (ℕ → Action) → List ℕ → List Action → List Action
all_set made [] h = h
all_set made (k ∷ ks) h = all_set made ks (made k ∷ h)

-- All handles are set, or those before the first that refuses are, and its error is the result.
abbrev pub SetsUpTo :
    (ℕ → Action)
    → (List Action → ℕ → Option Error)
    → List ℕ
    → List Action
    → List Action × Result (Unit {0})
    → Type 0
SetsUpTo made call ks h r =
    (r ≡ (all_set made ks h, done tt))
    ⊎ ((before : List ℕ) × (k : ℕ) × (rest : List ℕ) × (e : Error) × (ks ≡ before ++ k ∷ rest)
        × (call (all_set made before h) k ≡ some e)
        × (r ≡ (all_set made before h, failed (some e))))

module _ (made : ℕ → Action) (call : List Action → ℕ → Option Error) where
  set_each-SetsUpTo :
      (ks : List ℕ) (h : List Action)
      → SetsUpTo made call ks h (set_each (λ k. check (made k) (λ h'. call h' k)) ks h)
  unfolding set_each check ◌>>=◌
  set_each-SetsUpTo [] h = inl refl
  set_each-SetsUpTo (k ∷ ks) h = elim (Option-cases (call h k)) [
    | inl fine ↦ rw fine (shifted (set_each-SetsUpTo ks (made k ∷ h)))
    | inr (e, refused) ↦ rw refused (inr ([], k, ks, e, refl, refused, refl))
  ]
    where
      shifted :
          {r : List Action × Result (Unit {0})}
          → SetsUpTo made call ks (made k ∷ h) r
          → SetsUpTo made call (k ∷ ks) h r
      shifted (inl e) = inl e
      shifted (inr (before, j, rest, e, split, refused, r)) =
          inr (k ∷ before, j, rest, e, ap (◌∷◌ k) split, refused, r)

-- SetReadBuffer and SetWriteBuffer set every handle and return nil, or set the handles before the
-- first that refuses and return its error.
pub set_buffers-first_error :
    (os : Os) (conn : TcpConn) (bytes : ℕ) (h : List Action)
    → SetsUpTo
        (λ k. set_read_buffer k bytes)
        (λ h'. λ k. os.read_buffer h' k bytes)
        conn.handles
        h
        (set_read_buffer_all os conn bytes h)
      × SetsUpTo
          (λ k. set_write_buffer k bytes)
          (λ h'. λ k. os.write_buffer h' k bytes)
          conn.handles
          h
          (set_write_buffer_all os conn bytes h)
unfolding set_read_buffer_all set_write_buffer_all
set_buffers-first_error os conn bytes h = (
  set_each-SetsUpTo (λ k. set_read_buffer k bytes) (λ h'. λ k. os.read_buffer h' k bytes)
      conn.handles h,
  set_each-SetsUpTo (λ k. set_write_buffer k bytes) (λ h'. λ k. os.write_buffer h' k bytes)
      conn.handles h,
)
