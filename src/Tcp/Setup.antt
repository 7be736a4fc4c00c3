-- ===== src/Tcp/Setup.antt =====
-- How Dial and Listen of tcp_linux.go talk to the system. The sockets, the resolver and iptables are
-- not part of the program: they are the record `Os` of answers, each of which may depend on all that
-- the program has done so far, newest first. `Options`, `Dial` and `Listen` model the functions;
-- the others hold theorems.
pub mod Options
pub mod Dial
pub mod Listen
pub mod Ends
pub mod Rules
pub mod Shared
pub mod Each
pub mod Leaks
use tcpraw.Base.{
  ℕ, Bool, true, false, Option, none, some, List, ◌∷◌, ◌⊎◌, inl, inr, Bytes, Error, Run, ok, panic,
}
use tcpraw.Tcp.Addr.{Ip, NetAddr}
use tcpraw.Tcp.Action.{Rule, Action}
use tcpraw.Tcp.Conn.{Dialed, Listening}

-- How setting up ends: with a value, with an error, which is nil where it is `none`, or in a panic.
pub data Result {ℓ} (A : Type ℓ) : Type ℓ where
  done : A → Result A
  failed : Option Error → Result A
  crashed : Result A

pub data Family : Type 0 where
  ipv4 ipv6 : Family

-- The socket options that setTTL and setDSCP set.
pub data SockOpt : Type 0 where
  unicast_hops ip_ttl traffic_class ip_tos : SockOpt

-- The answers of the system. `resolve_dial` and `resolve_listen` are net.ResolveTCPAddr, for which
-- `none` is a nil IP. An interface without an answer is one whose Addrs fails, and an address `none`
-- is not a *net.IPNet. `same_host` compares the string of a handle's address.
pub record Os : Type 0 where
  pub resolve_dial : Error ⊎ (Ip × ℕ)
  pub resolve_listen : Error ⊎ (Option Ip × ℕ)
  pub interfaces : Error ⊎ List (Option (List (Option Ip)))
  pub dial_ip : List Action → Ip → Error ⊎ ℕ
  pub dial_tcp : List Action → Ip → ℕ → Error ⊎ Dialed
  pub listen_ip : List Action → Ip → Error ⊎ ℕ
  pub listen_tcp : List Action → Option Ip → ℕ → Error ⊎ Listening
  pub split_host_port : NetAddr → Error ⊎ (Bytes × Bytes)
  pub same_host : ℕ → Bytes → Bool
  pub has_ipv4 : ℕ → Bool
  pub syscall_conn : List Action → ℕ → Option Error
  pub set_option : List Action → ℕ → SockOpt → ℕ → Option Error
  pub set_reuse_port : List Action → ℕ → Option Error
  pub set_bpf : List Action → ℕ → ℕ → Option Error
  pub read_buffer : List Action → ℕ → ℕ → Option Error
  pub write_buffer : List Action → ℕ → ℕ → Option Error
  pub attach_filter : List Action → ℕ → Option Error
  pub new_iptables : List Action → Family → Option Error
  pub rule_exists : List Action → Rule → Error ⊎ Bool
  pub append_rule : List Action → Rule → Option Error

abbrev pub Setup {ℓ} : Type ℓ → Type ℓ
Setup A = List Action → List Action × Result A

abbrev pub after {ℓ κ} :
    {A : Type ℓ} {B : Type κ} → (A → Setup B) → List Action × Result A → List Action × Result B
after next (h, done a) = next a h
after next (h, failed e) = (h, failed e)
after next (h, crashed) = (h, crashed)

infixl 5 ◌>>=◌
unfoldable pub ◌>>=◌ {ℓ κ} : {A : Type ℓ} {B : Type κ} → Setup A → (A → Setup B) → Setup B
m >>= next = λ h. after next (m h)

abbrev pub pure {ℓ} : {A : Type ℓ} → A → Setup A
pure a h = (h, done a)

abbrev pub act : Action → Setup (Unit {0})
act a h = (a ∷ h, done tt)

abbrev pub fail {ℓ} : {A : Type ℓ} → Option Error → Setup A
fail e h = (h, failed e)

abbrev pub crash {ℓ} : {A : Type ℓ} → Setup A
crash h = (h, crashed)

abbrev pub panic_unless : Bool → Setup (Unit {0})
panic_unless true = pure tt
panic_unless false = crash

module _ {ℓ} {A : Type ℓ} where
  -- An answer whose error is returned.
  abbrev pub answer : Error ⊎ A → Setup A
  answer (inl e) = fail (some e)
  answer (inr a) = pure a

  -- A call that makes something.
  unfoldable pub attempt : (A → Action) → (List Action → Error ⊎ A) → Setup A
  attempt made call = λ h. after (λ a h'. (made a ∷ h', done a)) (answer (call h) h)

  abbrev pub of_run : Run A → Setup A
  of_run (ok a) = pure a
  of_run panic = crash

-- One of two ends, by whether a call has an error.
abbrev pub either {ℓ} : {A : Type ℓ} → Option Error → A → A → A
either (some e) a b = a
either none a b = b

abbrev pub no_error : Option Error → Setup (Unit {0})
no_error none = pure tt
no_error (some e) = fail (some e)

-- A call that does something or returns an error.
unfoldable pub check : Action → (List Action → Option Error) → Setup (Unit {0})
check a call = λ h. after (λ ok. act a) (no_error (call h) h)
