-- ===== src/Tcp/Setup/Leaks.antt =====
-- What Listen leaves behind when it fails.
use tcpraw.Base.{
  ℕ, ◌+◌, ◌-◌, ◌<◌, ◌≡◌, refl, sym, ap, subst, ◌∙◌, Option, none, some, List, [], ◌∷◌, ◌++◌, inl,
  inr, length, length-append, Error, All, arith,
}
use tcpraw.Tcp.Addr.{Ip}
use tcpraw.Tcp.Action.{Action, open_handle, close_handle, start_capture}
use tcpraw.Tcp.Conn.{TcpConn}
use tcpraw.Tcp.Setup.{Os, Setup, Result, done, failed, after, ◌>>=◌, attempt}
use tcpraw.Tcp.Setup.Listen.{
  Handles, captured, listen_on, listen_addrs, listen_interfaces, some_handles, listen_everywhere,
  listen_handles, listen_rest, listen,
}

-- The handles that are open, and the captures that were started, after these actions.
abbrev pub open_handles : List Action → ℕ
open_handles [] = 0
open_handles (open_handle k ∷ h) = open_handles h + 1
open_handles (close_handle k ∷ h) = open_handles h - 1
open_handles (_ ∷ h) = open_handles h

abbrev pub captures : List Action → ℕ
captures [] = 0
captures (start_capture k port ∷ h) = captures h + 1
captures (_ ∷ h) = captures h

-- So many addresses are listened on.
abbrev pub num_addrs : List (Option Ip) → ℕ
num_addrs [] = 0
num_addrs (none ∷ addrs) = num_addrs addrs
num_addrs (some ip ∷ addrs) = 1 + num_addrs addrs

abbrev pub num_ips : List (Option (List (Option Ip))) → ℕ
num_ips [] = 0
num_ips (none ∷ ifaces) = num_ips ifaces
num_ips (some addrs ∷ ifaces) = num_addrs addrs + num_ips ifaces

-- The step ends with so many more handles, each of which is open and has a capture.
abbrev Opens : ℕ → Handles → List Action → List Action × Result Handles → Type 0
Opens n hs h r =
    (h' : List Action) × (hs' : Handles) × (r ≡ (h', done hs'))
    × (length hs'.0 ≡ length hs.0 + n)
    × (open_handles h' ≡ open_handles h + n)
    × (captures h' ≡ captures h + n)

Opens-bind :
    (n m : ℕ) (hs : Handles) (h : List Action) (step : Setup Handles)
    (next : Handles → Setup Handles)
    → Opens n hs h (step h)
    → ((hs₁ : Handles) (h₁ : List Action) → Opens m hs₁ h₁ (next hs₁ h₁))
    → Opens (n + m) hs h ((step >>= next) h)
unfolding ◌>>=◌
Opens-bind n m hs h step next (h₁, hs₁, e, len, o, c) rest =
    let (h₂, hs₂, e', len', o', c') = rest hs₁ h₁ in
    (
      h₂,
      hs₂,
      ap (after next) e ∙ e',
      omega (arith, len, len'),
      omega (arith, o, o'),
      omega (arith, c, c'),
    )

-- The system opens a handle on every address.
abbrev pub OpensAll : Os → Type 0
OpensAll os = (h : List Action) (ip : Ip) → (k : ℕ) × (os.listen_ip h ip ≡ inr k)

module _ (os : Os) (port : ℕ) (opens : OpensAll os) where
  listen_on-Opens :
      (ip : Ip) (hs : Handles) (h : List Action) → Opens 1 hs h (listen_on os port ip hs h)
  unfolding listen_on
  listen_on-Opens ip (handles, lasterr) h =
      let (k, opened) = opens h ip in
      (
        start_capture k port ∷ open_handle k ∷ h,
        (handles ++ k ∷ [], lasterr),
        ap (captured port (handles, lasterr) h) opened,
        length-append handles (k ∷ []),
        refl,
        refl,
      )

  listen_addrs-Opens :
      (addrs : List (Option Ip)) (hs : Handles) (h : List Action)
      → Opens (num_addrs addrs) hs h (listen_addrs os port addrs hs h)
  unfolding listen_addrs
  listen_addrs-Opens [] hs h = (h, hs, refl, omega arith, omega arith, omega arith)
  listen_addrs-Opens (none ∷ addrs) hs h = listen_addrs-Opens addrs hs h
  listen_addrs-Opens (some ip ∷ addrs) hs h =
      Opens-bind 1 (num_addrs addrs) hs h (listen_on os port ip hs)
        (λ hs'. listen_addrs os port addrs hs') (listen_on-Opens ip hs h) (listen_addrs-Opens addrs)

  listen_interfaces-Opens :
      (ifaces : List (Option (List (Option Ip)))) (hs : Handles) (h : List Action)
      → Opens (num_ips ifaces) hs h (listen_interfaces os port ifaces hs h)
  unfolding listen_interfaces
  listen_interfaces-Opens [] hs h = (h, hs, refl, omega arith, omega arith, omega arith)
  listen_interfaces-Opens (none ∷ ifaces) hs h = listen_interfaces-Opens ifaces hs h
  listen_interfaces-Opens (some addrs ∷ ifaces) hs h =
      Opens-bind (num_addrs addrs) (num_ips ifaces) hs h (listen_addrs os port addrs hs)
        (λ hs'. listen_interfaces os port ifaces hs') (listen_addrs-Opens addrs hs h)
        (listen_interfaces-Opens ifaces)

-- Listen fails with this error and leaves so many more handles open, each with its capture.
abbrev pub Leaves : ℕ → Error → List Action → List Action × Result TcpConn → Type 0
Leaves n e h r =
    (h' : List Action) × (r ≡ (h', failed (some e)))
    × (open_handles h' ≡ open_handles h + n)
    × (captures h' ≡ captures h + n)

listen_rest-Leaves :
    (os : Os) (window port n : ℕ) (e : Error) (hs : Handles) (h h₁ : List Action)
    → os.listen_tcp h₁ none port ≡ inl e
    → 0 < n
    → length hs.0 ≡ n
    → open_handles h₁ ≡ open_handles h + n
    → captures h₁ ≡ captures h + n
    → Leaves n e h (after (listen_rest os none port window) (some_handles hs h₁))
unfolding listen_rest attempt ◌>>=◌
listen_rest-Leaves os window port n e ([], lasterr) h h₁ refused pos len o c =
    absurd (omega (arith, len))
listen_rest-Leaves os window port n e (k ∷ ks, lasterr) h h₁ refused pos len o c =
    (h₁, rw refused refl, o, c)

-- The address of Listen has no IP, the interfaces have at least one address, on each of which the
-- system opens a handle, and it refuses the port, as when another socket has it: then Listen fails
-- with the error for the port, and one more handle for each address of the interfaces is open, with
-- a capture that goes on.
pub listen-leaks :
    (os : Os) (window port : ℕ) (ifaces : List (Option (List (Option Ip)))) (e : Error)
    (h : List Action)
    → os.resolve_listen ≡ inr (none, port)
    → os.interfaces ≡ inr ifaces
    → 0 < num_ips ifaces
    → OpensAll os
    → ((h' : List Action) → os.listen_tcp h' none port ≡ inl e)
    → Leaves (num_ips ifaces) e h (listen os window h)
unfolding listen listen_handles listen_everywhere ◌>>=◌
listen-leaks os window port ifaces e h resolved found pos opens refused =
    let (h₁, hs₁, ran, len, o, c) = listen_interfaces-Opens os port opens ifaces ([], none) h in
    rw (resolved, found)
      (subst
        (λ r.
          Leaves (num_ips ifaces) e h
            (after (listen_rest os none port window) (after some_handles r)))
        (sym ran)
        (listen_rest-Leaves os window port (num_ips ifaces) e hs₁ h h₁ (refused h₁) pos
          (omega (arith, len)) o c))

-- The interface has no address that is a *net.IPNet.
abbrev pub HasNoIp : Option (List (Option Ip)) → Type 0
HasNoIp none = Unit {0}
HasNoIp (some addrs) = All (λ a. a ≡ none) addrs

listen_addrs-none :
    (os : Os) (port : ℕ) (addrs : List (Option Ip)) (hs : Handles) (h : List Action)
    → All (λ a. a ≡ none) addrs
    → listen_addrs os port addrs hs h ≡ (h, done hs)
unfolding listen_addrs
listen_addrs-none os port [] hs h a = refl
listen_addrs-none os port (none ∷ addrs) hs h a = listen_addrs-none os port addrs hs h a.1
listen_addrs-none os port (some ip ∷ addrs) hs h a =
    absurd (let e : Path (Option Ip) (some ip) none = a.0 in cc)

listen_interfaces-none :
    (os : Os) (port : ℕ) (ifaces : List (Option (List (Option Ip)))) (hs : Handles)
    (h : List Action)
    → All HasNoIp ifaces
    → listen_interfaces os port ifaces hs h ≡ (h, done hs)
unfolding listen_interfaces ◌>>=◌
listen_interfaces-none os port [] hs h a = refl
listen_interfaces-none os port (none ∷ ifaces) hs h a =
    listen_interfaces-none os port ifaces hs h a.1
listen_interfaces-none os port (some addrs ∷ ifaces) hs h a =
    ap (after (λ hs'. listen_interfaces os port ifaces hs'))
      (listen_addrs-none os port addrs hs h a.0)
    ∙ listen_interfaces-none os port ifaces hs h a.1

-- The address of Listen has no IP and no interface has an address, or none tells it: then Listen
-- does nothing and returns a nil error, without a connection.
pub listen-nil_error :
    (os : Os) (window port : ℕ) (ifaces : List (Option (List (Option Ip)))) (h : List Action)
    → os.resolve_listen ≡ inr (none, port)
    → os.interfaces ≡ inr ifaces
    → All HasNoIp ifaces
    → listen os window h ≡ (h, failed none)
unfolding listen listen_handles listen_everywhere ◌>>=◌
listen-nil_error os window port ifaces h resolved found no_ip =
    rw (resolved, found)
      (ap (λ r. after (listen_rest os none port window) (after some_handles r))
        (listen_interfaces-none os port ifaces ([], none) h no_ip))
