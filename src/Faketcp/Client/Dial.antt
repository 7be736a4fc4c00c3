-- ===== src/Faketcp/Client/Dial.antt =====
-- Dial of faketcp/client.go. The system is the record `Os` of Tcp/Setup; the second resolution of
-- the address and the comparison of two addresses as strings are parameters.
use tcpraw.Base.{◌*◌, ℕ, Bool, true, false, Option, some, List, Error, wrong_remote, ◌⊎◌}
use tcpraw.Tcp.Addr.{NetAddr}
use tcpraw.Tcp.Conn.{TcpConn, remote_addr}
use tcpraw.Tcp.Setup.{Os, Setup, ◌>>=◌, answer, of_run, fail, pure}
use tcpraw.Tcp.Setup.Options.{set_read_buffer_all, set_write_buffer_all}
use tcpraw.Tcp.Setup.Dial.{dial}
use tcpraw.Fec.Codec.{Codec}
use tcpraw.Faketcp.Client.{Client}
use tcpraw.Faketcp.Client.Options.{ClientOption, new_client}

abbrev pub client_buffer : ℕ
client_buffer = 1024 * 1024 * 3

abbrev pub same_remote : Bool → Setup (Unit {0})
same_remote true = pure tt
same_remote false = fail (some wrong_remote)

-- Dial from the TcpConn on. `resolved` is the second resolution of the address, and `same` compares
-- the strings of two addresses.
module _ (os : Os) (new_codec : ℕ → ℕ → Option Codec) (resolved : Error ⊎ NetAddr)
    (same : NetAddr → NetAddr → Bool) (opts : List ClientOption) (conn : TcpConn) where
  abbrev made_client : Setup (Client × TcpConn)
  made_client = of_run (new_client new_codec opts) >>= λ c. pure (c, conn)

  abbrev matched_client : NetAddr → Setup (Client × TcpConn)
  matched_client remote = same_remote (same (remote_addr conn) remote) >>= λ matched. made_client

  abbrev resolved_client : Setup (Client × TcpConn)
  resolved_client = answer resolved >>= matched_client

  abbrev buffered_client : Setup (Client × TcpConn)
  buffered_client = set_write_buffer_all os conn client_buffer >>= λ writing. resolved_client

  unfoldable pub client_rest : Setup (Client × TcpConn)
  client_rest = set_read_buffer_all os conn client_buffer >>= λ reading. buffered_client

-- `Dial`, up to its return. After an error nothing reaches the TCPConn any more; that its finalizer,
-- which wrapConn has set, closes it when the collector finds it, is not a part of it.
unfoldable pub client_dial :
    Os
    → (ℕ → ℕ → Option Codec)
    → Error ⊎ NetAddr
    → (NetAddr → NetAddr → Bool)
    → ℕ
    → ℕ
    → List ClientOption
    → Setup (Client × TcpConn)
unfolding dial client_rest
client_dial os new_codec resolved same window now opts =
    dial os window now >>= client_rest os new_codec resolved same opts
