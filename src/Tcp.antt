-- ===== src/Tcp.antt =====
-- tcp_linux.go, fingerprints.go, clear.go and common/addrkey.go: packets over a TCP-like flow.
-- `Addr` has the keys of the flow table, `Flows` the sharded table itself, `Conn` the connection:
-- capture, reading, writing and closing, `Setup` how Dial and Listen make one, `Filter` the socket
-- filters, `Fingerprint` the TCP options, `Reset` IPTablesReset, `Action` what is done to the
-- system.
pub mod Addr
pub mod Action
pub mod Flows
pub mod Conn
pub mod Fingerprint
pub mod Reset
pub mod Filter
pub mod Setup
