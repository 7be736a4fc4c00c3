-- ===== src/Faketcp.antt =====
-- faketcp/listener.go, listeners.go and client.go: connections over one TcpConn. `FakeConn` is the
-- server's end of one connection, `Listener` the listener that gives packets to them, `Listeners`
-- several listeners with one Accept, `Client` the client's end, `Transfer` the two ends together.
pub mod FakeConn
pub mod Listener
pub mod Listeners
pub mod Client
pub mod Transfer
