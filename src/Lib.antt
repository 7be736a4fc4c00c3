-- ===== src/Lib.antt =====
-- tcpraw sends packets over what looks like a TCP connection, so that firewalls let them pass: it
-- forges TCP segments on raw sockets beside a system connection that is kept silent. On top of it,
-- faketcp makes connections and listeners of these packets, with forward error correction (FEC).
--
-- Parts and files:
--   Base: integers of Go, lists, padding, and `Run`, the outcome of a call that may panic.
--   Fec: faketcp/fec.go. Codec is the interface of the Reed-Solomon library (klauspost/reedsolomon),
--     a parameter: its documented behaviour is `IsCodec`. Wire is the packet format
--     (DecodeFecPacket), Encoder the type FecEncoder (NewFECEncoder, Encode, markData, markFEC),
--     Decoder the type FecDecoder (NewFECDecoder, Decode, freeRange), and Channel the type Fec
--     (NewFec, EncodeData, DecodeData, decode), which EncodeData drives with a `send` callback and
--     DecodeData with the packets that its callback gets. Channel's Groups says what comes of a stream
--     of groups, and its EndToEnd puts the two ends together.
--   Tcp: tcp_linux.go, fingerprints.go, clear.go and common/addrkey.go. Addr has addresses and keys
--     (addrSplit, HashNumber, AddrToKey), Flows the sharded table of flows (initFlowTable, getflow,
--     lockflow, cleaner), Conn the connection: Capture and Capturing (decodeTCPPacket, captureFlow),
--     Datagrams the two ways of captureFlow side by side, Read (ReadFrom, ReadFromv2), Write
--     (WriteTo), and Close, LocalAddr, RemoteAddr and the deadlines in Conn itself. Setup has Dial,
--     Listen, setTTL, setDSCP, SetDSCP, SetReadBuffer and SetWriteBuffer, Filter the socket filters
--     of sockfilter.go, Fingerprint the TCP options (makeOption), Reset IPTablesReset, and Action what
--     is done to the system.
--   Faketcp: faketcp/listener.go, faketcp/listeners.go and faketcp/client.go. FakeConn has Read, Push
--     and WriteTo of a server's connection, Listener the options, Listen, the accept loop, Accept, the
--     cleaner and Close, Listeners the same over several listeners, Client the options, Dial, Read and
--     Write of a client, and Transfer puts the two together. Listener's and Listeners' System are their
--     step relations, of goroutines that interleave.
--   Tests: runs at concrete inputs, with codecs for two data shards and one parity shard, and for one
--     of each, a system that answers Dial and Listen, and a machine for socket filters.
--
-- State is passed explicitly: a method is a function from the receiver to the receiver and its
-- results. A Go panic is the value `panic`. A goroutine's turn is one call, and a select that may take
-- more than one case has an argument that says which one it takes. Time is a number of nanoseconds.
-- Numbers are natural numbers, with the wrap of uint16, uint32 and uint64 written out. A byte is a
-- number; nothing depends on its bound. A Go map is a list of entries whose order Go does not fix.
--
-- Fuel: only closeAllFakeConns runs on fuel, one unit for a connection that it closes, so that the
-- number of connections in the map is enough when they are open. Every other loop is over a list.
--
-- The system: Dial and Listen take a record `Os` of its answers, each of which may depend on all that
-- the program has done before; what they do is a list of actions, the newest first. A theorem on the
-- rules of iptables assumes that iptables tells what was appended and deleted.
--
-- Not modelled: gopacket (parsing and serializing are parameters), the sockets and iptables
-- themselves; tcp_stub.go, which has no behaviour; log lines and counters for them, but for the log
-- line of lockflow, which can panic; the finalizer of wrapConn; the waiting of Listener.Close for its
-- goroutines; codecs of more than 256 shards, for which the library has other rules; the parsing of
-- addresses in faketcp, and negative numbers of shards; packets of different groups that overlap on the
-- way; faketcp/fecv2, a copy of another project's code that nothing imports; the programs of
-- faketcp/example.
pub mod Base
pub mod Fec
pub mod Tcp
pub mod Faketcp
pub mod Tests
