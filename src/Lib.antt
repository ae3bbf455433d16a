-- ===== src/Lib.antt =====
-- Verification of cable, a message broker in Go: clients connect over TCP, UDP, WebSocket or QUIC, exchange
-- framed packets with a server, and a cluster of brokers replicates through a raft log who is connected where
-- and who has joined which channel.
--
-- The parts, bottom up, and the files that model them:
--
-- Prelude (with Prelude/Tests, Lists, Bits, Words, Ints): names of the libraries passed on, Boolean tests,
-- lists and words over the native naturals. Errors: the error values of all packages as one sum, and `Result`,
-- a value, an error or a run-time panic. GoMap: Go's map as an association list; byte strings are lists of
-- numbers.
--
-- Coder is coder/coder.go and coder/codable.go. `Encoder` is the buffer, each `write_*` one method of
-- `encoder`; `Decoder` is a position in a buffer, each `read_*` one method of `decoder`, with its 64-bit sums
-- written out. Coder/Varint is what the two use of Go's `encoding/binary`. Coder/RoundTrip and
-- Coder/Collections compose a write with the read that undoes it; Coder/Bounds and Coder/Progress are about
-- where a read may go; Coder/Laws states the results on whole buffers.
--
-- Packet is packet/. Packet/Types has the eight packets of connect.go, message.go, request.go, response.go,
-- close.go and packet.go with their codes, Packet/Body their `WriteTo` and `ReadFrom`, Packet/Frame `Marshal`,
-- `Unmarshal` and `unpack`, and Packet/Stream the package's `WriteTo` and `ReadFrom` over a reader and a
-- writer, which are parameters. Packet/Header, BodyTrip, RoundTrip, Hostile and StreamTrip are proofs.
--
-- Safe is internal/safe/. Safe/RMap is rmap.go and map.go, Safe/KeyMap is keymap.go. A counter of type int32
-- is its 32 bits. `Set`, `Swap`, `Delete` and `GetOrSet` of an `RMap` take two atomic steps: Safe/RMap has
-- them without a break, as the other parts use them, and Safe/Steps with the steps of other calls in between.
--
-- Cluster is cluster/. Cluster/State has the three replicated maps of `broker` (broker.go) and the operations
-- `userOpenedOp`, `userClosedOp`, `joinChannelOp` and `leaveChannelOp`; Cluster/Log their encoding in the raft
-- log and `applyRaftOp`; Cluster/Snapshot `makeSnapshot` and `recoverFromSnapshot`; Cluster/Node the node of
-- the group (cluster.go, cluster_raft.go): membership, leader, `applyEntries`, `attemptSnapshot` and
-- `applySnapshot`. The raft library and the JSON codec are the parameter `RaftLibrary`. Cluster/Links, Closed,
-- Nodes, Close, Effects, Joined, Invariant, LogTrip, SnapshotTrip and Batches are proofs. Cluster/Loop is
-- `raftLoop` and `sendRaftMessags`, a turn for each `Ready`, with the storage and the call to a peer as the
-- parameter `LoopLibrary`; Loop/Entries and Loop/Recent are proofs. A node changes its maps through
-- Cluster/Log, by a snapshot, or where a node leaves; Cluster/Log uses Coder as packets do.
--
-- Client is client/. Client/Retrier is retrier.go, Client/Connection the status of client.go: `Connect`,
-- `tryClose` with the function it hands to a timer, `reconnect` and `_setStatus`. The connection is the
-- parameter `Conn`, the backoff a function. Client/Session is the traffic of client.go: messages, requests,
-- pings, `handlePacket` and `Close`. Client/KeepAlive is internal/keepalive/keepalive.go; Client/Options is
-- options.go with `New`. Client/Retries is proofs.
--
-- Queue is internal/queue/queue.go: Queue/Steps has the worker `run`, `Push` and `Close` as steps of single
-- channel operations in any order, and what `Close` discards; Queue/Order and Queue/Drain are proofs. Network
-- is internal/network/conn.go: Network/Conn has `conn` with its sending queue, `SendPacket`, `jumpPacket` and
-- what `Close` does to it, Network/Requests its pings and requests. The time in which `Push` waits for room is
-- the parameter `Waits`. Network/Fair and Network/Overlaps are proofs; the first relates a sending queue to
-- the states of Queue/Steps.
--
-- Server is server/server.go. Server/Table has the connections in a store, the table from client ids to them,
-- `OnClose` and `Close`; Server/Handlers `OnConnect`, `OnMessage`, `OnRequest`, the connection's `RecvPacket`
-- and `doConnecton` of internal/network/transport_tcp.go; Server/Calls what the broker calls; Server/Shutdown
-- the loop of `Shutdown`; Server/Transports `waitConnPacket` and the `handleConn` of transport_tcp.go and of
-- transport_udp.go, which read packets as Packet/Stream does. The program that embeds the server is the
-- parameter `Handlers`. Server/Sound, Closing, Codes, Logins, Arrivals, Counts, Runs, Rounds and Ends are
-- proofs; Server/Runs has the states that a server can come to.
--
-- Broker is the rest of cluster/broker.go. Broker/Listeners has cluster/listener.go and what the broker does
-- with its own listeners, each with its server and the handlers of its network; Broker/Peers the calls of
-- peer_client.go and their handlers in peer_server.go, between which gRPC is the parameter `Grpc`;
-- Broker/Routes `SendToUser`, `SendToChannel`, `SendToAll`, `IsOnline` and the user's requests and leaving, by
-- the maps of Cluster/State; Broker/Users `KickUser`, `onUserConnect` and `StartListener`. The program and the
-- submission to the raft log are the parameter `Program`. Broker/Options has server/options.go,
-- cluster/options.go and what `NewBroker` takes from them; Broker/PeerClient how a `peerClient` connects,
-- retries, closes and gets a new address. Broker/Counts, Listed, Reached, Calls, Kicks and Kicks/Offline and
-- Broker/PeerClient/Runs are proofs.
--
-- Booter is the program `cable` in cmd/cable: Booter/Auth `OnUserConnect` and `ListChannels` of booter.go, and
-- Booter/Messages `OnUserMessage`, the calls of the broker and the channels a user joins or leaves. Redis, the
-- JWT library and the HTTP client are the parameter `Services`. Booter/Config is config.go with `validate`;
-- Booter/Config/Load `readConfig`, `GetDiscovery` and `GetLogger`, over the parameter `Host`, with `GetNodeId`
-- of cluster/options.go; Booter/Setup `newBooter`, which hands the configuration to the options of
-- Broker/Options. Booter/Config/Checks and Booter/Config/Valid are proofs, against the list in
-- Booter/Config/Requirements. Booter/Api has the calls that the two interfaces make as the record `Backend`;
-- Booter/Api/Http is api_http.go, with JSON and the parsers of numbers as the parameter `Formats`,
-- Booter/Api/Rpc is api_grpc.go, and Booter/Api/Program fills the record from the booter, its broker and its
-- raft node. Booter/Api/Refusals, Agree and Kicked are proofs; Agree has the calls that both interfaces take,
-- but for `KickNode`.
--
-- Discovery is discovery/discovery.go: `heartbeat`, a turn of `listen` and of `watch`, and `updateNode`, with
-- packets as in Packet. Discovery/Exchange and Discovery/Nodes are proofs.
--
-- Tests holds runs of the model and the theorems at concrete inputs.
--
-- Bounds: the varint reader stops after ten bytes as Go's does, and the loop of the server's `Shutdown` runs
-- on fuel, of which one round more than the context's deadline has waits of 50 ms is enough. The loop that
-- reads the packets of a connection ends with its stream, and runs on fuel. All others recurse on lists or on
-- a count read from the wire. Lengths of Go strings and slices are below 2^63, and memory is unlimited. Where
-- a map of 2^32 entries would count as empty, a hypothesis excludes it. The order of an association list is
-- the order in which `range` visits a Go map; theorems hold for any.
--
-- A method of the server or of a connection is one step, but `SendRequest` and `SendPing`, which are split
-- where they wait. The server's table holds the client id that a connect packet names, as for all transports.
--
-- Not modelled: the sockets, the WebSocket and QUIC transports, the pinger of a connection, the inspection and
-- the shutdown of a broker, `StopListener`, what a peer does with a raft message, logging, statistics,
-- discovery by etcd, the pages of Swagger, the commands, and the generated code.
pub mod Prelude
pub mod Errors
pub mod GoMap
pub mod Coder
pub mod Packet
pub mod Safe
pub mod Cluster
pub mod Client
pub mod Queue
pub mod Network
pub mod Server
pub mod Broker
pub mod Booter
pub mod Discovery
mod Tests
