-- ===== src/Lib.antt =====
-- A model of bxp-core, the library of the Binary eXchange Protocol over QUIC.
--
-- The program. A client opens a QUIC connection and on it one bidirectional stream, the control
-- stream. Requests (an id, an action, a URI) go one way and responses (the id, a status) the other,
-- each a Cap'n Proto message behind four little-endian bytes of length. A payload goes on a
-- unidirectional stream of its own, which begins with the four bytes of its request's id. A server
-- accepts connections, reads requests in a loop, and hands each to a router, which calls the
-- handler registered for exactly its action and URI, or answers `not_found`.
--
-- Where each part is.
--   * src/protocol.rs and schema/bxp.capnp: Protocol has the enums, their conversions
--     (`action_into`, `action_try_from`, `status_into`, `status_try_from`), the two records, and
--     the errors that the crate returns; Protocol/Conversions is about them.
--   * src/server.rs: Server has `BxpServerConnection` as the record `ServerConnection`, each of its
--     methods under its own name, and `BxpServer::accept`; Server/Receive, Server/Decode,
--     Server/Respond and Server/Accept are about them. Setup has `bind`, `local_addr` and
--     `build_server_tls`.
--   * src/client.rs: Client has `BxpClientConnection` as the record `ClientConnection` with its
--     methods; Client/Receive, Client/Decode and Client/Send are about them. Setup has `connect`,
--     `build_tls_config` and the methods of `NoCertVerification`.
--   * What the two share: Frame has the length prefix (`fill_length`) and, in Frame/Reading, a
--     reference reader of such a stream; Stream has `send_data_stream` and `read_data_stream`,
--     whose bodies are the same in both files (`send_on`, `read_on`).
--   * src/router.rs: Router has `new`, `route` and `handle_request`; HashMap has the map of the
--     standard library as an association list. Router/Laws and Router/Dispatch are about them.
--   * tests/integration.rs and examples/: Session has their handlers and routers, the serving loop
--     `serve`, the loop `accept_loop` around `accept`, and what a client does that fetches a file
--     (`download`, `save`, `take_stream`); its children are about them. Session/Health is the
--     client and the task of examples/basic-router.rs, Session/FileTransfer those of
--     examples/file-transfer.rs, with the copy of the stream and the close at the end, and
--     Session/Benchmark those of examples/benchmark.rs, with the latencies and their percentiles.
--     Session/Programs puts each `main` together: `bind`, the accept loop with its tasks,
--     `connect`, and the client. Session/Integration has the two tests as they stand, with the
--     server that they start, their scripts and their assertions; Session/Refused is about a stream
--     with a message that the server does not take.
--   * Client, server and network in any interleaving: System, a step relation on the state
--     of both ends, of the bytes on their way and of the log of requests and responses. The
--     client may send many requests before it reads a response, and a call that waits for
--     bytes takes no step until a whole frame is there. System/Invariant relates the bytes
--     to the requests, System/Oldest and System/Steps go through the steps, System/Service
--     is an abstract service to compare with, System/Order, System/Drain, System/Sequential
--     (against one call after another) and System/Liveness are about runs. System/Loss lets
--     the connection be lost at any time, with what is on its way, and goes on with the
--     calls that the two ends make behind it.
--     System/Data adds the data streams: a step of System may open some, any of those on
--     their way may be the next to arrive, and the client may read one at any time.
--     System/Data/Invariant relates them to the requests, by the policy of what a router
--     owes (System/Data/FileRouter has that of the file transfer), System/Data/Delivery,
--     System/Data/Quiet and System/Data/Liveness are about runs, and System/Data/Service is
--     an abstract service of fetches to compare with, step by step in
--     System/Data/Simulation. System/Data/Loss lets the connection be lost, with data
--     streams that never arrive or break off.
--   * Client and server together, one call after another: Exchange, one module for requests, one
--     for responses, one for several of them (Script), one for data streams, one for oversized
--     messages.
--   * schema/bxp_capnp.rs, the copy of generated code that the repository keeps: Schema, with
--     modules named like those of the code. Schema/Action has the enum, Schema/Request/Reader and
--     Schema/Request/Builder the accessors, Schema/Request/Private the embedded schema, word by
--     word, and its tables, and Schema/Response the same of `response`. Schema/Node reads an
--     embedded schema independently, by the encoding of Cap'n Proto, and the modules Fields and
--     Tables are about the accessors and about their agreement with that schema. The conversions to
--     dynamic values stand beside the accessors (`into_value`, `fmt`), and Values compares what
--     such a value shows with the getters.
--   * Shared helpers: Base. Examples on concrete connections: Examples.
--
-- How code becomes definitions. A method on `&mut self` is a function from the state to its result
-- and the state after the call, which is kept on a failure too (`Method` in Base/Results); `?` is
-- the bind of that type. An action that Rust takes implicitly is written out where it can be seen
-- from the other side: a `SendStream` or a `RecvStream` that goes out of scope is dropped
-- (`drop_send`, `drop_recv`). A byte is a number below 256 and a u32 one below 2 ^ 32; the cast of
-- the length in `send_request` and `send_response` is `% 2 ^ 32`. A string is the list of its code
-- points. The Cargo feature `tls-insecure` is a Boolean argument. A call that
-- panics for some of its arguments returns none for them (`set_resource_uri` of
-- schema/bxp_capnp.rs, for a text whose size is no 29-bit number).
--
-- What stands outside of the repository is a parameter. Quic, Capnp, Setup/Net, Schema/Layout,
-- Schema/Dynamic and Session/Benchmark/Library each have a record of operations (of quinn and
-- tokio; of capnp and the code that build.rs generates; of rustls, std::fs, pem and the sockets; of
-- capnp's struct layout; of its dynamic values; of the clock and `Vec::sort`) and a record of what
-- their documentation promises, `IsQuic`, `IsCapnp`, `IsNet`, `IsLayout`, `IsDynamic` and `IsStd`.
-- Each is met by an instance: Quic/Memory, Capnp/Plain, and those in Examples/Endpoint,
-- Examples/Copy, Examples/Copy/Values and Examples/Loops. The network of System and what a loss
-- does to data streams are the records `Network`, `Landing` and `Breaking` of the modules that use
-- them. A foreign error is a number.
--
-- Fuel. Only the server's two loops have fuel, for their rounds, since a peer may go on forever:
-- `serve` and `accept_loop` return `none` when it runs out. Every round of `serve` but the last
-- takes at least the four bytes of a header from the control stream, so one round more than there
-- are bytes is enough, if no handler reads from that stream itself. Every round of `accept_loop`
-- but the last accepts a connection, so one round more than there are connections is enough.
--
-- Not modelled: printing, sleeping, and the throughput that the benchmark prints, a quotient of
-- floating-point numbers; the indices of its percentiles are such products in the source, and
-- exact here, as they are for its 10,000 requests; the traits that turn an async function into a
-- boxed handler (lines 15 to 42 of src/router.rs; here a handler is the function on the connection
-- that results); the text of a socket address, whose conversion is a parameter of the tests; the
-- installation of the process-wide crypto provider; the memory that a buffer takes; and of
-- schema/bxp_capnp.rs the associated types of `Owned`.
pub mod Base
pub mod Protocol
pub mod Quic
pub mod Capnp
pub mod Frame
pub mod Stream
pub mod Server
pub mod Client
pub mod Exchange
pub mod HashMap
pub mod Router
pub mod Session
pub mod System
pub mod Setup
pub mod Schema
pub mod Examples
