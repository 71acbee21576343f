-- ===== src/Lib.antt =====
-- Verification of the core of hwire: the framing of HTTP/1 messages, the buffers between the
-- connection and its socket, the state machine of the connection with the dispatcher that drives
-- it, the client's role, requests on their way in and bodies on their way out, and the keep-alive
-- of HTTP/2.
--
-- The program. `wreq-proto` is an HTTP client's protocol layer. A connection (`Conn`,
-- wreq-proto/src/proto/http1/conn.rs) owns a buffered transport (`Buffered`, io.rs beside it) and a
-- state: what it may read next, what it may write next, and whether it is kept alive. It parses
-- heads through the role that it is given (`Http1Transaction`), makes a `Decoder` (decode.rs) for the
-- body of each response and an `Encoder` (encode.rs) for the body of each request, and goes back to
-- idle once both sides are done. A `Dispatcher` (http1/dispatch.rs) moves requests from their channel
-- (wreq-proto/src/dispatch.rs) to the connection, and responses to their callbacks.
--
-- The files.
--   Base and its children: the shared names; lists and machine words over the native numbers.
--   Io: a polled call as a value (`Out`: ready, failed, pending or panicked, with the state that it
--     leaves), and the trait `MemRead` with its contract. Io/Slice: the reader over a slice.
--   HttpCrate: the crates `http` and `httparse` as parameters.
--   Error: the errors of wreq-proto/src/error.rs.
--   Body/Length: `DecodedLength` of wreq-proto/src/body/length.rs. Body/Watch and Body/Incoming:
--     watch.rs and incoming.rs beside it; Incoming/Kept and Flow: calls of both sides in any order.
--   Http1/Chunked: the state machine `ChunkedState` of decode.rs, one function for each `read_*`.
--     Its children: Safety (its invariant), Grammar (chunked coding, described apart from the code),
--     Moves, Suffix and Sound (from the steps to the grammar), Progress (each step takes a byte),
--     Unique (no stream starts with two bodies), Plain (steps over what the encoder writes).
--   Http1/Decode: `Decoder::decode`; Total (it returns), Sound (sessions of calls), Sized (bodies
--     with a length) and RoundTrip (what the encoder writes).
--   Http1/Encode: `Encoder`; Size (the line of the size of a chunk), Total (no panic) and
--     Framing (whole bodies).
--   Http1/WriteBuf: `WriteBuf`, `Cursor` and `BufList` (io.rs, buf.rs); Queue (it is a queue).
--   Http1/Buffered: the read side of `Buffered` and `ReadStrategy`; Reads (it is a `MemRead`)
--     and Bounds (the sizes of reads); Flush (its `poll_flush`) and Flushed (what is sent).
--   Http1/Headers: wreq-proto/src/proto/headers.rs; Digits and ContentLength (which lengths are
--     read), Commas and Numbers (texts between commas), MapLaws (what `http` documents of maps and values).
--   Http1/State: `State` of conn.rs; Laws (what its methods keep).
--   Http1/Transaction: the role that a connection is given, `Http1Transaction` of
--     wreq-proto/src/proto/http1.rs, as an interface.
--   Http1/Role: the client's role (role.rs). Decoder, Fold, Length, Parser and Client hold its
--     functions; Rules (the delimiters of RFC 7230, and what is refused beyond them) with Decided,
--     Folded (obsolete line folding), Repaired and Framing (what `set_length` leaves), Written (which
--     heads `encode` writes), Within and Total (`parse` comes to an answer) what holds of them.
--   Http1/Conn: `Conn`. Write and Read and Head hold its operations, Kept, KeptReading and KeptHeads
--     what each keeps of the state, Steps the operations as a relation, Asserted the assertions of
--     its writing operations, and Scan the end of a head.
--   Http1/Dispatch: `Dispatcher` of wreq-proto/src/proto/http1/dispatch.rs. Write, Read, Loop and
--     Inner hold its functions; WriteSteps and ReadSteps (their rounds are steps of a connection).
--     Asserts: the assertions of the connection hold where the dispatcher of a client writes.
--   Requests: the channel of wreq-proto/src/dispatch.rs; Laws, Ledger and Kept (its promises).
--   Http1/Dispatch/Client: `Client` of http1/dispatch.rs; Kept, Answers and Failing (who is told
--     what).
--   Http2/Ping: wreq-proto/src/proto/http2/ping.rs, what recorders and the ponger share. Bdp (the
--     estimate), KeepAlive and Ponger hold its functions; Growth, Kept and Run what holds of them.
--   Tests: the definitions on concrete inputs.
--
-- How the code is modelled. A number is a natural number, and what wraps or is checked in the code
-- is written out in Base/Words; `usize` has 64 bits. A `&mut` is a state that is passed on, `?` and
-- `ready!` are the bind of `Out`, and a failed `expect` or `unreachable!` is `panicked` or `none`; a
-- `debug_assert!` is left out, or is a hypothesis where a property needs it. A byte string is
-- a list of numbers. Logging and the `Context` of a poll are left out, since nothing reads them.
-- A method that matches on a field of the state is a function by clauses of that field.
--
-- Loops. The loops of `decode`, `Client::parse` and `poll_flush` and the retries of `parse` take
-- fuel; with more fuel than there are bytes left the loop of `decode` returns, since each of its
-- steps takes a byte. So do the loop of `Client::parse`, since each head that it skips has a byte,
-- and the loops of `poll_flush`, since each write takes a byte or is their last. The rounds of the
-- dispatcher's `poll_read` and `poll_write` take fuel too, and nothing in the code bounds them: they
-- go on for as long as bodies and sockets are ready. The other loops go down a list or count.
--
-- Parameters. The crates `http`, `httparse` and `tokio` and the allocator are not in the repository:
-- header maps and the parser of header lines are the record HttpCrate, the socket with the growth
-- of its buffer is the record Transport, and whether a vector has room is a flag that the caller
-- gives. What is relied on of the socket is that it loses nothing and returns an empty read only
-- at its end. The channels of `tokio` and `futures-channel` and the crate `want` are records with
-- both ends of a channel; of a queue it is relied on that it keeps what it took in order, and of
-- a oneshot that its promises are told apart.
--
-- Not modelled: what sends requests over HTTP/2 and waits for their responses (`SendWhen` and
-- proto/http2/client.rs), the vectored views of buffers, upgrades, and the glue to executors.
pub mod Base
pub mod Io
pub mod Error
pub mod Body
pub mod HttpCrate
pub mod Http1
pub mod Http2
pub mod Tests
pub mod Requests
