-- ===== src/Lib.antt =====
-- A library for iscp-rs, the client of iSCP version 2: real-time streams of data points over one
-- connection.
--
-- Parts, and the files that model them:
--   src/transport/datagram.rs -- Transport/Datagram.antt: `Splitter` cuts a message into datagrams
--     and `FrameBuf` puts it together again (`split`, `push`). An `Instant` is a number of
--     nanoseconds that the caller gives.
--   src/iscp/down_order.rs, and the loop over it in src/iscp/downstream.rs --
--     Iscp/Reorder.antt: `DownReorderer` puts the chunks of each upstream back in order (`iter`,
--     `pop`; `drain` is the `for` loop over its iterator). The loop runs on fuel: more rounds
--     than the limit and one are enough, since a store holds at most one chunk more than the limit.
--   src/iscp/down_state.rs, and `convert_downstream_chunk` in src/iscp/downstream.rs --
--     Iscp/DownState.antt: the upstreams that a downstream knows by their aliases, the conversion of
--     received chunks, and the acknowledgements (`take_ack`). `Acks.run` is a sequence of these
--     operations. The crate `uuid` is the parameter `UuidLib`, whose law says that the bytes of an
--     identifier read from bytes are those bytes.
--   src/iscp/upstream.rs, src/iscp/storage.rs, src/iscp/flush_policy.rs -- Iscp/Upstream.antt,
--     Iscp/Storage.antt, Iscp/FlushPolicy.antt: the buffer of an upstream (`write_data_points`), the
--     chunks that are made of it (`take_chunk`, `flush`) and kept until they are acknowledged
--     (`process_ack`, `after_resume`). `Kept.run` is a sequence of these operations. A callback is
--     the list of its calls; the callback of a resume and the loop that drives the operations are
--     not modelled.
--   src/transport/compression.rs -- Transport/Compression.antt: the settings and `DictionaryBuffer`;
--     Transport/Compression/Codec.antt: `Compressor` and `Extractor`. The crate flate2 is the parameter
--     `Flate2`, whose laws are about single calls on a stream: what a call comes to that is given
--     all the input that is left, and some room (`Runs`), and calls without input (`IsBlank`); the
--     loops over these calls are the program's. It also holds the growth of a `Vec`.
--   src/iscp/metadata.rs, and `convert_downstream_metadata` in src/iscp/downstream.rs --
--     Iscp/Metadata.antt and Iscp/Metadata/Send.antt; src/iscp/misc.rs -- Iscp/Misc.antt: the
--     conversions of its values. The text of prost's error on an unknown `QoS` is a parameter.
--   src/iscp/e2e.rs -- Iscp/Calls.antt and Iscp/Retry.antt: calls between nodes. An `Attempt` is what
--     the connection gives to one round of a loop that tries again, where the answers may depend on
--     what the task has done on the connection before (`Action`).
--   src/iscp/mod.rs -- Iscp/Conn.antt: the state that the handles of a connection share with its
--     reconnection loop, one function for what happens between two waits (`step`); a call that opens
--     a stream is three events;
--     Iscp/ConnBuilder.antt: the settings, and the request that a connection begins with.
--   `request_open` and `new` in src/iscp/upstream.rs and src/iscp/downstream.rs, and
--     src/iscp/builder.rs -- Iscp/Opening.antt: how streams open.
--   `get_conn_and_resume` in src/iscp/upstream.rs, and the resume loop in src/iscp/downstream.rs --
--     Iscp/Resume.antt: a run is a list of the rounds of the loop (`turns`).
--   the flush loop in src/iscp/upstream.rs -- Iscp/Upstream/Closing.antt: one function for what it
--     wakes up for (`step`), up to the close of the stream or the loss of the connection.
--   the wait before the close in src/iscp/downstream.rs -- Iscp/DownClose.antt.
--   src/transport/negotiation.rs -- Transport/Negotiation.antt: the parameters of a connection and their
--     bytes; serde's naming of fields is written out, the bytes of texts are the parameter `Texts`.
--   src/wire/mod.rs, src/wire/read_loop.rs -- Wire/Requests.antt: the numbers of requests;
--     Wire/ReadLoop.antt: what `read_loop` does with a decoded message (`handle_message`) and with a
--     command; Wire/Conn.antt: a request and the wait for its response; `Wire.Conn.run` is a
--     sequence of requests and of messages that come in; Wire/Writer.antt: `write_loop`, and the
--     decoding of what it wrote, with the encoding as the parameter `Encoding`. A channel is its
--     number, and its receiver is there. Tasks and pings are not modelled; a time limit is an event.
--   src/error.rs -- Errors.antt: the errors, and `Outcome`, the result of a fallible operation.
--   src/iscp/types.rs and the configuration in src/iscp/downstream.rs -- Iscp/Types.antt.
--   src/message/proto/iscp2.v1.rs and iscp2.v1.extensions.rs -- Message/*.antt: the data of every
--     message, Message/ResultCode.antt for `ResultCode` and Message/RequestId.antt for `request_id`
--     and Message/Requests.antt for its traits of requests (src/message/mod.rs). An enum that is
--     a field of a record `R` under the name of its field is
--     `RBody` here; an extension without fields is `Unit`.
--   Base.antt and the files below it hold what all share: tests, lists, maps, machine words.
--
-- A `HashMap` is an association list in the order of its insertions, a `BTreeMap` one in the order of
-- its keys; a panic is `none` or a constructor of its own. Locks and tasks are left out: an operation
-- that holds a lock is one step.
--
-- Not modelled: the loops that drive the streams but for their parts above; the transports
-- themselves, TLS, tokens and the encoding (input and output through other crates); the build script.
pub mod Base
pub mod Message
pub mod Errors
pub mod Transport
pub mod Iscp
pub mod Wire
