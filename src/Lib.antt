-- ===== src/Lib.antt =====
-- Crosspuck bridges a controller that is plugged into a host to games that run in a guest. The host
-- and the driver in the guest talk over two connections, one for control and one for input. Both
-- carry frames, a header of twelve bytes and a payload, and each payload is a message with a fixed
-- layout. In the guest, a worker of the runtime connects to the host and publishes a bridge; operations
-- of the virtual device take the bridge, talk through it, and give it back. The bridge keeps the
-- input reports for the interfaces of the virtual device and the commands for the host, and holds a
-- session with its two streams.
--
-- Files, by the part of the repository that they model:
--   Base: lists, Boolean tests, little-endian words, UTF-8, results and actions, as the standard
--     library has them; an action is a method of an object that it mutates.
--   Protocol/Status: crates/crosspuck-core/src/protocol/status.rs.
--   Protocol/Frame: crates/crosspuck-core/src/protocol/frame.rs; Frame/Message has the channels and
--     message types, Frame/Header `FrameHeader`, Frame/Io `read_frame` and `write_frame`.
--   Protocol/Codec: crates/crosspuck-core/src/protocol/codec.rs; Codec/Encoder and Codec/Decoder are
--     the two types, with a method each. Codec/Reads, Codec/Parses and Codec/Whole hold the rules by which
--     a decoder is followed along the bytes that it is given, forwards and backwards.
--   Protocol/Payload: crates/crosspuck-core/src/protocol/payload.rs, a module for each group of
--     messages, with `encode…` for its WireEncode and `decode…` for its WireDecode.
--   Protocol/Queue: crates/crosspuck-core/src/protocol/queue.rs.
--   Guest/Bridge: crates/crosspuck-core/src/guest_driver/bridge.rs; Bridge/Inputs has the fields of
--     `HostBridge` for input reports and their routes, Bridge/Commands those for commands, and
--     Bridge/Process the command worker with `process_command`; Bridge/Copies copies a report into a
--     buffer, and Bridge/Sends hands outputs to the worker.
--   Guest/Stream: `ChannelStream` of crates/crosspuck-core/src/transport/mod.rs.
--   Guest/Session: crates/crosspuck-core/src/guest.rs. Session/Exchange has `control_request` and
--     `read_input_report`; Session/Handshake and Session/Connect have `GuestTransportClient::connect`
--     from its parts: `greet` on the control stream, `attach` on the input stream. Session/Answered,
--     Session/Delivered, Session/Accepted and Session/Opened follow a call that succeeded.
--   Guest/Identity, Guest/Trace, Guest/Config: identity.rs, trace.rs and config.rs of
--     crates/crosspuck-core/src/guest_driver.
--   Guest/Profile: crates/crosspuck-core/src/guest_driver/profile.rs, the profiles, with the catalog in
--     Profile/Catalog.
--   Guest/Handles: crates/crosspuck-core/src/guest_driver/handles.rs.
--   Guest/Routing: crates/crosspuck-core/src/guest_driver/routing.rs, the queries for HID devices.
--   Guest/Runtime: crates/crosspuck-core/src/guest_driver/runtime.rs. Runtime/Worker is
--     `run_connection_worker_with`, cut where it lets go of the lock: `begin_worker`, `worker_turn` for
--     a pass of the loop, `finish_connect` for the result of an attempt, `end_worker`. Runtime/Sweep is
--     the loop that takes the unused bridges out of the retired ones. Runtime/Calls has the
--     functions that the hooks call; `with_bridge` is `bridge_for` and `settle`. Runtime/System puts the
--     worker, the callers and the threads of the bridges together as a relation of steps. Runtime/Turn
--     and Runtime/Found have the branches, Runtime/Shown, Runtime/Owners, Runtime/Quiet, Runtime/Coherent
--     and Runtime/Reached what all of them keep, Runtime/Attempts, Runtime/Ends and Runtime/Operations
--     what follows for the attempts, the end of the worker and the operations, and Runtime/Waits
--     what follows for the time between two attempts.
--
-- How the state corresponds. A machine word is a number with its bound as a hypothesis or with its
-- wrap-around written out; `usize` has 64 bits. A `&mut Vec<u8>` that is encoded into is the bytes so
-- far. A `Decoder` is its input and its offset. A stream that is read is the list of what will arrive,
-- bytes and failures in their order, and its end; a sink is what it has taken, how much more it
-- takes, and how it fails then. A string is its bytes, with the test of UTF-8 where one is read. A
-- field named `data` in the source is `payload` here. A value behind a mutex is an option, `none` when
-- the mutex is poisoned; each call is one step, so what holds after any sequence of calls holds for
-- any interleaving of calls that each keep their lock. Response channels are numbers.
--
-- In Guest/Runtime no mutex is poisoned, since nothing panics under one; a step is what happens under
-- one hold of the lock. Durations and instants are numbers of nanoseconds. A bridge behind an `Arc` is
-- a number with the info of its session, and the references to it that operations hold are counted
-- beside the runtime. The error counters of the bridges are a function that any step may change. What
-- the system answers to connecting a stream and to setting a timeout is a parameter; what a timeout
-- does to a read or a write is among the failures of its stream.
--
-- Every function here is total by its structure: readers recurse on the count of bytes, decoders of
-- lists on the count that was read. Only two loops have fuel: the sweep of the retired bridges, for which the
-- length of the list is enough, and the command worker, for which the length of its queue is.
--
-- Not modelled: the texts of errors and of traced bytes, sockets and threads, the paths and ids of the
-- virtual devices in crates/crosspuck-core/src/guest_driver/profile.rs and routing.rs, the reading of a
-- log level's name, the waiting of a request for its answer and the thread of the input pump in
-- crates/crosspuck-core/src/guest_driver/bridge.rs, crates/crosspuck-core/src/hid.rs, and the crates
-- crosspuck-driver, crosspuck-app and crosspuck-cli, which hook or call the operating system.
pub mod Base
pub mod Protocol
pub mod Guest
