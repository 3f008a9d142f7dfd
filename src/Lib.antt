-- ===== src/Lib.antt =====
-- lightr-cri: a Kubernetes CRI runtime service. A shell translates the gRPC calls, a backend behind a
-- seam of plain records runs sandboxes and containers, and a streaming server carries exec, attach
-- and port-forward sessions, over WebSocket or SPDY/3.1, to clients that hold a single-use token.
--
-- The files and the code that they are about:
--   Prelude         lists, texts, bit fields and ordered maps, for all the others
--   Backend         crates/lightr-cri-backend/src/lib.rs: the records and enums of the seam, each
--                   under its name, with the source's fields
--   Backend/Digest  crates/lightr-cri-backend/src/vocab.rs: to_hex and from_hex
--   Stream/B64      crates/lightr-cri-stream/src/b64.rs
--   Stream/Channel  crates/lightr-cri-stream/src/channel.rs, the two framings
--   Stream/Token    crates/lightr-cri-stream/src/token.rs: the registry is a map of entries, and mint
--                   and consume take and return it
--   Stream/Negotiate  crates/lightr-cri-stream/src/spdy/mod.rs and ws.rs: the protocol versions
--   Stream/Spdy     crates/lightr-cri-stream/src/spdy: frame.rs in Frame, headers.rs in Headers, zlib.rs
--                   in Zlib; of conn.rs, read_frame in Reader, run_exec in Begin and Exec (its pumps and its
--                   end in Output), run_portforward in PortForward
--   Stream/Status   crates/lightr-cri-stream/src/status.rs
--   Stream/Ws       crates/lightr-cri-stream/src/ws.rs: run_session
--   Stream/Server   crates/lightr-cri-stream/src/server.rs, and parse_ports of portforward.rs
--   Stream/PortForward  crates/lightr-cri-stream/src/portforward.rs: run_ws
--   Fake            crates/lightr-cri-fake/src/lib.rs, the file-backed backend: World has the records,
--                   the index with the state root, and the writes; Sandbox, Container (with Start),
--                   Images, Status (with Filter), Stats, ExecSync have the methods of those names;
--                   Streams has open_exec, open_attach and the fan-out; Namespaces what a child does
--                   between fork and exec; Cni the network of a sandbox;
--                   Recovery has open, and Log the CRI log with its tee threads
--   Net             crates/lightr-cri-net/src: chain.rs in Chain, over a JSON value, and Plugin, the
--                   network namespaces of netns.rs in Netns, the probe of lib.rs in Probe
--   Shell           crates/lightr-cri-shell/src: Runtime and Streaming have the RPCs of runtime.rs,
--                   Images those of image.rs, Decode and Build the translation of messages (Proto);
--                   the backend is the interface CriBackend, which Fake fills with the above
--   Server          crates/lightr-cri-server/src: the session factory, the start-up, the arguments
--   Tests, in each part  the theorems at concrete inputs
--
-- How they interact: the shell asks the backend, mints a token in the registry and answers with a
-- URL; the streaming server takes the token out of the registry and starts the session that it was
-- minted for, which the connection then carries as frames.
--
-- A method of the backend is a function from the state, a `World`, to its result and the state that
-- it leaves, also where it fails. Its locks are held for one step each; what the operating system,
-- the clock, serde_json, blake3 and the network crate answer is an argument, an `Env`, which is
-- asked at the number of the next event, so that any outcome of any call is covered. What a reaper
-- thread does is a step of its own, `reap`, and a wait meets the reapers that its Env names.
-- The streaming side is made of pure functions: a byte is a number, a slice is a list, and the reads
-- of a connection are a list of what each of them gave.
--
-- Bounds: a u32 and a u64 wrap where the source's operations can, written as `%`; frame fields have
-- the widths of the wire as hypotheses. The retries of mint are the source's eight. A wait polls
-- as often as its Env has entries, one for each poll before the time-out.
--
-- The read loops of a connection are functions of the frames that came, up to the end of the
-- connection; a step takes in one frame and leaves the session's state with what was sent and what
-- reached the process. In what order the frames of the loop, of the output pumps and of the end of an
-- exec session are written is a relation, `IsTrace`, by whether the completion awaited the
-- pumps; time-outs are not in it. A WebSocket session is a
-- loop over the events that its select yields.
--
-- Bounds of the newer parts: the inner loop of a tee thread takes as fuel the length of the bytes
-- that wait, as each round takes one byte at least; a poll of exec_sync is an entry of its list, at
-- whose end the deadline has passed; the loops of zlib.rs need more rounds than there are bytes.
--
-- Not modelled: the scheduling of a session's tasks, failed writes to a SPDY connection and its bounded
-- drain; the streams of flate2 and the dictionary, and what tonic, axum and prost do; the
-- generated messages that no RPC reads; test vectors. A start's pty path and pipe path are one path
-- here. run_sandbox and remove_sandbox take what the network does as an argument, which Fake/Cni
-- models by itself.
pub mod Prelude
pub mod Backend
pub mod Fake
pub mod Net
pub mod Shell
pub mod Stream
pub mod Server
