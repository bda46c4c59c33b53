-- ===== src/Lib.antt =====
-- The Moonlight addon of Tempest, a sidecar that streams from a GameStream host: what its parts do
-- and that they do it.
--
-- The program. The sidecar (crates/moonlight-addon) reads framed control messages on its standard
-- input and writes control messages and video frames on its standard output. Each `connect` starts a
-- session of crates/moonlight-core: a thread that restores or makes a client identity, asks the host
-- over HTTP and HTTPS what it is, pairs with it if it must, launches an app, starts the C library's
-- stream and hands its video units to the sidecar until it is stopped. Input goes the other way.
--
-- The files.
--   Base         shared names: tests, lists, bytes and words, results.
--   Str          the text functions of Rust's standard library that the source uses.
--   Transport    crates/moonlight-core/src/transport.rs.
--   Proto        crates/moonlight-addon/src/proto.rs: Messages are its types and the defaults of the
--                connect doc, Value is JSON as serde reads it, Json the objects that its serde
--                attributes read and write (Host, Incoming and Outgoing are the host's side of
--                them, after PROTOCOL.md), Framing is read_message and Writer.
--   Identity     crates/moonlight-core/src/identity.rs (SelfSigned is the certificate that it makes).
--   Log          crates/moonlight-core/src/lib.rs: tlog! and stage_name (Lines is the host's side).
--   Nvhttp       crates/moonlight-core/src/nvhttp.rs: Hex and Xml are its helpers (Apps and
--                Reply are what a host writes), Requests its functions of one request, Pairing the
--                handshake (Sent, Greeting and Secrets say what its steps send and read). Net is the
--                monad of all of them.
--   Stream       crates/moonlight-core/src/stream.rs: the process-wide state and what start_stream gives the
--                C library; Callbacks is the callbacks with what they set, log and answer.
--   Session      crates/moonlight-core/src/session.rs and the WorkerHandle of host.rs: Doc, Keys and
--                Input are the connect doc and send_input; State, Plan and Engine are the worker's
--                state, choices and stages (run_moonlight and the thread around it); Worker is the
--                handle. Lifecycle is the automaton that its log is checked against, Frames the units
--                on their way through the loop.
--   Addon        crates/moonlight-addon/src/main.rs: Convert, Output (callbacks and frame sink; Heard is
--                what the host makes of them, Mixed the same with several sessions), Persist (an
--                identity on its way to the host and back) and Run (read_control, the session map and the loop;
--                Stream is a host that speaks to it through Proto).
--   Xtask        crates/xtask/src/main.rs: Sha256 is its hash, Os what it takes from the system,
--                Package the task `package` (Wanted and Describes say what it is to build).
--   Build        crates/moonlight-core/build.rs: the patch of the vendored CMake file (Patch) and the search
--                for the archives (Archives).
--   Tests        the development at concrete inputs.
--
-- The shape of the model. Bytes and text are lists of numbers, text in UTF-8. A function that can
-- fail returns a Result; where the code could panic, the failure says so. A computation that talks to
-- the world takes the world as a state and returns it. The world of a session is any type: the
-- network, OpenSSL, the C library and the other threads are functions on it, given as parameters
-- (Net, Crypto, Generator, Deps, Os, System). What other threads do to the shared state between two of the
-- engine's reads is a list of steps that the parameter `tick` chooses, so a statement for every `tick`
-- covers every interleaving at those reads. What a session does outwards is a log, the newest step
-- first. serde_json is a parameter of the sidecar's functions; Stream and Heard give it as a parser of
-- JSON texts and the shape of Proto/Json.
--
-- Fuel. The streaming loop runs for as long as the stream does, so `pump` takes a number of rounds
-- and says whether it has ended; the rounds that suffice depend on when the stop flag is set. `run`
-- takes a number of rounds above the number of input bytes, since each message consumes some.
-- `decimal`, `hex_loop`, `split`, `replace` and `trim_lib` take fuel from their argument, which
-- bounds their rounds. The hasher's loops take as many rounds as there is input, and 64 for its
-- padding; none where they are not enough.
--
-- Not modelled. The generated bindings of the C library (crates/moonlight-core/src/sys.rs), the log
-- lines of the parts other than the callbacks, the text of JSON and the positional arrays that serde
-- also takes for a struct, the number that it also takes for the kind of an input, the zip format, and
-- the time that anything takes. The session map's mutex is never poisoned since one thread uses it. A
-- hash map is an association list.
pub mod Addon
pub mod Base
pub mod Build
pub mod Identity
pub mod Log
pub mod Nvhttp
pub mod Proto
pub mod Session
pub mod Str
pub mod Stream
pub mod Tests
pub mod Transport
pub mod Xtask
