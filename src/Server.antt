-- ===== src/Server.antt =====
-- crates/lightr-cri-server: lib.rs, the session factory over a backend and the order of start-up, and
-- main.rs, the arguments and the state root.
pub mod Sessions
mod Tests
use lightr_cri.Prelude.{
  ℕ, Bool, true, false, List, [], ◌∷◌, ◌++◌, Option, none, some, if◌then◌else◌,
}
use lightr_cri.Prelude.Text.{Text, codes, text_eq}
use lightr_cri.Backend.{StreamSession, BackendError, Result, ok, err, display}
use lightr_cri.Fake.World.{World}
use lightr_cri.Fake.ExecSync.{Act}
use lightr_cri.Fake.Streams.{Waiter, Session, SessionEnv, FanOut, open_exec, open_attach}
use lightr_cri.Stream.Token.{StreamVerb, exec, attach, port_forward, StreamParams}
use lightr_cri.Stream.Ws.{Opened, opened, open_error, open_panicked}

-- The two methods of a backend that the factory calls, over the state that they share.
pub record SessionBackend (S W : Type 0) : Type 0 where
  pub open_exec : Text → List Text → Bool → Bool → S → Result (StreamSession W) × S
  pub open_attach : Text → S → Result (StreamSession W) × S

abbrev text_of : {W : Type 0} → Result (StreamSession W) → Opened W
text_of (ok session) = opened session
text_of (err e) = open_error (display e)

abbrev with_text : {S W : Type 0} → Result (StreamSession W) × S → Opened W × S
with_text (r, s) = (text_of r, s)

-- `BackendFactory::open_session`.
unfoldable pub open_session :
    {S W : Type 0} → SessionBackend S W → StreamVerb → StreamParams → S → Opened W × S
open_session b exec params s = elim params.container [
  | none ↦ (open_error (codes "exec: missing container id"), s)
  | some cid ↦ with_text (b.open_exec cid params.cmd params.tty params.stdin s)
]
open_session b attach params s = elim params.container [
  | none ↦ (open_error (codes "attach: missing container id"), s)
  | some cid ↦ with_text (b.open_attach cid s)
]
open_session b port_forward params s = (
  open_error (codes "portforward: factory should not be called (stream crate dials directly)"),
  s,
)

abbrev session_of : Result (Act × Session) → Result Session
session_of (ok (start, session)) = ok session
session_of (err e) = err e

-- The file-backed backend: a session does not change its index, but the fan-out of a container.
unfoldable pub fake_sessions : {J : Type 0} → SessionEnv → World J → SessionBackend FanOut Waiter
fake_sessions env w = record {
  open_exec = λ id cmd tty stdin fanout. (session_of (open_exec env id cmd tty stdin w), fanout);
  open_attach = λ id fanout. open_attach env id w fanout;
}

-- What the steps of `serve` come to, `some` being an error: the start of the streaming server, the
-- removal of a socket file, the making of a directory that is named, the binding of the socket, and
-- the gRPC server up to its shutdown.
pub record Startup : Type 0 where
  pub stream_error : Option Text
  pub socket_exists : Bool
  pub remove_error : Option Text
  pub parent : Option Text
  pub create_dir_error : Option Text
  pub bind_error : Option Text
  pub serve_error : Option Text

pub data Step : Type 0 where
  start_stream remove_socket create_dir bind_socket serve_grpc shut_down_stream : Step

abbrev pub then_step : Step → ℕ × List Step → ℕ × List Step
then_step a (c, steps) = (c, a ∷ steps)

-- A step, and what follows it where it succeeds.
unfoldable pub try_step : Step → Option Text → ℕ × List Step → ℕ × List Step
try_step a (some e) rest = (1, a ∷ [])
try_step a none rest = then_step a rest

unfoldable pub served : Option Text → ℕ × List Step
served none = (0, serve_grpc ∷ shut_down_stream ∷ [])
served (some e) = (1, serve_grpc ∷ shut_down_stream ∷ [])

unfoldable pub with_parent : Option Text → Option Text → ℕ × List Step → ℕ × List Step
with_parent none e rest = rest
with_parent (some []) e rest = rest
with_parent (some (c ∷ dir)) e rest = try_step create_dir e rest

-- The exit code of `serve`, with the steps that were tried.
unfoldable pub serve : Startup → ℕ × List Step
serve s =
    let bound = try_step bind_socket s.bind_error (served s.serve_error) in
    let made = with_parent s.parent s.create_dir_error bound in
    try_step start_stream s.stream_error
      (if s.socket_exists then try_step remove_socket s.remove_error made else made)

-- `run_blocking`: a runtime that cannot be built is an exit code too.
unfoldable pub run_blocking : Bool → Startup → ℕ × List Step
run_blocking true s = serve s
run_blocking false s = (1, [])

-- `parse_args`; an unknown argument ends the process at once.
pub data Args : Type 0 where
  parsed : Text → Option Text → Args
  missing_value : Args
  unknown_argument : Text → Args

unfoldable pub parse_loop : Text → Option Text → List Text → Args
parse_loop socket state [] = parsed socket state
parse_loop socket state (arg ∷ []) =
    if text_eq arg (codes "--socket")
    then missing_value
    else if text_eq arg (codes "--state")
    then missing_value
    else unknown_argument arg
parse_loop socket state (arg ∷ val ∷ args) =
    let as_socket = parse_loop val state args in
    let as_state = parse_loop socket (some val) args in
    if text_eq arg (codes "--socket")
    then as_socket
    else if text_eq arg (codes "--state")
    then as_state
    else unknown_argument arg

unfoldable pub parse_args : List Text → Args
parse_args = parse_loop (codes "/run/lightr/cri.sock") none

-- The temporary directory is the last resort.
unfoldable pub resolve_state : Option Text → Option Text → Text → Text
resolve_state (some p) var temp_dir = p
resolve_state none none temp_dir = temp_dir ++ codes "/lightr-cri-fake"
resolve_state none (some []) temp_dir = temp_dir ++ codes "/lightr-cri-fake"
resolve_state none (some (c ∷ v)) temp_dir = c ∷ v

-- The exit code of the process: `opens` is whether the backend opens at a state root, `runs` the run
-- of the server on a socket.
unfoldable pub main : (Text → Bool) → (Text → ℕ × List Step) → Option Text → Text → List Text → ℕ
main opens runs var temp_dir args = elim (parse_args args) [
  | missing_value ↦ 1
  | unknown_argument arg ↦ 1
  | parsed socket state ↦ if opens (resolve_state state var temp_dir) then (runs socket).0 else 1
]
