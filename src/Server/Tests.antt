-- ===== src/Server/Tests.antt =====
-- crates/lightr-cri-server over the fake backend on concrete input.
use lightr_cri.Prelude.{◌≡◌, refl, true, false, [], ◌∷◌, List, none, some, if◌then◌else◌, not, ◌&&◌}
use lightr_cri.Prelude.Map.{text_key, get}
use lightr_cri.Prelude.Text.{codes, text_eq}
use lightr_cri.Backend.{pos, ok}
use lightr_cri.Fake.World.{child}
use lightr_cri.Fake.Tests.{world, live}
use lightr_cri.Fake.Streams.{
  child_waiter, SessionEnv, Session, FanOut, open_exec, exec_command, join_container, exec_tty,
  exec_piped,
}
use lightr_cri.Stream.Token.{exec, StreamParams}
use lightr_cri.Stream.Ws.{Event, binary_message, stdout_read, Json, opened, run_session}
use lightr_cri.Stream.Ws.Input.{stdin_of, typed}
use lightr_cri.Server.{
  open_session, fake_sessions, Startup, serve, try_step, with_parent, served, start_stream,
  remove_socket, bind_socket, serve_grpc, shut_down_stream, parse_args, parse_loop, parsed,
  missing_value, main, resolve_state,
}
use lightr_cri.Server.Sessions.{open_session-run_session}

abbrev env : SessionEnv
env = record {
  mnt_uts_error = none;
  join_netns = λ path. none;
  openpty = ok (10, 11);
  dup_file = λ n fd. ok 12;
  make_pipe = λ n. ok (13, 14);
  spawn = child 43;
  child_stdin = 20;
  child_stdout = 21;
  child_stderr = 22;
}

abbrev params : StreamParams
params = record {
  container = some (codes "c");
  sandbox = none;
  cmd = codes "sh" ∷ [];
  tty = false;
  stdin = true;
  ports = [];
  dial_target = none;
  netns_path = none;
}

abbrev fanout : FanOut
fanout = record { stdout_sinks = []; stderr_sinks = [] }

abbrev session : Session
session = record {
  stdin = some 20;
  stdout = some 21;
  stderr = some 22;
  pty_master = none;
  waiter = child_waiter 43;
}

abbrev json : Json
json = record { terminal_sizes = λ bytes. []; status_to_vec = λ st. st.status }

abbrev events : List Event
events =
    binary_message (0 ∷ codes "ls") true
    ∷ stdout_read (some (codes "hi"))
    ∷ binary_message (0 ∷ codes "exit") true
    ∷ []

is_opened :
    open_session (fake_sessions env (world live)) exec params fanout ≡ (opened session, fanout)
unfolding open_session fake_sessions open_exec exec_command join_container exec_piped get text_eq
is_opened = refl

open_session-run_session_example :
    stdin_of (run_session json false (λ w. some (pos 0)) (opened session) events).acts
    ≡ (if not params.tty && params.stdin then typed false events else [])
open_session-run_session_example =
    open_session-run_session env (world live) params fanout fanout session json false
      (λ w. some (pos 0)) events is_opened (refl, (tt, (refl, tt)))

-- On a tty the same input is lost.
on_tty :
    open_session (fake_sessions env (world live)) exec (record params { tty = true }) fanout ≡ (
      opened (record {
        stdin = none;
        stdout = some 12;
        stderr = none;
        pty_master = some 10;
        waiter = child_waiter 43;
      }),
      fanout,
    )
unfolding open_session fake_sessions open_exec exec_command join_container exec_tty get text_eq
on_tty = refl

abbrev startup : Startup
startup = record {
  stream_error = none;
  socket_exists = true;
  remove_error = none;
  parent = some [];
  create_dir_error = none;
  bind_error = none;
  serve_error = none;
}

serve_test :
    serve startup
    ≡ (0, start_stream ∷ remove_socket ∷ bind_socket ∷ serve_grpc ∷ shut_down_stream ∷ [])
unfolding serve try_step with_parent served
serve_test = refl

parse_args_test :
    parse_args (codes "--state" ∷ codes "/s" ∷ codes "--socket" ∷ codes "/a" ∷ [])
    ≡ parsed (codes "/a") (some (codes "/s"))
unfolding parse_args parse_loop text_eq
parse_args_test = refl

parse_args_missing : parse_args (codes "--socket" ∷ []) ≡ missing_value
unfolding parse_args parse_loop text_eq
parse_args_missing = refl

main_test :
    main
      (λ root. text_eq root (codes "/var/s"))
      (λ socket. serve startup)
      (some (codes "/var/s"))
      (codes "/tmp")
      []
    ≡ 0
unfolding main parse_args parse_loop resolve_state text_eq serve try_step with_parent served
main_test = refl
