-- ===== src/Stream/Ws/Tests.antt =====
-- crates/lightr-cri-stream/src/ws.rs on a concrete session.
use lightr_cri.Prelude.{◌≡◌, refl, true, [], ◌∷◌, List, none, some, arith, All, if◌then◌else◌}
use lightr_cri.Prelude.Text.{codes}
use lightr_cri.Backend.{ℤ, pos, StreamSession}
use lightr_cri.Stream.B64.RoundTrip.{IsByte}
use lightr_cri.Stream.Channel.{stdout_channel, stderr_channel, error_channel}
use lightr_cri.Stream.Ws.{
  Event, stdout_read, other_message, binary_message, Json, opened, run_session, is_some, is_base64,
  contains, starts_with, exit_or_failed,
}
use lightr_cri.Stream.Ws.Output.{demux, written_bytes, on_stdout_side, on_stderr_side}
use lightr_cri.Stream.Ws.Output.Sessions.{run_session-demux}
use lightr_cri.Stream.Status.{exit_status_json}

abbrev json : Json
json = record { terminal_sizes = λ bytes. some (80, 24) ∷ []; status_to_vec = λ st. codes "{}" }

abbrev session : StreamSession (Unit {0})
session = record {
  stdin = some 3;
  stdout = some 4;
  stderr = none;
  pty_master = some 5;
  waiter = tt;
}

abbrev events : List Event
events =
    stdout_read (some (codes "hi"))
    ∷ binary_message (4 ∷ codes "{}") true
    ∷ other_message
    ∷ stdout_read (some (codes "!"))
    ∷ stdout_read none
    ∷ stdout_read (some (codes "late"))
    ∷ []

is_base64_test : is_base64 (codes "v5.base64.channel.k8s.io") ≡ true
unfolding is_base64 contains starts_with
is_base64_test = refl

late_bytes : All IsByte (codes "late")
late_bytes = (omega arith, (omega arith, (omega arith, (omega arith, tt))))

status_bytes : (exit : ℤ) → All IsByte (exit_status_json json.status_to_vec exit)
unfolding exit_status_json
status_bytes exit = (omega arith, (omega arith, tt))

run_session-demux_example :
    let sent = (run_session json true (λ w. some (pos 7)) (opened session) events).sent in
    (demux true stdout_channel sent
      ≡ (if is_some session.stdout then written_bytes on_stdout_side events else []))
    × (demux true stderr_channel sent
        ≡ (if is_some session.stderr then written_bytes on_stderr_side events else []))
    × (demux true error_channel sent
        ≡ exit_status_json json.status_to_vec (exit_or_failed (some (pos 7))))
run_session-demux_example =
    run_session-demux json true (λ w. some (pos 7)) session events
      ((omega arith, (omega arith, tt)), (refl, (tt, ((omega arith, tt), (tt, (late_bytes, tt))))))
      status_bytes
