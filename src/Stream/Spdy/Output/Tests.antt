-- ===== src/Stream/Spdy/Output/Tests.antt =====
-- crates/lightr-cri-stream/src/spdy/conn.rs: the frames of a concrete exec session.
use lightr_cri.Prelude.{ℕ, Option, ◌≡◌, refl, true, false, [], ◌∷◌, ◌++◌, List, none, some, arith}
use lightr_cri.Prelude.Map.{nat_key, get, insert}
use lightr_cri.Prelude.Text.{Text, codes, text_eq, ascii_lower, eq_ignore_ascii_case}
use lightr_cri.Backend.{pos}
use lightr_cri.Stream.Channel.{stdout_channel, stderr_channel, error_channel}
use lightr_cri.Stream.Status.{exit_status_json}
use lightr_cri.Stream.Spdy.Frame.{
  Frame, syn_stream, syn_reply, ping, payload_data, flag_fin, be32, be_u32,
}
use lightr_cri.Stream.Spdy.Headers.{
  serialize_headers, serialize_pairs, deserialize_headers, read_u32, read_bytes, read_pairs,
  get_header,
}
use lightr_cri.Stream.Spdy.Exec.{
  Codec, Session, read_loop, on_frame, loop_end, close_stdin, exit_code, fin_of, open_stream,
  spawn_pump, role_of, read_headers, bind_role, send_syn_reply,
}
use lightr_cri.Stream.Spdy.Exec.Loop.{rounds}
use lightr_cri.Stream.Spdy.Output.{
  spawn_output, fins, ended, left, right, IsTrace, pumps_of, select, exit_after, reaper_done,
}
use lightr_cri.Stream.Spdy.Output.Trace.{on_stream, pumped, has_pump, IsSingle}
use lightr_cri.Stream.Spdy.Output.Delivery.{IsOther, exec_trace}

abbrev codec : Codec (Unit {0}) (Unit {0})
codec = record {
  compress = λ z bytes. (bytes, z);
  decompress = λ d bytes. (some bytes, d);
  from_utf8 = λ bytes. some bytes;
  terminal_sizes = λ bytes. [];
  status_to_vec = λ st. st.status;
}

abbrev begun : Session (Unit {0}) (Unit {0})
begun = record {
  roles = [];
  by_role = [];
  stdin = true;
  pty_master = false;
  stdout_raw = some 10;
  stderr_raw = none;
  output_tasks = [];
  sent = [];
  acts = [];
  comp = tt;
  decomp = tt;
  reading = true;
  client_closed = false;
}

abbrev opens : ℕ → Text → Frame
opens id name = syn_stream id 0 0 0 (serialize_headers ((codes "streamType", name) ∷ []))

-- The client of a tty: the error stream on 1, stdout on 5 with its pump, no stderr, and then a ping.
abbrev handshake : List Frame
handshake = opens 1 (codes "error") ∷ opens 5 (codes "stdout") ∷ []

abbrev ready : Session (Unit {0}) (Unit {0})
ready = rounds codec false handshake begun

abbrev contents : ℕ → List (Option (List ℕ))
contents file = some (codes "hi") ∷ some (codes "!") ∷ none ∷ []

abbrev replied : ℕ → Frame
replied id = syn_reply id 0 (serialize_headers [])

bound :
    (get stdout_channel ready.by_role ≡ some 5)
    × (get error_channel ready.by_role ≡ some 1)
    × (get stderr_channel ready.by_role ≡ none)
    × (ready.output_tasks ≡ (5, 10) ∷ [])
    × ((read_loop codec false (handshake ++ (ping 9 ∷ [])) begun).sent
        ≡ replied 1 ∷ replied 5 ∷ ping 9 ∷ [])
unfolding get on_frame open_stream spawn_pump role_of get_header read_headers deserialize_headers
    read_u32 serialize_headers be32 serialize_pairs be_u32 read_pairs insert ascii_lower
    eq_ignore_ascii_case text_eq bind_role send_syn_reply read_bytes read_loop loop_end close_stdin
bound = (refl, refl, refl, refl, refl)

-- A ping is answered between the two chunks.
abbrev trace : List Frame
trace =
    replied 1
    ∷ replied 5
    ∷ payload_data 5 0 (codes "hi")
    ∷ ping 9
    ∷ payload_data 5 0 (codes "!")
    ∷ payload_data 5 flag_fin []
    ∷ payload_data 1 flag_fin (exit_status_json codec.status_to_vec (pos 0))
    ∷ []

is_trace :
    IsTrace
      (select false false (reaper_done (some (pos 0)))).0
      (pumps_of contents ready.output_tasks)
      []
      (read_loop codec false (handshake ++ (ping 9 ∷ [])) begun).sent
      (fins codec (pos 0) ready)
      trace
unfolding get on_frame open_stream spawn_pump role_of get_header read_headers deserialize_headers
    read_u32 serialize_headers be32 serialize_pairs be_u32 read_pairs insert ascii_lower
    eq_ignore_ascii_case text_eq bind_role send_syn_reply read_bytes read_loop loop_end close_stdin
    fins fin_of spawn_output select
is_trace = (
  payload_data 5 0 (codes "hi") ∷ payload_data 5 0 (codes "!") ∷ [],
  payload_data 5 0 (codes "hi")
      ∷ payload_data 5 0 (codes "!")
      ∷ payload_data 5 flag_fin []
      ∷ payload_data 1 flag_fin (exit_status_json codec.status_to_vec (pos 0))
      ∷ [],
  [],
  replied 1 ∷ replied 5 ∷ ping 9 ∷ [],
  ([], refl, left (left ended)),
  refl,
  refl,
  left (left (left ended)),
  left (left (right (left (right (right (right ended)))))),
)

stderr-IsOther : (id : ℕ) → IsOther id (get stderr_channel ready.by_role)
stderr-IsOther id = rw bound.2 tt

pumps-IsSingle :
    IsSingle 5 (pumps_of contents ready.output_tasks)
    × (has_pump 1 (pumps_of contents ready.output_tasks) ≡ false)
pumps-IsSingle = rw bound.3 ((refl, tt), refl)

exec_trace_example :
    (on_stream 5 trace ≡ pumped 5 (pumps_of contents ready.output_tasks) ++ ((flag_fin, []) ∷ []))
    × (on_stream 1 trace ≡ (flag_fin, exit_status_json codec.status_to_vec (pos 0)) ∷ [])
unfolding exit_code exit_after select
exec_trace_example =
    exec_trace codec handshake [] (ping 9 ∷ []) begun contents [] false (reaper_done (some (pos 0)))
      none 5 1 trace refl bound.0 bound.1 (λ e. omega arith) (stderr-IsOther 5) (stderr-IsOther 1)
      pumps-IsSingle.0 pumps-IsSingle.1 refl refl is_trace
