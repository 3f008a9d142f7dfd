-- ===== src/Stream/Spdy/Tests.antt =====
-- crates/lightr-cri-stream/src/spdy/conn.rs on concrete sessions. zlib stands as the identity.
use lightr_cri.Prelude.{ℕ, ◌≡◌, refl, true, false, List, [], ◌∷◌, none, some, ◌≤◌, ◌+◌, length}
use lightr_cri.Prelude.Map.{get, insert}
use lightr_cri.Prelude.Text.{Text, codes, text_eq, ascii_lower, eq_ignore_ascii_case}
use lightr_cri.Stream.Spdy.Frame.{
  Frame, syn_stream, syn_reply, rst_stream, rst_refused_stream, ping, payload_data, flag_fin, be32,
  be_u32,
}
use lightr_cri.Stream.Spdy.Headers.{
  serialize_headers, serialize_pairs, deserialize_headers, read_u32, read_bytes, read_pairs,
  get_header,
}
use lightr_cri.Stream.Spdy.Exec.{
  Codec, Session, wrote, shut, read_loop, barrier, pump_gate, expected_pumps, expected_roles,
  on_frame, open_stream, bind_stream, spawn_pump, role_of, read_headers, bind_role, send_syn_reply,
}
use lightr_cri.Stream.Spdy.Exec.Replies.{answers, reply, pong, read_loop-answers}
use lightr_cri.Stream.Spdy.Exec.Gate.{within, barrier-pump_gate}
use lightr_cri.Stream.Spdy.Exec.Loop.{rounds}
use lightr_cri.Stream.Spdy.Exec.Stdin.{stdin_of, read_loop-stdin}
use lightr_cri.Stream.Spdy.PortForward.{
  Dialer, Forward, socket_of, open_forward, forward_loop, tcp_write, tcp_shutdown, dial_pf,
  is_error_stream, request_id,
}
use lightr_cri.Stream.Spdy.PortForward.Isolation.{on_socket, forward_loop-on_socket}
use lightr_cri.Stream.Spdy.PortForward.Handshake.{open_forward-open_forward}

abbrev codec : Codec (Unit {0}) (Unit {0})
codec = record {
  compress = λ z bytes. (bytes, z);
  decompress = λ d bytes. (some bytes, d);
  from_utf8 = λ bytes. some bytes;
  terminal_sizes = λ bytes. [];
  status_to_vec = λ st. st.status;
}

abbrev session : Session (Unit {0}) (Unit {0})
session = record {
  roles = [];
  by_role = [];
  stdin = true;
  pty_master = false;
  stdout_raw = some 10;
  stderr_raw = some 11;
  output_tasks = [];
  sent = [];
  acts = [];
  comp = tt;
  decomp = tt;
  reading = true;
  client_closed = false;
}

abbrev opens : ℕ → Text → Frame
opens id name = syn_stream id 0 0 0 (serialize_headers ((codes "streamType", name) ∷ []))

abbrev handshake : List Frame
handshake =
    opens 1 (codes "error")
    ∷ ping 9
    ∷ opens 3 (codes "stdin")
    ∷ opens 5 (codes "stdout")
    ∷ opens 7 (codes "stderr")
    ∷ []

read_loop-answers_example :
    answers (read_loop codec false handshake session).sent
    ≡ reply 1 ∷ pong 9 ∷ reply 3 ∷ reply 5 ∷ reply 7 ∷ []
read_loop-answers_example = read_loop-answers codec false handshake session refl

-- The arm of the last frame is in course: all roles are bound, and the pump of stderr is not there yet.
abbrev block7 : List ℕ
block7 = serialize_headers ((codes "streamType", codes "stderr") ∷ [])

abbrev before_last : Session (Unit {0}) (Unit {0})
before_last =
    rounds codec false
      (opens 1 (codes "error") ∷ opens 3 (codes "stdin") ∷ opens 5 (codes "stdout") ∷ []) session

window :
    (barrier true false (bind_stream codec 7 block7 before_last) ≡ true)
    × (pump_gate (expected_pumps false true true) (bind_stream codec 7 block7 before_last) ≡ false)
unfolding barrier expected_roles get on_frame open_stream spawn_pump role_of get_header pump_gate
    read_headers deserialize_headers read_u32 serialize_headers be32 serialize_pairs be_u32
    read_pairs insert ascii_lower eq_ignore_ascii_case text_eq bind_role send_syn_reply read_bytes
    expected_pumps
window = (refl, refl)

barrier-pump_gate_example :
    (pump_gate (expected_pumps false true true) (open_stream codec 7 block7 before_last) ≡ true)
    × (length (open_stream codec 7 block7 before_last).output_tasks ≤ 1 + 1)
barrier-pump_gate_example =
    barrier-pump_gate codec false true false {s = session} refl refl
      (within (opens 1 (codes "error") ∷ opens 3 (codes "stdin") ∷ opens 5 (codes "stdout") ∷ []) 7
        block7)
      window.0

abbrev typing : Session (Unit {0}) (Unit {0})
typing = record session { roles = (3, 0) ∷ [] }

abbrev typed : List Frame
typed =
    payload_data 3 0 (65 ∷ []) ∷ payload_data 3 flag_fin (66 ∷ []) ∷ payload_data 3 0 (67 ∷ []) ∷ []

read_loop-stdin_example :
    stdin_of (read_loop codec true typed typing).acts
    ≡ wrote (65 ∷ []) ∷ wrote (66 ∷ []) ∷ shut ∷ []
unfolding get
read_loop-stdin_example = read_loop-stdin codec true typed typing refl refl (tt, (tt, (tt, tt)))

abbrev refuse_all : Dialer
refuse_all = record {
  connect = λ n host port. false;
  dial_in_netns = λ n ns host port. false;
  adopt = λ n. true;
  write_all = λ k n bytes. bytes;
}

abbrev forward : Forward (Unit {0}) (Unit {0})
forward = record {
  pairs = [];
  data_route = [];
  tcp_tasks = [];
  sent = [];
  backend = [];
  shut = [];
  dials = 0;
  comp = tt;
  decomp = tt;
  reading = true;
}

abbrev stream_headers : Text → List (Text × Text)
stream_headers kind =
    (codes "streamType", kind) ∷ (codes "port", codes "80") ∷ (codes "requestID", codes "7") ∷ []

abbrev kind_block : Text → List ℕ
kind_block kind = serialize_headers (stream_headers kind)

headers_read :
    (read_headers codec tt (kind_block (codes "error")) ≡ (stream_headers (codes "error"), tt))
    × (read_headers codec tt (kind_block (codes "data")) ≡ (stream_headers (codes "data"), tt))
unfolding read_headers deserialize_headers read_u32 serialize_headers be32 serialize_pairs be_u32
    read_pairs read_bytes
headers_read = (refl, refl)

headers_mean :
    (is_error_stream (stream_headers (codes "error")) ≡ true)
    × (is_error_stream (stream_headers (codes "data")) ≡ false)
    × (request_id (stream_headers (codes "error")) ≡ request_id (stream_headers (codes "data")))
unfolding is_error_stream request_id get_header ascii_lower eq_ignore_ascii_case text_eq
headers_mean = (refl, refl, refl)

abbrev paired : Forward (Unit {0}) (Unit {0})
paired =
    open_forward codec refuse_all (codes "localhost") none 3 (kind_block (codes "data")) (
      open_forward codec refuse_all (codes "localhost") none 1 (kind_block (codes "error")) forward)

open_forward-open_forward_example :
    (socket_of paired 3 ≡ none)
    × (paired.dials ≡ 1)
    × (paired.sent
        ≡ syn_reply 1 0 (serialize_headers [])
          ∷ syn_reply 3 0 (serialize_headers [])
          ∷ payload_data 1 flag_fin (codes "dial failed")
          ∷ rst_stream 3 rst_refused_stream
          ∷ rst_stream 1 rst_refused_stream
          ∷ [])
unfolding dial_pf get
open_forward-open_forward_example =
    open_forward-open_forward codec refuse_all (codes "localhost") none 1 3
      (kind_block (codes "error")) (kind_block (codes "data")) forward
      (stream_headers (codes "error")) (stream_headers (codes "data")) tt tt headers_read.0
      headers_read.1 headers_mean.0 headers_mean.1 headers_mean.2 refl

abbrev routed : Forward (Unit {0}) (Unit {0})
routed = record forward {
  pairs =
      (codes "7", record { port = 80; data_stream = some 3; error_stream = some 1; tcp = some 0 })
      ∷ (codes "8", record { port = 81; data_stream = some 7; error_stream = some 5; tcp = some 1 })
      ∷ [];
  data_route = (3, codes "7") ∷ (7, codes "8") ∷ [];
}

abbrev traffic : List Frame
traffic =
    payload_data 3 0 (65 ∷ []) ∷ payload_data 7 0 (66 ∷ []) ∷ payload_data 3 flag_fin (67 ∷ []) ∷ []

forward_loop-on_socket_example :
    on_socket 0 (forward_loop codec refuse_all (codes "localhost") none traffic routed).backend
    ≡ tcp_write 0 (65 ∷ []) ∷ tcp_write 0 (67 ∷ []) ∷ tcp_shutdown 0 ∷ []
unfolding socket_of get text_eq
forward_loop-on_socket_example =
    forward_loop-on_socket codec refuse_all (codes "localhost") none 0 traffic routed refl refl
      (λ n x. refl) (tt, (tt, (tt, tt)))
