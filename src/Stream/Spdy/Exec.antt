-- ===== src/Stream/Spdy/Exec.antt =====
-- crates/lightr-cri-stream/src/spdy/conn.rs: `run_exec`. The session is the state that its read loop,
-- its output pumps and its completion share; each arm of the loop is a step on it, that of a new
-- stream two. Frames that are handed to the writer stand in `sent` (a failed write is ignored there
-- too), what reaches the process in `acts`. zlib, UTF-8 and JSON are a `Codec`.
pub mod Loop
pub mod Replies
pub mod Gate
pub mod Stdin
use lightr_cri.Prelude.{
  ℕ, ◌+◌, ◌==◌, leb, Bool, true, false, not, ◌&&◌, List, [], ◌∷◌, ◌++◌, Option, none, some, bit_and,
  if◌then◌else◌, length,
}
use lightr_cri.Prelude.Map.{Map, nat_key, get, insert}
use lightr_cri.Prelude.Text.{Text, codes, text_eq}
use lightr_cri.Backend.{ℤ, pos, negsuc}
use lightr_cri.Stream.Channel.{
  stdin_channel, stdout_channel, stderr_channel, error_channel, resize_channel, parse_resize,
}
use lightr_cri.Stream.Token.{StreamVerb, exec, attach, port_forward}
use lightr_cri.Stream.Status.{Status, exit_status_json}
use lightr_cri.Stream.Spdy.Frame.{
  Frame, syn_stream, syn_reply, rst_stream, settings, ping, goaway, headers, window_update,
  payload_data, flag_fin,
}
use lightr_cri.Stream.Spdy.Headers.{serialize_headers, deserialize_headers, get_header}

-- The two zlib streams of a connection by their states, UTF-8 validation, the JSON of a Status, and
-- what the stream of terminal sizes in a payload gives up to its end, `none` for an error.
pub record Codec (Z D : Type 0) : Type 0 where
  pub compress : Z → List ℕ → List ℕ × Z
  pub decompress : D → List ℕ → Option (List ℕ) × D
  pub from_utf8 : List ℕ → Option Text
  pub terminal_sizes : List ℕ → List (Option (ℕ × ℕ))
  pub status_to_vec : Status → List ℕ

-- What reaches the process: bytes on its stdin, the end of it, a new terminal size.
pub data Act : Type 0 where
  wrote : List ℕ → Act
  shut : Act
  resized : ℕ → ℕ → Act

pub record Session (Z D : Type 0) : Type 0 where
  pub roles : Map ℕ ℕ
  pub by_role : Map ℕ ℕ
  pub stdin : Bool
  pub pty_master : Bool
  pub stdout_raw : Option ℕ
  pub stderr_raw : Option ℕ
  pub output_tasks : List (ℕ × ℕ)
  pub sent : List Frame
  pub acts : List Act
  pub comp : Z
  pub decomp : D
  pub reading : Bool
  pub client_closed : Bool

abbrev pub no_role : ℕ
no_role = 0xff

unfoldable pub role_of : List (Text × Text) → ℕ
role_of hdr = elim (get_header hdr (codes "streamType")) [
  | none ↦ no_role
  | some t ↦
      if text_eq t (codes "stdin")
      then stdin_channel
      else if text_eq t (codes "stdout")
      then stdout_channel
      else if text_eq t (codes "stderr")
      then stderr_channel
      else if text_eq t (codes "error")
      then error_channel
      else if text_eq t (codes "resize")
      then resize_channel
      else no_role
]

abbrev or_empty : Option (List (Text × Text)) → List (Text × Text)
or_empty none = []
or_empty (some hdr) = hdr

abbrev pub has_fin : ℕ → Bool
has_fin flags = not (bit_and flags flag_fin == 0)

-- `decompress(..).ok().and_then(deserialize_headers).unwrap_or_default()`.
unfoldable pub read_headers : {Z D : Type 0} → Codec Z D → D → List ℕ → List (Text × Text) × D
read_headers codec d block =
    let (inflated, e) = codec.decompress d block in
    elim inflated [
      | none ↦ ([], e)
      | some b ↦ (or_empty (deserialize_headers codec.from_utf8 b), e)
    ]

module _ {Z D : Type 0} (codec : Codec Z D) where
  unfoldable pub send_syn_reply : ℕ → Session Z D → Session Z D
  send_syn_reply stream_id s =
      let out = codec.compress s.comp (serialize_headers []) in
      record s { sent = s.sent ++ (syn_reply stream_id 0 out.0 ∷ []); comp = out.1 }

module _ {Z D : Type 0} where
  abbrev pub write_frame : Frame → Session Z D → Session Z D
  write_frame f s = record s { sent = s.sent ++ (f ∷ []) }

  -- A pump is its stream and its file; the file is taken, so that a second stream of the role has none.
  unfoldable pub spawn_pump : ℕ → ℕ → Session Z D → Session Z D
  spawn_pump role stream_id s =
      if role == stdout_channel
      then (elim s.stdout_raw [
        | none ↦ s
        | some file ↦ record s {
          stdout_raw = none;
          output_tasks = s.output_tasks ++ ((stream_id, file) ∷ []);
        }
      ])
      else if role == stderr_channel
      then (elim s.stderr_raw [
        | none ↦ s
        | some file ↦ record s {
          stderr_raw = none;
          output_tasks = s.output_tasks ++ ((stream_id, file) ∷ []);
        }
      ])
      else s

  unfoldable pub bind_role : ℕ → ℕ → Session Z D → Session Z D
  bind_role role stream_id s = record s {
    roles = insert stream_id role s.roles;
    by_role = insert role stream_id s.by_role;
  }

  unfoldable pub write_stdin : List ℕ → Session Z D → Session Z D
  write_stdin bytes s = if s.stdin then record s { acts = s.acts ++ (wrote bytes ∷ []) } else s

  unfoldable pub close_stdin : Session Z D → Session Z D
  close_stdin s = if s.stdin then record s { stdin = false; acts = s.acts ++ (shut ∷ []) } else s

  unfoldable pub close_role : Option ℕ → Session Z D → Session Z D
  close_role none s = s
  close_role (some role) s = if role == stdin_channel then close_stdin s else s

  -- A FIN on a stream: stdin is dropped where it is that stream, and an attach takes it as a detach.
  unfoldable pub half_close : Bool → Option ℕ → Session Z D → Session Z D
  half_close is_attach role s =
      let closed = close_role role s in
      if is_attach then record closed { client_closed = true } else closed

  -- The end of the read loop's task drops the stdin that it owns.
  unfoldable pub loop_end : Session Z D → Session Z D
  loop_end s = record (close_stdin s) { reading = false; client_closed = true }

module _ {Z D : Type 0} (codec : Codec Z D) where
  -- The SynStream arm up to its first notification: the role is bound, and no pump is registered yet.
  -- The completion can look at the session here.
  abbrev pub bind_stream : ℕ → List ℕ → Session Z D → Session Z D
  bind_stream stream_id block s =
      let hdr = read_headers codec s.decomp block in
      bind_role (role_of hdr.0) stream_id
        (send_syn_reply codec stream_id (record s { decomp = hdr.1 }))

  -- The whole arm.
  unfoldable pub open_stream : ℕ → List ℕ → Session Z D → Session Z D
  open_stream stream_id block s =
      spawn_pump (role_of (read_headers codec s.decomp block).0) stream_id
        (bind_stream stream_id block s)

  unfoldable pub resize : List ℕ → Session Z D → Session Z D
  resize bytes s = elim (parse_resize (codec.terminal_sizes bytes) none) [
    | none ↦ s
    | some sz ↦ if s.pty_master then record s { acts = s.acts ++ (resized sz.0 sz.1 ∷ []) } else s
  ]

  unfoldable pub deliver : Option ℕ → List ℕ → Session Z D → Session Z D
  deliver none bytes s = s
  deliver (some role) bytes s =
      if role == stdin_channel
      then write_stdin bytes s
      else if role == resize_channel
      then resize bytes s
      else s

  -- The Data arm.
  unfoldable pub on_data : Bool → ℕ → ℕ → List ℕ → Session Z D → Session Z D
  on_data is_attach stream_id flags bytes s =
      let role = get stream_id s.roles in
      let fed = deliver role bytes s in if has_fin flags then half_close is_attach role fed else fed

  unfoldable pub on_frame : Bool → Frame → Session Z D → Session Z D
  on_frame is_attach (syn_stream id assoc priority flags block) s = open_stream id block s
  on_frame is_attach (payload_data id flags bytes) s = on_data is_attach id flags bytes s
  on_frame is_attach (ping id) s = write_frame (ping id) s
  on_frame is_attach (rst_stream id status) s = loop_end s
  on_frame is_attach (goaway id status) s = loop_end s
  on_frame is_attach (settings p) s = s
  on_frame is_attach (window_update id delta) s = s
  on_frame is_attach (headers id flags block) s = s
  on_frame is_attach (syn_reply id flags block) s = s

  -- The read loop over the frames that the connection gives before it ends.
  unfoldable pub read_loop : Bool → List Frame → Session Z D → Session Z D
  read_loop is_attach [] s = if s.reading then loop_end s else s
  read_loop is_attach (f ∷ fs) s =
      if s.reading then read_loop is_attach fs (on_frame is_attach f s) else s

-- The roles that the completion waits for, and the pumps.
unfoldable pub expected_roles : Bool → Bool → List ℕ
expected_roles stdin tty =
    (error_channel ∷ stdout_channel ∷ [])
    ++ ((if stdin then stdin_channel ∷ [] else []) ++ (if tty then [] else stderr_channel ∷ []))

abbrev pub count : Bool → ℕ
count true = 1
count false = 0

unfoldable pub expected_pumps : Bool → Bool → Bool → ℕ
expected_pumps tty has_stdout_file has_stderr_file =
    count has_stdout_file + count (not tty && has_stderr_file)

module _ {Z D : Type 0} where
  abbrev pub is_bound : Session Z D → ℕ → Bool
  is_bound s role = elim (get role s.by_role) [ none ↦ false | some id ↦ true ]

  abbrev pub all_bound : Session Z D → List ℕ → Bool
  all_bound s [] = true
  all_bound s (r ∷ rs) = is_bound s r && all_bound s rs

  unfoldable pub barrier : Bool → Bool → Session Z D → Bool
  barrier stdin tty s = all_bound s (expected_roles stdin tty)

  unfoldable pub pump_gate : ℕ → Session Z D → Bool
  pump_gate expected s = leb expected (length s.output_tasks)

-- What the reaper thread gives: a code, an error of the wait, or the thread itself failed.
unfoldable pub exit_code : StreamVerb → Option ℤ → ℤ
exit_code attach reaped = pos 0
exit_code verb none = negsuc 0
exit_code verb (some code) = code

module _ {Z D : Type 0} (codec : Codec Z D) where
  unfoldable pub fin_of : Option ℕ → List ℕ → List Frame
  fin_of none bytes = []
  fin_of (some id) bytes = payload_data id flag_fin bytes ∷ []

  -- The frames of the completion: FIN on stdout, FIN on stderr, the Status with its FIN.
  unfoldable pub complete : ℤ → Session Z D → Session Z D
  complete exit s =
      let out = fin_of (get stdout_channel s.by_role) [] in
      let err = fin_of (get stderr_channel s.by_role) [] in
      let status =
        fin_of (get error_channel s.by_role) (exit_status_json codec.status_to_vec exit) in
      record s { sent = s.sent ++ (out ++ (err ++ status)) }

  -- A session that could not be opened has no waiter, and nothing completes it.
  unfoldable pub finish_session : StreamVerb → Option (Option ℤ) → Session Z D → Session Z D
  finish_session verb none s = s
  finish_session verb (some reaped) s = complete (exit_code verb reaped) s
