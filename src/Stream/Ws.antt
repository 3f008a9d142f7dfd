-- ===== src/Stream/Ws.antt =====
-- crates/lightr-cri-stream/src/ws.rs: an exec or attach session over a WebSocket. What the select of
-- its loop yields is a list of events, and an event of a stream that has ended is skipped, as its
-- branch is disabled; the session's files are what the events read and write.
pub mod Output
pub mod Input
mod Tests
use lightr_cri.Prelude.{
  ℕ, ◌==◌, Bool, true, false, not, ◌&&◌, ◌||◌, List, [], ◌∷◌, ◌++◌, Option, none, some,
  if◌then◌else◌,
}
use lightr_cri.Prelude.Text.{Text, codes}
use lightr_cri.Backend.{ℤ, pos, negsuc, StreamSession}
use lightr_cri.Stream.Channel.{
  stdin_channel, stdout_channel, stderr_channel, error_channel, resize_channel, encode_binary,
  decode_binary, encode_base64, decode_base64, parse_resize,
}
use lightr_cri.Stream.Status.{Status, exit_status_json}
use lightr_cri.Stream.Spdy.Exec.{Act, wrote, resized}

unfoldable pub starts_with : Text → Text → Bool
starts_with [] t = true
starts_with (c ∷ s) [] = false
starts_with (c ∷ s) (d ∷ t) = c == d && starts_with s t

unfoldable pub contains : Text → Text → Bool
contains [] s = starts_with s []
contains (c ∷ t) s = starts_with s (c ∷ t) || contains t s

unfoldable pub is_base64 : Text → Bool
is_base64 proto = contains proto (codes "base64")

-- A message that the server sends; a close carries its code.
pub data Message : Type 0 where
  binary : List ℕ → Message
  text : Text → Message
  close_frame : ℕ → Message

-- A read of stdout or of stderr (no bytes are its end, `none` an error), a binary or text message
-- with the outcome of the write to stdin that it may ask for, any other message but a close, the close
-- or the end of the connection, and an error of it.
pub data Event : Type 0 where
  stdout_read stderr_read : Option (List ℕ) → Event
  binary_message text_message : List ℕ → Bool → Event
  other_message closed receive_error : Event

-- The terminal sizes in a payload, up to an error, and the JSON of a Status.
pub record Json : Type 0 where
  pub terminal_sizes : List ℕ → List (Option (ℕ × ℕ))
  pub status_to_vec : Status → List ℕ

pub record Ws : Type 0 where
  pub stdin : Option ℕ
  pub pty_master : Option ℕ
  pub stdout_open : Bool
  pub stderr_open : Bool
  pub in_loop : Bool
  pub sent : List Message
  pub acts : List Act

-- What `open_session` came to on its blocking thread.
pub data Opened (W : Type 0) : Type 0 where
  opened : StreamSession W → Opened W
  open_error : Text → Opened W
  open_panicked : Opened W

unfoldable pub frame : Bool → ℕ → List ℕ → Message
frame base64 ch payload =
    if base64 then text (encode_base64 ch payload) else binary (encode_binary ch payload)

abbrev pub send : Message → Ws → Ws
send m s = record s { sent = s.sent ++ (m ∷ []) }

abbrev pub is_some : {A : Type 0} → Option A → Bool
is_some none = false
is_some (some a) = true

unfoldable pub decode : Bool → List ℕ → Option (ℕ × List ℕ)
decode base64 bytes = if base64 then decode_base64 bytes else decode_binary bytes

-- `write_all` to stdin, and whether it succeeded; an error ends the loop.
unfoldable pub to_stdin : Bool → List ℕ → Ws → Ws
to_stdin written payload s = elim s.stdin [
  | none ↦ s
  | some fd ↦
      if written
      then record s { acts = s.acts ++ (wrote payload ∷ []) }
      else record s { in_loop = false }
]

abbrev pub to_pty : Option (ℕ × ℕ) → Option ℕ → Ws → Ws
to_pty none pty s = s
to_pty (some sz) none s = s
to_pty (some sz) (some fd) s = record s { acts = s.acts ++ (resized sz.0 sz.1 ∷ []) }

-- Behind each event: both outputs have ended.
abbrev pub drained : Ws → Ws
drained s = if s.stdout_open || s.stderr_open then s else record s { in_loop = false }

abbrev pub exit_or_failed : Option ℤ → ℤ
exit_or_failed none = negsuc 0
exit_or_failed (some code) = code

module _ (base64 : Bool) where
  unfoldable pub on_stdout : Option (List ℕ) → Ws → Ws
  on_stdout none s = record s { stdout_open = false }
  on_stdout (some []) s = record s { stdout_open = false }
  on_stdout (some (b ∷ bytes)) s = send (frame base64 stdout_channel (b ∷ bytes)) s

  unfoldable pub on_stderr : Option (List ℕ) → Ws → Ws
  on_stderr none s = record s { stderr_open = false }
  on_stderr (some []) s = record s { stderr_open = false }
  on_stderr (some (b ∷ bytes)) s = send (frame base64 stderr_channel (b ∷ bytes)) s

  unfoldable pub begin_session : {W : Type 0} → StreamSession W → Ws
  begin_session session =
      let lowest = if is_some session.stdout then stdout_channel else stderr_channel in
      record {
        stdin = session.stdin;
        pty_master = session.pty_master;
        stdout_open = is_some session.stdout;
        stderr_open = is_some session.stderr;
        in_loop = true;
        sent = frame base64 lowest [] ∷ [];
        acts = [];
      }

  abbrev pub refused : Text → Ws
  refused reason = record {
    stdin = none;
    pty_master = none;
    stdout_open = false;
    stderr_open = false;
    in_loop = false;
    sent = frame base64 error_channel reason ∷ close_frame 1000 ∷ [];
    acts = [];
  }

module _ (json : Json) (base64 : Bool) where
  unfoldable pub on_channel : ℕ → List ℕ → Bool → Ws → Ws
  on_channel ch payload written s =
      if ch == stdin_channel
      then to_stdin written payload s
      else if ch == resize_channel
      then to_pty (parse_resize (json.terminal_sizes payload) none) s.pty_master s
      else s

  unfoldable pub handle_inbound : List ℕ → Bool → Ws → Ws
  handle_inbound bytes written s = elim (decode base64 bytes) [
    | none ↦ s
    | some (ch, payload) ↦ on_channel ch payload written s
  ]

  unfoldable pub on_event : Event → Ws → Ws
  on_event (stdout_read r) s = if s.stdout_open then on_stdout base64 r s else s
  on_event (stderr_read r) s = if s.stderr_open then on_stderr base64 r s else s
  on_event (binary_message bytes written) s = handle_inbound bytes written s
  on_event (text_message bytes written) s = handle_inbound bytes written s
  on_event other_message s = s
  on_event closed s = record s { in_loop = false }
  on_event receive_error s = record s { in_loop = false }

  unfoldable pub session_loop : List Event → Ws → Ws
  session_loop [] s = s
  session_loop (e ∷ es) s = if s.in_loop then session_loop es (drained (on_event e s)) else s

  unfoldable pub last_messages : ℤ → List Message
  last_messages exit =
      frame base64 error_channel (exit_status_json json.status_to_vec exit) ∷ close_frame 1000 ∷ []

  -- `wait` is what the waiter comes to on its thread, an error of either being `none`.
  unfoldable pub run_session : {W : Type 0} → (W → Option ℤ) → Opened W → List Event → Ws
  run_session wait (open_error e) events = refused base64 e
  run_session wait open_panicked events = refused base64 (codes "session open panicked")
  run_session wait (opened session) events =
      let s = session_loop events (begin_session base64 session) in
      record s { sent = s.sent ++ last_messages (exit_or_failed (wait session.waiter)) }
