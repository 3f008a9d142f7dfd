-- ===== src/Stream/Ws/Output.antt =====
-- crates/lightr-cri-stream/src/ws.rs: what the client of a session reads.
pub mod Steps
pub mod Sessions
use lightr_cri.Prelude.{
  ℕ, ◌+◌, ◌≤◌, ◌≡◌, refl, Bool, true, false, not, ◌&&◌, ◌||◌, List, [], ◌∷◌, ◌++◌, Option, none,
  some, arith, if◌then◌else◌, ◌==◌, append-nil, append_assoc, ◌∙◌, ap, All, ◌⊎◌, inl, inr,
}
use lightr_cri.Prelude.Text.{Text}
use lightr_cri.Backend.{ℤ, StreamSession}
use lightr_cri.Stream.B64.RoundTrip.{IsByte}
use lightr_cri.Stream.Channel.{
  stdout_channel, stderr_channel, error_channel, decode_binary, decode_base64, parse_resize,
}
use lightr_cri.Stream.Channel.RoundTrip.{decode-encode}
use lightr_cri.Stream.Status.{exit_status_json}
use lightr_cri.Stream.Ws.{
  Message, binary, text, close_frame, Event, stdout_read, stderr_read, binary_message, text_message,
  other_message, closed, receive_error, Json, Ws, Opened, opened, frame, decode, to_stdin, to_pty,
  on_channel, handle_inbound, on_stdout, on_stderr, on_event, drained, session_loop, begin_session,
  send, is_some, exit_or_failed, last_messages, run_session,
}

-- The channel and the payload that a client finds in a message.
abbrev pub decoded : Bool → Message → Option (ℕ × List ℕ)
decoded base64 (binary b) = if base64 then none else decode_binary b
decoded base64 (text t) = if base64 then decode_base64 t else none
decoded base64 (close_frame n) = none

abbrev pub payload_on : ℕ → Option (ℕ × List ℕ) → List ℕ
payload_on c none = []
payload_on c (some (ch, payload)) = if ch == c then payload else []

-- The bytes that the client reads on one channel.
unfoldable pub demux : Bool → ℕ → List Message → List ℕ
demux base64 c [] = []
demux base64 c (m ∷ ms) = payload_on c (decoded base64 m) ++ demux base64 c ms

pub data Side : Type 0 where
  on_stdout_side on_stderr_side on_error_side : Side

abbrev pub channel_of : Side → ℕ
channel_of on_stdout_side = stdout_channel
channel_of on_stderr_side = stderr_channel
channel_of on_error_side = error_channel

-- What a read of the side gives, for an event that is one.
abbrev pub read_of : Side → Event → Option (Option (List ℕ))
read_of on_stdout_side (stdout_read r) = some r
read_of on_stderr_side (stderr_read r) = some r
read_of side e = none

abbrev pub chunk : Option (Option (List ℕ)) → List ℕ
chunk (some (some bytes)) = bytes
chunk r = []

abbrev pub ends : Option (Option (List ℕ)) → Bool
ends (some none) = true
ends (some (some [])) = true
ends r = false

-- What the process wrote on a side, as far as the session has read it: up to the end of the side.
abbrev pub written_bytes : Side → List Event → List ℕ
written_bytes side [] = []
written_bytes side (e ∷ es) =
    let rest = written_bytes side es in
    if ends (read_of side e) then [] else chunk (read_of side e) ++ rest

-- An event that leaves the connection and stdin sound.
abbrev pub Stays : Event → Type 0
Stays (stdout_read none) = Unit
Stays (stdout_read (some bytes)) = All IsByte bytes
Stays (stderr_read none) = Unit
Stays (stderr_read (some bytes)) = All IsByte bytes
Stays (binary_message bytes written) = written ≡ true
Stays (text_message bytes written) = written ≡ true
Stays other_message = Unit
Stays closed = ⊥
Stays receive_error = ⊥

abbrev pub is_open : Side → Ws → Bool
is_open on_stdout_side s = s.stdout_open
is_open on_stderr_side s = s.stderr_open
is_open on_error_side s = false

-- While nothing breaks the session off, only the end of both outputs ends its loop.
abbrev pub IsRunning : Ws → Type 0
IsRunning s = (s.in_loop ≡ true) ⊎ ((s.stdout_open ≡ false) × (s.stderr_open ≡ false))

pub demux-append :
    (base64 : Bool) (c : ℕ) (xs ys : List Message)
    → demux base64 c (xs ++ ys) ≡ demux base64 c xs ++ demux base64 c ys
unfolding demux
demux-append base64 c [] ys = refl
demux-append base64 c (m ∷ xs) ys = ground (
  arith,
  demux-append base64 c xs ys,
  append_assoc (payload_on c (decoded base64 m)) (demux base64 c xs) (demux base64 c ys),
)

pub decoded-frame :
    (base64 : Bool) (ch : ℕ) (payload : List ℕ)
    → ch ≤ 9
    → All IsByte payload
    → decoded base64 (frame base64 ch payload) ≡ some (ch, payload)
unfolding frame
decoded-frame true ch payload h b = (decode-encode ch payload h b).0
decoded-frame false ch payload h b = (decode-encode ch payload h b).1

pub demux-frame :
    (base64 : Bool) (c ch : ℕ) (payload : List ℕ) (ms : List Message)
    → ch ≤ 9
    → All IsByte payload
    → demux base64 c (ms ++ (frame base64 ch payload ∷ []))
      ≡ demux base64 c ms ++ (if ch == c then payload else [])
unfolding demux
demux-frame base64 c ch payload ms h b = ground (
  arith,
  demux-append base64 c ms (frame base64 ch payload ∷ []),
  decoded-frame base64 ch payload h b,
  append-nil (if ch == c then payload else []),
)
