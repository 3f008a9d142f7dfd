-- ===== src/Stream/Ws/Output/Sessions.antt =====
-- crates/lightr-cri-stream/src/ws.rs: what a whole session sends.
use lightr_cri.Prelude.{
  ◌≡◌, refl, Bool, true, false, List, [], ◌∷◌, ◌++◌, Option, arith, if◌then◌else◌, ◌==◌, append-nil,
  append_assoc, ◌∙◌, All, inl,
}
use lightr_cri.Backend.{ℤ, StreamSession}
use lightr_cri.Stream.B64.RoundTrip.{IsByte}
use lightr_cri.Stream.Channel.{stdout_channel, stderr_channel, error_channel}
use lightr_cri.Stream.Status.{exit_status_json}
use lightr_cri.Stream.Ws.{
  Message, Event, Json, Ws, opened, on_event, drained, session_loop, begin_session, is_some,
  exit_or_failed, last_messages, run_session,
}
use lightr_cri.Stream.Ws.Output.{
  demux, Side, on_stdout_side, on_stderr_side, on_error_side, channel_of, read_of, chunk,
  written_bytes, Stays, is_open, IsRunning, demux-append, decoded-frame,
}
use lightr_cri.Stream.Ws.Output.Steps.{chunk-ends, on_event-IsStep}

module _ (json : Json) (base64 : Bool) where
  -- The test behind an event keeps what was sent and what is open.
  drained-IsRunning :
      (side : Side) (s : Ws)
      → s.in_loop ≡ true
      → ((drained s).sent ≡ s.sent)
        × (is_open side (drained s) ≡ is_open side s)
        × IsRunning (drained s)
  drained-IsRunning on_stdout_side s h = (ground arith, ground arith, ground arith)
  drained-IsRunning on_stderr_side s h = (ground arith, ground arith, ground arith)
  drained-IsRunning on_error_side s h = (ground arith, refl, ground arith)

  closed_side : (side : Side) (s : Ws) → IsRunning s → s.in_loop ≡ false → is_open side s ≡ false
  closed_side on_stdout_side s run h = ground arith
  closed_side on_stderr_side s run h = ground arith
  closed_side on_error_side s run h = refl

  session_loop-demux :
      (side : Side) (es : List Event) (s : Ws)
      → IsRunning s
      → All Stays es
      → demux base64 (channel_of side) (session_loop json base64 es s).sent
        ≡ demux base64 (channel_of side) s.sent
          ++ (if is_open side s then written_bytes side es else [])
  unfolding session_loop
  session_loop-demux side [] s run h =
      ground (arith, append-nil (demux base64 (channel_of side) s.sent))
  session_loop-demux side (e ∷ es) s run h =
      go s.in_loop refl (session_loop-demux side es (drained (on_event json base64 e s)))
    where
      go :
          (b : Bool)
          → s.in_loop ≡ b
          → (IsRunning (drained (on_event json base64 e s))
              → All Stays es
              → demux base64
                  (channel_of side)
                  (session_loop json base64 es (drained (on_event json base64 e s))).sent
                ≡ demux base64 (channel_of side) (drained (on_event json base64 e s)).sent
                  ++ (if is_open side (drained (on_event json base64 e s))
                      then written_bytes side es
                      else []))
          → demux base64
              (channel_of side)
              (if b
                then session_loop json base64 es (drained (on_event json base64 e s))
                else s).sent
            ≡ demux base64 (channel_of side) s.sent
              ++ (if is_open side s then written_bytes side (e ∷ es) else [])
      go true q ih =
          let step = on_event-IsStep json base64 side e s h.0 in
          let t = on_event json base64 e s in
          let kept = drained-IsRunning side t (step.2 ∙ q) in
          let rest = ih kept.2 h.1 in
          ground (
            arith,
            chunk-ends (read_of side e),
            append-nil (demux base64 (channel_of side) s.sent),
            append_assoc (demux base64 (channel_of side) s.sent) (chunk (read_of side e))
                (written_bytes side es),
          )
      go false q ih =
          let o = closed_side side s run q in
          ground (arith, append-nil (demux base64 (channel_of side) s.sent))

  demux-last :
      (side : Side) (exit : ℤ) (ms : List Message)
      → All IsByte (exit_status_json json.status_to_vec exit)
      → demux base64 (channel_of side) (ms ++ last_messages json base64 exit)
        ≡ demux base64 (channel_of side) ms
          ++ (if error_channel == channel_of side
              then exit_status_json json.status_to_vec exit
              else [])
  unfolding last_messages demux
  demux-last side exit ms h =
      let json_bytes = exit_status_json json.status_to_vec exit in
      ground (
        arith,
        demux-append base64 (channel_of side) ms (last_messages json base64 exit),
        decoded-frame base64 error_channel json_bytes (omega arith) h,
        append-nil (if error_channel == channel_of side then json_bytes else []),
      )

  demux-begin_session :
      {W : Type 0} (side : Side) (session : StreamSession W)
      → demux base64 (channel_of side) (begin_session base64 session).sent ≡ []
  unfolding demux begin_session
  demux-begin_session side session = ground (
    arith,
    decoded-frame base64 stdout_channel [] (omega arith) tt,
    decoded-frame base64 stderr_channel [] (omega arith) tt,
  )

  run_session-side :
      {W : Type 0} (wait : W → Option ℤ) (session : StreamSession W) (events : List Event)
      (side : Side)
      → All Stays events
      → ((exit : ℤ) → All IsByte (exit_status_json json.status_to_vec exit))
      → demux base64 (channel_of side) (run_session json base64 wait (opened session) events).sent
        ≡ (if is_open side (begin_session base64 session) then written_bytes side events else [])
          ++ (if error_channel == channel_of side
              then exit_status_json json.status_to_vec (exit_or_failed (wait session.waiter))
              else [])
  unfolding run_session begin_session
  run_session-side wait session events side h j =
      let exit = exit_or_failed (wait session.waiter) in
      let begun = begin_session base64 session in
      let ended = session_loop json base64 events begun in
      ground (
        arith,
        demux-last side exit ended.sent (j exit),
        session_loop-demux side events begun (inl refl) h,
        demux-begin_session side session,
      )

  -- What the client of a session that was opened can decode, in both framings, as long as the
  -- connection holds and stdin can be written: on the channels of stdout and of stderr the bytes that
  -- the process wrote there, up to the end of that output and each once, if the session has it, and
  -- on the error channel the Status of the exit code and nothing else. The outputs and the JSON of a
  -- Status consist of bytes.
  pub run_session-demux :
      {W : Type 0} (wait : W → Option ℤ) (session : StreamSession W) (events : List Event)
      → All Stays events
      → ((exit : ℤ) → All IsByte (exit_status_json json.status_to_vec exit))
      → let sent = (run_session json base64 wait (opened session) events).sent in
        (demux base64 stdout_channel sent
          ≡ (if is_some session.stdout then written_bytes on_stdout_side events else []))
        × (demux base64 stderr_channel sent
            ≡ (if is_some session.stderr then written_bytes on_stderr_side events else []))
        × (demux base64 error_channel sent
            ≡ exit_status_json json.status_to_vec (exit_or_failed (wait session.waiter)))
  unfolding run_session begin_session
  run_session-demux wait session events h j = (
    run_session-side wait session events on_stdout_side h j
        ∙ append-nil (if is_some session.stdout then written_bytes on_stdout_side events else []),
    run_session-side wait session events on_stderr_side h j
        ∙ append-nil (if is_some session.stderr then written_bytes on_stderr_side events else []),
    run_session-side wait session events on_error_side h j,
  )
