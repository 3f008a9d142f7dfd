-- ===== src/Stream/Ws/Input.antt =====
-- crates/lightr-cri-stream/src/ws.rs: what the process is given of the client's messages.
use lightr_cri.Prelude.{
  ℕ, ◌≡◌, refl, Bool, true, false, List, [], ◌∷◌, ◌++◌, Option, none, some, arith, if◌then◌else◌,
  ◌==◌, append-nil, append_assoc, ◌∙◌, All,
}
use lightr_cri.Backend.{ℤ, StreamSession}
use lightr_cri.Stream.Channel.{stdin_channel, parse_resize}
use lightr_cri.Stream.Spdy.Exec.{Act, wrote, shut, resized}
use lightr_cri.Stream.Ws.{
  Event, stdout_read, stderr_read, binary_message, text_message, other_message, closed,
  receive_error, Json, Ws, opened, decode, to_stdin, to_pty, on_channel, handle_inbound, on_stdout,
  on_stderr, on_event, session_loop, begin_session, run_session, is_some,
}

-- What the process read on its stdin.
abbrev pub stdin_of : List Act → List ℕ
stdin_of [] = []
stdin_of (wrote bytes ∷ acts) = bytes ++ stdin_of acts
stdin_of (shut ∷ acts) = stdin_of acts
stdin_of (resized w h ∷ acts) = stdin_of acts

stdin_of-append : (xs ys : List Act) → stdin_of (xs ++ ys) ≡ stdin_of xs ++ stdin_of ys
stdin_of-append [] ys = refl
stdin_of-append (wrote bytes ∷ xs) ys =
    ground (arith, stdin_of-append xs ys, append_assoc bytes (stdin_of xs) (stdin_of ys))
stdin_of-append (shut ∷ xs) ys = stdin_of-append xs ys
stdin_of-append (resized w h ∷ xs) ys = stdin_of-append xs ys

-- The payload of a message on the stdin channel.
abbrev pub typed_in : Option (ℕ × List ℕ) → List ℕ
typed_in none = []
typed_in (some (ch, payload)) = if ch == stdin_channel then payload else []

-- What the client types, in either framing.
abbrev pub typed : Bool → List Event → List ℕ
typed base64 [] = []
typed base64 (binary_message bytes written ∷ es) = typed_in (decode base64 bytes) ++ typed base64 es
typed base64 (text_message bytes written ∷ es) = typed_in (decode base64 bytes) ++ typed base64 es
typed base64 (e ∷ es) = typed base64 es

typed-cons :
    (base64 : Bool) (e : Event) (es : List Event)
    → typed base64 (e ∷ es) ≡ typed base64 (e ∷ []) ++ typed base64 es
typed-cons base64 (binary_message bytes written) es =
    ground (arith, append-nil (typed_in (decode base64 bytes)))
typed-cons base64 (text_message bytes written) es =
    ground (arith, append-nil (typed_in (decode base64 bytes)))
typed-cons base64 (stdout_read r) es = refl
typed-cons base64 (stderr_read r) es = refl
typed-cons base64 other_message es = refl
typed-cons base64 closed es = refl
typed-cons base64 receive_error es = refl

-- An event behind which the session goes on: the connection holds, stdin can be written and stdout
-- has not ended.
abbrev pub GoesOn : Event → Type 0
GoesOn (stdout_read none) = ⊥
GoesOn (stdout_read (some [])) = ⊥
GoesOn (stdout_read (some (b ∷ bytes))) = Unit
GoesOn (stderr_read r) = Unit
GoesOn (binary_message bytes written) = written ≡ true
GoesOn (text_message bytes written) = written ≡ true
GoesOn other_message = Unit
GoesOn closed = ⊥
GoesOn receive_error = ⊥

-- A step that gives the process these bytes, if it has a stdin, and ends nothing.
abbrev Gives : List ℕ → Ws → Ws → Type 0
Gives bytes s t =
    (t.stdin ≡ s.stdin)
    × (stdin_of t.acts ≡ stdin_of s.acts ++ (if is_some s.stdin then bytes else []))
    × (t.stdout_open ≡ s.stdout_open)
    × (t.in_loop ≡ s.in_loop)

Gives-nothing : (s : Ws) → Gives [] s s
Gives-nothing s = let nil = append-nil (stdin_of s.acts) in (refl, ground arith, refl, refl)

to_stdin-Gives : (payload : List ℕ) (s : Ws) → Gives payload s (to_stdin true payload s)
unfolding to_stdin
to_stdin-Gives payload s =
    let nil = append-nil (stdin_of s.acts) in
    let nil2 = append-nil payload in
    let split = stdin_of-append s.acts (wrote payload ∷ []) in
    (ground arith, ground arith, ground arith, ground arith)

to_pty-Gives : (sz : Option (ℕ × ℕ)) (s : Ws) → Gives [] s (to_pty sz s.pty_master s)
to_pty-Gives none s = Gives-nothing s
to_pty-Gives (some sz) s =
    let nil = append-nil (stdin_of s.acts) in
    let split = stdin_of-append s.acts (resized sz.0 sz.1 ∷ []) in
    (ground arith, ground arith, ground arith, ground arith)

module _ (json : Json) (base64 : Bool) where
  on_channel-Gives :
      (ch : ℕ) (payload : List ℕ) (s : Ws)
      → Gives (typed_in (some (ch, payload))) s (on_channel json base64 ch payload true s)
  unfolding on_channel
  on_channel-Gives ch payload s =
      let a = to_stdin-Gives payload s in
      let b = to_pty-Gives (parse_resize (json.terminal_sizes payload) none) s in
      let c = Gives-nothing s in (ground arith, ground arith, ground arith, ground arith)

  handle_inbound-Gives :
      (bytes : List ℕ) (s : Ws)
      → Gives (typed_in (decode base64 bytes)) s (handle_inbound json base64 bytes true s)
  unfolding handle_inbound
  handle_inbound-Gives bytes s = go (decode base64 bytes)
    where
      go :
          (o : Option (ℕ × List ℕ))
          → Gives
              (typed_in o)
              s
              (elim o [ none ↦ s | some (ch, payload) ↦ on_channel json base64 ch payload true s ])
      go none = Gives-nothing s
      go (some (ch, payload)) = on_channel-Gives ch payload s

  on_event-Gives :
      (e : Event) (s : Ws) → GoesOn e → Gives (typed base64 (e ∷ [])) s (on_event json base64 e s)
  unfolding on_event on_stdout on_stderr
  on_event-Gives (stdout_read none) s h = absurd h
  on_event-Gives (stdout_read (some [])) s h = absurd h
  on_event-Gives (stdout_read (some (b ∷ bytes))) s h =
      let c = Gives-nothing s in (ground arith, ground arith, ground arith, ground arith)
  on_event-Gives (stderr_read none) s h =
      let c = Gives-nothing s in (ground arith, ground arith, ground arith, ground arith)
  on_event-Gives (stderr_read (some [])) s h =
      let c = Gives-nothing s in (ground arith, ground arith, ground arith, ground arith)
  on_event-Gives (stderr_read (some (b ∷ bytes))) s h =
      let c = Gives-nothing s in (ground arith, ground arith, ground arith, ground arith)
  on_event-Gives (binary_message bytes true) s h =
      let a = handle_inbound-Gives bytes s in
      let nil = append-nil (typed_in (decode base64 bytes)) in (a.0, ground arith, a.2, a.3)
  on_event-Gives (text_message bytes true) s h =
      let a = handle_inbound-Gives bytes s in
      let nil = append-nil (typed_in (decode base64 bytes)) in (a.0, ground arith, a.2, a.3)
  on_event-Gives (binary_message bytes false) s h = absurd (cc)
  on_event-Gives (text_message bytes false) s h = absurd (cc)
  on_event-Gives other_message s h = Gives-nothing s
  on_event-Gives closed s h = absurd h
  on_event-Gives receive_error s h = absurd h

  session_loop-stdin :
      (es : List Event) (s : Ws)
      → All GoesOn es
      → s.in_loop ≡ true
      → s.stdout_open ≡ true
      → stdin_of (session_loop json base64 es s).acts
        ≡ stdin_of s.acts ++ (if is_some s.stdin then typed base64 es else [])
  unfolding session_loop
  session_loop-stdin [] s h l o = ground (arith, append-nil (stdin_of s.acts))
  session_loop-stdin (e ∷ es) s h l o =
      let t = on_event json base64 e s in
      let step = on_event-Gives e s h.0 in
      let rest = session_loop-stdin es t h.1 (step.3 ∙ l) (step.2 ∙ o) in
      ground (
        arith,
        typed-cons base64 e es,
        append-nil (stdin_of s.acts),
        append_assoc (stdin_of s.acts) (typed base64 (e ∷ [])) (typed base64 es),
      )

  -- While the connection holds, stdin can be written and stdout has not ended, the process reads on
  -- its stdin exactly what the client sent on that channel, in order and each message once, in either
  -- framing, where the session was opened with a stdin; without one it reads nothing. The session has
  -- a stdout.
  pub run_session-stdin :
      {W : Type 0} (wait : W → Option ℤ) (session : StreamSession W) (events : List Event)
      → is_some session.stdout ≡ true
      → All GoesOn events
      → stdin_of (run_session json base64 wait (opened session) events).acts
        ≡ (if is_some session.stdin then typed base64 events else [])
  unfolding run_session begin_session
  run_session-stdin wait session events o h =
      session_loop-stdin events (begin_session base64 session) h refl o
