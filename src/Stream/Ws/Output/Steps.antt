-- ===== src/Stream/Ws/Output/Steps.antt =====
-- crates/lightr-cri-stream/src/ws.rs: what one event of a session sends.
use lightr_cri.Prelude.{
  ℕ, ◌≡◌, refl, Bool, true, false, not, ◌&&◌, List, [], ◌∷◌, ◌++◌, Option, none, some, arith,
  if◌then◌else◌, append-nil,
}
use lightr_cri.Stream.Channel.{parse_resize}
use lightr_cri.Stream.Ws.{
  Event, stdout_read, stderr_read, binary_message, text_message, other_message, closed,
  receive_error, Json, Ws, decode, to_stdin, to_pty, on_channel, handle_inbound, on_stdout,
  on_stderr, on_event,
}
use lightr_cri.Stream.Ws.Output.{
  demux, Side, on_stdout_side, on_stderr_side, on_error_side, channel_of, read_of, chunk, ends,
  Stays, is_open, demux-frame,
}

pub chunk-ends : (r : Option (Option (List ℕ))) → ends r ≡ true → chunk r ≡ []
chunk-ends none h = refl
chunk-ends (some none) h = refl
chunk-ends (some (some [])) h = refl
chunk-ends (some (some (b ∷ bytes))) h = absurd (cc)

-- A step that sends nothing and ends nothing.
abbrev IsQuiet : Ws → Ws → Type 0
IsQuiet s t =
    (t.sent ≡ s.sent)
    × (t.stdout_open ≡ s.stdout_open)
    × (t.stderr_open ≡ s.stderr_open)
    × (t.in_loop ≡ s.in_loop)

to_stdin-IsQuiet : (payload : List ℕ) (s : Ws) → IsQuiet s (to_stdin true payload s)
unfolding to_stdin
to_stdin-IsQuiet payload s = (ground arith, ground arith, ground arith, ground arith)

to_pty-IsQuiet : (sz : Option (ℕ × ℕ)) (s : Ws) → IsQuiet s (to_pty sz s.pty_master s)
to_pty-IsQuiet none s = (refl, refl, refl, refl)
to_pty-IsQuiet (some sz) s = (ground arith, ground arith, ground arith, ground arith)

module _ (json : Json) (base64 : Bool) where
  on_channel-IsQuiet :
      (ch : ℕ) (payload : List ℕ) (s : Ws) → IsQuiet s (on_channel json base64 ch payload true s)
  unfolding on_channel
  on_channel-IsQuiet ch payload s =
      let a = to_stdin-IsQuiet payload s in
      let b = to_pty-IsQuiet (parse_resize (json.terminal_sizes payload) none) s in
      (ground arith, ground arith, ground arith, ground arith)

  handle_inbound-IsQuiet :
      (bytes : List ℕ) (s : Ws) → IsQuiet s (handle_inbound json base64 bytes true s)
  unfolding handle_inbound
  handle_inbound-IsQuiet bytes s = go (decode base64 bytes)
    where
      go :
          (o : Option (ℕ × List ℕ))
          → IsQuiet s
              (elim o [ none ↦ s | some (ch, payload) ↦ on_channel json base64 ch payload true s ])
      go none = (refl, refl, refl, refl)
      go (some (ch, payload)) = on_channel-IsQuiet ch payload s

  -- What a step sends on a side, for what the event reads of it.
  abbrev pub IsStep : Side → Option (Option (List ℕ)) → Ws → Ws → Type 0
  IsStep side r s t =
      (demux base64 (channel_of side) t.sent
        ≡ demux base64 (channel_of side) s.sent ++ (if is_open side s then chunk r else []))
      × (is_open side t ≡ (is_open side s && not (ends r)))
      × (t.in_loop ≡ s.in_loop)

  same_open : (side : Side) (s t : Ws) → IsQuiet s t → is_open side t ≡ is_open side s
  same_open on_stdout_side s t q = q.1
  same_open on_stderr_side s t q = q.2
  same_open on_error_side s t q = refl

  quiet-IsStep : (side : Side) (s t : Ws) → IsQuiet s t → IsStep side none s t
  quiet-IsStep side s t q =
      let nil = append-nil (demux base64 (channel_of side) s.sent) in
      let same = same_open side s t q in (ground arith, ground arith, ground arith)

  on_stdout-IsStep :
      (side : Side) (r : Option (List ℕ)) (s : Ws)
      → Stays (stdout_read r)
      → s.stdout_open ≡ true
      → IsStep side (read_of side (stdout_read r)) s (on_stdout base64 r s)
  unfolding on_stdout
  on_stdout-IsStep on_stdout_side none s h o =
      let nil = append-nil (demux base64 (channel_of on_stdout_side) s.sent) in
      (ground arith, ground arith, ground arith)
  on_stdout-IsStep on_stdout_side (some []) s h o =
      let nil = append-nil (demux base64 (channel_of on_stdout_side) s.sent) in
      (ground arith, ground arith, ground arith)
  on_stdout-IsStep on_stdout_side (some (b ∷ bytes)) s h o =
      let nil = append-nil (demux base64 (channel_of on_stdout_side) s.sent) in
      let sent =
        demux-frame base64 (channel_of on_stdout_side) 1 (b ∷ bytes) s.sent (omega arith) h in
      (ground arith, ground arith, ground arith)
  on_stdout-IsStep on_stderr_side none s h o =
      let nil = append-nil (demux base64 (channel_of on_stderr_side) s.sent) in
      (ground arith, ground arith, ground arith)
  on_stdout-IsStep on_stderr_side (some []) s h o =
      let nil = append-nil (demux base64 (channel_of on_stderr_side) s.sent) in
      (ground arith, ground arith, ground arith)
  on_stdout-IsStep on_stderr_side (some (b ∷ bytes)) s h o =
      let nil = append-nil (demux base64 (channel_of on_stderr_side) s.sent) in
      let sent =
        demux-frame base64 (channel_of on_stderr_side) 1 (b ∷ bytes) s.sent (omega arith) h in
      (ground arith, ground arith, ground arith)
  on_stdout-IsStep on_error_side none s h o =
      let nil = append-nil (demux base64 (channel_of on_error_side) s.sent) in
      (ground arith, ground arith, ground arith)
  on_stdout-IsStep on_error_side (some []) s h o =
      let nil = append-nil (demux base64 (channel_of on_error_side) s.sent) in
      (ground arith, ground arith, ground arith)
  on_stdout-IsStep on_error_side (some (b ∷ bytes)) s h o =
      let nil = append-nil (demux base64 (channel_of on_error_side) s.sent) in
      let sent =
        demux-frame base64 (channel_of on_error_side) 1 (b ∷ bytes) s.sent (omega arith) h in
      (ground arith, ground arith, ground arith)

  on_stderr-IsStep :
      (side : Side) (r : Option (List ℕ)) (s : Ws)
      → Stays (stderr_read r)
      → s.stderr_open ≡ true
      → IsStep side (read_of side (stderr_read r)) s (on_stderr base64 r s)
  unfolding on_stderr
  on_stderr-IsStep on_stdout_side none s h o =
      let nil = append-nil (demux base64 (channel_of on_stdout_side) s.sent) in
      (ground arith, ground arith, ground arith)
  on_stderr-IsStep on_stdout_side (some []) s h o =
      let nil = append-nil (demux base64 (channel_of on_stdout_side) s.sent) in
      (ground arith, ground arith, ground arith)
  on_stderr-IsStep on_stdout_side (some (b ∷ bytes)) s h o =
      let nil = append-nil (demux base64 (channel_of on_stdout_side) s.sent) in
      let sent =
        demux-frame base64 (channel_of on_stdout_side) 2 (b ∷ bytes) s.sent (omega arith) h in
      (ground arith, ground arith, ground arith)
  on_stderr-IsStep on_stderr_side none s h o =
      let nil = append-nil (demux base64 (channel_of on_stderr_side) s.sent) in
      (ground arith, ground arith, ground arith)
  on_stderr-IsStep on_stderr_side (some []) s h o =
      let nil = append-nil (demux base64 (channel_of on_stderr_side) s.sent) in
      (ground arith, ground arith, ground arith)
  on_stderr-IsStep on_stderr_side (some (b ∷ bytes)) s h o =
      let nil = append-nil (demux base64 (channel_of on_stderr_side) s.sent) in
      let sent =
        demux-frame base64 (channel_of on_stderr_side) 2 (b ∷ bytes) s.sent (omega arith) h in
      (ground arith, ground arith, ground arith)
  on_stderr-IsStep on_error_side none s h o =
      let nil = append-nil (demux base64 (channel_of on_error_side) s.sent) in
      (ground arith, ground arith, ground arith)
  on_stderr-IsStep on_error_side (some []) s h o =
      let nil = append-nil (demux base64 (channel_of on_error_side) s.sent) in
      (ground arith, ground arith, ground arith)
  on_stderr-IsStep on_error_side (some (b ∷ bytes)) s h o =
      let nil = append-nil (demux base64 (channel_of on_error_side) s.sent) in
      let sent =
        demux-frame base64 (channel_of on_error_side) 2 (b ∷ bytes) s.sent (omega arith) h in
      (ground arith, ground arith, ground arith)

  -- A read of a side that has ended is skipped.
  ended-IsStep :
      (side : Side) (e : Event) (s : Ws) → is_open side s ≡ false → IsStep side (read_of side e) s s
  ended-IsStep side e s o =
      let nil = append-nil (demux base64 (channel_of side) s.sent) in
      (ground arith, ground arith, ground arith)

  unread-IsStep : (side : Side) (s : Ws) → IsStep side none s s
  unread-IsStep side s = quiet-IsStep side s s (refl, refl, refl, refl)

  if-IsStep :
      (side : Side) (r : Option (Option (List ℕ))) (b : Bool) (s t : Ws)
      → (b ≡ true → IsStep side r s t)
      → (b ≡ false → IsStep side r s s)
      → IsStep side r s (if b then t else s)
  if-IsStep side r true s t f g = f refl
  if-IsStep side r false s t f g = g refl

  pub on_event-IsStep :
      (side : Side) (e : Event) (s : Ws)
      → Stays e
      → IsStep side (read_of side e) s (on_event json base64 e s)
  unfolding on_event
  on_event-IsStep on_stdout_side (stdout_read r) s h =
      if-IsStep on_stdout_side (some r) s.stdout_open s (on_stdout base64 r s)
        (on_stdout-IsStep on_stdout_side r s h) (ended-IsStep on_stdout_side (stdout_read r) s)
  on_event-IsStep on_stderr_side (stdout_read r) s h =
      if-IsStep on_stderr_side none s.stdout_open s (on_stdout base64 r s)
        (on_stdout-IsStep on_stderr_side r s h) (λ o. unread-IsStep on_stderr_side s)
  on_event-IsStep on_stdout_side (stderr_read r) s h =
      if-IsStep on_stdout_side none s.stderr_open s (on_stderr base64 r s)
        (on_stderr-IsStep on_stdout_side r s h) (λ o. unread-IsStep on_stdout_side s)
  on_event-IsStep on_stderr_side (stderr_read r) s h =
      if-IsStep on_stderr_side (some r) s.stderr_open s (on_stderr base64 r s)
        (on_stderr-IsStep on_stderr_side r s h) (ended-IsStep on_stderr_side (stderr_read r) s)
  on_event-IsStep on_stdout_side (binary_message bytes true) s h =
      quiet-IsStep on_stdout_side s (handle_inbound json base64 bytes true s)
        (handle_inbound-IsQuiet bytes s)
  on_event-IsStep on_stderr_side (binary_message bytes true) s h =
      quiet-IsStep on_stderr_side s (handle_inbound json base64 bytes true s)
        (handle_inbound-IsQuiet bytes s)
  on_event-IsStep on_stdout_side (text_message bytes true) s h =
      quiet-IsStep on_stdout_side s (handle_inbound json base64 bytes true s)
        (handle_inbound-IsQuiet bytes s)
  on_event-IsStep on_stderr_side (text_message bytes true) s h =
      quiet-IsStep on_stderr_side s (handle_inbound json base64 bytes true s)
        (handle_inbound-IsQuiet bytes s)
  on_event-IsStep side (binary_message bytes false) s h = absurd (cc)
  on_event-IsStep side (text_message bytes false) s h = absurd (cc)
  on_event-IsStep on_stdout_side other_message s h = unread-IsStep on_stdout_side s
  on_event-IsStep on_stderr_side other_message s h = unread-IsStep on_stderr_side s
  on_event-IsStep on_error_side (stdout_read r) s h =
      if-IsStep on_error_side none s.stdout_open s (on_stdout base64 r s)
        (on_stdout-IsStep on_error_side r s h) (λ o. unread-IsStep on_error_side s)
  on_event-IsStep on_error_side (stderr_read r) s h =
      if-IsStep on_error_side none s.stderr_open s (on_stderr base64 r s)
        (on_stderr-IsStep on_error_side r s h) (λ o. unread-IsStep on_error_side s)
  on_event-IsStep on_error_side (binary_message bytes true) s h =
      quiet-IsStep on_error_side s (handle_inbound json base64 bytes true s)
        (handle_inbound-IsQuiet bytes s)
  on_event-IsStep on_error_side (text_message bytes true) s h =
      quiet-IsStep on_error_side s (handle_inbound json base64 bytes true s)
        (handle_inbound-IsQuiet bytes s)
  on_event-IsStep on_error_side other_message s h = unread-IsStep on_error_side s
  on_event-IsStep side closed s h = absurd h
  on_event-IsStep side receive_error s h = absurd h
