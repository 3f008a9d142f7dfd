-- ===== src/Stream/Spdy/Exec/Stdin.antt =====
-- crates/lightr-cri-stream/src/spdy/conn.rs: what `run_exec` writes to the stdin of the process.
use lightr_cri.Prelude.{
  ℕ, ◌≡◌, refl, Bool, true, false, List, [], ◌∷◌, ◌++◌, none, some, arith, Option, ◌==◌,
  Option-cases, inl, inr, append-nil, append_assoc, if◌then◌else◌, ◌∙◌, ap, All, not, ◌&&◌,
}
use lightr_cri.Prelude.Map.{Map, nat_key, get}
use lightr_cri.Stream.Channel.{stdin_channel, parse_resize}
use lightr_cri.Stream.Spdy.Frame.{
  Frame, syn_stream, syn_reply, rst_stream, settings, ping, goaway, headers, window_update,
  payload_data,
}
use lightr_cri.Stream.Spdy.Exec.Loop.{read_loop_keeps, read_loop_on, read_loop_off}
use lightr_cri.Stream.Spdy.Exec.{
  Codec, Session, Act, wrote, shut, resized, send_syn_reply, spawn_pump, bind_role, write_stdin,
  close_stdin, close_role, half_close, loop_end, open_stream, resize, deliver, on_data, on_frame,
  read_loop, has_fin, write_frame,
}

-- What the process read of its stdin: the writes up to the close.
abbrev pub stdin_of : List Act → List Act
stdin_of [] = []
stdin_of (wrote bytes ∷ acts) = wrote bytes ∷ stdin_of acts
stdin_of (shut ∷ acts) = shut ∷ stdin_of acts
stdin_of (resized w h ∷ acts) = stdin_of acts

abbrev is_stdin : Option ℕ → Bool
is_stdin none = false
is_stdin (some role) = role == stdin_channel

abbrev fed_data : Bool → Bool → List ℕ → List Act → List Act
fed_data true true bytes rest = wrote bytes ∷ shut ∷ []
fed_data true false bytes rest = wrote bytes ∷ rest
fed_data false fin bytes rest = rest

-- What the client's frames ask to be fed by streams of these roles: the payloads of the stdin streams
-- up to the first FIN on one of them, RST_STREAM, GOAWAY or the end, with which stdin is closed.
abbrev pub fed : Map ℕ ℕ → List Frame → List Act
fed roles [] = shut ∷ []
fed roles (payload_data id flags bytes ∷ fs) =
    fed_data (is_stdin (get id roles)) (has_fin flags) bytes (fed roles fs)
fed roles (rst_stream id status ∷ fs) = shut ∷ []
fed roles (goaway id status ∷ fs) = shut ∷ []
fed roles (f ∷ fs) = fed roles fs

abbrev pub OpensNone : Frame → Type 0
OpensNone (syn_stream id asc priority flags block) = ⊥
OpensNone f = Unit

stdin_of-append : (xs ys : List Act) → stdin_of (xs ++ ys) ≡ stdin_of xs ++ stdin_of ys
stdin_of-append [] ys = refl
stdin_of-append (wrote b ∷ xs) ys = ap (λ t. wrote b ∷ t) (stdin_of-append xs ys)
stdin_of-append (shut ∷ xs) ys = ap (λ t. shut ∷ t) (stdin_of-append xs ys)
stdin_of-append (resized w h ∷ xs) ys = stdin_of-append xs ys

module _ {Z D : Type 0} where
  -- Stdin is closed and the process has read `x`.
  pub record IsShut (x : List Act) (s : Session Z D) : Type 0 where
    pub shut_now : s.stdin ≡ false
    pub had : stdin_of s.acts ≡ x

  spawn_pump-stdin :
      (role id : ℕ) (s : Session Z D)
      → ((spawn_pump role id s).stdin ≡ s.stdin) × ((spawn_pump role id s).acts ≡ s.acts)
  unfolding spawn_pump
  spawn_pump-stdin role id s = ground arith

  close_role-stdin :
      (role : Option ℕ) (s : Session Z D)
      → ((close_role role s).stdin ≡ (if is_stdin role then false else s.stdin))
        × (stdin_of (close_role role s).acts
            ≡ stdin_of s.acts
              ++ (if s.stdin then (if is_stdin role then shut ∷ [] else []) else []))
        × ((close_role role s).roles ≡ s.roles)
        × ((close_role role s).reading ≡ s.reading)
  unfolding close_role close_stdin
  close_role-stdin none s = ground (arith, append-nil (stdin_of s.acts))
  close_role-stdin (some r) s =
      ground (arith, append-nil (stdin_of s.acts), stdin_of-append s.acts (shut ∷ []))

module _ {Z D : Type 0} (codec : Codec Z D) where
  resize-stdin :
      (bytes : List ℕ) (s : Session Z D)
      → ((resize codec bytes s).stdin ≡ s.stdin)
        × (stdin_of (resize codec bytes s).acts ≡ stdin_of s.acts)
        × ((resize codec bytes s).roles ≡ s.roles)
        × ((resize codec bytes s).reading ≡ s.reading)
  unfolding resize
  resize-stdin bytes s = elim (Option-cases (parse_resize (codec.terminal_sizes bytes) none)) [
    | inl e ↦ ground arith
    | inr (sz, e) ↦
        ground
          (arith, stdin_of-append s.acts (resized sz.0 sz.1 ∷ []), append-nil (stdin_of s.acts))
  ]

  deliver-stdin :
      (role : Option ℕ) (bytes : List ℕ) (s : Session Z D)
      → ((deliver codec role bytes s).stdin ≡ s.stdin)
        × (stdin_of (deliver codec role bytes s).acts
            ≡ stdin_of s.acts
              ++ (if s.stdin then (if is_stdin role then wrote bytes ∷ [] else []) else []))
        × ((deliver codec role bytes s).roles ≡ s.roles)
        × ((deliver codec role bytes s).reading ≡ s.reading)
  unfolding deliver write_stdin
  deliver-stdin none bytes s = ground (arith, append-nil (stdin_of s.acts))
  deliver-stdin (some r) bytes s = ground (
    arith,
    append-nil (stdin_of s.acts),
    stdin_of-append s.acts (wrote bytes ∷ []),
    resize-stdin bytes s,
  )

  on_data-IsShut :
      (x : List Act) (a : Bool) (id flags : ℕ) (bytes : List ℕ) (s : Session Z D)
      → IsShut x s
      → IsShut x (on_data codec a id flags bytes s)
  unfolding on_data half_close
  on_data-IsShut x a id flags bytes s p =
      let p1 = p.shut_now in
      let p2 = p.had in
      let role = get id s.roles in
      let d = deliver-stdin role bytes s in
      let c = close_role-stdin role (deliver codec role bytes s) in
      record {
        shut_now = ground (arith, d, c);
        had = ground (arith, d, c, append-nil (stdin_of s.acts));
      }

  loop_end-IsShut : (x : List Act) (s : Session Z D) → IsShut x s → IsShut x (loop_end s)
  unfolding loop_end close_stdin
  loop_end-IsShut x s p =
      let p1 = p.shut_now in
      let p2 = p.had in record { shut_now = ground arith; had = ground arith }

  loop_end-stdin :
      (s : Session Z D)
      → s.stdin ≡ true
      → stdin_of (loop_end s).acts ≡ stdin_of s.acts ++ (shut ∷ [])
  unfolding loop_end close_stdin
  loop_end-stdin s h = ground (arith, stdin_of-append s.acts (shut ∷ []))

  on_frame-IsShut :
      (x : List Act) (a : Bool) (f : Frame) (s : Session Z D)
      → IsShut x s
      → IsShut x (on_frame codec a f s)
  unfolding on_frame loop_end open_stream bind_role send_syn_reply
  on_frame-IsShut x a (syn_stream id asc pr fl block) s p =
      let k = spawn_pump-stdin _ id (bind_role _ id (send_syn_reply codec id _)) in
      record { shut_now = k.0 ∙ p.shut_now; had = ap stdin_of k.1 ∙ p.had }
  on_frame-IsShut x a (payload_data id fl bytes) s p = on_data-IsShut x a id fl bytes s p
  on_frame-IsShut x a (ping id) s p = record { shut_now = p.shut_now; had = p.had }
  on_frame-IsShut x a (rst_stream id st) s p = loop_end-IsShut x s p
  on_frame-IsShut x a (goaway id st) s p = loop_end-IsShut x s p
  on_frame-IsShut x a (settings b) s p = p
  on_frame-IsShut x a (window_update i d) s p = p
  on_frame-IsShut x a (headers i f b) s p = p
  on_frame-IsShut x a (syn_reply i f b) s p = p

  pub read_loop-IsShut :
      (x : List Act) (a : Bool) (fs : List Frame) (s : Session Z D)
      → IsShut x s
      → IsShut x (read_loop codec a fs s)
  unfolding loop_end
  read_loop-IsShut x a =
      read_loop_keeps codec (IsShut x) a (on_frame-IsShut x a) (loop_end-IsShut x)

  loop_end-reading : (s : Session Z D) → (loop_end s).reading ≡ false
  unfolding loop_end
  loop_end-reading s = refl

  -- A Data frame on an open session: what the process reads of it, whether stdin stays open behind
  -- it, and that the roles and the loop go on.
  on_data-stdin :
      (a : Bool) (id flags : ℕ) (bytes : List ℕ) (s : Session Z D)
      → s.stdin ≡ true
      → (stdin_of (on_data codec a id flags bytes s).acts
          ≡ stdin_of s.acts ++ fed_data (is_stdin (get id s.roles)) (has_fin flags) bytes [])
        × ((on_data codec a id flags bytes s).stdin
            ≡ not (is_stdin (get id s.roles) && has_fin flags))
        × ((on_data codec a id flags bytes s).roles ≡ s.roles)
        × ((on_data codec a id flags bytes s).reading ≡ s.reading)
  unfolding on_data half_close
  on_data-stdin a id flags bytes s h =
      let role = get id s.roles in
      let d = deliver-stdin role bytes s in
      let c = close_role-stdin role (deliver codec role bytes s) in
      ground (
        arith,
        d,
        c,
        append-nil (stdin_of s.acts),
        append_assoc (stdin_of s.acts) (wrote bytes ∷ []) (shut ∷ []),
        append-nil (stdin_of s.acts ++ (wrote bytes ∷ [])),
      )

  -- From a session whose stdin is open, while the client opens no further stream: the process reads
  -- exactly the payloads that the client sends on its stdin streams, in their order, and its stdin
  -- is closed once, at the first FIN on one of them or else with the end of the loop at RST_STREAM,
  -- GOAWAY or the end of the connection, and never written again, whatever the client sends after it.
  pub read_loop-stdin :
      (a : Bool) (fs : List Frame) (s : Session Z D)
      → s.reading ≡ true
      → s.stdin ≡ true
      → All OpensNone fs
      → stdin_of (read_loop codec a fs s).acts ≡ stdin_of s.acts ++ fed s.roles fs
  unfolding read_loop on_frame
  read_loop-stdin a [] s hr hs opens = ground (arith, loop_end-stdin s hs)
  read_loop-stdin a (syn_stream id asc p fl block ∷ fs) s hr hs opens = absurd opens.0
  read_loop-stdin a (payload_data id fl bytes ∷ fs) s hr hs opens =
      let d = on_data-stdin a id fl bytes s hs in
      ap (λ (t : Session Z D). stdin_of t.acts)
        (read_loop_on codec a (payload_data id fl bytes) fs s hr)
      ∙ go (is_stdin (get id s.roles)) (has_fin fl) d
          (λ h. read_loop-stdin a fs (on_data codec a id fl bytes s) (d.3 ∙ hr) h opens.1)
    where
      go :
          (b fin : Bool)
          → (stdin_of (on_data codec a id fl bytes s).acts
              ≡ stdin_of s.acts ++ fed_data b fin bytes [])
            × ((on_data codec a id fl bytes s).stdin ≡ not (b && fin))
            × ((on_data codec a id fl bytes s).roles ≡ s.roles)
            × ((on_data codec a id fl bytes s).reading ≡ s.reading)
          → ((on_data codec a id fl bytes s).stdin ≡ true
              → stdin_of (read_loop codec a fs (on_data codec a id fl bytes s)).acts
                ≡ stdin_of (on_data codec a id fl bytes s).acts
                  ++ fed (on_data codec a id fl bytes s).roles fs)
          → stdin_of (read_loop codec a fs (on_data codec a id fl bytes s)).acts
            ≡ stdin_of s.acts ++ fed_data b fin bytes (fed s.roles fs)
      go true true d rest =
          (read_loop-IsShut _ a fs (on_data codec a id fl bytes s)
            (record { shut_now = d.1; had = d.0 })).had
      go true false d rest =
          rest d.1
          ∙ ap (λ (m : Map ℕ ℕ). stdin_of (on_data codec a id fl bytes s).acts ++ fed m fs) d.2
          ∙ ap (λ t. t ++ fed s.roles fs) d.0
          ∙ append_assoc (stdin_of s.acts) (wrote bytes ∷ []) (fed s.roles fs)
      go false fin d rest = ground (arith, rest d.1, append-nil (stdin_of s.acts))
  read_loop-stdin a (ping id ∷ fs) s hr hs opens =
      ground (arith, read_loop-stdin a fs (write_frame (ping id) s) hr hs opens.1)
  read_loop-stdin a (rst_stream id st ∷ fs) s hr hs opens =
      ground
        (arith, read_loop_off codec a fs (loop_end s) (loop_end-reading s), loop_end-stdin s hs)
  read_loop-stdin a (goaway id st ∷ fs) s hr hs opens =
      ground
        (arith, read_loop_off codec a fs (loop_end s) (loop_end-reading s), loop_end-stdin s hs)
  read_loop-stdin a (settings p ∷ fs) s hr hs opens =
      ground (arith, read_loop-stdin a fs s hr hs opens.1)
  read_loop-stdin a (window_update i d ∷ fs) s hr hs opens =
      ground (arith, read_loop-stdin a fs s hr hs opens.1)
  read_loop-stdin a (headers i f b ∷ fs) s hr hs opens =
      ground (arith, read_loop-stdin a fs s hr hs opens.1)
  read_loop-stdin a (syn_reply i f b ∷ fs) s hr hs opens =
      ground (arith, read_loop-stdin a fs s hr hs opens.1)
