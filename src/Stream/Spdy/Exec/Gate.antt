-- ===== src/Stream/Spdy/Exec/Gate.antt =====
-- crates/lightr-cri-stream/src/spdy/conn.rs: the two gates that hold back the completion of
-- `run_exec`, on the stream ids and on the output pumps.
use lightr_cri.Prelude.{
  ℕ, ◌≡◌, refl, Bool, true, false, List, [], ◌∷◌, none, some, arith, Option, ◌+◌, ◌≤◌,
  length-append, Option-cases, inl, inr, ◌⊎◌, ap, length, if◌then◌else◌, ◌++◌, ◌∙◌,
}
use lightr_cri.Prelude.Map.{Map, nat_key, get, get-insert}
use lightr_cri.Stream.Channel.{stdout_channel, stderr_channel}
use lightr_cri.Stream.Spdy.Frame.{
  Frame, syn_stream, syn_reply, rst_stream, settings, ping, goaway, headers, window_update,
  payload_data,
}
use lightr_cri.Stream.Spdy.Exec.Loop.{rounds, rounds_keeps, read_loop_keeps}
use lightr_cri.Stream.Spdy.Exec.{
  Codec, Session, bind_stream, shut, send_syn_reply, spawn_pump, bind_role, write_stdin,
  close_stdin, close_role, half_close, loop_end, open_stream, resize, deliver, on_data, on_frame,
  read_loop, is_bound, barrier, pump_gate, expected_roles, expected_pumps, count,
}

-- The state of the gates: the bound roles, the files that wait for a stream, and the pumps.
record Gates : Type 0 where
  bound : Map ℕ ℕ
  out : Option ℕ
  err : Option ℕ
  tasks : List (ℕ × ℕ)

abbrev held : Option ℕ → ℕ
held none = 0
held (some file) = 1

-- A bound output role has its file taken, the pumps with the files that are left are as many as the
-- files that the session began with, and of stderr there are no more than then.
record IsGated (n m : ℕ) (g : Gates) : Type 0 where
  out_taken : (get stdout_channel g.bound ≡ none) ⊎ (g.out ≡ none)
  err_taken : (get stderr_channel g.bound ≡ none) ⊎ (g.err ≡ none)
  files : length g.tasks + (held g.out + held g.err) ≡ n
  no_more : held g.err ≤ m

module _ {Z D : Type 0} where
  abbrev gates : Session Z D → Gates
  gates s = record {
    bound = s.by_role;
    out = s.stdout_raw;
    err = s.stderr_raw;
    tasks = s.output_tasks;
  }

  close_role-gates : (role : Option ℕ) (s : Session Z D) → gates (close_role role s) ≡ gates s
  unfolding close_role close_stdin
  close_role-gates none s = refl
  close_role-gates (some r) s = ground arith

  spawn_pump-IsGated :
      (n m role id : ℕ) (s : Session Z D)
      → IsGated n m (gates s)
      → IsGated n m (gates (spawn_pump role id (bind_role role id s)))
  unfolding spawn_pump bind_role
  spawn_pump-IsGated n m role id s g =
      let ot = g.out_taken in
      let et = g.err_taken in
      let fl = g.files in
      let le = g.no_more in
      let out = get-insert role stdout_channel id s.by_role in
      let err = get-insert role stderr_channel id s.by_role in
      record {
        out_taken = ground (arith, ot, out);
        err_taken = ground (arith, et, err);
        files = pumps s.stdout_raw s.stderr_raw fl;
        no_more = ground (arith, le);
      }
    where
      pumps :
          (o e : Option ℕ)
          → length s.output_tasks + (held o + held e) ≡ n
          → let t =
              spawn_pump role id
                (record (bind_role role id s) { stdout_raw = o; stderr_raw = e }) in
            length t.output_tasks + (held t.stdout_raw + held t.stderr_raw) ≡ n
      pumps none none h = ground arith
      pumps (some x) none h = ground (arith, length-append s.output_tasks ((id, x) ∷ []))
      pumps none (some y) h = ground (arith, length-append s.output_tasks ((id, y) ∷ []))
      pumps (some x) (some y) h = ground (
        arith,
        length-append s.output_tasks ((id, x) ∷ []),
        length-append s.output_tasks ((id, y) ∷ []),
      )

module _ {Z D : Type 0} (codec : Codec Z D) where
  deliver-gates :
      (role : Option ℕ) (bytes : List ℕ) (s : Session Z D)
      → gates (deliver codec role bytes s) ≡ gates s
  unfolding deliver write_stdin resize
  deliver-gates none bytes s = refl
  deliver-gates (some r) bytes s = ground arith

  on_data-gates :
      (a : Bool) (id flags : ℕ) (bytes : List ℕ) (s : Session Z D)
      → gates (on_data codec a id flags bytes s) ≡ gates s
  unfolding on_data half_close
  on_data-gates a id flags bytes s =
      let role = get id s.roles in
      ground (arith, deliver-gates role bytes s, close_role-gates role (deliver codec role bytes s))

  loop_end-IsGated :
      (n m : ℕ) (s : Session Z D) → IsGated n m (gates s) → IsGated n m (gates (loop_end s))
  unfolding loop_end close_stdin
  loop_end-IsGated n m s g = go s.stdin
    where
      go :
          (b : Bool)
          → IsGated n m
              (gates (if b then record s { stdin = false; acts = s.acts ++ (shut ∷ []) } else s))
      go true = g
      go false = g

  on_frame-IsGated :
      (n m : ℕ) (a : Bool) (f : Frame) (s : Session Z D)
      → IsGated n m (gates s)
      → IsGated n m (gates (on_frame codec a f s))
  unfolding on_frame loop_end open_stream send_syn_reply
  on_frame-IsGated n m a (syn_stream id asc p fl block) s g = spawn_pump-IsGated n m _ id _ g
  on_frame-IsGated n m a (payload_data id fl bytes) s g = rw (on_data-gates a id fl bytes s) g
  on_frame-IsGated n m a (ping id) s g = g
  on_frame-IsGated n m a (rst_stream id st) s g = loop_end-IsGated n m s g
  on_frame-IsGated n m a (goaway id st) s g = loop_end-IsGated n m s g
  on_frame-IsGated n m a (settings p) s g = g
  on_frame-IsGated n m a (window_update i d) s g = g
  on_frame-IsGated n m a (headers i f b) s g = g
  on_frame-IsGated n m a (syn_reply i f b) s g = g

  read_loop-IsGated :
      (n m : ℕ) (a : Bool) (fs : List Frame) (s : Session Z D)
      → IsGated n m (gates s)
      → IsGated n m (gates (read_loop codec a fs s))
  unfolding loop_end
  read_loop-IsGated n m a =
      read_loop_keeps codec (λ s. IsGated n m (gates s)) a (on_frame-IsGated n m a)
        (loop_end-IsGated n m)

abbrev pub is_some : Option ℕ → Bool
is_some none = false
is_some (some a) = true

abbrev when_not : Bool → Bool → Bool
when_not true b = true
when_not false b = b

module _ {Z D : Type 0} where
  barrier_bound :
      (stdin tty : Bool) (t : Session Z D)
      → barrier stdin tty t ≡ true
      → (is_bound t stdout_channel ≡ true) × (when_not tty (is_bound t stderr_channel) ≡ true)
  unfolding barrier expected_roles
  barrier_bound true true t h = ground arith
  barrier_bound true false t h = ground arith
  barrier_bound false true t h = ground arith
  barrier_bound false false t h = ground arith

  taken :
      (role : ℕ) (o : Option ℕ) (t : Session Z D)
      → is_bound t role ≡ true
      → (get role t.by_role ≡ none) ⊎ (o ≡ none)
      → held o ≡ 0
  taken role o t h (inl e) = absurd (ground arith)
  taken role o t h (inr e) = ap held e

  pumps_ready :
      (stdin tty : Bool) (o e : Option ℕ) (t : Session Z D)
      → IsGated (held o + held e) (held e) (gates t)
      → barrier stdin tty t ≡ true
      → (pump_gate (expected_pumps tty (is_some o) (is_some e)) t ≡ true)
        × (length t.output_tasks ≤ count (is_some o) + count (is_some e))
  unfolding pump_gate expected_pumps
  pumps_ready stdin tty o e t g h =
      let b = barrier_bound stdin tty t h in
      let ho = taken stdout_channel t.stdout_raw t b.0 g.out_taken in
      go tty o e b.1 ho g.files g.no_more
    where
      go :
          (tty : Bool) (o e : Option ℕ)
          → when_not tty (is_bound t stderr_channel) ≡ true
          → held t.stdout_raw ≡ 0
          → length t.output_tasks + (held t.stdout_raw + held t.stderr_raw) ≡ held o + held e
          → held t.stderr_raw ≤ held e
          → (pump_gate (expected_pumps tty (is_some o) (is_some e)) t ≡ true)
            × (length t.output_tasks ≤ count (is_some o) + count (is_some e))
      go true none none b ho fl le = ground arith
      go true none (some y) b ho fl le = ground arith
      go true (some x) none b ho fl le = ground arith
      go true (some x) (some y) b ho fl le = elim (Option-cases t.stderr_raw) [
        | inl k ↦ ground arith
        | inr (f, k) ↦ ground arith
      ]
      go false none none b ho fl le =
          let he = taken stderr_channel t.stderr_raw t b g.err_taken in ground arith
      go false none (some y) b ho fl le =
          let he = taken stderr_channel t.stderr_raw t b g.err_taken in ground arith
      go false (some x) none b ho fl le =
          let he = taken stderr_channel t.stderr_raw t b g.err_taken in ground arith
      go false (some x) (some y) b ho fl le =
          let he = taken stderr_channel t.stderr_raw t b g.err_taken in ground arith

module _ {Z D : Type 0} where
  barrier_same :
      (stdin tty : Bool) (t u : Session Z D)
      → t.by_role ≡ u.by_role
      → barrier stdin tty t ≡ barrier stdin tty u
  unfolding barrier expected_roles
  barrier_same true true t u h = ground (arith, h)
  barrier_same true false t u h = ground (arith, h)
  barrier_same false true t u h = ground (arith, h)
  barrier_same false false t u h = ground (arith, h)

  spawn_pump-by_role : (role id : ℕ) (s : Session Z D) → (spawn_pump role id s).by_role ≡ s.by_role
  unfolding spawn_pump
  spawn_pump-by_role role id s = ground arith

module _ {Z D : Type 0} (codec : Codec Z D) where
  -- A state in which the completion can look at the session, and the state at the end of the arm that
  -- is in course then: between two rounds, within the arm that opens a stream, behind the loop.
  pub data IsSeen (a : Bool) (s : Session Z D) : Session Z D → Session Z D → Type 0 where
    between : (fs : List Frame) → IsSeen a s (rounds codec a fs s) (rounds codec a fs s)
    within :
        (fs : List Frame) (id : ℕ) (block : List ℕ)
        → IsSeen a s
            (bind_stream codec id block (rounds codec a fs s))
            (open_stream codec id block (rounds codec a fs s))
    behind : (fs : List Frame) → IsSeen a s (read_loop codec a fs s) (read_loop codec a fs s)

  IsSeen-barrier :
      (a stdin tty : Bool) {s seen next : Session Z D}
      → IsSeen a s seen next
      → barrier stdin tty seen ≡ true
      → barrier stdin tty next ≡ true
  unfolding open_stream
  IsSeen-barrier a stdin tty (between fs) h = h
  IsSeen-barrier a stdin tty {s} (within fs id block) h =
      barrier_same stdin tty (open_stream codec id block (rounds codec a fs s))
        (bind_stream codec id block (rounds codec a fs s))
        (spawn_pump-by_role _ id (bind_stream codec id block (rounds codec a fs s)))
      ∙ h
  IsSeen-barrier a stdin tty (behind fs) h = h

  IsSeen-IsGated :
      (n m : ℕ) (a : Bool) {s seen next : Session Z D}
      → IsSeen a s seen next
      → IsGated n m (gates s)
      → IsGated n m (gates next)
  unfolding on_frame
  IsSeen-IsGated n m a {s} (between fs) g =
      rounds_keeps codec (λ t. IsGated n m (gates t)) a (on_frame-IsGated codec n m a) fs s g
  IsSeen-IsGated n m a {s} (within fs id block) g =
      on_frame-IsGated codec n m a (syn_stream id 0 0 0 block) (rounds codec a fs s)
        (rounds_keeps codec (λ t. IsGated n m (gates t)) a (on_frame-IsGated codec n m a) fs s g)
  IsSeen-IsGated n m a {s} (behind fs) g = read_loop-IsGated codec n m a fs s g

  -- From a session in which no stream is open and no pump runs, whatever frames the client sends:
  -- where the completion finds every role bound that the client is expected to open, be it between
  -- the binding of a stream and the registration of its pump, then all the pumps that the second gate
  -- waits for are registered at the end of the arm that is in course at the latest, so that the gate
  -- opens without a further frame; and never more pumps are registered than the session has files.
  pub barrier-pump_gate :
      (a stdin tty : Bool) {s seen next : Session Z D}
      → s.by_role ≡ []
      → s.output_tasks ≡ []
      → IsSeen a s seen next
      → barrier stdin tty seen ≡ true
      → (pump_gate (expected_pumps tty (is_some s.stdout_raw) (is_some s.stderr_raw)) next ≡ true)
        × (length next.output_tasks ≤ count (is_some s.stdout_raw) + count (is_some s.stderr_raw))
  unfolding get
  barrier-pump_gate a stdin tty {s} {seen} {next} hb ht look h =
      let n = held s.stdout_raw + held s.stderr_raw in
      let m = held s.stderr_raw in
      let start : IsGated n m (gates s) = record {
        out_taken = ground arith;
        err_taken = ground arith;
        files = ground arith;
        no_more = omega arith;
      } in
      pumps_ready stdin tty s.stdout_raw s.stderr_raw next (IsSeen-IsGated n m a look start)
        (IsSeen-barrier a stdin tty look h)
