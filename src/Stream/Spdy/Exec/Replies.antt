-- ===== src/Stream/Spdy/Exec/Replies.antt =====
-- crates/lightr-cri-stream/src/spdy/conn.rs: what the read loop of `run_exec` answers to the client.
use lightr_cri.Prelude.{
  ℕ, ◌≡◌, refl, Bool, true, List, [], ◌∷◌, ◌++◌, none, some, arith, append-nil, append_assoc,
  Option, ◌∙◌, ap,
}
use lightr_cri.Prelude.Map.{nat_key, get}
use lightr_cri.Stream.Spdy.Frame.{
  Frame, syn_stream, syn_reply, rst_stream, settings, ping, goaway, headers, window_update,
  payload_data,
}
use lightr_cri.Stream.Spdy.Exec.Loop.{loop_end-sent, read_loop_off}
use lightr_cri.Stream.Spdy.Exec.{
  Codec, Session, send_syn_reply, spawn_pump, bind_role, write_stdin, close_stdin, close_role,
  half_close, loop_end, open_stream, resize, deliver, on_data, on_frame, read_loop, write_frame,
}

-- What the client awaits an answer to, in order: a stream that it opens and a ping.
pub data Answer : Type 0 where
  reply pong : ℕ → Answer

-- The answers among the frames that the server sent.
abbrev pub answers : List Frame → List Answer
answers [] = []
answers (syn_reply id flags block ∷ fs) = reply id ∷ answers fs
answers (ping id ∷ fs) = pong id ∷ answers fs
answers (f ∷ fs) = answers fs

-- The answers that the client's frames ask for, up to its first RST_STREAM or GOAWAY.
abbrev pub asked : List Frame → List Answer
asked [] = []
asked (syn_stream id assoc priority flags block ∷ fs) = reply id ∷ asked fs
asked (ping id ∷ fs) = pong id ∷ asked fs
asked (rst_stream id status ∷ fs) = []
asked (goaway id status ∷ fs) = []
asked (f ∷ fs) = asked fs

answers-append : (xs ys : List Frame) → answers (xs ++ ys) ≡ answers xs ++ answers ys
answers-append [] ys = refl
answers-append (syn_reply id flags block ∷ xs) ys = ap (λ t. reply id ∷ t) (answers-append xs ys)
answers-append (ping id ∷ xs) ys = ap (λ t. pong id ∷ t) (answers-append xs ys)
answers-append (syn_stream i a p f b ∷ xs) ys = answers-append xs ys
answers-append (rst_stream i st ∷ xs) ys = answers-append xs ys
answers-append (goaway i st ∷ xs) ys = answers-append xs ys
answers-append (settings p ∷ xs) ys = answers-append xs ys
answers-append (window_update i d ∷ xs) ys = answers-append xs ys
answers-append (headers i f b ∷ xs) ys = answers-append xs ys
answers-append (payload_data i f b ∷ xs) ys = answers-append xs ys

module _ {Z D : Type 0} where
  pub spawn_pump-sent : (role id : ℕ) (s : Session Z D) → (spawn_pump role id s).sent ≡ s.sent
  unfolding spawn_pump
  spawn_pump-sent role id s = ground arith

  spawn_pump-reading : (role id : ℕ) (s : Session Z D) → (spawn_pump role id s).reading ≡ s.reading
  unfolding spawn_pump
  spawn_pump-reading role id s = ground arith

  close_role-sent : (role : Option ℕ) (s : Session Z D) → (close_role role s).sent ≡ s.sent
  unfolding close_role close_stdin
  close_role-sent none s = refl
  close_role-sent (some r) s = ground arith

  close_role-reading : (role : Option ℕ) (s : Session Z D) → (close_role role s).reading ≡ s.reading
  unfolding close_role close_stdin
  close_role-reading none s = refl
  close_role-reading (some r) s = ground arith

module _ {Z D : Type 0} (codec : Codec Z D) where
  deliver-sent :
      (role : Option ℕ) (bytes : List ℕ) (s : Session Z D)
      → (deliver codec role bytes s).sent ≡ s.sent
  unfolding deliver write_stdin resize
  deliver-sent none bytes s = refl
  deliver-sent (some r) bytes s = ground arith

  deliver-reading :
      (role : Option ℕ) (bytes : List ℕ) (s : Session Z D)
      → (deliver codec role bytes s).reading ≡ s.reading
  unfolding deliver write_stdin resize
  deliver-reading none bytes s = refl
  deliver-reading (some r) bytes s = ground arith

  pub on_data-sent :
      (a : Bool) (id flags : ℕ) (bytes : List ℕ) (s : Session Z D)
      → (on_data codec a id flags bytes s).sent ≡ s.sent
  unfolding on_data half_close
  on_data-sent a id flags bytes s =
      let role = get id s.roles in
      ground (arith, deliver-sent role bytes s, close_role-sent role (deliver codec role bytes s))

  on_data-reading :
      (a : Bool) (id flags : ℕ) (bytes : List ℕ) (s : Session Z D)
      → (on_data codec a id flags bytes s).reading ≡ s.reading
  unfolding on_data half_close
  on_data-reading a id flags bytes s =
      let role = get id s.roles in
      ground
        (arith, deliver-reading role bytes s, close_role-reading role (deliver codec role bytes s))

  open_stream-reading :
      (id : ℕ) (block : List ℕ) (s : Session Z D)
      → (open_stream codec id block s).reading ≡ s.reading
  unfolding open_stream bind_role send_syn_reply
  open_stream-reading id block s = spawn_pump-reading _ id _

  open_stream-answers :
      (id : ℕ) (block : List ℕ) (s : Session Z D)
      → answers (open_stream codec id block s).sent ≡ answers s.sent ++ (reply id ∷ [])
  unfolding open_stream bind_role send_syn_reply
  open_stream-answers id block s = ap answers (spawn_pump-sent _ id _) ∙ answers-append s.sent _

  -- A frame that leaves the loop reading and sends the answers `ys`.
  read_loop_step :
      (a : Bool) (f : Frame) (fs : List Frame) (s : Session Z D) (ys : List Answer)
      → s.reading ≡ true
      → answers (on_frame codec a f s).sent ≡ answers s.sent ++ ys
      → (answers (read_loop codec a fs (on_frame codec a f s)).sent
          ≡ answers (on_frame codec a f s).sent ++ asked fs)
      → answers (read_loop codec a (f ∷ fs) s).sent ≡ answers s.sent ++ (ys ++ asked fs)
  unfolding read_loop
  read_loop_step a f fs s ys h e rest = ground (arith, append_assoc (answers s.sent) ys (asked fs))

  -- The read loop sends a SYN_REPLY for each stream that the client opens and the same PING for each
  -- of its pings, in the order in which they came, none twice and none left out, up to the
  -- first RST_STREAM or GOAWAY.
  pub read_loop-answers :
      (a : Bool) (fs : List Frame) (s : Session Z D)
      → s.reading ≡ true
      → answers (read_loop codec a fs s).sent ≡ answers s.sent ++ asked fs
  unfolding read_loop on_frame loop_end
  read_loop-answers a [] s h = ground (arith, loop_end-sent s, append-nil (answers s.sent))
  read_loop-answers a (syn_stream id asc p fl block ∷ fs) s h =
      read_loop_step a (syn_stream id asc p fl block) fs s (reply id ∷ []) h
        (open_stream-answers id block s)
        (read_loop-answers a fs (open_stream codec id block s) (open_stream-reading id block s ∙ h))
  read_loop-answers a (ping id ∷ fs) s h =
      read_loop_step a (ping id) fs s (pong id ∷ []) h (answers-append s.sent (ping id ∷ []))
        (read_loop-answers a fs (write_frame (ping id) s) h)
  read_loop-answers a (payload_data id fl bytes ∷ fs) s h = ground (
    arith,
    on_data-sent a id fl bytes s,
    read_loop-answers a fs (on_data codec a id fl bytes s) (on_data-reading a id fl bytes s ∙ h),
  )
  read_loop-answers a (rst_stream id st ∷ fs) s h =
      ground
        (arith, read_loop_off codec a fs (loop_end s), loop_end-sent s, append-nil (answers s.sent))
  read_loop-answers a (goaway id st ∷ fs) s h =
      ground
        (arith, read_loop_off codec a fs (loop_end s), loop_end-sent s, append-nil (answers s.sent))
  read_loop-answers a (settings p ∷ fs) s h = ground (arith, read_loop-answers a fs s h)
  read_loop-answers a (window_update i d ∷ fs) s h = ground (arith, read_loop-answers a fs s h)
  read_loop-answers a (headers i f b ∷ fs) s h = ground (arith, read_loop-answers a fs s h)
  read_loop-answers a (syn_reply i f b ∷ fs) s h = ground (arith, read_loop-answers a fs s h)
