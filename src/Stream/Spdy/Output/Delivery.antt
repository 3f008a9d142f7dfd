-- ===== src/Stream/Spdy/Output/Delivery.antt =====
-- crates/lightr-cri-stream/src/spdy/conn.rs: what a complete exec session has sent on its streams.
use lightr_cri.Prelude.{
  ℕ, ◌≡◌, ◌≢◌, refl, Bool, true, false, List, [], ◌∷◌, ◌++◌, Option, none, some, arith, ◌==◌,
  ==_iff, ◌∙◌, ap, append-nil,
}
use lightr_cri.Prelude.Map.{nat_key, get}
use lightr_cri.Backend.{ℤ}
use lightr_cri.Stream.Channel.{stdout_channel, stderr_channel, error_channel}
use lightr_cri.Stream.Status.{exit_status_json}
use lightr_cri.Stream.Spdy.Frame.{
  Frame, syn_stream, syn_reply, rst_stream, settings, ping, goaway, headers, window_update,
  payload_data, flag_fin,
}
use lightr_cri.Stream.Spdy.Exec.{
  Codec, Session, exit_code, fin_of, read_loop, on_frame, on_data, loop_end, open_stream, bind_role,
  send_syn_reply, write_frame,
}
use lightr_cri.Stream.Spdy.Exec.Loop.{rounds, loop_end-sent}
use lightr_cri.Stream.Spdy.Exec.Replies.{spawn_pump-sent, on_data-sent}
use lightr_cri.Stream.Spdy.Output.{
  fins, Pump, IsTrace, pumps_of, Arm, reaper_done, drain_done, detach, select, exit_after,
}
use lightr_cri.Stream.Token.{exec}
use lightr_cri.Stream.Spdy.Output.Trace.{
  on_stream, on_stream-append, on_stream-right, has_pump, IsSingle, pumped, no_pump, one_pump,
}

-- A stream that is not the one given.
abbrev pub IsOther : ℕ → Option ℕ → Type 0
IsOther id none = Unit
IsOther id (some i) = (i == id) ≡ false

module _ {Z D : Type 0} (codec : Codec Z D) where
  fin_of-other :
      (id : ℕ) (o : Option ℕ) (bytes : List ℕ)
      → IsOther id o
      → on_stream id (fin_of codec o bytes) ≡ []
  unfolding on_stream fin_of
  fin_of-other id none bytes h = refl
  fin_of-other id (some i) bytes h = ground arith

  fin_of-same :
      (id : ℕ) (bytes : List ℕ)
      → on_stream id (fin_of codec (some id) bytes) ≡ (flag_fin, bytes) ∷ []
  unfolding on_stream fin_of
  fin_of-same id bytes = ground (arith, ==_iff id id)

  open_stream-on_stream :
      (id i : ℕ) (block : List ℕ) (s : Session Z D)
      → on_stream id (open_stream codec i block s).sent ≡ on_stream id s.sent
  unfolding on_stream open_stream bind_role send_syn_reply
  open_stream-on_stream id i block s =
      ap (on_stream id) (spawn_pump-sent _ i _)
      ∙ on_stream-append id s.sent _
      ∙ append-nil (on_stream id s.sent)

  -- The read loop of a session sends no data.
  read_loop-on_stream :
      (id : ℕ) (a : Bool) (fs : List Frame) (s : Session Z D)
      → on_stream id (read_loop codec a fs s).sent ≡ on_stream id s.sent
  unfolding read_loop on_frame loop_end on_stream
  read_loop-on_stream id a [] s = ground (arith, loop_end-sent s)
  read_loop-on_stream id a (syn_stream i asc p fl block ∷ fs) s = ground (
    arith,
    open_stream-on_stream id i block s,
    read_loop-on_stream id a fs (open_stream codec i block s),
  )
  read_loop-on_stream id a (ping i ∷ fs) s = ground (
    arith,
    on_stream-append id s.sent (ping i ∷ []),
    append-nil (on_stream id s.sent),
    read_loop-on_stream id a fs (write_frame (ping i) s),
  )
  read_loop-on_stream id a (payload_data i fl bytes ∷ fs) s = ground (
    arith,
    on_data-sent codec a i fl bytes s,
    read_loop-on_stream id a fs (on_data codec a i fl bytes s),
  )
  read_loop-on_stream id a (rst_stream i st ∷ fs) s =
      ground (arith, loop_end-sent s, read_loop-on_stream id a fs (loop_end s))
  read_loop-on_stream id a (goaway i st ∷ fs) s =
      ground (arith, loop_end-sent s, read_loop-on_stream id a fs (loop_end s))
  read_loop-on_stream id a (settings p ∷ fs) s = ground (arith, read_loop-on_stream id a fs s)
  read_loop-on_stream id a (window_update i d ∷ fs) s =
      ground (arith, read_loop-on_stream id a fs s)
  read_loop-on_stream id a (headers i f b ∷ fs) s = ground (arith, read_loop-on_stream id a fs s)
  read_loop-on_stream id a (syn_reply i f b ∷ fs) s = ground (arith, read_loop-on_stream id a fs s)

  fins-on_stream :
      (k : ℕ) (exit : ℤ) (s : Session Z D) (id eid : ℕ)
      → get stdout_channel s.by_role ≡ some id
      → get error_channel s.by_role ≡ some eid
      → IsOther k (get stderr_channel s.by_role)
      → let json = exit_status_json codec.status_to_vec exit in
        on_stream k (fins codec exit s)
        ≡ on_stream k (fin_of codec (some id) []) ++ on_stream k (fin_of codec (some eid) json)
  unfolding fins
  fins-on_stream k exit s id eid o e other =
      let json = exit_status_json codec.status_to_vec exit in
      let middle = fin_of codec (get stderr_channel s.by_role) [] in
      rw o (
        rw e (
          on_stream-append k (fin_of codec (some id) []) (middle ++ fin_of codec (some eid) json)
          ∙ ap (λ t. on_stream k (fin_of codec (some id) []) ++ t)
              (on_stream-append k middle (fin_of codec (some eid) json)
                ∙ ap (λ t. t ++ on_stream k (fin_of codec (some eid) json))
                    (fin_of-other k (get stderr_channel s.by_role) [] other))))

  reader_quiet :
      (k : ℕ) (fs : List Frame) (begun : Session Z D)
      → begun.sent ≡ []
      → on_stream k (read_loop codec false fs begun).sent ≡ []
  unfolding on_stream
  reader_quiet k fs begun b = read_loop-on_stream k false fs begun ∙ ap (on_stream k) b

  -- Where the drained pumps were awaited.
  awaited_trace :
      (fs : List Frame) (begun complete : Session Z D) (pumps others : List Pump) (exit : ℤ)
      (id eid : ℕ) (trace : List Frame)
      → begun.sent ≡ []
      → get stdout_channel complete.by_role ≡ some id
      → get error_channel complete.by_role ≡ some eid
      → id ≢ eid
      → IsOther id (get stderr_channel complete.by_role)
      → IsOther eid (get stderr_channel complete.by_role)
      → IsSingle id pumps
      → has_pump eid pumps ≡ false
      → has_pump id others ≡ false
      → has_pump eid others ≡ false
      → IsTrace true pumps others
          (read_loop codec false fs begun).sent
          (fins codec exit complete)
          trace
      → (on_stream id trace ≡ pumped id pumps ++ ((flag_fin, []) ∷ []))
        × (on_stream eid trace ≡ (flag_fin, exit_status_json codec.status_to_vec exit) ∷ [])
  awaited_trace fs begun complete pumps others exit id eid trace b o e d s1 s2 single alone ni ne
        (out, last, more, free, drained, behind, rest, read, m) =
      let json = exit_status_json codec.status_to_vec exit in
      let final = fins codec exit complete in
      let neq : (id == eid) ≡ false = ground (arith, ==_iff id eid, d) in
      let qen : (eid == id) ≡ false = ground (arith, ==_iff eid id, d) in
      let quiet : on_stream id free ≡ [] =
        on_stream-right id read (reader_quiet id fs begun b) ∙ no_pump id others more ni rest in
      let hushed : on_stream eid free ≡ [] =
        on_stream-right eid read (reader_quiet eid fs begun b) ∙ no_pump eid others more ne rest in
      (
        on_stream-right id m quiet
            ∙ ap (on_stream id) behind
            ∙ on_stream-append id out final
            ∙ ground (
              arith,
              one_pump id pumps out single drained,
              fins-on_stream id exit complete id eid o e s1,
              fin_of-same id [],
              fin_of-other id (some eid) json qen,
            ),
        on_stream-right eid m hushed
            ∙ ap (on_stream eid) behind
            ∙ on_stream-append eid out final
            ∙ ground (
              arith,
              no_pump eid pumps out alone drained,
              fins-on_stream eid exit complete id eid o e s2,
              fin_of-same eid json,
              fin_of-other eid (some id) [] neq,
            ),
      )

  -- What the reaper reports of the child, to the select or after it.
  abbrev pub reported : Arm → Option ℤ → Option ℤ
  reported (reaper_done code) late = code
  reported arm late = late

  -- An exec session that is complete, whichever arm of its select came first, the end of the child,
  -- of the output or of the client's side: the client is sent on the stream of stdout the chunks of
  -- the file that its pump reads, in order and up to the end of the file, and only then one empty
  -- frame with FIN; and on the error stream one frame alone, the Status of the code that the reaper
  -- reports with FIN. The pumps are those that the read loop had registered when they were drained,
  -- after the frames `fs`, and the streams those that were bound when the completion looked, after
  -- `mid` as well, each bound to a role of its own; one pump at most writes to the stream of stdout,
  -- none to the error stream, and none of the pumps that were registered later to either.
  pub exec_trace :
      (fs mid rest : List Frame) (begun : Session Z D) (contents : ℕ → List (Option (List ℕ)))
      (others : List Pump) (detached_fired : Bool) (arm : Arm) (late : Option ℤ) (id eid : ℕ)
      (trace : List Frame)
      → begun.sent ≡ []
      → get stdout_channel (rounds codec false (fs ++ mid) begun).by_role ≡ some id
      → get error_channel (rounds codec false (fs ++ mid) begun).by_role ≡ some eid
      → id ≢ eid
      → IsOther id (get stderr_channel (rounds codec false (fs ++ mid) begun).by_role)
      → IsOther eid (get stderr_channel (rounds codec false (fs ++ mid) begun).by_role)
      → IsSingle id (pumps_of contents (rounds codec false fs begun).output_tasks)
      → has_pump eid (pumps_of contents (rounds codec false fs begun).output_tasks) ≡ false
      → has_pump id others ≡ false
      → has_pump eid others ≡ false
      → IsTrace
          (select false detached_fired arm).0
          (pumps_of contents (rounds codec false fs begun).output_tasks)
          others
          (read_loop codec false ((fs ++ mid) ++ rest) begun).sent
          (fins codec
            (exit_after exec (select false detached_fired arm).1 late)
            (rounds codec false (fs ++ mid) begun))
          trace
      → (on_stream id trace
          ≡ pumped id (pumps_of contents (rounds codec false fs begun).output_tasks)
            ++ ((flag_fin, []) ∷ []))
        × (on_stream eid trace
            ≡ (flag_fin, exit_status_json codec.status_to_vec (exit_code exec (reported arm late)))
              ∷ [])
  unfolding select exit_after
  exec_trace fs mid rest begun contents others detached_fired (reaper_done code) late id eid trace b
        o e d s1 s2 single alone ni ne t =
      awaited_trace ((fs ++ mid) ++ rest) begun (rounds codec false (fs ++ mid) begun)
        (pumps_of contents (rounds codec false fs begun).output_tasks) others (exit_code exec code)
        id eid trace b o e d s1 s2 single alone ni ne t
  exec_trace fs mid rest begun contents others detached_fired drain_done late id eid trace b o e d
        s1 s2 single alone ni ne t =
      awaited_trace ((fs ++ mid) ++ rest) begun (rounds codec false (fs ++ mid) begun)
        (pumps_of contents (rounds codec false fs begun).output_tasks) others (exit_code exec late)
        id eid trace b o e d s1 s2 single alone ni ne t
  exec_trace fs mid rest begun contents others detached_fired detach late id eid trace b o e d s1 s2
        single alone ni ne t =
      awaited_trace ((fs ++ mid) ++ rest) begun (rounds codec false (fs ++ mid) begun)
        (pumps_of contents (rounds codec false fs begun).output_tasks) others (exit_code exec late)
        id eid trace b o e d s1 s2 single alone ni ne t
