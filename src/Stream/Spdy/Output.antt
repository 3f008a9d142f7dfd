-- ===== src/Stream/Spdy/Output.antt =====
-- crates/lightr-cri-stream/src/spdy/conn.rs: the output pumps of `run_exec`, the select of its
-- completion, and the orders in which the frames of its tasks can reach the writer.
pub mod Trace
pub mod Delivery
mod Tests
use lightr_cri.Prelude.{ℕ, ◌≡◌, Bool, true, false, List, [], ◌∷◌, ◌++◌, Option, none, some, map}
use lightr_cri.Prelude.Map.{nat_key, get}
use lightr_cri.Backend.{ℤ}
use lightr_cri.Stream.Token.{StreamVerb, exec, attach, port_forward}
use lightr_cri.Stream.Channel.{stdout_channel, stderr_channel, error_channel}
use lightr_cri.Stream.Status.{exit_status_json}
use lightr_cri.Stream.Spdy.Frame.{Frame, payload_data, flag_fin}
use lightr_cri.Stream.Spdy.Exec.{Codec, Session, exit_code, fin_of}

-- `spawn_output` over the reads of its file: their bytes as frames without FIN. No bytes are the end
-- of the file, `none` an error, and the writes succeed.
unfoldable pub spawn_output : ℕ → List (Option (List ℕ)) → List Frame
spawn_output stream_id [] = []
spawn_output stream_id (none ∷ reads) = []
spawn_output stream_id (some [] ∷ reads) = []
spawn_output stream_id (some (b ∷ bytes) ∷ reads) =
    payload_data stream_id 0 (b ∷ bytes) ∷ spawn_output stream_id reads

-- The arm that the completion select takes. An attach has none for the reaper.
pub data Arm : Type 0 where
  reaper_done : Option ℤ → Arm
  drain_done detach : Arm

-- Whether the pumps are awaited before the Status, and the exit code where it is known by then; an
-- attach that has detached already skips the select, and its arm.
unfoldable pub select : Bool → Bool → Arm → Bool × Option (Option ℤ)
select true true arm = (false, none)
select true false drain_done = (true, none)
select true false other = (false, none)
select false detached_fired (reaper_done code) = (true, some code)
select false detached_fired drain_done = (true, none)
select false detached_fired detach = (true, none)

-- Without a code from the select the reaper is awaited; it gives `late`.
unfoldable pub exit_after : StreamVerb → Option (Option ℤ) → Option ℤ → ℤ
exit_after verb none late = exit_code verb late
exit_after verb (some code) late = exit_code verb code

module _ {Z D : Type 0} (codec : Codec Z D) where
  -- The frames of the completion, for the streams that are bound by then.
  unfoldable pub fins : ℤ → Session Z D → List Frame
  fins exit s =
      fin_of codec (get stdout_channel s.by_role) []
      ++ (fin_of codec (get stderr_channel s.by_role) []
          ++ fin_of codec (get error_channel s.by_role) (exit_status_json codec.status_to_vec exit))

-- One task's frames and another's in the order in which they took the writer's lock.
pub data Merge : List Frame → List Frame → List Frame → Type 0 where
  ended : Merge [] [] []
  left : {f : Frame} {xs ys zs : List Frame} → Merge xs ys zs → Merge (f ∷ xs) ys (f ∷ zs)
  right : {f : Frame} {xs ys zs : List Frame} → Merge xs ys zs → Merge xs (f ∷ ys) (f ∷ zs)

abbrev pub MergeAll : List (List Frame) → List Frame → Type 0
MergeAll [] zs = zs ≡ []
MergeAll (xs ∷ xss) zs = (ys : List Frame) × MergeAll xss ys × Merge xs ys zs

-- A pump is its stream and the reads of its file.
abbrev pub Pump : Type 0
Pump = ℕ × List (Option (List ℕ))

abbrev pub pump_frames : List Pump → List (List Frame)
pump_frames [] = []
pump_frames ((id, reads) ∷ pumps) = spawn_output id reads ∷ pump_frames pumps

-- The pumps of the registered tasks, by what the reads of their files give.
abbrev pub pumps_of : (ℕ → List (Option (List ℕ))) → List (ℕ × ℕ) → List Pump
pumps_of contents [] = []
pumps_of contents ((id, file) ∷ tasks) = (id, contents file) ∷ pumps_of contents tasks

-- The completion's frames come behind all of the pumps' where it awaits them, and anywhere between
-- them where it does not.
abbrev pub IsBehind : Bool → List Frame → List Frame → List Frame → Type 0
IsBehind true pumped completion last = last ≡ pumped ++ completion
IsBehind false pumped completion last = Merge pumped completion last

-- What a session can send: the frames of its completion and of the pumps that it drained, by whether
-- it awaited them, and those of its read loop and of the pumps registered after that at any place.
abbrev pub IsTrace : Bool → List Pump → List Pump → List Frame → List Frame → List Frame → Type 0
IsTrace awaited drained others reader completion trace =
    (out : List Frame) × (last : List Frame) × (more : List Frame) × (free : List Frame) × MergeAll
      (pump_frames drained) out
    × IsBehind awaited out completion last
    × MergeAll (pump_frames others) more
    × Merge reader more free
    × Merge free last trace
