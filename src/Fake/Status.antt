-- ===== src/Fake/Status.antt =====
-- lightr-cri-fake: what the status and list calls report.
pub mod Agree
use lightr_cri.Prelude.{
  ℕ, zero, suc, Bool, true, false, ◌&&◌, not, List, [], ◌∷◌, ◌++◌, Option, none, some,
  if◌then◌else◌,
}
use lightr_cri.Prelude.Map.{Map, Key, text_key, get}
use lightr_cri.Prelude.Text.{Text, codes}
use lightr_cri.Backend.{
  ℤ, pos, negsuc, ContainerConfig, ContainerState, created, running, exited, unknown, SandboxStatus,
  ContainerStatus, SandboxFilter, ContainerFilter, not_found, Result, ok, err,
}
use lightr_cri.Fake.Path.{path_join}
use lightr_cri.Fake.Filter.{sandbox_matches, container_matches}
use lightr_cri.Fake.World.{SandboxRecord, ContainerRecord, World}

abbrev pub is_empty : Text → Bool
is_empty [] = true
is_empty (c ∷ t) = false

abbrev pub is_zero : ℤ → Bool
is_zero (pos zero) = true
is_zero (pos (suc n)) = false
is_zero (negsuc n) = false

-- The reason and the message that are shown: an Exited container's reason is one of two words, and
-- the recorded reason is kept as the message where there is none.
unfoldable pub shown : ContainerRecord → Text × Text
shown rec = elim rec.state [
  | exited ↦ (
    if is_zero rec.exit_code then codes "Completed" else codes "Error",
    if is_empty rec.message then rec.reason else rec.message,
  )
  | other ↦ (rec.reason, rec.message)
]

unfoldable pub shown_config : ContainerConfig → Text → ContainerConfig
shown_config config log_dir =
    if not (is_empty config.log_path) && not (is_empty log_dir)
    then record config { log_path = path_join log_dir config.log_path }
    else config

unfoldable pub rec_to_status : ContainerRecord → Text → ContainerStatus
rec_to_status rec log_dir = record {
  id = rec.id;
  sandbox = rec.sandbox;
  config = shown_config rec.config log_dir;
  state = rec.state;
  created_at_nanos = rec.created_at_nanos;
  started_at_nanos = rec.started_at_nanos;
  finished_at_nanos = rec.finished_at_nanos;
  exit_code = rec.exit_code;
  reason = (shown rec).0;
  message = (shown rec).1;
}

unfoldable pub sandbox_rec_to_status : SandboxRecord → SandboxStatus
sandbox_rec_to_status rec = record {
  id = rec.id;
  config = rec.config;
  state = rec.state;
  created_at_nanos = rec.created_at_nanos;
  ip = rec.ip;
  netns_path = rec.netns_path;
}

-- The log directory of a container's sandbox, empty where the sandbox is gone.
unfoldable pub log_directory : Map Text SandboxRecord → Text → Text
log_directory m id = elim (get id m) [ none ↦ [] | some s ↦ s.config.log_directory ]

unfoldable pub matching_sandboxes : SandboxFilter → Map Text SandboxRecord → List SandboxStatus
matching_sandboxes filter [] = []
matching_sandboxes filter ((k, rec) ∷ m) =
    if sandbox_matches rec filter
    then sandbox_rec_to_status rec ∷ matching_sandboxes filter m
    else matching_sandboxes filter m

unfoldable pub matching_containers :
    ContainerFilter → Map Text SandboxRecord → Map Text ContainerRecord → List ContainerStatus
matching_containers filter sandboxes [] = []
matching_containers filter sandboxes ((k, rec) ∷ m) =
    if container_matches rec filter
    then rec_to_status rec (log_directory sandboxes rec.sandbox)
      ∷ matching_containers filter sandboxes m
    else matching_containers filter sandboxes m

module _ {J : Type 0} where
  unfoldable pub sandbox_status : Text → World J → Result SandboxStatus
  sandbox_status id w = elim (get id w.sandboxes) [
    | none ↦ err (not_found (codes "sandbox " ++ id))
    | some rec ↦ ok (sandbox_rec_to_status rec)
  ]

  unfoldable pub list_sandboxes : SandboxFilter → World J → Result (List SandboxStatus)
  list_sandboxes filter w = ok (matching_sandboxes filter w.sandboxes)

  unfoldable pub container_status : Text → World J → Result ContainerStatus
  container_status id w = elim (get id w.containers) [
    | none ↦ err (not_found (codes "container " ++ id))
    | some rec ↦ ok (rec_to_status rec (log_directory w.sandboxes rec.sandbox))
  ]

  unfoldable pub list_containers : ContainerFilter → World J → Result (List ContainerStatus)
  list_containers filter w = ok (matching_containers filter w.sandboxes w.containers)
