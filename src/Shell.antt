-- ===== src/Shell.antt =====
-- crates/lightr-cri-shell/src/lib.rs, and the `CriBackend` trait of crates/lightr-cri-backend: the gRPC
-- services over a backend, which they take as an interface.
pub mod Proto
pub mod Decode
pub mod Build
pub mod Runtime
pub mod Images
pub mod Streaming
pub mod Fake
mod Tests
use lightr_cri.Prelude.{ℕ, Bool, List, ◌++◌, Option}
use lightr_cri.Prelude.Text.{Text, codes}
use lightr_cri.Backend.{
  ℤ, SandboxConfig, SandboxStatus, SandboxFilter, ContainerConfig, ContainerStatus, ContainerFilter,
  ContainerStatsRec, ExecResult, PulledImage, ImageRecord, FsInfo, BackendError, not_found,
  already_exists, invalid_argument, failed_precondition, in_use, internal, io, Result, ok, err,
}

-- The codes of gRPC that the services use.
pub data Code : Type 0 where
  code_invalid_argument code_not_found code_already_exists code_resource_exhausted
        code_failed_precondition code_unimplemented code_internal :
      Code

pub record Status : Type 0 where
  pub code : Code
  pub message : Text

abbrev pub status : Code → Text → Status
status c m = record { code = c; message = m }

-- `to_string` of an error.
unfoldable pub error_text : BackendError → Text
error_text (not_found m) = codes "not found: " ++ m
error_text (already_exists m) = codes "already exists: " ++ m
error_text (invalid_argument m) = codes "invalid argument: " ++ m
error_text (failed_precondition m) = codes "failed precondition: " ++ m
error_text (in_use m) = codes "in use: " ++ m
error_text (internal m) = codes "internal: " ++ m
error_text (io m) = codes "io: " ++ m

unfoldable pub map_err : BackendError → Status
map_err (not_found m) = status code_not_found (error_text (not_found m))
map_err (already_exists m) = status code_already_exists (error_text (already_exists m))
map_err (invalid_argument m) = status code_invalid_argument (error_text (invalid_argument m))
map_err (failed_precondition m) =
    status code_failed_precondition (error_text (failed_precondition m))
map_err (in_use m) = status code_failed_precondition (error_text (in_use m))
map_err (internal m) = status code_internal (error_text (internal m))
map_err (io m) = status code_internal (error_text (io m))

-- What a call on a blocking thread comes to: the backend's result, or that the thread panicked.
pub data Joined (A : Type 0) : Type 0 where
  joined : Result A → Joined A
  join_error : Text → Joined A

abbrev pub Call : Type 0 → Type 0 → Type 0
Call S A = S → Joined A × S

-- The trait's methods over a state `S` of the backend.
pub record CriBackend (S : Type 0) : Type 0 where
  pub run_sandbox : SandboxConfig → Call S Text
  pub stop_sandbox : Text → Call S (Unit {0})
  pub remove_sandbox : Text → Call S (Unit {0})
  pub sandbox_status : Text → Call S SandboxStatus
  pub list_sandboxes : SandboxFilter → Call S (List SandboxStatus)
  pub create_container : Text → ContainerConfig → Call S Text
  pub start_container : Text → Call S (Unit {0})
  pub stop_container : Text → ℤ → Call S (Unit {0})
  pub remove_container : Text → Call S (Unit {0})
  pub container_status : Text → Call S ContainerStatus
  pub list_containers : ContainerFilter → Call S (List ContainerStatus)
  pub container_stats : Text → Call S ContainerStatsRec
  pub list_container_stats : ContainerFilter → Call S (List ContainerStatsRec)
  pub exec_sync : Text → List Text → ℤ → Call S ExecResult
  pub pull_image : Text → Call S PulledImage
  pub image_status : Text → Call S (Option ImageRecord)
  pub list_images : Call S (List ImageRecord)
  pub remove_image : Text → Call S (Unit {0})
  pub image_fs_info : Call S FsInfo
  pub network_ready : S → Bool

pub data Reply (A : Type 0) : Type 0 where
  answer : A → Reply A
  refused : Status → Reply A

-- `spawn_blocking(..).await.map_err(join error)?.map_err(map_err)?`.
unfoldable pub reply_of : {A : Type 0} → Joined A → Reply A
reply_of (joined (ok a)) = answer a
reply_of (joined (err e)) = refused (map_err e)
reply_of (join_error e) = refused (status code_internal (codes "spawn_blocking join error: " ++ e))

abbrev pub then_reply : {S A B : Type 0} → Joined A × S → (A → B) → Reply B × S
then_reply (joined (ok a), s) f = (answer (f a), s)
then_reply (joined (err e), s) f = (reply_of (joined (err e)), s)
then_reply (join_error e, s) f = (reply_of (join_error e), s)
