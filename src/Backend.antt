-- ===== src/Backend.antt =====
-- crates/lightr-cri-backend/src/lib.rs: the vocabulary of the seam. A `BTreeMap<String, String>` is
-- an ordered map of texts, an i64 of nanoseconds its 64-bit pattern, and an i32 port a number.
pub mod Digest
mod Tests
use lightr_cri.Prelude.{ℕ, suc, Bool, List, ◌++◌, Option}
use lightr_cri.Prelude.Map.{Map}
use lightr_cri.Prelude.Text.{Text, codes}

-- Exit codes: `negsuc n` is -(n + 1).
pub data ℤ : Type 0 where
  pos : ℕ → ℤ
  negsuc : ℕ → ℤ

pub record DnsConfig : Type 0 where
  pub servers : List Text
  pub searches : List Text
  pub options : List Text

pub data Protocol : Type 0 where
  tcp udp sctp : Protocol

pub record PortMapping : Type 0 where
  pub protocol : Protocol
  pub container_port : ℕ
  pub host_port : ℕ
  pub host_ip : Text

pub record SandboxConfig : Type 0 where
  pub name : Text
  pub uid : Text
  pub namespace : Text
  pub attempt : ℕ
  pub labels : Map Text Text
  pub annotations : Map Text Text
  pub log_directory : Text
  pub hostname : Text
  pub host_network : Bool
  pub dns : Option DnsConfig
  pub port_mappings : List PortMapping

pub data SandboxState : Type 0 where
  ready not_ready : SandboxState

pub record SandboxStatus : Type 0 where
  pub id : Text
  pub config : SandboxConfig
  pub state : SandboxState
  pub created_at_nanos : ℕ
  pub ip : Option Text
  pub netns_path : Option Text

pub record Mount : Type 0 where
  pub container_path : Text
  pub host_path : Text
  pub readonly : Bool

pub record ContainerConfig : Type 0 where
  pub name : Text
  pub attempt : ℕ
  pub image_ref : Text
  pub command : List Text
  pub args : List Text
  pub working_dir : Text
  pub envs : List (Text × Text)
  pub mounts : List Mount
  pub labels : Map Text Text
  pub annotations : Map Text Text
  pub log_path : Text
  pub tty : Bool
  pub stdin : Bool

pub data ContainerState : Type 0 where
  created running exited unknown : ContainerState

pub record ContainerStatus : Type 0 where
  pub id : Text
  pub sandbox : Text
  pub config : ContainerConfig
  pub state : ContainerState
  pub created_at_nanos : ℕ
  pub started_at_nanos : ℕ
  pub finished_at_nanos : ℕ
  pub exit_code : ℤ
  pub reason : Text
  pub message : Text

pub record ExecResult : Type 0 where
  pub exit_code : ℤ
  pub stdout : List ℕ
  pub stderr : List ℕ

pub record ContainerStatsRec : Type 0 where
  pub id : Text
  pub timestamp_nanos : ℕ
  pub cpu_usage_core_nanos : ℕ
  pub memory_working_set_bytes : ℕ

pub record PulledImage : Type 0 where
  pub ref_name : Text
  pub root_hex : Text
  pub total_size : ℕ

pub record ImageRecord : Type 0 where
  pub id : Text
  pub ref_name : Text
  pub size : ℕ

pub record FsInfo : Type 0 where
  pub timestamp_nanos : ℕ
  pub mountpoint : Text
  pub used_bytes : ℕ
  pub inodes_used : ℕ

pub data BackendError : Type 0 where
  not_found : Text → BackendError
  already_exists : Text → BackendError
  invalid_argument : Text → BackendError
  failed_precondition : Text → BackendError
  in_use : Text → BackendError
  internal : Text → BackendError
  io : Text → BackendError

-- `Display`; an `io` error carries its own text.
unfoldable pub display : BackendError → Text
display (not_found m) = codes "not found: " ++ m
display (already_exists m) = codes "already exists: " ++ m
display (invalid_argument m) = codes "invalid argument: " ++ m
display (failed_precondition m) = codes "failed precondition: " ++ m
display (in_use m) = codes "in use: " ++ m
display (internal m) = codes "internal: " ++ m
display (io e) = codes "io: " ++ e

pub data Result {ℓ} (A : Type ℓ) : Type ℓ where
  ok : A → Result A
  err : BackendError → Result A

-- The live I/O of an exec or attach session: files by their descriptors, and a waiter of any kind.
pub record StreamSession (W : Type 0) : Type 0 where
  pub stdin : Option ℕ
  pub stdout : Option ℕ
  pub stderr : Option ℕ
  pub pty_master : Option ℕ
  pub waiter : W

pub record SandboxFilter : Type 0 where
  pub id : Option Text
  pub state : Option SandboxState
  pub label_selector : Map Text Text

pub record ContainerFilter : Type 0 where
  pub id : Option Text
  pub sandbox : Option Text
  pub state : Option ContainerState
  pub label_selector : Map Text Text
