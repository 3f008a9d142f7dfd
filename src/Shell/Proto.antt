-- ===== src/Shell/Proto.antt =====
-- crates/lightr-cri-proto: the messages of the CRI that the services read and build, with the fields
-- that they use; every field that is left out here they do not read, or leave at its default. A map
-- of a request is the list of its entries, an enumeration the i32 that stands on the wire.
use lightr_cri.Prelude.{ℕ, Bool, List, Option}
use lightr_cri.Prelude.Map.{Map}
use lightr_cri.Prelude.Text.{Text}
use lightr_cri.Backend.{ℤ}

abbrev pub Entries : Type 0
Entries = List (Text × Text)

pub record PodSandboxMetadata : Type 0 where
  pub name : Text
  pub uid : Text
  pub namespace : Text
  pub attempt : ℕ

pub record ContainerMetadata : Type 0 where
  pub name : Text
  pub attempt : ℕ

pub record DnsConfig : Type 0 where
  pub servers : List Text
  pub searches : List Text
  pub options : List Text

pub record PortMapping : Type 0 where
  pub protocol : ℤ
  pub container_port : ℕ
  pub host_port : ℕ
  pub host_ip : Text

pub record NamespaceOption : Type 0 where
  pub network : ℤ

pub record LinuxSandboxSecurityContext : Type 0 where
  pub namespace_options : Option NamespaceOption

pub record LinuxPodSandboxConfig : Type 0 where
  pub security_context : Option LinuxSandboxSecurityContext

pub record PodSandboxConfig : Type 0 where
  pub metadata : Option PodSandboxMetadata
  pub hostname : Text
  pub log_directory : Text
  pub dns_config : Option DnsConfig
  pub port_mappings : List PortMapping
  pub labels : Entries
  pub annotations : Entries
  pub linux : Option LinuxPodSandboxConfig

pub record Mount : Type 0 where
  pub container_path : Text
  pub host_path : Text
  pub readonly : Bool

pub record ContainerConfig : Type 0 where
  pub metadata : Option ContainerMetadata
  pub image : Option Text
  pub command : List Text
  pub args : List Text
  pub working_dir : Text
  pub envs : Entries
  pub mounts : List Mount
  pub labels : Entries
  pub annotations : Entries
  pub log_path : Text
  pub stdin : Bool
  pub tty : Bool

pub record PodSandboxFilter : Type 0 where
  pub id : Text
  pub state : Option ℤ
  pub label_selector : Entries

pub record ContainerFilter : Type 0 where
  pub id : Text
  pub state : Option ℤ
  pub pod_sandbox_id : Text
  pub label_selector : Entries

pub record ContainerStatsFilter : Type 0 where
  pub id : Text
  pub pod_sandbox_id : Text
  pub label_selector : Entries

-- `PodSandboxStatus`; its network is the ip.
pub record PodSandboxStatus : Type 0 where
  pub id : Text
  pub metadata : PodSandboxMetadata
  pub state : ℤ
  pub created_at : ℕ
  pub ip : Text
  pub labels : Map Text Text
  pub annotations : Map Text Text

pub record PodSandbox : Type 0 where
  pub id : Text
  pub metadata : PodSandboxMetadata
  pub state : ℤ
  pub created_at : ℕ
  pub labels : Map Text Text
  pub annotations : Map Text Text

pub record ContainerStatus : Type 0 where
  pub id : Text
  pub metadata : ContainerMetadata
  pub state : ℤ
  pub created_at : ℕ
  pub started_at : ℕ
  pub finished_at : ℕ
  pub exit_code : ℤ
  pub image : Text
  pub image_ref : Text
  pub image_id : Text
  pub reason : Text
  pub message : Text
  pub labels : Map Text Text
  pub annotations : Map Text Text
  pub mounts : List Mount
  pub log_path : Text

pub record Container : Type 0 where
  pub id : Text
  pub pod_sandbox_id : Text
  pub metadata : ContainerMetadata
  pub image : Text
  pub image_ref : Text
  pub image_id : Text
  pub state : ℤ
  pub created_at : ℕ
  pub labels : Map Text Text
  pub annotations : Map Text Text

pub record ContainerStats : Type 0 where
  pub id : Text
  pub metadata : Option ContainerMetadata
  pub labels : Map Text Text
  pub annotations : Map Text Text
  pub timestamp : ℕ
  pub usage_core_nano_seconds : ℕ
  pub working_set_bytes : ℕ
  pub writable_used_bytes : ℕ
  pub writable_inodes_used : ℕ

pub record Image : Type 0 where
  pub id : Text
  pub repo_tags : List Text
  pub repo_digests : List Text
  pub size : ℕ

pub record FilesystemUsage : Type 0 where
  pub timestamp : ℕ
  pub mountpoint : Text
  pub used_bytes : ℕ
  pub inodes_used : ℕ

pub record RuntimeCondition : Type 0 where
  pub name : Text
  pub status : Bool
  pub reason : Text
  pub message : Text
