-- ===== src/Shell/Build.antt =====
-- crates/lightr-cri-shell/src/runtime.rs: the messages that the services build.
use lightr_cri.Prelude.{[], Option, none, some, map}
use lightr_cri.Backend.{SandboxStatus, ContainerStatus, ContainerStatsRec, Mount}
use lightr_cri.Shell.Decode.{map_sandbox_state, map_container_state, or_empty, map_option}
use lightr_cri.Shell.Proto

abbrev sandbox_metadata : SandboxStatus → Proto.PodSandboxMetadata
sandbox_metadata s = record {
  name = s.config.name;
  uid = s.config.uid;
  namespace = s.config.namespace;
  attempt = s.config.attempt;
}

unfoldable pub build_sandbox_status : SandboxStatus → Proto.PodSandboxStatus
build_sandbox_status s = record {
  id = s.id;
  metadata = sandbox_metadata s;
  state = map_sandbox_state s.state;
  created_at = s.created_at_nanos;
  ip = or_empty s.ip;
  labels = s.config.labels;
  annotations = s.config.annotations;
}

unfoldable pub build_pod_sandbox : SandboxStatus → Proto.PodSandbox
build_pod_sandbox s = record {
  id = s.id;
  metadata = sandbox_metadata s;
  state = map_sandbox_state s.state;
  created_at = s.created_at_nanos;
  labels = s.config.labels;
  annotations = s.config.annotations;
}

abbrev container_metadata : ContainerStatus → Proto.ContainerMetadata
container_metadata cs = record { name = cs.config.name; attempt = cs.config.attempt }

abbrev proto_mount : Mount → Proto.Mount
proto_mount m = record {
  container_path = m.container_path;
  host_path = m.host_path;
  readonly = m.readonly;
}

unfoldable pub build_container_status : ContainerStatus → Proto.ContainerStatus
build_container_status cs = record {
  id = cs.id;
  metadata = container_metadata cs;
  state = map_container_state cs.state;
  created_at = cs.created_at_nanos;
  started_at = cs.started_at_nanos;
  finished_at = cs.finished_at_nanos;
  exit_code = cs.exit_code;
  image = cs.config.image_ref;
  image_ref = cs.config.image_ref;
  image_id = cs.config.image_ref;
  reason = cs.reason;
  message = cs.message;
  labels = cs.config.labels;
  annotations = cs.config.annotations;
  mounts = map proto_mount cs.config.mounts;
  log_path = cs.config.log_path;
}

unfoldable pub build_container : ContainerStatus → Proto.Container
build_container cs = record {
  id = cs.id;
  pod_sandbox_id = cs.sandbox;
  metadata = container_metadata cs;
  image = cs.config.image_ref;
  image_ref = cs.config.image_ref;
  image_id = cs.config.image_ref;
  state = map_container_state cs.state;
  created_at = cs.created_at_nanos;
  labels = cs.config.labels;
  annotations = cs.config.annotations;
}

unfoldable pub build_container_stats :
    ContainerStatsRec → Option ContainerStatus → Proto.ContainerStats
build_container_stats rec status = record {
  id = rec.id;
  metadata = map_option container_metadata status;
  labels = elim status [ none ↦ [] | some s ↦ s.config.labels ];
  annotations = elim status [ none ↦ [] | some s ↦ s.config.annotations ];
  timestamp = rec.timestamp_nanos;
  usage_core_nano_seconds = rec.cpu_usage_core_nanos;
  working_set_bytes = rec.memory_working_set_bytes;
  writable_used_bytes = 0;
  writable_inodes_used = 0;
}
