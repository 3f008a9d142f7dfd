-- ===== src/Shell/Runtime.antt =====
-- crates/lightr-cri-shell/src/runtime.rs: the handlers of the RuntimeService but for the streaming
-- ones.
use Prim.Native.String.{String}
use lightr_cri.Prelude.{true, List, [], ◌∷◌, ◌++◌, Option, none, some, map, if◌then◌else◌}
use lightr_cri.Prelude.Map.{Map, text_key, get, insert}
use lightr_cri.Prelude.Text.{Text, codes}
use lightr_cri.Backend.{
  ℤ, ContainerStatus, ContainerStatsRec, ContainerFilter, ExecResult, Result, ok, err,
}
use lightr_cri.Shell.{
  CriBackend, Joined, joined, join_error, Reply, answer, refused, reply_of, then_reply, status,
  Status, code_invalid_argument, code_unimplemented,
}
use lightr_cri.Shell.Proto
use lightr_cri.Shell.Decode.{
  sandbox_config, container_config, proto_sandbox_filter, proto_container_filter,
  proto_stats_filter,
}
use lightr_cri.Shell.Build.{
  build_sandbox_status, build_pod_sandbox, build_container_status, build_container,
  build_container_stats,
}

-- `version`: the version of the request, and the names of the runtime.
unfoldable pub version : Text → Text × Text × Text × Text
version api_version = (api_version, codes "lightr", codes "0.1.0", codes "v1")

-- The RPCs that are not implemented, with their messages.
pub data Unimplemented : Type 0 where
  get_container_events update_runtime_config update_container_resources reopen_container_log
        checkpoint_container pod_sandbox_stats list_pod_sandbox_stats list_metric_descriptors
        list_pod_sandbox_metrics runtime_config update_pod_sandbox_resources :
      Unimplemented

-- The UTF-8 of a dash and of a section sign.
abbrev em_dash : Text
em_dash = 0xe2 ∷ 0x80 ∷ 0x94 ∷ []

abbrev section_sign : Text
section_sign = 0xc2 ∷ 0xa7 ∷ []

abbrev r2_descoped : Text
r2_descoped =
    codes ": R2 " ++ (em_dash ++ codes " descoped (kubelet 1.33 never calls; alpha gate off)")

abbrev r2_whitepaper : Text
r2_whitepaper =
    codes ": R2 " ++ (em_dash ++ (codes " see whitepaper " ++ (section_sign ++ codes "11")))

abbrev unimplemented : Text → Status
unimplemented m = status code_unimplemented m

unfoldable pub handle_unimplemented : Unimplemented → Status
handle_unimplemented get_container_events =
    unimplemented (codes "GetContainerEvents" ++ r2_descoped)
handle_unimplemented update_runtime_config =
    unimplemented (codes "UpdateRuntimeConfig: not implemented (kubelet 1.33 never calls)")
handle_unimplemented update_container_resources =
    unimplemented (codes "UpdateContainerResources" ++ r2_whitepaper)
handle_unimplemented reopen_container_log =
    unimplemented (codes "ReopenContainerLog" ++ r2_whitepaper)
handle_unimplemented checkpoint_container =
    unimplemented (codes "CheckpointContainer" ++ r2_whitepaper)
handle_unimplemented pod_sandbox_stats = unimplemented (codes "PodSandboxStats" ++ r2_descoped)
handle_unimplemented list_pod_sandbox_stats =
    unimplemented (codes "ListPodSandboxStats" ++ r2_descoped)
handle_unimplemented list_metric_descriptors =
    unimplemented (codes "ListMetricDescriptors" ++ r2_whitepaper)
handle_unimplemented list_pod_sandbox_metrics =
    unimplemented (codes "ListPodSandboxMetrics" ++ r2_whitepaper)
handle_unimplemented runtime_config =
    unimplemented
      (codes "RuntimeConfig: not implemented (kubelet 1.33 never calls; alpha gate off)")
handle_unimplemented update_pod_sandbox_resources =
    unimplemented (codes "UpdatePodSandboxResources" ++ r2_whitepaper)

abbrev pub invalid : {A : Type 0} → String → Reply A
invalid m = refused (status code_invalid_argument (codes m))

-- `statuses.into_iter().map(|s| (s.id, s)).collect()`, of an empty list where the listing failed.
unfoldable pub status_map :
    List ContainerStatus → Map Text ContainerStatus → Map Text ContainerStatus
status_map [] m = m
status_map (s ∷ rest) m = status_map rest (insert s.id s m)

abbrev stats_of : Map Text ContainerStatus → List ContainerStatsRec → List Proto.ContainerStats
stats_of m [] = []
stats_of m (rec ∷ recs) = build_container_stats rec (get rec.id m) ∷ stats_of m recs

abbrev or_no_statuses : Result (List ContainerStatus) → List ContainerStatus
or_no_statuses (ok cs) = cs
or_no_statuses (err e) = []

abbrev ok_status : Result ContainerStatus → Option ContainerStatus
ok_status (ok cs) = some cs
ok_status (err e) = none

module _ {S : Type 0} (backend : CriBackend S) where
  -- `status`: the two conditions; the network's is the backend's.
  unfoldable pub runtime_status : S → List Proto.RuntimeCondition
  runtime_status s =
      let net_ready = backend.network_ready s in
      record { name = codes "RuntimeReady"; status = true; reason = []; message = [] }
      ∷ record {
        name = codes "NetworkReady";
        status = net_ready;
        reason = if net_ready then [] else codes "NetworkPluginNotReady";
        message =
            if net_ready then [] else codes "CNI not configured (host-network sandboxes only)";
      }
      ∷ []

  unfoldable pub run_pod_sandbox : Option Proto.PodSandboxConfig → S → Reply Text × S
  run_pod_sandbox none s = (invalid "config is required", s)
  run_pod_sandbox (some pod_cfg) s = elim pod_cfg.metadata [
    | none ↦ (invalid "config.metadata is required", s)
    | some meta ↦ then_reply (backend.run_sandbox (sandbox_config pod_cfg meta) s) (λ id. id)
  ]

  unfoldable pub stop_pod_sandbox : Text → S → Reply (Unit {0}) × S
  stop_pod_sandbox id s = then_reply (backend.stop_sandbox id s) (λ u. u)

  unfoldable pub remove_pod_sandbox : Text → S → Reply (Unit {0}) × S
  remove_pod_sandbox id s = then_reply (backend.remove_sandbox id s) (λ u. u)

  unfoldable pub pod_sandbox_status : Text → S → Reply Proto.PodSandboxStatus × S
  pod_sandbox_status id s = then_reply (backend.sandbox_status id s) build_sandbox_status

  unfoldable pub list_pod_sandbox :
      Option Proto.PodSandboxFilter → S → Reply (List Proto.PodSandbox) × S
  list_pod_sandbox filter s =
      then_reply (backend.list_sandboxes (proto_sandbox_filter filter) s) (map build_pod_sandbox)

  unfoldable pub create_container : Text → Option Proto.ContainerConfig → S → Reply Text × S
  create_container sandbox none s = (invalid "config is required", s)
  create_container sandbox (some cfg) s = elim cfg.metadata [
    | none ↦ (invalid "config.metadata is required", s)
    | some meta ↦
        then_reply (backend.create_container sandbox (container_config cfg meta) s) (λ id. id)
  ]

  unfoldable pub start_container : Text → S → Reply (Unit {0}) × S
  start_container id s = then_reply (backend.start_container id s) (λ u. u)

  unfoldable pub stop_container : Text → ℤ → S → Reply (Unit {0}) × S
  stop_container id timeout s = then_reply (backend.stop_container id timeout s) (λ u. u)

  unfoldable pub remove_container : Text → S → Reply (Unit {0}) × S
  remove_container id s = then_reply (backend.remove_container id s) (λ u. u)

  unfoldable pub list_containers :
      Option Proto.ContainerFilter → S → Reply (List Proto.Container) × S
  list_containers filter s =
      then_reply (backend.list_containers (proto_container_filter filter) s) (map build_container)

  unfoldable pub container_status : Text → S → Reply Proto.ContainerStatus × S
  container_status id s = then_reply (backend.container_status id s) build_container_status

  -- The two calls are made on one blocking thread; a failure of the second leaves its fields empty.
  abbrev with_status :
      ContainerStatsRec → Joined ContainerStatus × S → Reply Proto.ContainerStats × S
  with_status rec (joined st, s) = (answer (build_container_stats rec (ok_status st)), s)
  with_status rec (join_error e, s) = (reply_of (join_error e), s)

  abbrev after_stats : Text → Joined ContainerStatsRec × S → Reply Proto.ContainerStats × S
  after_stats id (joined (ok rec), s) = with_status rec (backend.container_status id s)
  after_stats id (joined (err e), s) = (reply_of (joined (err e)), s)
  after_stats id (join_error e, s) = (reply_of (join_error e), s)

  unfoldable pub container_stats : Text → S → Reply Proto.ContainerStats × S
  container_stats id s = after_stats id (backend.container_stats id s)

  abbrev with_statuses :
      List ContainerStatsRec
      → Joined (List ContainerStatus) × S
      → Reply (List Proto.ContainerStats) × S
  with_statuses recs (joined cs, s) =
      (answer (stats_of (status_map (or_no_statuses cs) []) recs), s)
  with_statuses recs (join_error e, s) = (reply_of (join_error e), s)

  abbrev after_list_stats :
      ContainerFilter → Joined (List ContainerStatsRec) × S → Reply (List Proto.ContainerStats) × S
  after_list_stats filter (joined (ok recs), s) =
      with_statuses recs (backend.list_containers filter s)
  after_list_stats filter (joined (err e), s) = (reply_of (joined (err e)), s)
  after_list_stats filter (join_error e, s) = (reply_of (join_error e), s)

  unfoldable pub list_container_stats :
      Option Proto.ContainerStatsFilter → S → Reply (List Proto.ContainerStats) × S
  list_container_stats filter s =
      let f = proto_stats_filter filter in after_list_stats f (backend.list_container_stats f s)

  unfoldable pub exec_sync : Text → List Text → ℤ → S → Reply ExecResult × S
  exec_sync id cmd timeout s = then_reply (backend.exec_sync id cmd timeout s) (λ r. r)
