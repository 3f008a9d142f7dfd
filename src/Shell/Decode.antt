-- ===== src/Shell/Decode.antt =====
-- crates/lightr-cri-shell/src/runtime.rs: what the services make of a request's messages.
use lightr_cri.Prelude.{ℕ, Bool, false, [], ◌∷◌, Option, none, some, map, ◌==◌, if◌then◌else◌}
use lightr_cri.Prelude.Map.{Map, text_key, insert}
use lightr_cri.Prelude.Text.{Text}
use lightr_cri.Backend.{
  ℤ, pos, negsuc, DnsConfig, Protocol, tcp, udp, sctp, PortMapping, SandboxConfig, SandboxState,
  ready, not_ready, Mount, ContainerConfig, ContainerState, created, running, exited, unknown,
  SandboxFilter, ContainerFilter,
}
use lightr_cri.Shell.Proto
use lightr_cri.Shell.Proto.{Entries}

-- `into_iter().collect()` into a map: the last entry of a key stays.
unfoldable pub collect_into : Entries → Map Text Text → Map Text Text
collect_into [] m = m
collect_into ((k, v) ∷ rest) m = collect_into rest (insert k v m)

unfoldable pub collect : Entries → Map Text Text
collect es = collect_into es []

abbrev pub is_int : ℤ → ℕ → Bool
is_int (pos k) n = k == n
is_int (negsuc k) n = false

abbrev pub non_empty : Text → Option Text
non_empty [] = none
non_empty (c ∷ t) = some (c ∷ t)

unfoldable pub map_sandbox_state : SandboxState → ℤ
map_sandbox_state ready = pos 0
map_sandbox_state not_ready = pos 1

unfoldable pub map_container_state : ContainerState → ℤ
map_container_state created = pos 0
map_container_state running = pos 1
map_container_state exited = pos 2
map_container_state unknown = pos 3

unfoldable pub sandbox_state_of : ℤ → SandboxState
sandbox_state_of s = if is_int s 0 then ready else not_ready

unfoldable pub container_state_of : ℤ → ContainerState
container_state_of s =
    if is_int s 0
    then created
    else if is_int s 1
    then running
    else if is_int s 2
    then exited
    else unknown

abbrev pub map_option : {A B : Type 0} → (A → B) → Option A → Option B
map_option f none = none
map_option f (some a) = some (f a)

unfoldable pub proto_sandbox_filter : Option Proto.PodSandboxFilter → SandboxFilter
proto_sandbox_filter none = record { id = none; state = none; label_selector = [] }
proto_sandbox_filter (some f) = record {
  id = non_empty f.id;
  state = map_option sandbox_state_of f.state;
  label_selector = collect f.label_selector;
}

unfoldable pub proto_container_filter : Option Proto.ContainerFilter → ContainerFilter
proto_container_filter none = record {
  id = none;
  sandbox = none;
  state = none;
  label_selector = [];
}
proto_container_filter (some f) = record {
  id = non_empty f.id;
  sandbox = non_empty f.pod_sandbox_id;
  state = map_option container_state_of f.state;
  label_selector = collect f.label_selector;
}

unfoldable pub proto_stats_filter : Option Proto.ContainerStatsFilter → ContainerFilter
proto_stats_filter none = record { id = none; sandbox = none; state = none; label_selector = [] }
proto_stats_filter (some f) = record {
  id = non_empty f.id;
  sandbox = non_empty f.pod_sandbox_id;
  state = none;
  label_selector = collect f.label_selector;
}

unfoldable pub decode_dns : Option Proto.DnsConfig → Option DnsConfig
decode_dns none = none
decode_dns (some d) =
    some (record { servers = d.servers; searches = d.searches; options = d.options })

abbrev pub protocol_of : ℤ → Protocol
protocol_of p = if is_int p 1 then udp else if is_int p 2 then sctp else tcp

unfoldable pub decode_port_mapping : Proto.PortMapping → PortMapping
decode_port_mapping pm = record {
  protocol = protocol_of pm.protocol;
  container_port = pm.container_port;
  host_port = pm.host_port;
  host_ip = pm.host_ip;
}

abbrev network_of : Option Proto.NamespaceOption → Bool
network_of none = false
network_of (some ns) = is_int ns.network 2

abbrev options_of : Option Proto.LinuxSandboxSecurityContext → Bool
options_of none = false
options_of (some sc) = network_of sc.namespace_options

-- The network namespace of the node, `NamespaceMode::Node`.
unfoldable pub decode_host_network : Option Proto.LinuxPodSandboxConfig → Bool
decode_host_network none = false
decode_host_network (some l) = options_of l.security_context

-- The configuration that `run_pod_sandbox` hands on.
unfoldable pub sandbox_config : Proto.PodSandboxConfig → Proto.PodSandboxMetadata → SandboxConfig
sandbox_config pod_cfg meta = record {
  name = meta.name;
  uid = meta.uid;
  namespace = meta.namespace;
  attempt = meta.attempt;
  labels = collect pod_cfg.labels;
  annotations = collect pod_cfg.annotations;
  log_directory = pod_cfg.log_directory;
  hostname = pod_cfg.hostname;
  host_network = decode_host_network pod_cfg.linux;
  dns = decode_dns pod_cfg.dns_config;
  port_mappings = map decode_port_mapping pod_cfg.port_mappings;
}

abbrev pub or_empty : Option Text → Text
or_empty none = []
or_empty (some t) = t

abbrev pub mount_of : Proto.Mount → Mount
mount_of m = record {
  container_path = m.container_path;
  host_path = m.host_path;
  readonly = m.readonly;
}

-- The configuration that `create_container` hands on.
unfoldable pub container_config : Proto.ContainerConfig → Proto.ContainerMetadata → ContainerConfig
container_config cfg meta = record {
  name = meta.name;
  attempt = meta.attempt;
  image_ref = or_empty cfg.image;
  command = cfg.command;
  args = cfg.args;
  working_dir = cfg.working_dir;
  envs = cfg.envs;
  mounts = map mount_of cfg.mounts;
  labels = collect cfg.labels;
  annotations = collect cfg.annotations;
  log_path = cfg.log_path;
  tty = cfg.tty;
  stdin = cfg.stdin;
}
