-- ===== src/Fake/Tests.antt =====
-- crates/lightr-cri-fake: a backend whose files hold the records themselves, for the laws at
-- concrete inputs.
mod Containers
mod Sandboxes
mod Images
use lightr_cri.Prelude.{
  ℕ, ◌≡◌, ◌≢◌, refl, false, true, [], ◌∷◌, Option, none, some, arith, ltb, IsIn,
}
use lightr_cri.Prelude.Map.{text_key, get, insert, remove}
use lightr_cri.Prelude.Text.{Text, codes, text_eq}
use lightr_cri.Backend.{
  pos, SandboxConfig, ready, not_ready, ContainerConfig, created, running, exited, ContainerFilter,
  ContainerStatus, not_found, PulledImage, ok,
}
use lightr_cri.Fake.World.{
  SandboxRecord, ContainerRecord, ImageDiskRecord, Serde, code, child, unavailable, Env, World,
  now_nanos, count_id, fresh_id, write_sandbox, write_container, write_image,
}
use lightr_cri.Fake.World.Disk.{disk_container, disk_sandbox}
use lightr_cri.Fake.Container.{
  stop_process, kill_and_wait, wait_until_exited, has_exited, wait_loop, reap_all, reap,
  reap_record, reaped_code, reaped_reason, create_container, new_container, stop_container,
  remove_container,
}
use lightr_cri.Fake.Container.Create.{sandbox_state, create_container_ok, create_container_err}
use lightr_cri.Fake.Container.Lifecycle.{FollowsAll}
use lightr_cri.Fake.Container.Lifecycle.Stop.{wait_loop_sound, stop_container-Follows}
use lightr_cri.Fake.Container.Remove.{remove_container_ok}
use lightr_cri.Fake.Container.Start.{
  prepare, open_cri_log, write_resolv_conf, effective_command, launch, spawn_child, adopt_child,
  start_container,
}
use lightr_cri.Fake.Path.{file_name}
use lightr_cri.Fake.Container.Start.Guard.{
  container_state, IsStarted, start_container_refused, start_container_ok,
}
use lightr_cri.Fake.Sandbox.{
  add_sandbox, container_ids, remove_containers, run_sandbox, stop_sandbox, remove_sandbox,
}
use lightr_cri.Fake.Sandbox.Stop.{
  state_in, run_sandbox_ok, stop_sandbox_ready, stop_sandbox_ok, remove_sandbox_ok,
}
use lightr_cri.Fake.Recovery.{
  load_sandboxes, load_containers, load_images, has_json_extension, recover_container, open_root,
}
use lightr_cri.Fake.Filter.{container_state_eq, container_matches, admits, has_labels}
use lightr_cri.Fake.Status.{rec_to_status, log_directory, container_status}
use lightr_cri.Fake.Status.Agree.{listed, container_status_exited, list_containers_complete}
use lightr_cri.Fake.Images.{
  is_bad_ref, find_image, find_user, image_status, pull_image, remove_image,
}
use lightr_cri.Fake.Images.Pull.{ref_of, image_status-pull_image, remove_image_unused}
use lightr_cri.Fake.Recovery.Alive.{open_root_alive}

-- A file's content is a record.
pub data Json : Type 0 where
  sandbox_json : SandboxRecord → Json
  container_json : ContainerRecord → Json
  image_json : ImageDiskRecord → Json

abbrev pub to_sandbox : Json → Option SandboxRecord
to_sandbox (sandbox_json r) = some r
to_sandbox (container_json r) = none
to_sandbox (image_json r) = none

abbrev pub to_container : Json → Option ContainerRecord
to_container (sandbox_json r) = none
to_container (container_json r) = some r
to_container (image_json r) = none

abbrev pub to_image : Json → Option ImageDiskRecord
to_image (sandbox_json r) = none
to_image (container_json r) = none
to_image (image_json r) = some r

abbrev pub sandbox_serde : Serde SandboxRecord Json
sandbox_serde = record {
  to_vec = λ r. ok (sandbox_json r);
  from_slice = to_sandbox;
  from_slice-to_vec = λ r j e. ground arith;
}

abbrev pub container_serde : Serde ContainerRecord Json
container_serde = record {
  to_vec = λ r. ok (container_json r);
  from_slice = to_container;
  from_slice-to_vec = λ r j e. ground arith;
}

abbrev pub image_serde : Serde ImageDiskRecord Json
image_serde = record {
  to_vec = λ r. ok (image_json r);
  from_slice = to_image;
  from_slice-to_vec = λ r j e. ground arith;
}

-- Everything succeeds, a process lives until a wait that finds it ended, and there is no network.
abbrev pub env : Env Json
env = record {
  clock = λ t. t;
  write_error = λ t. none;
  spawn = λ t. child 42;
  pid_alive = λ t pid. true;
  unlink = λ t. true;
  log_error = λ t. none;
  stdio_error = λ t. none;
  fds_error = λ t. none;
  new_fds = λ t. record {
    pty_master = none;
    stdout_rd = some 3;
    stderr_rd = some 4;
    stdin_wr = none;
    fanout = true;
  };
  net_setup = λ t id ports. unavailable;
  finish_polls = λ t. ((codes "c", code 0) ∷ []) ∷ [];
  blake3_hex = λ t. t;
  debug_text = λ t. t;
  dir_error = λ t. none;
  sandboxes = sandbox_serde;
  containers = container_serde;
  images = image_serde;
}

abbrev pub sandbox_config : SandboxConfig
sandbox_config = record {
  name = codes "pod";
  uid = [];
  namespace = [];
  attempt = 0;
  labels = [];
  annotations = [];
  log_directory = [];
  hostname = [];
  host_network = true;
  dns = none;
  port_mappings = [];
}

abbrev pub sandbox : SandboxRecord
sandbox = record {
  id = codes "s";
  config = sandbox_config;
  state = ready;
  created_at_nanos = 1;
  ip = none;
  netns_path = none;
}

abbrev pub config : ContainerConfig
config = record {
  name = codes "main";
  attempt = 0;
  image_ref = codes "busybox";
  command = codes "sleep" ∷ [];
  args = [];
  working_dir = [];
  envs = [];
  mounts = [];
  labels = [];
  annotations = [];
  log_path = [];
  tty = false;
  stdin = false;
}

abbrev pub fresh : ContainerRecord
fresh = new_container (codes "c") (codes "s") config 2

abbrev pub live : ContainerRecord
live = record fresh { state = running; started_at_nanos = 3; pid = 42 }

-- A backend with the sandbox `s` and one container `c`.
abbrev pub world : ContainerRecord → World Json
world rec = record {
  sandboxes = (codes "s", sandbox) ∷ [];
  containers = (codes "c", rec) ∷ [];
  images = [];
  sandboxes_dir = (codes "s.json", sandbox_json sandbox) ∷ [];
  containers_dir = (codes "c.json", container_json rec) ∷ [];
  images_dir = [];
  root_files = [];
  logs = [];
  io_table = [];
  reapers = (codes "c", 42) ∷ [];
  effects = [];
  counter = 0;
  tick = 5;
}
