-- ===== src/Fake/World.antt =====
-- lightr-cri-fake: the persisted records, the state that the methods share, and the effects that
-- they draw on. What the operating system and third-party code answer is an `Env`: each effect
-- asks it at the number of the next event, `tick`.
pub mod Disk
use lightr_cri.Prelude.{
  ℕ, zero, suc, ◌+◌, ◌%◌, ◌^◌, ◌≡◌, Bool, true, false, List, [], ◌∷◌, ◌++◌, Option, none, some,
  if◌then◌else◌,
}
use lightr_cri.Prelude.Map.{Map, Key, text_key, get, insert, remove}
use lightr_cri.Prelude.Text.{Text, codes, decimal}
use lightr_cri.Backend.{
  ℤ, pos, negsuc, SandboxConfig, SandboxState, ContainerConfig, ContainerState, PortMapping,
  BackendError, internal, io, Result, ok, err,
}

pub record SandboxRecord : Type 0 where
  pub id : Text
  pub config : SandboxConfig
  pub state : SandboxState
  pub created_at_nanos : ℕ
  pub ip : Option Text
  pub netns_path : Option Text

pub record ContainerRecord : Type 0 where
  pub id : Text
  pub sandbox : Text
  pub config : ContainerConfig
  pub state : ContainerState
  pub created_at_nanos : ℕ
  pub started_at_nanos : ℕ
  pub finished_at_nanos : ℕ
  pub exit_code : ℤ
  pub reason : Text
  pub message : Text
  pub pid : ℕ

pub record ImageDiskRecord : Type 0 where
  pub id : Text
  pub ref_name : Text
  pub size : ℕ

-- The held descriptors of a container, by the numbers that the system gave them.
pub record ContainerIo : Type 0 where
  pub pty_master : Option ℕ
  pub stdout_rd : Option ℕ
  pub stderr_rd : Option ℕ
  pub stdin_wr : Option ℕ
  pub fanout : Bool

-- `serde_json` for one type of record: `to_vec`, `from_slice`, and that the second undoes the first.
pub record Serde (R J : Type 0) : Type 0 where
  pub to_vec : R → Result J
  pub from_slice : J → Option R
  pub from_slice-to_vec : (r : R) (j : J) → to_vec r ≡ ok j → from_slice j ≡ some r

-- How a child ended: by a code, by a signal, or the wait failed.
pub data WaitStatus : Type 0 where
  code : ℕ → WaitStatus
  signal : ℕ → WaitStatus
  wait_error : Text → WaitStatus

pub data Spawn : Type 0 where
  child : ℕ → Spawn
  spawn_error : Text → Spawn

-- What `cni_available` and `cni_setup` (crates/lightr-cri-net) come to for a new sandbox.
pub data NetSetup : Type 0 where
  unavailable : NetSetup
  network : Option Text → Text → NetSetup
  setup_error : Text → NetSetup

-- Each field answers for one kind of event: the clock, a write, the removal of a file (`false` where
-- it fails), the opening of a log, the pty and namespace calls before a spawn, the spawn, the
-- duplication of descriptors behind it and their numbers, the making or reading of a directory.
-- `debug_text` is `{:?}` of a text. `finish_polls t` are the children that the reaper threads collect between two polls of a wait that
-- begins at event `t`, one list for each poll that the time-out leaves.
pub record Env (J : Type 0) : Type 0 where
  pub clock : ℕ → ℕ
  pub write_error : ℕ → Option Text
  pub spawn : ℕ → Spawn
  pub pid_alive : ℕ → ℕ → Bool
  pub unlink : ℕ → Bool
  pub log_error : ℕ → Option Text
  pub stdio_error : ℕ → Option BackendError
  pub fds_error : ℕ → Option Text
  pub new_fds : ℕ → ContainerIo
  pub net_setup : ℕ → Text → List PortMapping → NetSetup
  pub finish_polls : ℕ → List (List (Text × WaitStatus))
  pub blake3_hex : Text → Text
  pub debug_text : Text → Text
  pub dir_error : ℕ → Option Text
  pub sandboxes : Serde SandboxRecord J
  pub containers : Serde ContainerRecord J
  pub images : Serde ImageDiskRecord J

-- Calls that reach other processes or the network, in the order in which they are made.
pub data Effect : Type 0 where
  kill : ℕ → ℕ → Effect
  net_teardown : Text → Text → Option Text → Effect

-- The in-memory index, the directories of the state root by file name, the CRI logs by path, the
-- table of held descriptors, the children that a reaper thread waits for, the calls made so far, the
-- id counter and the count of events.
pub record World (J : Type 0) : Type 0 where
  pub sandboxes : Map Text SandboxRecord
  pub containers : Map Text ContainerRecord
  pub images : Map Text ImageDiskRecord
  pub sandboxes_dir : Map Text J
  pub containers_dir : Map Text J
  pub images_dir : Map Text J
  pub root_files : Map Text Text
  pub logs : Map Text Text
  pub io_table : Map Text ContainerIo
  pub reapers : Map Text ℕ
  pub effects : List Effect
  pub counter : ℕ
  pub tick : ℕ

abbrev pub json_file : Text → Text
json_file id = id ++ codes ".json"

-- A method's result with the state that it leaves, also where it fails.
abbrev pub M : Type 0 → Type 0 → Type 0
M J A = World J → Result A × World J

abbrev pub and_then : {J A B : Type 0} → Result A × World J → (A → M J B) → Result B × World J
and_then (ok a, w) f = f a w
and_then (err e, w) f = (err e, w)

infixl 5 ◌>>=◌ ◌>>◌
abbrev pub ◌>>=◌ : {J A B : Type 0} → M J A → (A → M J B) → M J B
◌>>=◌ m f w = and_then (m w) f

abbrev pub ◌>>◌ : {J B : Type 0} → M J (Unit {0}) → M J B → M J B
◌>>◌ m k w = and_then (m w) (λ _. k)

-- `new_id`: the time and the process-wide counter, an AtomicU64.
unfoldable pub id_text : Text → ℕ → ℕ → Text
id_text prefix n c = prefix ++ (decimal n ++ (codes "-" ++ decimal c))

module _ {J : Type 0} where
  abbrev pub next : World J → World J
  next w = record w { tick = suc w.tick }

  -- `now_nanos()`: the i64 is kept as its 64-bit pattern.
  abbrev pub now_nanos : Env J → World J → ℕ
  now_nanos env w = env.clock w.tick % 2 ^ 64

  abbrev pub fresh_id : Env J → Text → World J → Text
  fresh_id env prefix w = id_text prefix (now_nanos env w) w.counter

  abbrev pub count_id : World J → World J
  count_id w = record (next w) { counter = (w.counter + 1) % 2 ^ 64 }

-- `atomic_write`: a failure leaves the file as it was (the temporary file has another name).
abbrev written : {J : Type 0} → Env J → World J → (World J → World J) → Result (Unit {0}) × World J
written env w put = elim (env.write_error w.tick) [
  | some e ↦ (err (io e), next w)
  | none ↦ (ok tt, put (next w))
]

-- `atomic_write_json` of `<id>.json` in each of the three directories.
module _ {J : Type 0} (env : Env J) where
  unfoldable pub write_sandbox : Text → SandboxRecord → M J (Unit {0})
  write_sandbox id rec w = elim (env.sandboxes.to_vec rec) [
    | err e ↦ (err e, w)
    | ok j ↦
        written env w (λ v. record v { sandboxes_dir = insert (json_file id) j v.sandboxes_dir })
  ]

  unfoldable pub write_container : Text → ContainerRecord → M J (Unit {0})
  write_container id rec w = elim (env.containers.to_vec rec) [
    | err e ↦ (err e, w)
    | ok j ↦
        written env w (λ v. record v { containers_dir = insert (json_file id) j v.containers_dir })
  ]

  unfoldable pub write_image : Text → ImageDiskRecord → M J (Unit {0})
  write_image id rec w = elim (env.images.to_vec rec) [
    | err e ↦ (err e, w)
    | ok j ↦ written env w (λ v. record v { images_dir = insert (json_file id) j v.images_dir })
  ]
