-- ===== src/Fake/Container/Start.antt =====
-- lightr-cri-fake: `start_container` and `start_container_pipe_mode`, as one path: they differ in the
-- descriptors, whose duplication stands behind the spawn as in the pipe mode.
pub mod Guard
use lightr_cri.Prelude.{
  ℕ, zero, suc, Bool, true, false, ◌&&◌, ◌||◌, List, [], ◌∷◌, ◌++◌, Option, none, some, ltb, ◌==◌,
  if◌then◌else◌,
}
use lightr_cri.Prelude.Map.{Map, Key, text_key, get, insert, remove}
use lightr_cri.Prelude.Text.{Text, codes, text_eq}
use lightr_cri.Backend.{
  ℤ, pos, negsuc, DnsConfig, SandboxConfig, ContainerConfig, ContainerState, created, running,
  exited, unknown, BackendError, not_found, failed_precondition, invalid_argument, internal, io,
  Result, ok, err,
}
use lightr_cri.Fake.World.{
  SandboxRecord, ContainerRecord, ContainerIo, Spawn, child, spawn_error, Env, World, M, ◌>>=◌,
  ◌>>◌, and_then, next, now_nanos, write_container,
}
use lightr_cri.Fake.Path.{path_join, file_name}
use lightr_cri.Fake.Container.{put_container, store_container, finished, drop_result}

-- `{:?}` of a state.
unfoldable pub debug_state : ContainerState → Text
debug_state created = codes "Created"
debug_state running = codes "Running"
debug_state exited = codes "Exited"
debug_state unknown = codes "Unknown"

unfoldable pub join_words : List Text → Text
join_words [] = []
join_words (w ∷ []) = w
join_words (w ∷ v ∷ ws) = w ++ (codes " " ++ join_words (v ∷ ws))

unfoldable pub nameservers : List Text → Text
nameservers [] = []
nameservers (s ∷ ss) = codes "nameserver " ++ (s ++ (10 ∷ nameservers ss))

abbrev line_of : Text → List Text → Text
line_of key [] = []
line_of key (w ∷ ws) = key ++ (join_words (w ∷ ws) ++ (10 ∷ []))

-- The text that `write_sandbox_resolv_conf` writes.
unfoldable pub resolv_conf : DnsConfig → Text
resolv_conf dns =
    nameservers dns.servers
    ++ (line_of (codes "search ") dns.searches ++ line_of (codes "options ") dns.options)

abbrev pub first_program : List Text → List Text → Option Text
first_program (c ∷ command) args = some c
first_program [] (a ∷ args) = some a
first_program [] [] = none

abbrev pub keep_alive : List Text
keep_alive = codes "tail" ∷ codes "-f" ∷ codes "/dev/null" ∷ []

-- The program and its arguments: a pause for an empty command and for `top`.
unfoldable pub effective_command : ContainerConfig → List Text
effective_command cfg = elim (first_program cfg.command cfg.args) [
  | none ↦ keep_alive
  | some p ↦ if text_eq (file_name [] p) (codes "top") then keep_alive else cfg.command ++ cfg.args
]

abbrev pub starting : ContainerRecord → ℕ → ContainerRecord
starting rec now = record rec {
  state = running;
  started_at_nanos = now;
  pid = 0;
  reason = codes "starting";
}

abbrev pub spawn_failed : ContainerRecord → Text → ℕ → ContainerRecord
spawn_failed rec e now = record rec {
  state = exited;
  finished_at_nanos = now;
  exit_code = negsuc 0;
  reason = codes "spawn-failed";
  message = e;
}

module _ {J : Type 0} (env : Env J) where
  -- Best effort: a failure is logged only.
  unfoldable pub write_resolv_conf : Text → Option DnsConfig → World J → World J
  write_resolv_conf sandbox none w = w
  write_resolv_conf sandbox (some dns) w = elim (env.write_error w.tick) [
    | some e ↦ next w
    | none ↦ record (next w) {
      root_files =
          insert (codes "resolv-" ++ (sandbox ++ codes ".conf")) (resolv_conf dns) w.root_files;
    }
  ]

  abbrev touch_log : Text → World J → World J
  touch_log path w = elim (get path w.logs) [
    | some text ↦ w
    | none ↦ record w { logs = insert path [] w.logs }
  ]

  -- `open_cri_log`: the file exists from the start, and keeps what an earlier run wrote.
  unfoldable pub open_cri_log : Text → Text → M J (Unit {0})
  open_cri_log [] log_path w = (ok tt, w)
  open_cri_log (d ∷ dir) [] w = (ok tt, w)
  open_cri_log (d ∷ dir) (c ∷ log_path) w = elim (env.log_error w.tick) [
    | some e ↦ (err (io e), next w)
    | none ↦ (ok tt, touch_log (path_join (d ∷ dir) (c ∷ log_path)) (next w))
  ]

  -- The entry is read again under each lock: it may be gone.
  abbrev with_entry : {A : Type 0} → Text → (ContainerRecord → M J A) → M J A
  with_entry id f w = elim (get id w.containers) [
    | none ↦ (err (not_found (codes "container " ++ id)), w)
    | some rec ↦ f rec w
  ]

  abbrev record_failure : Text → Text → World J → World J
  record_failure id e w = elim (get id w.containers) [
    | none ↦ next w
    | some rec ↦
        drop_result (store_container env id (spawn_failed rec e (now_nanos env w)) (next w))
  ]

  -- The process runs: its descriptors are kept, its pid is persisted, and a reaper waits for it.
  unfoldable pub adopt_child : Text → ℕ → M J (Unit {0})
  adopt_child id pid w = elim (env.fds_error w.tick) [
    | some e ↦ (err (io e), next w)
    | none ↦
        let v = record (next w) { io_table = insert id (env.new_fds w.tick) w.io_table } in
        and_then
          (with_entry id (λ rec. store_container env id (record rec { pid = pid; reason = [] })) v)
          (λ _ u. (ok tt, record u { reapers = insert id pid u.reapers }))
  ]

  unfoldable pub spawn_child : Text → M J (Unit {0})
  spawn_child id w = elim (env.spawn w.tick) [
    | child pid ↦ adopt_child id pid (next w)
    | spawn_error e ↦ (
      err (internal (codes "spawn container " ++ (id ++ (codes ": " ++ e)))),
      record_failure id e (next w),
    )
  ]

  -- The start intent is on disk before the process exists.
  unfoldable pub launch : Text → M J (Unit {0})
  launch id w =
      and_then
        (with_entry id (λ rec. store_container env id (starting rec (now_nanos env w))) (next w))
        (λ _. spawn_child id)

  unfoldable pub prepare : ContainerRecord → M J (Unit {0})
  prepare rec w =
      let log_dir : Text = elim (get rec.sandbox w.sandboxes) [
        | none ↦ []
        | some s ↦ s.config.log_directory
      ] in
      let dns : Option DnsConfig = elim (get rec.sandbox w.sandboxes) [
        | none ↦ none
        | some s ↦ s.config.dns
      ] in
      and_then (open_cri_log log_dir rec.config.log_path (write_resolv_conf rec.sandbox dns w))
        (λ _ v. elim (effective_command rec.config) [
          | [] ↦ (err (invalid_argument (codes "empty command")), v)
          | program ∷ args ↦ elim (env.stdio_error v.tick) [
            | some e ↦ (err e, next v)
            | none ↦ (ok tt, next v)
          ]
        ])

  unfoldable pub start_container : Text → M J (Unit {0})
  start_container id w = elim (get id w.containers) [
    | none ↦ (err (not_found (codes "container " ++ id)), w)
    | some rec ↦ elim rec.state [
      | created ↦ and_then (prepare rec w) (λ _. launch id)
      | other ↦ (
        err (
            failed_precondition (
              codes "container "
              ++ (id
                  ++ (codes " is in state "
                      ++ (debug_state other ++ codes ", must be Created to start"))))),
        w,
      )
    ]
  ]
