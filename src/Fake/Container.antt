-- ===== src/Fake/Container.antt =====
-- lightr-cri-fake: `create_container`, the reaper thread, `stop_container` and `remove_container`.
pub mod Start
pub mod Create
pub mod Lifecycle
pub mod Remove
use lightr_cri.Prelude.{
  ℕ, zero, suc, ◌+◌, Bool, true, false, not, List, [], ◌∷◌, ◌++◌, Option, none, some, ltb,
  if◌then◌else◌,
}
use lightr_cri.Prelude.Map.{Map, Key, text_key, get, insert, remove}
use lightr_cri.Prelude.Text.{Text, codes, decimal}
use lightr_cri.Backend.{
  ℤ, pos, negsuc, SandboxState, ready, not_ready, ContainerConfig, ContainerState, created, running,
  exited, unknown, BackendError, not_found, failed_precondition, Result, ok, err,
}
use lightr_cri.Fake.World.{
  SandboxRecord, ContainerRecord, WaitStatus, code, signal, wait_error, Effect, kill, Env, World, M,
  ◌>>=◌, ◌>>◌, and_then, next, now_nanos, fresh_id, count_id, json_file, write_container,
}

abbrev pub sigkill : ℕ
sigkill = 9

abbrev pub sigterm : ℕ
sigterm = 15

-- `grace_seconds > 0`.
abbrev pub is_positive : ℤ → Bool
is_positive (pos n) = ltb 0 n
is_positive (negsuc n) = false

abbrev pub is_running : ContainerState → Bool
is_running created = false
is_running running = true
is_running exited = false
is_running unknown = false

-- The exit code and the reason that a reaper records.
unfoldable pub reaped_code : WaitStatus → ℤ
reaped_code (code c) = pos c
reaped_code (signal s) = pos (128 + s)
reaped_code (wait_error e) = negsuc 0

unfoldable pub reaped_reason : WaitStatus → Text
reaped_reason (code c) = []
reaped_reason (signal s) = codes "killed-by-signal-" ++ decimal s
reaped_reason (wait_error e) = codes "wait-error: " ++ e

abbrev pub new_container : Text → Text → ContainerConfig → ℕ → ContainerRecord
new_container id sandbox cfg now = record {
  id = id;
  sandbox = sandbox;
  config = cfg;
  state = created;
  created_at_nanos = now;
  started_at_nanos = 0;
  finished_at_nanos = 0;
  exit_code = pos 0;
  reason = [];
  message = [];
  pid = 0;
}

abbrev pub finished : ContainerRecord → ℤ → Text → ℕ → ContainerRecord
finished rec c reason now = record rec {
  state = exited;
  exit_code = c;
  finished_at_nanos = now;
  reason = reason;
}

abbrev pub drop_result : {J A : Type 0} → Result A × World J → World J
drop_result r = r.1

module _ {J : Type 0} (env : Env J) where
  abbrev pub put_container : Text → ContainerRecord → World J → World J
  put_container id rec w = record w { containers = insert id rec w.containers }

  -- The cache's entry, and then its file.
  abbrev pub store_container : Text → ContainerRecord → M J (Unit {0})
  store_container id rec w = write_container env id rec (put_container id rec w)

  unfoldable pub create_container : Text → ContainerConfig → M J Text
  create_container sandbox cfg w = elim (get sandbox w.sandboxes) [
    | none ↦ (err (not_found (codes "sandbox " ++ sandbox)), w)
    | some sb ↦ elim sb.state [
      | not_ready ↦
          (err (failed_precondition (codes "sandbox " ++ (sandbox ++ codes " is not Ready"))), w)
      | ready ↦
          let id = fresh_id env (codes "ct-") w in
          let v = count_id w in
          let rec = new_container id sandbox cfg (now_nanos env v) in
          and_then (write_container env id rec (next v)) (λ _ u. (ok id, put_container id rec u))
    ]
  ]

  -- A reaper thread whose child has ended. Its write is best effort.
  unfoldable pub reap_record : Text → WaitStatus → ContainerRecord → World J → World J
  reap_record id status rec w =
      if is_running rec.state
      then drop_result (
          store_container id
            (finished rec (reaped_code status) (reaped_reason status) (now_nanos env w)) (next w))
      else next w

  unfoldable pub reap : Text × WaitStatus → World J → World J
  reap (id, status) w = elim (get id w.reapers) [
    | none ↦ w
    | some pid ↦
        let v = record w { reapers = remove id w.reapers; io_table = remove id w.io_table } in
        elim (get id w.containers) [ none ↦ next v | some rec ↦ reap_record id status rec v ]
  ]

  unfoldable pub reap_all : List (Text × WaitStatus) → World J → World J
  reap_all [] w = w
  reap_all (r ∷ rs) w = reap_all rs (reap r w)

  -- `Some(r) if r.state != Running`, or the entry is gone.
  abbrev pub has_exited : Text → World J → Bool
  has_exited id w = elim (get id w.containers) [
    | none ↦ true
    | some rec ↦ not (is_running rec.state)
  ]

  -- `wait_until_exited`: a poll, and between two polls what the reapers do.
  unfoldable pub wait_loop : Text → List (List (Text × WaitStatus)) → World J → Bool × World J
  wait_loop id [] w = (has_exited id w, w)
  wait_loop id (r ∷ rs) w = elim (has_exited id w) [
    | true ↦ (true, w)
    | false ↦ wait_loop id rs (reap_all r w)
  ]

  unfoldable pub wait_until_exited : Text → World J → Bool × World J
  wait_until_exited id w = wait_loop id (env.finish_polls w.tick) (next w)

  abbrev pub send : ℕ → ℕ → World J → World J
  send pid sig w = record w { effects = w.effects ++ (kill pid sig ∷ []) }

  -- SIGKILL, and a wait whose outcome is not looked at.
  unfoldable pub kill_and_wait : Text → ℕ → World J → World J
  kill_and_wait id pid w = (wait_until_exited id (send pid sigkill w)).1

  abbrev escalate : Text → ℕ → Bool × World J → World J
  escalate id pid (true, w) = w
  escalate id pid (false, w) = kill_and_wait id pid w

  unfoldable pub stop_process : Text → ℕ → ℤ → World J → World J
  stop_process id pid grace w =
      if is_positive grace
      then escalate id pid (wait_until_exited id (send pid sigterm w))
      else kill_and_wait id pid w

  -- A Running record without a process: no reaper will fire.
  abbrev pub stop_orphan : Text → ContainerRecord → ℤ → M J (Unit {0})
  stop_orphan id rec grace w =
      store_container id
        (finished rec (pos (128 + (if is_positive grace then sigterm else sigkill)))
          (codes "stopped") (now_nanos env w))
        (next w)

  unfoldable pub stop_container : Text → ℤ → M J (Unit {0})
  stop_container id grace w = elim (get id w.containers) [
    | none ↦ (ok tt, w)
    | some rec ↦
        if is_running rec.state
        then (if ltb 0 rec.pid
            then (ok tt, stop_process id rec.pid grace w)
            else stop_orphan id rec grace w)
        else (ok tt, w)
  ]

  -- `fs::remove_file`, whose failure is not looked at.
  abbrev pub unlink_container : Text → World J → World J
  unlink_container id w =
      if env.unlink w.tick
      then record (next w) { containers_dir = remove (json_file id) w.containers_dir }
      else next w

  abbrev pub forget_container : Text → World J → World J
  forget_container id w =
      unlink_container id
        (record w { containers = remove id w.containers; io_table = remove id w.io_table })

  unfoldable pub remove_container : Text → M J (Unit {0})
  remove_container id w = elim (get id w.containers) [
    | none ↦ (ok tt, w)
    | some rec ↦
        if is_running rec.state
        then and_then (stop_container id (pos 0) w) (λ _ v. (ok tt, forget_container id v))
        else (ok tt, forget_container id w)
  ]
