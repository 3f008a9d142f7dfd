-- ===== src/Fake/ExecSync.antt =====
-- lightr-cri-fake: `exec_sync`. What it does to the child is a list of acts; what the system answers
-- is an `ExecEnv`.
pub mod Collected
mod Tests
use lightr_cri.Prelude.{
  ℕ, zero, suc, ◌+◌, Bool, true, false, List, [], ◌∷◌, ◌++◌, Option, none, some, if◌then◌else◌,
}
use lightr_cri.Prelude.Map.{text_key, get}
use lightr_cri.Prelude.Text.{Text, codes}
use lightr_cri.Backend.{
  ℤ, pos, negsuc, ContainerState, created, running, exited, unknown, ExecResult, BackendError,
  not_found, failed_precondition, invalid_argument, internal, Result, ok, err,
}
use lightr_cri.Fake.World.{
  ContainerRecord, SandboxRecord, World, WaitStatus, code, signal, wait_error, Spawn, child,
  spawn_error,
}
use lightr_cri.Fake.Container.{is_positive}

-- The end of a child as its parent sees it.
pub data ExitStatus : Type 0 where
  by_code : ℕ → ExitStatus
  by_signal : ℕ → ExitStatus

unfoldable pub exit_code_from_status : ExitStatus → ℤ
exit_code_from_status (by_signal sig) = pos (128 + sig)
exit_code_from_status (by_code n) = pos n

-- One `try_wait` before the deadline: the child runs, it has ended and these are its outputs, or an
-- error.
pub data Poll : Type 0 where
  still_running : Poll
  ended : ExitStatus → List ℕ → List ℕ → Poll
  try_wait_error : Text → Poll

-- `wait_with_output`.
pub data Output : Type 0 where
  output : ExitStatus → List ℕ → List ℕ → Output
  output_error : Text → Output

-- The joining of the container's mount and host name namespaces, that of the sandbox's network
-- namespace, the spawn, the polls that the time-out leaves (at their end the deadline has passed and
-- the child still runs), and a wait without one.
pub record ExecEnv : Type 0 where
  pub mnt_uts_error : Option BackendError
  pub netns_error : Text → Option Text
  pub spawn : Spawn
  pub polls : List Poll
  pub wait_with_output : Output

-- A command that was started, and what was done to its process.
pub data Act : Type 0 where
  started : Text → List Text → Text → List (Text × Text) → Option Text → Act
  kill_pid kill_group child_kill : ℕ → Act
  collected : ℕ → Act

abbrev pub state_text : ContainerState → Text
state_text created = codes "Created"
state_text running = codes "Running"
state_text exited = codes "Exited"
state_text unknown = codes "Unknown"

abbrev exec_result : ExitStatus → List ℕ → List ℕ → ExecResult
exec_result st out e = record { exit_code = exit_code_from_status st; stdout = out; stderr = e }

-- The loop of `try_wait`; a status that it gives has collected the child.
unfoldable pub poll_loop : ℕ → List Poll → Result ExecResult × List Act
poll_loop pid [] = (
  err (internal (codes "exec timeout")),
  kill_pid pid ∷ kill_group pid ∷ child_kill pid ∷ collected pid ∷ [],
)
poll_loop pid (still_running ∷ polls) = poll_loop pid polls
poll_loop pid (ended st out e ∷ polls) = (ok (exec_result st out e), collected pid ∷ [])
poll_loop pid (try_wait_error e ∷ polls) = (err (internal (codes "try_wait: " ++ e)), [])

unfoldable pub wait_output : ℕ → Output → Result ExecResult × List Act
wait_output pid (output st out e) = (ok (exec_result st out e), collected pid ∷ [])
wait_output pid (output_error e) = (err (internal (codes "exec_sync wait: " ++ e)), [])

abbrev pub begun : Act → Result ExecResult × List Act → Result ExecResult × List Act
begun a (r, acts) = (r, a ∷ acts)

abbrev pub netns_of : Option SandboxRecord → Option Text
netns_of none = none
netns_of (some s) = s.netns_path

module _ (env : ExecEnv) where
  unfoldable pub run_child : Act → ℤ → Spawn → Result ExecResult × List Act
  run_child start timeout (spawn_error e) = (err (internal (codes "exec_sync spawn: " ++ e)), [])
  run_child start timeout (child pid) = begun start (
      if is_positive timeout then poll_loop pid env.polls else wait_output pid env.wait_with_output)

  -- Behind the guards: the namespaces of the container, then the network's, then the spawn.
  unfoldable pub exec_in :
      ContainerRecord → Option Text → Text → List Text → ℤ → Result ExecResult × List Act
  exec_in rec netns program args timeout =
      let start = started program args rec.config.working_dir rec.config.envs netns in
      elim env.mnt_uts_error [
        | some e ↦ (err e, [])
        | none ↦ elim netns [
          | none ↦ run_child start timeout env.spawn
          | some path ↦ elim (env.netns_error path) [
            | some e ↦
                (err (internal (codes "exec_sync join_netns " ++ (path ++ (codes ": " ++ e)))), [])
            | none ↦ run_child start timeout env.spawn
          ]
        ]
      ]

  abbrev not_running : Text → ContainerState → BackendError
  not_running id state = failed_precondition (
      codes "container "
      ++ (id
          ++ (codes " is not Running (state="
              ++ (state_text state ++ codes "); exec_sync requires Running"))))

  unfoldable pub exec_sync :
      {J : Type 0} → Text → List Text → ℤ → World J → Result ExecResult × List Act
  exec_sync id cmd timeout w = elim (get id w.containers) [
    | none ↦ (err (not_found (codes "container " ++ id)), [])
    | some rec ↦ elim rec.state [
      | running ↦ elim cmd [
        | [] ↦ (err (invalid_argument (codes "exec_sync: empty command")), [])
        | ◌∷◌ program args ↦
            exec_in rec (netns_of (get rec.sandbox w.sandboxes)) program args timeout
      ]
      | other ↦ (err (not_running id other), [])
    ]
  ]
