-- ===== src/Fake/Streams.antt =====
-- lightr-cri-fake: `open_exec`, `open_attach`, their waiters, and the fan-out of a container's output
-- to its attachers. A file is its descriptor; the descriptors and errors that the system answers with
-- are a `SessionEnv`.
pub mod Attachers
mod Tests
use lightr_cri.Prelude.{
  ℕ, zero, suc, ◌+◌, Bool, true, false, List, [], ◌∷◌, ◌++◌, Option, none, some, if◌then◌else◌,
}
use lightr_cri.Prelude.Map.{Map, text_key, get}
use lightr_cri.Prelude.Text.{Text, codes, text_eq}
use lightr_cri.Backend.{
  ℤ, pos, negsuc, ContainerState, created, running, exited, unknown, StreamSession, BackendError,
  not_found, failed_precondition, invalid_argument, internal, Result, ok, err,
}
use lightr_cri.Fake.World.{ContainerRecord, ContainerIo, World, Spawn, child, spawn_error}
use lightr_cri.Fake.ExecSync.{ExitStatus, Act, started, exit_code_from_status, state_text, netns_of}

-- `ChildWaiter`, and the two types called `AttachWaiter`: on a tty, and on pipes.
pub data Waiter : Type 0 where
  child_waiter : ℕ → Waiter
  tty_attach_waiter : Waiter
  attach_waiter : Text → Waiter

abbrev pub Session : Type 0
Session = StreamSession Waiter

-- The joining of the container's namespaces and of the network's, `openpty` (master and slave), the
-- n-th `dup_file` of a descriptor, the n-th `make_pipe` (read end and write end), the spawn, and the
-- descriptors of the child's pipes: stdin, stdout and stderr.
pub record SessionEnv : Type 0 where
  pub mnt_uts_error : Option BackendError
  pub join_netns : Text → Option Text
  pub openpty : Result (ℕ × ℕ)
  pub dup_file : ℕ → ℕ → Result ℕ
  pub make_pipe : ℕ → Result (ℕ × ℕ)
  pub spawn : Spawn
  pub child_stdin : ℕ
  pub child_stdout : ℕ
  pub child_stderr : ℕ

infixl 5 ◌>>=◌
abbrev ◌>>=◌ : {A B : Type 0} → Result A → (A → Result B) → Result B
ok a >>= f = f a
err e >>= f = err e

abbrev spawned : Spawn → Result ℕ
spawned (spawn_error e) = err (internal (codes "open_exec spawn: " ++ e))
spawned (child pid) = ok pid

abbrev pub not_running : Text → Text → ContainerState → BackendError
not_running call id state = failed_precondition (
    codes "container "
    ++ (id
        ++ (codes " is not Running (state="
            ++ (state_text state ++ (codes "); " ++ (call ++ codes " requires Running"))))))

module _ (env : SessionEnv) where
  -- The slave is duplicated twice for the child, the master once for the stream.
  unfoldable pub exec_tty : Result Session
  exec_tty = do
    pty ← env.openpty
    slave_stdin ← env.dup_file 0 pty.1
    slave_stdout ← env.dup_file 1 pty.1
    pid ← spawned env.spawn
    stdout_fd ← env.dup_file 2 pty.0
    ok (record {
      stdin = none;
      stdout = some stdout_fd;
      stderr = none;
      pty_master = some pty.0;
      waiter = child_waiter pid;
    })

  unfoldable pub exec_piped : Bool → Result Session
  exec_piped stdin = do
    pid ← spawned env.spawn
    ok (record {
      stdin = if stdin then some env.child_stdin else none;
      stdout = some env.child_stdout;
      stderr = some env.child_stderr;
      pty_master = none;
      waiter = child_waiter pid;
    })

  unfoldable pub join_container : Option Text → Result (Unit {0})
  join_container netns = elim env.mnt_uts_error [
    | some e ↦ err e
    | none ↦ elim netns [
      | none ↦ ok tt
      | some path ↦ elim (env.join_netns path) [
        | some e ↦ err (internal (codes "open_exec join_netns " ++ (path ++ (codes ": " ++ e))))
        | none ↦ ok tt
      ]
    ]
  ]

  -- The command that runs, and its session.
  unfoldable pub exec_command : Act → Bool → Bool → Option Text → Result (Act × Session)
  exec_command start tty stdin netns = do
    joined ← join_container netns
    session ← if tty then exec_tty else exec_piped stdin
    ok (start, session)

  unfoldable pub open_exec :
      {J : Type 0} → Text → List Text → Bool → Bool → World J → Result (Act × Session)
  open_exec id cmd tty stdin w = elim (get id w.containers) [
    | none ↦ err (not_found (codes "container " ++ id))
    | some rec ↦ elim rec.state [
      | running ↦ elim cmd [
        | [] ↦ err (invalid_argument (codes "open_exec: empty command"))
        | ◌∷◌ program args ↦
            let netns = netns_of (get rec.sandbox w.sandboxes) in
            let start = started program args rec.config.working_dir rec.config.envs netns in
            exec_command start tty stdin netns
      ]
      | other ↦ err (not_running (codes "open_exec") id other)
    ]
  ]

-- The write ends of the attachers' pipes.
pub record FanOut : Type 0 where
  pub stdout_sinks : List ℕ
  pub stderr_sinks : List ℕ

module _ (env : SessionEnv) where
  unfoldable pub attach_tty : ℕ → Result Session
  attach_tty master = do
    stdout ← env.dup_file 0 master
    pty_master ← env.dup_file 1 master
    ok (record {
      stdin = none;
      stdout = some stdout;
      stderr = none;
      pty_master = some pty_master;
      waiter = tty_attach_waiter;
    })

  -- The last step: stdin is duplicated, where the container holds one.
  unfoldable pub attach_stdin : Text → Option ℕ → Option ℕ → Option ℕ → Result Session
  attach_stdin id out e none = ok (record {
    stdin = none;
    stdout = out;
    stderr = e;
    pty_master = none;
    waiter = attach_waiter id;
  })
  attach_stdin id out e (some w) = do
    fd ← env.dup_file 0 w
    ok (record {
      stdin = some fd;
      stdout = out;
      stderr = e;
      pty_master = none;
      waiter = attach_waiter id;
    })

  unfoldable pub with_stderr : Text → ContainerIo → Option ℕ → FanOut → Result Session × FanOut
  with_stderr id entry out fanout = elim entry.stderr_rd [
    | none ↦ (attach_stdin id out none entry.stdin_wr, fanout)
    | some fd ↦ elim (env.make_pipe 1) [
      | err e ↦ (err e, fanout)
      | ok pipe ↦ (
        attach_stdin id out (some pipe.0) entry.stdin_wr,
        record fanout { stderr_sinks = fanout.stderr_sinks ++ (pipe.1 ∷ []) },
      )
    ]
  ]

  -- A sink is registered as its pipe is made, so a later error leaves it behind.
  unfoldable pub attach_pipes : Text → ContainerIo → FanOut → Result Session × FanOut
  attach_pipes id entry fanout = elim entry.stdout_rd [
    | none ↦ with_stderr id entry none fanout
    | some fd ↦ elim (env.make_pipe 0) [
      | err e ↦ (err e, fanout)
      | ok pipe ↦
          with_stderr id entry (some pipe.0)
            (record fanout { stdout_sinks = fanout.stdout_sinks ++ (pipe.1 ∷ []) })
    ]
  ]

  abbrev no_fanout : BackendError
  no_fanout =
      internal (codes "pipe-mode container has no output fan-out (started before fan-out support?)")

  unfoldable pub attach_io : Text → ContainerIo → FanOut → Result Session × FanOut
  attach_io id entry fanout = elim entry.pty_master [
    | some master ↦ (attach_tty master, fanout)
    | none ↦ if entry.fanout then attach_pipes id entry fanout else (err no_fanout, fanout)
  ]

  -- The fan-out is that of the container's entry in the table of descriptors.
  unfoldable pub open_attach : {J : Type 0} → Text → World J → FanOut → Result Session × FanOut
  open_attach id w fanout = elim (get id w.containers) [
    | none ↦ (err (not_found (codes "container " ++ id)), fanout)
    | some rec ↦ elim rec.state [
      | running ↦ elim (get id w.io_table) [
        | none ↦ (err (internal (codes "attach unavailable after restart")), fanout)
        | some entry ↦ attach_io id entry fanout
      ]
      | other ↦ (err (not_running (codes "open_attach") id other), fanout)
    ]
  ]

-- `retain_mut` over the sinks of a stream: a sink whose write fails is dropped. `live` is whether a
-- write to a sink succeeds.
unfoldable pub retain_sinks : (ℕ → Bool) → List ℕ → List ℕ
retain_sinks live [] = []
retain_sinks live (fd ∷ sinks) =
    let rest = retain_sinks live sinks in if live fd then fd ∷ rest else rest

-- The writes that succeed.
unfoldable pub writes : (ℕ → Bool) → List ℕ → List ℕ → List (ℕ × List ℕ)
writes live bytes [] = []
writes live bytes (fd ∷ sinks) =
    let rest = writes live bytes sinks in if live fd then (fd, bytes) ∷ rest else rest

unfoldable pub broadcast : (ℕ → Bool) → Text → List ℕ → FanOut → FanOut × List (ℕ × List ℕ)
broadcast live stream bytes fanout =
    if text_eq stream (codes "stderr")
    then (
      record fanout { stderr_sinks = retain_sinks live fanout.stderr_sinks },
      writes live bytes fanout.stderr_sinks,
    )
    else (
      record fanout { stdout_sinks = retain_sinks live fanout.stdout_sinks },
      writes live bytes fanout.stdout_sinks,
    )

-- One look of the pipe waiter at a container's record.
unfoldable pub attach_code : Option ContainerRecord → Option ℤ
attach_code none = some (pos 0)
attach_code (some rec) = elim rec.state [ running ↦ none | other ↦ some rec.exit_code ]

-- The loop of the pipe waiter over what it finds at each look; `none` while it still runs.
unfoldable pub attach_wait : List (Option ContainerRecord) → Option ℤ
attach_wait [] = none
attach_wait (found ∷ looks) = elim (attach_code found) [
  | some c ↦ some c
  | none ↦ attach_wait looks
]

-- `wait` of a waiter: the child's status or the error of waiting for it, and the looks of a pipe
-- waiter.
unfoldable pub wait : Waiter → Result ExitStatus → List (Option ContainerRecord) → Option (Result ℤ)
wait (child_waiter pid) status looks = some (do st ← status; ok (exit_code_from_status st))
wait tty_attach_waiter status looks = some (ok (pos 0))
wait (attach_waiter id) status looks = elim (attach_wait looks) [
  | none ↦ none
  | some c ↦ some (ok c)
]
