-- ===== src/Shell/Streaming.antt =====
-- crates/lightr-cri-shell/src/runtime.rs: `mint_url` and the handlers of Exec, Attach and PortForward,
-- over a backend and the token registry that the streaming server shares.
pub mod Tokens
use lightr_cri.Prelude.{ℕ, Bool, false, List, [], ◌∷◌, ◌++◌, Option, none, some}
use lightr_cri.Prelude.Text.{Text, codes}
use lightr_cri.Backend.{
  ContainerState, created, running, exited, unknown, SandboxState, ready, not_ready,
  ContainerStatus, SandboxStatus, ok, err,
}
use lightr_cri.Shell.{
  CriBackend, Joined, joined, join_error, Reply, answer, refused, reply_of, status,
  code_failed_precondition, code_resource_exhausted,
}
use lightr_cri.Stream.Token.{
  StreamVerb, exec, attach, port_forward, StreamParams, Registry, Draws, mint,
}
use lightr_cri.Stream.Server.{verb_path, localhost, or_localhost}

-- `{:?}` of the states.
abbrev container_state_text : ContainerState → Text
container_state_text created = codes "Created"
container_state_text running = codes "Running"
container_state_text exited = codes "Exited"
container_state_text unknown = codes "Unknown"

abbrev sandbox_state_text : SandboxState → Text
sandbox_state_text ready = codes "Ready"
sandbox_state_text not_ready = codes "NotReady"

-- The services keep a backend and the registry.
pub record Services (S : Type 0) : Type 0 where
  pub state : S
  pub registry : Registry

abbrev after_mint :
    {S : Type 0} → Text → StreamVerb → S → Option Text × Registry → Reply Text × Services S
after_mint base verb s (none, m) = (
  refused (status code_resource_exhausted (codes "too many streaming tokens in flight")),
  record { state = s; registry = m },
)
after_mint base verb s (some token, m) = (
  answer (base ++ (codes "/" ++ (verb_path verb ++ (codes "/" ++ token)))),
  record { state = s; registry = m },
)

-- `mint_url`, at a time and with the draws of /dev/urandom.
unfoldable pub mint_url :
    {S : Type 0}
    → Text
    → StreamVerb
    → StreamParams
    → ℕ
    → Draws
    → Services S
    → Reply Text × Services S
mint_url base verb params now draws v =
    after_mint base verb v.state (mint verb params now draws v.registry)

-- The answer of `validate_container_running` by what the backend says.
unfoldable pub running_or : Text → Joined ContainerStatus → Reply (Unit {0})
running_or id (joined (ok cs)) = elim cs.state [
  | running ↦ answer tt
  | other ↦ refused (
      status code_failed_precondition (
        codes "container "
        ++ (id ++ (codes " is not Running (state=" ++ (container_state_text other ++ codes ")")))))
]
running_or id (joined (err e)) = reply_of (joined (err e))
running_or id (join_error e) = reply_of (join_error e)

unfoldable pub dial_of : SandboxStatus → Text
dial_of ss = elim ss.netns_path [ some ns ↦ localhost | none ↦ or_localhost ss.ip ]

-- The answer of `validate_sandbox_ready_get_ip`: the dial target and the network namespace.
unfoldable pub ready_or : Text → Joined SandboxStatus → Reply (Text × Option Text)
ready_or id (joined (ok ss)) = elim ss.state [
  | ready ↦ answer (dial_of ss, ss.netns_path)
  | not_ready ↦ refused (
      status code_failed_precondition (
        codes "sandbox "
        ++ (id ++ (codes " is not Ready (state=" ++ (sandbox_state_text not_ready ++ codes ")")))))
]
ready_or id (joined (err e)) = reply_of (joined (err e))
ready_or id (join_error e) = reply_of (join_error e)

pub record ExecRequest : Type 0 where
  pub container_id : Text
  pub cmd : List Text
  pub tty : Bool
  pub stdin : Bool

abbrev pub container_params : ExecRequest → List Text → StreamParams
container_params req cmd = record {
  container = some req.container_id;
  sandbox = none;
  cmd = cmd;
  tty = req.tty;
  stdin = req.stdin;
  ports = [];
  dial_target = none;
  netns_path = none;
}

abbrev pub forward_params : Text → List ℕ → Text × Option Text → StreamParams
forward_params sandbox port dial = record {
  container = none;
  sandbox = some sandbox;
  cmd = [];
  tty = false;
  stdin = false;
  ports = port;
  dial_target = some dial.0;
  netns_path = dial.1;
}

abbrev pub and_mint :
    {S A : Type 0}
    → Reply A
    → Services S
    → (A → Services S → Reply Text × Services S)
    → Reply Text × Services S
and_mint (answer a) v f = f a v
and_mint (refused e) v f = (refused e, v)

module _ {S : Type 0} (backend : CriBackend S) (base : Text) (now : ℕ) (draws : Draws) where
  unfoldable pub exec_rpc : ExecRequest → Services S → Reply Text × Services S
  exec_rpc req v =
      let (cs, s) = backend.container_status req.container_id v.state in
      and_mint (running_or req.container_id cs) (record v { state = s })
        (λ _. mint_url base exec (container_params req req.cmd) now draws)

  -- An attach request has no command.
  unfoldable pub attach_rpc : ExecRequest → Services S → Reply Text × Services S
  attach_rpc req v =
      let (cs, s) = backend.container_status req.container_id v.state in
      and_mint (running_or req.container_id cs) (record v { state = s })
        (λ _. mint_url base attach (container_params req []) now draws)

  unfoldable pub port_forward_rpc : Text → List ℕ → Services S → Reply Text × Services S
  port_forward_rpc sandbox port v =
      let (ss, s) = backend.sandbox_status sandbox v.state in
      and_mint (ready_or sandbox ss) (record v { state = s })
        (λ dial. mint_url base port_forward (forward_params sandbox port dial) now draws)
