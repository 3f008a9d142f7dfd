-- ===== src/Shell/Tests.antt =====
-- The gRPC services over the file-backed backend, on a backend with one sandbox and one container.
use lightr_cri.Prelude.{[], ◌∷◌, none, some, true, false}
use lightr_cri.Prelude.Map.{text_key}
use lightr_cri.Prelude.Text.{Text, codes}
use lightr_cri.Stream.B64.{encode_url_nopad}
use lightr_cri.Stream.Token.{exec, port_forward, Draws}
use lightr_cri.Stream.Token.Laws.{entry}
use lightr_cri.Stream.Server.{Request}
use lightr_cri.Fake.World.{World}
use lightr_cri.Fake.ExecSync.{ExecEnv, output, by_code}
use lightr_cri.Fake.World.{spawn_error}
use lightr_cri.Fake.Stats.{Proc}
use lightr_cri.Fake.Tests.{Json, env, world, live}
use lightr_cri.Shell.{CriBackend}
use lightr_cri.Shell.Fake.{fake_backend}
use lightr_cri.Shell.Streaming.{Services, ExecRequest, container_params, forward_params}

abbrev proc : Proc
proc = record { clk_tck = 100; stat = λ t pid. none; status = λ t pid. none }

abbrev no_exec : ExecEnv
no_exec = record {
  mnt_uts_error = none;
  netns_error = λ path. none;
  spawn = spawn_error [];
  polls = [];
  wait_with_output = output (by_code 0) [] [];
}

abbrev backend : CriBackend (World Json)
backend = fake_backend env proc (λ t. no_exec) (codes "/run/lightr") false

abbrev base : Text
base = codes "http://127.0.0.1:1"

abbrev draws : Draws
draws i = some (0 ∷ 0 ∷ 0 ∷ 0 ∷ 0 ∷ i ∷ [])

abbrev services : Services (World Json)
services = record { state = world live; registry = [] }

abbrev exec_request : ExecRequest
exec_request = record { container_id = codes "c"; cmd = codes "sh" ∷ []; tty = true; stdin = true }

abbrev websocket : Request
websocket = record {
  is_attach_path = false;
  token = encode_url_nopad (0 ∷ 0 ∷ 0 ∷ 0 ∷ 0 ∷ 0 ∷ []);
  is_websocket = true;
  upgrade = none;
  websocket_protocol = none;
  stream_protocol_version = none;
  query = none;
}

abbrev exec_minted : Services (World Json)
exec_minted = record {
  state = world live;
  registry = (websocket.token, entry exec (container_params exec_request (codes "sh" ∷ [])) 7) ∷ [];
}

abbrev forward_minted : Services (World Json)
forward_minted = record {
  state = world live;
  registry =
      (
        websocket.token,
        entry port_forward (forward_params (codes "s") (80 ∷ []) (codes "127.0.0.1", none)) 7,
      )
      ∷ [];
}
