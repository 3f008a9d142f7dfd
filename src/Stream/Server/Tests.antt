-- ===== src/Stream/Server/Tests.antt =====
-- crates/lightr-cri-stream/src/server.rs on a concrete request.
use lightr_cri.Prelude.{◌≡◌, refl, [], ◌∷◌, none, some, true, false}
use lightr_cri.Prelude.Text.{codes}
use lightr_cri.Stream.Token.{exec, StreamParams, Registry}
use lightr_cri.Stream.Server.{Request, not_found_response}
use lightr_cri.Stream.Server.Replay.{handle, serve_all, handle-serve_all}

abbrev request : Request
request = record {
  is_attach_path = true;
  token = codes "AAAAAAAA";
  is_websocket = true;
  upgrade = none;
  websocket_protocol = none;
  stream_protocol_version = none;
  query = none;
}

abbrev other : Request
other = record request { token = codes "BBBBBBBB" }

abbrev params : StreamParams
params = record {
  container = some (codes "c1");
  sandbox = none;
  cmd = codes "sh" ∷ [];
  tty = true;
  stdin = true;
  ports = [];
  dial_target = none;
  netns_path = none;
}

abbrev registry : Registry
registry = (codes "AAAAAAAA", record { verb = exec; params = params; minted_at = 0 }) ∷ []

handle-serve_all_example :
    (handle false
      (record request { is_attach_path = false })
      3
      (serve_all ((true, other, 2) ∷ []) (handle false request 1 registry).1)).0
    ≡ not_found_response
handle-serve_all_example =
    handle-serve_all false false request (record request { is_attach_path = false }) 1 3
      ((true, other, 2) ∷ []) registry refl
