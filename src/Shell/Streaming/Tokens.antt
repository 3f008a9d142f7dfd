-- ===== src/Shell/Streaming/Tokens.antt =====
-- crates/lightr-cri-shell and crates/lightr-cri-stream together: from a request for a URL to the session
-- that the URL opens at the streaming server.
use lightr_cri.Prelude.{ℕ, false, List, [], ◌++◌, Option, none, some}
use lightr_cri.Prelude.Map.{text_key}
use lightr_cri.Prelude.Text.{Text, codes}
use lightr_cri.Backend.{SandboxStatus}
use lightr_cri.Stream.Token.{StreamVerb, StreamParams}
use lightr_cri.Stream.Server.{verb_path}
use lightr_cri.Shell.{Reply, answer, refused}

-- Where a forward to a sandbox is to connect.
abbrev pub reached_at : Option Text → Option Text → Text
reached_at (some netns) ip = codes "127.0.0.1"
reached_at none none = codes "127.0.0.1"
reached_at none (some ip) = ip

-- The session of a forward to the ports of a sandbox.
abbrev pub forwarded : Text → List ℕ → SandboxStatus → StreamParams
forwarded sandbox port ss = record {
  container = none;
  sandbox = some sandbox;
  cmd = [];
  tty = false;
  stdin = false;
  ports = port;
  dial_target = some (reached_at ss.netns_path ss.ip);
  netns_path = ss.netns_path;
}

-- The URL of a token.
abbrev pub url_of : Text → StreamVerb → Text → Text
url_of base verb token = base ++ (codes "/" ++ (verb_path verb ++ (codes "/" ++ token)))

abbrev answered : Reply Text → Text
answered (answer url) = url
answered (refused e) = []
