-- ===== src/Stream/Server.antt =====
-- crates/lightr-cri-stream/src/server.rs, and portforward.rs's reading of a query: the HTTP handlers
-- of the streaming server as functions of a request, the time and the token registry. What a handler
-- answers is a response or the session that it starts. axum has read the request: its path, the
-- token, whether it is a WebSocket upgrade, and the headers whose values are texts.
pub mod Replay
mod Tests
use lightr_cri.Prelude.{
  ℕ, zero, suc, Bool, true, false, List, [], ◌∷◌, ◌++◌, Option, none, some, ◌==◌, ◌||◌, any, not,
  if◌then◌else◌,
}
use lightr_cri.Prelude.Text.{Text, codes, text_eq, eq_ignore_ascii_case}
use lightr_cri.Stream.Token.{
  StreamVerb, exec, attach, port_forward, StreamParams, Registry, consume,
}
use lightr_cri.Stream.Negotiate.{
  split_on, trim, lists, find, is_filled, negotiate, negotiate_exec_protocol, spdy_exec_protocols,
}
use lightr_cri.Stream.Spdy.PortForward.{parse_u16}

pub record Request : Type 0 where
  pub is_attach_path : Bool
  pub token : Text
  pub is_websocket : Bool
  pub upgrade : Option Text
  pub websocket_protocol : Option Text
  pub stream_protocol_version : Option Text
  pub query : Option Text

-- A session names the protocol that was agreed on; the last two are responses without one.
pub data Response : Type 0 where
  ws_session : Text → StreamVerb → StreamParams → Response
  spdy_exec : Text → StreamVerb → StreamParams → Response
  ws_forward : Text → List ℕ → Text → Option Text → Response
  spdy_forward : Text → Text → Option Text → Response
  forbidden : List Text → Response
  bad_request : Text → Response
  not_found_response : Response

abbrev pub verb_eq : StreamVerb → StreamVerb → Bool
verb_eq exec exec = true
verb_eq attach attach = true
verb_eq port_forward port_forward = true
verb_eq v w = false

-- `StreamVerb::path`.
unfoldable pub verb_path : StreamVerb → Text
verb_path exec = codes "exec"
verb_path attach = codes "attach"
verb_path port_forward = codes "portforward"

unfoldable pub wants_spdy : Request → Bool
wants_spdy req = elim req.upgrade [
  | none ↦ false
  | some v ↦ eq_ignore_ascii_case v (codes "SPDY/3.1")
]

abbrev pub upgrade_wanted : Text
upgrade_wanted = codes "expected websocket or SPDY/3.1 upgrade"

abbrev or_forbidden : StreamVerb → StreamParams → Option Text → Response
or_forbidden verb params none = forbidden spdy_exec_protocols
or_forbidden verb params (some p) = spdy_exec p verb params

unfoldable pub spdy_exec_upgrade : Request → StreamVerb → StreamParams → Response
spdy_exec_upgrade req verb params = elim req.stream_protocol_version [
  | none ↦ spdy_exec (codes "v4.channel.k8s.io") verb params
  | some h ↦ or_forbidden verb params (negotiate_exec_protocol h)
]

abbrev pub spdy_portforward : Text
spdy_portforward = codes "portforward.k8s.io"

abbrev offers_portforward : Option Text → Bool
offers_portforward none = true
offers_portforward (some h) = lists h spdy_portforward

unfoldable pub spdy_portforward_upgrade : Request → Text → Option Text → Response
spdy_portforward_upgrade req host netns =
    if offers_portforward req.stream_protocol_version
    then spdy_forward spdy_portforward host netns
    else forbidden (spdy_portforward ∷ [])

abbrev pub or_empty : Option Text → Text
or_empty none = []
or_empty (some p) = p

unfoldable pub pick_pf_protocol : Text → Text
pick_pf_protocol offered =
    or_empty
      (find (lists offered) (codes "v4.portforward.k8s.io" ∷ codes "portforward.k8s.io" ∷ []))

-- `split_once('=')`.
unfoldable pub split_once : ℕ → Text → Option (Text × Text)
split_once sep [] = none
split_once sep (c ∷ t) =
    let rest = split_once sep t in
    if c == sep then some ([], t) else (elim rest [ none ↦ none | some p ↦ some (c ∷ p.0, p.1) ])

unfoldable pub port_tokens : List Text → List ℕ
port_tokens [] = []
port_tokens (tok ∷ toks) =
    let rest = port_tokens toks in elim (parse_u16 (trim tok)) [ none ↦ rest | some p ↦ p ∷ rest ]

unfoldable pub ports_of_pair : Option (Text × Text) → List ℕ
ports_of_pair none = []
ports_of_pair (some (k, v)) =
    if text_eq k (codes "port") || text_eq k (codes "ports")
    then port_tokens (split_on b',' v)
    else []

unfoldable pub ports_of_pairs : List Text → List ℕ
ports_of_pairs [] = []
ports_of_pairs (pair ∷ pairs) = ports_of_pair (split_once b'=' pair) ++ ports_of_pairs pairs

unfoldable pub parse_ports : Text → List ℕ
parse_ports query = ports_of_pairs (split_on b'&' query)

-- The verb of the path; any other path than /attach/ is that of exec.
abbrev pub path_verb : Request → StreamVerb
path_verb req = if req.is_attach_path then attach else exec

unfoldable pub exec_upgrade : Request → StreamVerb → StreamParams → Response
exec_upgrade req verb params =
    if wants_spdy req
    then spdy_exec_upgrade req verb params
    else if req.is_websocket
    then ws_session (negotiate req.websocket_protocol) verb params
    else bad_request upgrade_wanted

unfoldable pub exec_attach : Request → ℕ → Registry → Response × Registry
exec_attach req now m =
    let taken = consume req.token now m in
    (
      elim taken.0 [
        | none ↦ not_found_response
        | some p ↦
            if verb_eq p.0 (path_verb req) then exec_upgrade req p.0 p.1 else not_found_response
      ],
      taken.1,
    )

abbrev pub localhost : Text
localhost = codes "127.0.0.1"

abbrev pub or_localhost : Option Text → Text
or_localhost none = localhost
or_localhost (some host) = host

unfoldable pub dial_host : StreamParams → Text
dial_host params = elim params.netns_path [
  | some ns ↦ localhost
  | none ↦ or_localhost params.dial_target
]

abbrev ws_protocol : Option Text → Text
ws_protocol none = []
ws_protocol (some offered) = pick_pf_protocol offered

unfoldable pub forward_upgrade : Request → StreamParams → Response
forward_upgrade req params =
    if wants_spdy req
    then spdy_portforward_upgrade req (dial_host params) params.netns_path
    else if req.is_websocket
    then ws_forward (ws_protocol req.websocket_protocol) (parse_ports (or_empty req.query))
        (dial_host params) params.netns_path
    else bad_request upgrade_wanted

unfoldable pub portforward_handler : Request → ℕ → Registry → Response × Registry
portforward_handler req now m =
    let taken = consume req.token now m in
    (
      elim taken.0 [
        | none ↦ not_found_response
        | some p ↦ if verb_eq p.0 port_forward then forward_upgrade req p.1 else not_found_response
      ],
      taken.1,
    )
