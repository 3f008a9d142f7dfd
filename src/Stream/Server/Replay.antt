-- ===== src/Stream/Server/Replay.antt =====
-- crates/lightr-cri-stream/src/server.rs: what one token can do at the streaming server.
use lightr_cri.Prelude.{ℕ, ◌≡◌, refl, Bool, true, false, List, [], ◌∷◌, none, arith}
use lightr_cri.Prelude.Map.{text_key, get, remove, get-remove_self, get-remove}
use lightr_cri.Prelude.Text.{Text}
use lightr_cri.Stream.Token.{Registry, consume}
use lightr_cri.Stream.Server.{
  Request, Response, exec_attach, portforward_handler, not_found_response,
}

-- One request to the server: on the exec and attach paths or on that of portforward.
abbrev pub handle : Bool → Request → ℕ → Registry → Response × Registry
handle true req now m = portforward_handler req now m
handle false req now m = exec_attach req now m

abbrev pub serve_all : List (Bool × Request × ℕ) → Registry → Registry
serve_all [] m = m
serve_all ((forward, req, now) ∷ rest) m = serve_all rest (handle forward req now m).1

handle_registry :
    (forward : Bool) (req : Request) (now : ℕ) (m : Registry)
    → (handle forward req now m).1 ≡ remove req.token m
unfolding exec_attach portforward_handler consume
handle_registry true req now m = refl
handle_registry false req now m = refl

handle-none :
    (forward : Bool) (req : Request) (now : ℕ) (m : Registry)
    → get req.token m ≡ none
    → (handle forward req now m).0 ≡ not_found_response
unfolding exec_attach portforward_handler consume
handle-none true req now m h = ground arith
handle-none false req now m h = ground arith

serve_all-none :
    (rs : List (Bool × Request × ℕ)) (token : Text) (m : Registry)
    → get token m ≡ none
    → get token (serve_all rs m) ≡ none
serve_all-none [] token m h = h
serve_all-none ((forward, req, now) ∷ rs) token m h =
    serve_all-none rs token (handle forward req now m).1
      (ground (arith, handle_registry forward req now m, get-remove req.token token m))

-- Whatever a first request with a token comes to, on either path (also where it is refused: for its
-- verb, its missing upgrade or its protocol versions), no later request with the same token, on
-- either path and at any time, whatever requests come between, is answered by anything but 404,
-- while no new token is minted.
pub handle-serve_all :
    (forward again : Bool) (first second : Request) (now later : ℕ)
    (between : List (Bool × Request × ℕ)) (m : Registry)
    → first.token ≡ second.token
    → (handle again second later (serve_all between (handle forward first now m).1)).0
      ≡ not_found_response
handle-serve_all forward again first second now later between m same =
    handle-none again second later _ (
      serve_all-none between second.token _
        (ground (arith, same, handle_registry forward first now m, get-remove_self first.token m)))
