-- ===== src/Stream/Spdy/PortForward.antt =====
-- crates/lightr-cri-stream/src/spdy/conn.rs: `run_portforward` and `dial_pf`. Streams come in pairs
-- under a request id; the data stream of a pair is joined to a TCP connection, which is known here by
-- the number of the dial that made it. The connects are a `Dialer`.
pub mod Isolation
pub mod Handshake
use lightr_cri.Prelude.{
  ℕ, zero, suc, ◌+◌, ◌-◌, ◌*◌, ◌==◌, ltb, leb, Bool, true, false, ◌&&◌, List, [], ◌∷◌, ◌++◌, Option,
  none, some, if◌then◌else◌, length,
}
use lightr_cri.Prelude.Map.{Map, nat_key, text_key, get, insert}
use lightr_cri.Prelude.Text.{Text, codes, decimal, text_eq, parse_uint}
use lightr_cri.Stream.Spdy.Frame.{
  Frame, syn_stream, syn_reply, rst_stream, settings, ping, goaway, headers, window_update,
  payload_data, flag_fin, rst_refused_stream,
}
use lightr_cri.Stream.Spdy.Headers.{serialize_headers, get_header}
use lightr_cri.Stream.Spdy.Exec.{Codec, read_headers, has_fin}

-- What the n-th dial meets: a connect from the host, one from a network namespace (by its path, the
-- host and the port), and the adoption of the connected socket.
pub record Dialer : Type 0 where
  pub connect : ℕ → Text → ℕ → Bool
  pub dial_in_netns : ℕ → Text → Text → ℕ → Bool
  pub adopt : ℕ → Bool
  -- What of the bytes `write_all` gets through to a socket before its shutdown, with so many events at
  -- the backends before: all, unless it fails.
  pub write_all : ℕ → ℕ → List ℕ → List ℕ

unfoldable pub dial_pf : Dialer → ℕ → Text → ℕ → Option Text → Bool
dial_pf dialer n host port none = dialer.connect n host port
dial_pf dialer n host port (some ns) = dialer.dial_in_netns n ns host port && dialer.adopt n

pub record Pair : Type 0 where
  pub port : ℕ
  pub data_stream : Option ℕ
  pub error_stream : Option ℕ
  pub tcp : Option ℕ

-- What reaches a backend: bytes on the write half of a socket, or its shutdown.
pub data Tcp : Type 0 where
  tcp_write : ℕ → List ℕ → Tcp
  tcp_shutdown : ℕ → Tcp

pub record Forward (Z D : Type 0) : Type 0 where
  pub pairs : Map Text Pair
  pub data_route : Map ℕ Text
  pub tcp_tasks : List (ℕ × ℕ)
  pub sent : List Frame
  pub backend : List Tcp
  pub shut : List ℕ
  pub dials : ℕ
  pub comp : Z
  pub decomp : D
  pub reading : Bool

unfoldable pub parse_u16 : Text → Option ℕ
parse_u16 = parse_uint 65535

abbrev pub parsed_or_zero : Option Text → ℕ
parsed_or_zero none = 0
parsed_or_zero (some p) = elim (parse_u16 p) [ none ↦ 0 | some n ↦ n ]

unfoldable pub port_of : List (Text × Text) → ℕ
port_of hdr = parsed_or_zero (get_header hdr (codes "port"))

unfoldable pub request_id : List (Text × Text) → Text
request_id hdr = elim (get_header hdr (codes "requestID")) [
  | some r ↦ r
  | none ↦ codes "port-" ++ decimal (port_of hdr)
]

unfoldable pub is_error_stream : List (Text × Text) → Bool
is_error_stream hdr = elim (get_header hdr (codes "streamType")) [
  | some t ↦ text_eq t (codes "error")
  | none ↦ false
]

-- The pair of a request, or a new one; the first port that is not 0 stays.
unfoldable pub pair_entry : Option Pair → ℕ → Pair
pair_entry none port = record { port = port; data_stream = none; error_stream = none; tcp = none }
pair_entry (some pair) port = if pair.port == 0 then record pair { port = port } else pair

unfoldable pub dial_failed : Option ℕ → ℕ → List Frame
dial_failed none stream_id = rst_stream stream_id rst_refused_stream ∷ []
dial_failed (some eid) stream_id =
    payload_data eid flag_fin (codes "dial failed")
    ∷ rst_stream stream_id rst_refused_stream
    ∷ rst_stream eid rst_refused_stream
    ∷ []

abbrev pub tcp_send : ℕ → ℕ → List ℕ → List Tcp
tcp_send k flags bytes =
    if has_fin flags then tcp_write k bytes ∷ tcp_shutdown k ∷ [] else tcp_write k bytes ∷ []

-- Whether the write half of a socket is shut down.
abbrev pub is_shut : ℕ → List ℕ → Bool
is_shut k [] = false
is_shut k (j ∷ js) = let rest = is_shut k js in if j == k then true else rest

module _ {Z D : Type 0} (codec : Codec Z D) where
  unfoldable pub accept : ℕ → List ℕ → Forward Z D → Forward Z D
  accept stream_id block s =
      let hdr = read_headers codec s.decomp block in
      let out = codec.compress s.comp (serialize_headers []) in
      record s { decomp = hdr.1; comp = out.1; sent = s.sent ++ (syn_reply stream_id 0 out.0 ∷ []) }

module _ {Z D : Type 0} where
  -- A data stream under `req`, whose pair is `entry`: the route, the dial, and what comes of it.
  unfoldable pub open_data : Bool → Text → ℕ → Pair → Forward Z D → Forward Z D
  open_data true req stream_id entry s = record s {
    pairs = insert req (record entry { data_stream = some stream_id; tcp = some s.dials }) s.pairs;
    data_route = insert stream_id req s.data_route;
    tcp_tasks = s.tcp_tasks ++ ((stream_id, s.dials) ∷ []);
    dials = suc s.dials;
  }
  open_data false req stream_id entry s = record s {
    pairs = insert req (record entry { data_stream = some stream_id }) s.pairs;
    data_route = insert stream_id req s.data_route;
    sent = s.sent ++ dial_failed entry.error_stream stream_id;
    dials = suc s.dials;
  }

  unfoldable pub open_error : Text → ℕ → Pair → Forward Z D → Forward Z D
  open_error req stream_id entry s = record s {
    pairs = insert req (record entry { error_stream = some stream_id }) s.pairs;
  }

  -- The socket that the Data frames of a stream go to.
  unfoldable pub socket_of : Forward Z D → ℕ → Option ℕ
  socket_of s stream_id = elim (get stream_id s.data_route) [
    | none ↦ none
    | some req ↦ elim (get req s.pairs) [ none ↦ none | some pair ↦ pair.tcp ]
  ]

  -- The errors of the writes are not looked at. Behind the shutdown of a socket a write fails and gets
  -- nothing through, and a second shutdown changes nothing.
  unfoldable pub forward_data : Dialer → ℕ → ℕ → List ℕ → Forward Z D → Forward Z D
  forward_data dialer stream_id flags bytes s = elim (socket_of s stream_id) [
    | none ↦ s
    | some k ↦ if is_shut k s.shut then s else record s {
      backend = s.backend ++ tcp_send k flags (dialer.write_all k (length s.backend) bytes);
      shut = if has_fin flags then k ∷ s.shut else s.shut;
    }
  ]

module _ {Z D : Type 0} (codec : Codec Z D) (dialer : Dialer) (host : Text)
    (netns : Option Text) where
  -- The SynStream arm.
  unfoldable pub open_forward : ℕ → List ℕ → Forward Z D → Forward Z D
  open_forward stream_id block s =
      let hdr = (read_headers codec s.decomp block).0 in
      let req = request_id hdr in
      let entry = pair_entry (get req s.pairs) (port_of hdr) in
      let t = accept codec stream_id block s in
      if is_error_stream hdr
      then open_error req stream_id entry t
      else open_data (dial_pf dialer s.dials host entry.port netns) req stream_id entry t

  unfoldable pub forward_frame : Frame → Forward Z D → Forward Z D
  forward_frame (syn_stream id assoc priority flags block) s = open_forward id block s
  forward_frame (payload_data id flags bytes) s = forward_data dialer id flags bytes s
  forward_frame (ping id) s = record s { sent = s.sent ++ (ping id ∷ []) }
  forward_frame (rst_stream id status) s = record s { reading = false }
  forward_frame (goaway id status) s = record s { reading = false }
  forward_frame (settings p) s = s
  forward_frame (window_update id delta) s = s
  forward_frame (headers id flags block) s = s
  forward_frame (syn_reply id flags block) s = s

  unfoldable pub forward_loop : List Frame → Forward Z D → Forward Z D
  forward_loop [] s = record s { reading = false }
  forward_loop (f ∷ fs) s = if s.reading then forward_loop fs (forward_frame f s) else s

-- What a pump sends for one read of its socket's read half: an end or an error is a FIN.
unfoldable pub tcp_to_spdy : ℕ → List (Option (List ℕ)) → List Frame
tcp_to_spdy stream_id [] = payload_data stream_id flag_fin [] ∷ []
tcp_to_spdy stream_id (none ∷ reads) = payload_data stream_id flag_fin [] ∷ []
tcp_to_spdy stream_id (some [] ∷ reads) = payload_data stream_id flag_fin [] ∷ []
tcp_to_spdy stream_id (some (b ∷ bytes) ∷ reads) =
    payload_data stream_id 0 (b ∷ bytes) ∷ tcp_to_spdy stream_id reads
