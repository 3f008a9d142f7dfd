-- ===== src/Stream/PortForward.antt =====
-- crates/lightr-cri-stream/src/portforward.rs: `dial` and `run_ws`, port forwarding over a WebSocket.
-- Port i has the channels 2i for data and 2i + 1 for errors, as `u8`. What the loop meets is a list of
-- events; a TCP connection is known by the number of the dial that made it. Which of the open
-- connections `read_any` waits for is in the iteration order of a hash map, so an event names it.
pub mod Routing
mod Tests
use lightr_cri.Prelude.{
  ℕ, suc, ◌+◌, ◌*◌, ◌/◌, ◌%◌, ◌==◌, Bool, true, false, ◌&&◌, List, [], ◌∷◌, ◌++◌, Option, none,
  some, if◌then◌else◌,
}
use lightr_cri.Prelude.Map.{Map, nat_key, get, insert}
use lightr_cri.Prelude.Text.{Text, codes}
use lightr_cri.Stream.Spdy.PortForward.{Dialer, Tcp, tcp_write, tcp_shutdown}

unfoldable pub dial : Dialer → ℕ → Text → ℕ → Option Text → Bool
dial dialer n host port none = dialer.connect n host port
dial dialer n host port (some ns) = dialer.dial_in_netns n ns host port && dialer.adopt n

pub record PortConn : Type 0 where
  pub port : ℕ
  pub stream : Option ℕ

-- A message that the server sends.
pub data Message : Type 0 where
  binary : List ℕ → Message
  close : Message

-- What the select of the loop yields: from the client a binary message (with the outcome of the write
-- to its connection, should there be one), its close or the end of the socket, a message of another
-- kind, or an error; from a connection its bytes (with the outcome of sending them) or its end.
pub data Event : Type 0 where
  received : List ℕ → Bool → Event
  closed : Event
  other_message : Event
  receive_error : Event
  tcp_bytes : ℕ → List ℕ → Bool → Event
  tcp_end : ℕ → Event

pub record Socket : Type 0 where
  pub conns : Map ℕ PortConn
  pub sent : List Message
  pub backend : List Tcp
  pub dials : ℕ
  pub open_loop : Bool

abbrev pub start : Socket
start = record { conns = []; sent = []; backend = []; dials = 0; open_loop = true }

abbrev pub data_ch : ℕ → ℕ
data_ch i = (i * 2) % 256

abbrev pub err_ch : ℕ → ℕ
err_ch i = (i * 2 + 1) % 256

-- `u16::to_le_bytes`.
abbrev pub le_bytes : ℕ → List ℕ
le_bytes p = p % 256 ∷ p / 256 ∷ []

abbrev pub prefixes : ℕ → ℕ → List Message
prefixes i p = binary (data_ch i ∷ le_bytes p) ∷ binary (err_ch i ∷ le_bytes p) ∷ []

-- The connections of the ports from number `i` on, and the port prefix on both channels of each.
unfoldable pub declare : ℕ → List ℕ → Socket → Socket
declare i [] s = s
declare i (p ∷ ps) s = declare (suc i) ps (record s {
  conns = insert (data_ch i) (record { port = p; stream = none }) s.conns;
  sent = s.sent ++ prefixes i p;
})

-- `write_all` on connection `k`: an error drops the connection, and what it wrote before is not known.
unfoldable pub write_conn : ℕ → List ℕ → Bool → PortConn → ℕ → Socket → Socket
write_conn ch payload true conn k s = record s {
  conns = insert ch (record conn { stream = some k }) s.conns;
  backend = s.backend ++ (tcp_write k payload ∷ []);
}
write_conn ch payload false conn k s = record s {
  conns = insert ch (record conn { stream = none }) s.conns;
}

unfoldable pub clear_stream : ℕ → Option PortConn → Socket → Socket
clear_stream ch none s = s
clear_stream ch (some conn) s = record s {
  conns = insert ch (record conn { stream = none }) s.conns;
}

unfoldable pub shutdowns : Map ℕ PortConn → List Tcp
shutdowns [] = []
shutdowns ((ch, conn) ∷ m) = elim conn.stream [
  | none ↦ shutdowns m
  | some k ↦ tcp_shutdown k ∷ shutdowns m
]

module _ (dialer : Dialer) (host : Text) (netns : Option Text) where
  -- The bytes for a declared channel: to its connection, which the first of them dials.
  unfoldable pub to_conn : ℕ → List ℕ → Bool → PortConn → Option ℕ → Socket → Socket
  to_conn ch payload ok conn (some k) s = write_conn ch payload ok conn k s
  to_conn ch payload ok conn none s =
      let t : Socket = record s { dials = suc s.dials } in
      if dial dialer s.dials host conn.port netns
      then write_conn ch payload ok conn s.dials t
      else record t { sent = t.sent ++ (binary ((ch + 1) ∷ codes "dial failed") ∷ []) }

  unfoldable pub on_channel : ℕ → List ℕ → Bool → Option PortConn → Socket → Socket
  on_channel ch payload ok none s = s
  on_channel ch payload ok (some conn) s = to_conn ch payload ok conn conn.stream s

  unfoldable pub on_binary : List ℕ → Bool → Socket → Socket
  on_binary [] ok s = s
  on_binary (ch ∷ payload) ok s =
      if ch % 2 == 0 then on_channel ch payload ok (get ch s.conns) s else s

  unfoldable pub on_event : Event → Socket → Socket
  on_event (received frame ok) s = on_binary frame ok s
  on_event closed s = record s { backend = s.backend ++ shutdowns s.conns; open_loop = false }
  on_event other_message s = s
  on_event receive_error s = record s { open_loop = false }
  on_event (tcp_bytes ch bytes true) s = record s { sent = s.sent ++ (binary (ch ∷ bytes) ∷ []) }
  on_event (tcp_bytes ch bytes false) s = record s { open_loop = false }
  on_event (tcp_end ch) s = clear_stream ch (get ch s.conns) s

  unfoldable pub event_loop : List Event → Socket → Socket
  event_loop [] s = s
  event_loop (e ∷ es) s = if s.open_loop then event_loop es (on_event e s) else s

  unfoldable pub run_ws : List ℕ → List Event → Socket
  run_ws [] es = record start { sent = close ∷ []; open_loop = false }
  run_ws (p ∷ ps) es =
      let s = event_loop es (declare 0 (p ∷ ps) start) in
      record s { sent = s.sent ++ (close ∷ []); open_loop = false }
