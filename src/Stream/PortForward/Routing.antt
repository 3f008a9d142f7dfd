-- ===== src/Stream/PortForward/Routing.antt =====
-- crates/lightr-cri-stream/src/portforward.rs: the port behind each channel of `run_ws`.
use lightr_cri.Prelude.{
  ℕ, zero, suc, ◌+◌, ◌*◌, ◌≤◌, ◌<◌, ◌≡◌, ◌∙◌, refl, ap, Bool, true, false, List, [], ◌∷◌, ◌++◌,
  Option, none, some, arith, ==_iff, length, get_elem?,
}
use lightr_cri.Prelude.Map.{Map, nat_key, get, insert, get-insert}
use lightr_cri.Prelude.Text.{Text}
use lightr_cri.Stream.Spdy.PortForward.{Dialer}
use lightr_cri.Stream.PortForward.{
  PortConn, Event, received, closed, other_message, receive_error, tcp_bytes, tcp_end, Socket,
  start, data_ch, prefixes, declare, write_conn, clear_stream, to_conn, on_channel, on_binary,
  on_event, event_loop, run_ws,
}

abbrev port_in : Option PortConn → Option ℕ
port_in none = none
port_in (some conn) = some conn.port

-- The port that stands behind a channel.
abbrev pub port_at : ℕ → Socket → Option ℕ
port_at ch s = port_in (get ch s.conns)

-- A later port leaves the channels of the earlier ones alone.
declare-earlier :
    (c i : ℕ) (ps : List ℕ) (s : Socket)
    → c < i * 2
    → i + length ps ≤ 128
    → port_at c (declare i ps s) ≡ port_at c s
unfolding declare
declare-earlier c i [] s h few = refl
declare-earlier c i (p ∷ ps) s h few =
    let t : Socket = record s {
      conns = insert (data_ch i) (record { port = p; stream = none }) s.conns;
      sent = s.sent ++ prefixes i p;
    } in
    ground (
      arith,
      declare-earlier c (suc i) ps t (omega arith) (omega arith),
      get-insert (data_ch i) c (record { port = p; stream = none }) s.conns,
      ==_iff (data_ch i) c,
    )

declare-port_at :
    (i j p : ℕ) (ps : List ℕ) (s : Socket)
    → get_elem? ps j ≡ some p
    → i + length ps ≤ 128
    → port_at ((i + j) * 2) (declare i ps s) ≡ some p
unfolding declare
declare-port_at i j p [] s e few = ground arith
declare-port_at i zero p (q ∷ ps) s e few =
    let t : Socket = record s {
      conns = insert (data_ch i) (record { port = q; stream = none }) s.conns;
      sent = s.sent ++ prefixes i q;
    } in
    ground (
      arith,
      declare-earlier ((i + 0) * 2) (suc i) ps t (omega arith) (omega arith),
      get-insert (data_ch i) ((i + 0) * 2) (record { port = q; stream = none }) s.conns,
      ==_iff (data_ch i) ((i + 0) * 2),
    )
declare-port_at i (suc j) p (q ∷ ps) s e few =
    let t : Socket = record s {
      conns = insert (data_ch i) (record { port = q; stream = none }) s.conns;
      sent = s.sent ++ prefixes i q;
    } in
    ap (λ n. port_at (n * 2) (declare (suc i) ps t)) (omega arith)
    ∙ declare-port_at (suc i) j p ps t e (omega arith)

-- An entry that is written back under its channel with its port.
insert-port_in :
    (c ch : ℕ) (conn : PortConn) (o : Option ℕ) (m : Map ℕ PortConn)
    → get ch m ≡ some conn
    → port_in (get c (insert ch (record conn { stream = o }) m)) ≡ port_in (get c m)
insert-port_in c ch conn o m e =
    ground (arith, get-insert ch c (record conn { stream = o }) m, ==_iff ch c)

write_conn-port_at :
    (c ch k : ℕ) (payload : List ℕ) (ok : Bool) (conn : PortConn) (s : Socket)
    → get ch s.conns ≡ some conn
    → port_at c (write_conn ch payload ok conn k s) ≡ port_at c s
unfolding write_conn
write_conn-port_at c ch k payload true conn s e = insert-port_in c ch conn (some k) s.conns e
write_conn-port_at c ch k payload false conn s e = insert-port_in c ch conn none s.conns e

module _ (dialer : Dialer) (host : Text) (netns : Option Text) where
  to_conn-port_at :
      (c ch : ℕ) (payload : List ℕ) (ok : Bool) (conn : PortConn) (o : Option ℕ) (s : Socket)
      → get ch s.conns ≡ some conn
      → port_at c (to_conn dialer host netns ch payload ok conn o s) ≡ port_at c s
  unfolding to_conn
  to_conn-port_at c ch payload ok conn (some k) s e = write_conn-port_at c ch k payload ok conn s e
  to_conn-port_at c ch payload ok conn none s e =
      ground (
        arith,
        write_conn-port_at c ch s.dials payload ok conn (record s { dials = suc s.dials }) e,
      )

  on_channel-port_at :
      (c ch : ℕ) (payload : List ℕ) (ok : Bool) (o : Option PortConn) (s : Socket)
      → get ch s.conns ≡ o
      → port_at c (on_channel dialer host netns ch payload ok o s) ≡ port_at c s
  unfolding on_channel
  on_channel-port_at c ch payload ok none s e = refl
  on_channel-port_at c ch payload ok (some conn) s e =
      to_conn-port_at c ch payload ok conn conn.stream s e

  clear_stream-port_at :
      (c ch : ℕ) (o : Option PortConn) (s : Socket)
      → get ch s.conns ≡ o
      → port_at c (clear_stream ch o s) ≡ port_at c s
  unfolding clear_stream
  clear_stream-port_at c ch none s e = refl
  clear_stream-port_at c ch (some conn) s e = insert-port_in c ch conn none s.conns e

  on_event-port_at :
      (c : ℕ) (e : Event) (s : Socket) → port_at c (on_event dialer host netns e s) ≡ port_at c s
  unfolding on_event on_binary
  on_event-port_at c (received [] ok) s = refl
  on_event-port_at c (received (ch ∷ payload) ok) s =
      ground (arith, on_channel-port_at c ch payload ok (get ch s.conns) s refl)
  on_event-port_at c closed s = refl
  on_event-port_at c other_message s = refl
  on_event-port_at c receive_error s = refl
  on_event-port_at c (tcp_bytes ch bytes true) s = refl
  on_event-port_at c (tcp_bytes ch bytes false) s = refl
  on_event-port_at c (tcp_end ch) s = clear_stream-port_at c ch (get ch s.conns) s refl

  event_loop-port_at :
      (c : ℕ) (es : List Event) (s : Socket)
      → port_at c (event_loop dialer host netns es s) ≡ port_at c s
  unfolding event_loop
  event_loop-port_at c [] s = refl
  event_loop-port_at c (e ∷ es) s =
      ground
        (arith, event_loop-port_at c es (on_event dialer host netns e s), on_event-port_at c e s)

  -- With at most 128 ports, after any sequence of events and whichever dials and writes fail, the port
  -- that stands behind channel 2i is the i-th requested one: neither the set-up of another port nor a
  -- dial, a dropped connection or a reconnect changes the port of a channel.
  pub run_ws-port_at :
      (i p : ℕ) (ps : List ℕ) (es : List Event)
      → get_elem? ps i ≡ some p
      → length ps ≤ 128
      → port_at (i * 2) (run_ws dialer host netns ps es) ≡ some p
  unfolding run_ws
  run_ws-port_at i p [] es e few = ground arith
  run_ws-port_at i p (q ∷ ps) es e few =
      event_loop-port_at (i * 2) es (declare 0 (q ∷ ps) start)
      ∙ ap (λ n. port_at (n * 2) (declare 0 (q ∷ ps) start)) (omega arith)
      ∙ declare-port_at 0 i p (q ∷ ps) start e (omega arith)
