-- ===== src/Stream/PortForward/Tests.antt =====
-- crates/lightr-cri-stream/src/portforward.rs on concrete sessions.
use lightr_cri.Prelude.{◌≡◌, refl, ◌*◌, ◌==◌, true, List, [], ◌∷◌, none, some, arith}
use lightr_cri.Prelude.Map.{get, insert}
use lightr_cri.Prelude.Text.{codes}
use lightr_cri.Stream.Spdy.PortForward.{Dialer, tcp_write, tcp_shutdown}
use lightr_cri.Stream.PortForward.{
  Event, received, closed, tcp_end, tcp_bytes, binary, close, dial, declare, write_conn,
  clear_stream, shutdowns, to_conn, on_channel, on_binary, on_event, event_loop, run_ws,
}
use lightr_cri.Stream.PortForward.Routing.{port_at, run_ws-port_at}

-- Only port 80 listens.
abbrev dialer : Dialer
dialer = record {
  connect = λ n host port. port == 80;
  dial_in_netns = λ n ns host port. port == 80;
  adopt = λ n. true;
  write_all = λ k n bytes. bytes;
}

abbrev session : List Event
session =
    received (0 ∷ 7 ∷ []) true
    ∷ received (2 ∷ 8 ∷ []) true
    ∷ tcp_bytes 0 (9 ∷ []) true
    ∷ tcp_end 0
    ∷ received (0 ∷ 5 ∷ []) true
    ∷ closed
    ∷ []

sent_test :
    (run_ws dialer (codes "127.0.0.1") none (80 ∷ 443 ∷ []) session).sent
    ≡ binary (0 ∷ 80 ∷ 0 ∷ [])
      ∷ binary (1 ∷ 80 ∷ 0 ∷ [])
      ∷ binary (2 ∷ 187 ∷ 1 ∷ [])
      ∷ binary (3 ∷ 187 ∷ 1 ∷ [])
      ∷ binary (3 ∷ codes "dial failed")
      ∷ binary (0 ∷ 9 ∷ [])
      ∷ close
      ∷ []
unfolding run_ws event_loop on_event on_binary on_channel to_conn write_conn clear_stream shutdowns
    declare dial get insert
sent_test = refl

backend_test :
    (run_ws dialer (codes "127.0.0.1") none (80 ∷ 443 ∷ []) session).backend
    ≡ tcp_write 0 (7 ∷ []) ∷ tcp_write 2 (5 ∷ []) ∷ tcp_shutdown 2 ∷ []
unfolding run_ws event_loop on_event on_binary on_channel to_conn write_conn clear_stream shutdowns
    declare dial get insert
backend_test = refl

run_ws-port_at_example :
    port_at (1 * 2) (run_ws dialer (codes "127.0.0.1") none (80 ∷ 443 ∷ []) session) ≡ some 443
run_ws-port_at_example =
    run_ws-port_at dialer (codes "127.0.0.1") none 1 443 (80 ∷ 443 ∷ []) session refl (omega arith)
