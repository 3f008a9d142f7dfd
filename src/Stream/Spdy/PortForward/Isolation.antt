-- ===== src/Stream/Spdy/PortForward/Isolation.antt =====
-- crates/lightr-cri-stream/src/spdy/conn.rs: which bytes of `run_portforward` reach which backend.
use lightr_cri.Prelude.{
  ℕ, ◌≡◌, refl, Bool, true, false, List, [], ◌∷◌, ◌++◌, none, some, arith, Option, ◌==◌, ==_iff,
  Option-cases, inl, inr, append-nil, append_assoc, if◌then◌else◌, ◌∙◌, ap, All, ◌&&◌, length,
}
use lightr_cri.Stream.Spdy.Frame.{
  Frame, syn_stream, syn_reply, rst_stream, settings, ping, goaway, headers, window_update,
  payload_data,
}
use lightr_cri.Prelude.Text.{Text}
use lightr_cri.Stream.Spdy.Exec.{Codec, has_fin}
use lightr_cri.Stream.Spdy.Exec.Stdin.{OpensNone}
use lightr_cri.Stream.Spdy.PortForward.{
  Dialer, Forward, Tcp, tcp_write, tcp_shutdown, tcp_send, is_shut, socket_of, forward_data,
  forward_frame, forward_loop,
}

-- What one socket is given.
abbrev pub on_socket : ℕ → List Tcp → List Tcp
on_socket k [] = []
on_socket k (tcp_write j bytes ∷ ts) =
    let rest = on_socket k ts in if j == k then tcp_write j bytes ∷ rest else rest
on_socket k (tcp_shutdown j ∷ ts) =
    let rest = on_socket k ts in if j == k then tcp_shutdown j ∷ rest else rest

abbrev goes_to : ℕ → Option ℕ → Bool
goes_to k none = false
goes_to k (some j) = j == k

abbrev sent_to : Bool → Bool → ℕ → List ℕ → List Tcp → List Tcp
sent_to true true k bytes rest = tcp_write k bytes ∷ tcp_shutdown k ∷ []
sent_to true false k bytes rest = tcp_write k bytes ∷ rest
sent_to false fin k bytes rest = rest

-- What the client's frames send to one socket under a routing of streams: the payloads of its
-- streams up to the first that carries FIN, with a shutdown behind it, or up to RST_STREAM or GOAWAY.
abbrev pub payloads : (ℕ → Option ℕ) → ℕ → List Frame → List Tcp
payloads route k [] = []
payloads route k (payload_data id flags bytes ∷ fs) =
    sent_to (goes_to k (route id)) (has_fin flags) k bytes (payloads route k fs)
payloads route k (rst_stream id status ∷ fs) = []
payloads route k (goaway id status ∷ fs) = []
payloads route k (f ∷ fs) = payloads route k fs

on_socket-append :
    (k : ℕ) (xs ys : List Tcp) → on_socket k (xs ++ ys) ≡ on_socket k xs ++ on_socket k ys
on_socket-append k [] ys = refl
on_socket-append k (tcp_write j b ∷ xs) ys = ground (arith, on_socket-append k xs ys)
on_socket-append k (tcp_shutdown j ∷ xs) ys = ground (arith, on_socket-append k xs ys)

on_socket-tcp_send :
    (k j flags : ℕ) (bytes : List ℕ)
    → on_socket k (tcp_send j flags bytes) ≡ (if j == k then tcp_send k flags bytes else [])
on_socket-tcp_send k j flags bytes = ground (arith, ==_iff j k)

socket_of_sent :
    {Z D : Type 0} (fs : List Frame) (s : Forward Z D)
    → socket_of (record s { sent = fs }) ≡ socket_of s
unfolding socket_of
socket_of_sent fs s = refl

module _ {Z D : Type 0} (dialer : Dialer) where
  socket_of-forward_data :
      (id flags : ℕ) (bytes : List ℕ) (s : Forward Z D)
      → ((forward_data dialer id flags bytes s).reading ≡ s.reading)
        × (socket_of (forward_data dialer id flags bytes s) ≡ socket_of s)
  unfolding forward_data
  socket_of-forward_data id flags bytes s = go (socket_of s id)
    where
      kept :
          (ts : List Tcp) (js : List ℕ)
          → socket_of (record s { backend = ts; shut = js }) ≡ socket_of s
      kept ts js = unfold socket_of in refl

      go :
          (o : Option ℕ)
          → let t : Forward Z D = elim o [
            | none ↦ s
            | some k ↦ if is_shut k s.shut then s else record s {
              backend = s.backend ++ tcp_send k flags (dialer.write_all k (length s.backend) bytes);
              shut = if has_fin flags then k ∷ s.shut else s.shut;
            }
          ] in
            (t.reading ≡ s.reading) × (socket_of t ≡ socket_of s)
      go none = (refl, refl)
      go (some k) = within (is_shut k s.shut)
        where
          within :
              (b : Bool)
              → let t : Forward Z D = if b then s else record s {
                backend =
                    s.backend ++ tcp_send k flags (dialer.write_all k (length s.backend) bytes);
                shut = if has_fin flags then k ∷ s.shut else s.shut;
              } in
                (t.reading ≡ s.reading) × (socket_of t ≡ socket_of s)
          within true = (refl, refl)
          within false = (refl, kept _ _)

  -- Behind its shutdown a socket is given nothing.
  forward_data_shut :
      (k id flags : ℕ) (bytes : List ℕ) (s : Forward Z D)
      → is_shut k s.shut ≡ true
      → (on_socket k (forward_data dialer id flags bytes s).backend ≡ on_socket k s.backend)
        × (is_shut k (forward_data dialer id flags bytes s).shut ≡ true)
  unfolding forward_data
  forward_data_shut k id flags bytes s h = elim (Option-cases (socket_of s id)) [
    | inl e ↦ ground (arith, h)
    | inr (j, e) ↦
        let got = dialer.write_all j (length s.backend) bytes in
        ground (
          arith,
          h,
          e,
          ==_iff j k,
          on_socket-append k s.backend (tcp_send j flags got),
          on_socket-tcp_send k j flags got,
          append-nil (on_socket k s.backend),
        )
  ]

  forward_data_open :
      (k id flags : ℕ) (bytes : List ℕ) (s : Forward Z D)
      → ((n : ℕ) (x : List ℕ) → dialer.write_all k n x ≡ x)
      → is_shut k s.shut ≡ false
      → (on_socket k (forward_data dialer id flags bytes s).backend
          ≡ on_socket k s.backend
            ++ sent_to (goes_to k (socket_of s id)) (has_fin flags) k bytes [])
        × (is_shut k (forward_data dialer id flags bytes s).shut
            ≡ goes_to k (socket_of s id) && has_fin flags)
  unfolding forward_data
  forward_data_open k id flags bytes s w h = elim (Option-cases (socket_of s id)) [
    | inl e ↦ ground (arith, h, append-nil (on_socket k s.backend))
    | inr (j, e) ↦
        let got = dialer.write_all j (length s.backend) bytes in
        ground (
          arith,
          h,
          e,
          ==_iff j k,
          w (length s.backend) bytes,
          on_socket-append k s.backend (tcp_send j flags got),
          on_socket-tcp_send k j flags got,
          append-nil (on_socket k s.backend),
        )
  ]

module _ {Z D : Type 0} (codec : Codec Z D) (dialer : Dialer) (host : Text)
    (netns : Option Text) where
  forward_loop_off :
      (fs : List Frame) (s : Forward Z D)
      → s.reading ≡ false
      → (forward_loop codec dialer host netns fs s).backend ≡ s.backend
  unfolding forward_loop
  forward_loop_off [] s h = refl
  forward_loop_off (f ∷ fs) s h = ground arith

  forward_loop_on :
      (f : Frame) (fs : List Frame) (s : Forward Z D)
      → s.reading ≡ true
      → forward_loop codec dialer host netns (f ∷ fs) s
        ≡ forward_loop codec dialer host netns fs (forward_frame codec dialer host netns f s)
  unfolding forward_loop
  forward_loop_on f fs s h = ground arith

  forward_loop_shut :
      (k : ℕ) (fs : List Frame) (s : Forward Z D)
      → s.reading ≡ true
      → All OpensNone fs
      → is_shut k s.shut ≡ true
      → on_socket k (forward_loop codec dialer host netns fs s).backend ≡ on_socket k s.backend
  unfolding forward_loop forward_frame
  forward_loop_shut k [] s h opens c = ground arith
  forward_loop_shut k (syn_stream id asc p fl block ∷ fs) s h opens c = absurd opens.0
  forward_loop_shut k (payload_data id fl bytes ∷ fs) s h opens c =
      let one = forward_data_shut dialer k id fl bytes s c in
      ground (
        arith,
        one,
        forward_loop_shut k fs (forward_data dialer id fl bytes s)
            ((socket_of-forward_data dialer id fl bytes s).0 ∙ h) opens.1 one.1,
      )
  forward_loop_shut k (ping id ∷ fs) s h opens c =
      ground
        (arith, forward_loop_shut k fs (record s { sent = s.sent ++ (ping id ∷ []) }) h opens.1 c)
  forward_loop_shut k (rst_stream id st ∷ fs) s h opens c =
      ground (arith, forward_loop_off fs (record s { reading = false }))
  forward_loop_shut k (goaway id st ∷ fs) s h opens c =
      ground (arith, forward_loop_off fs (record s { reading = false }))
  forward_loop_shut k (settings p ∷ fs) s h opens c =
      ground (arith, forward_loop_shut k fs s h opens.1 c)
  forward_loop_shut k (window_update i d ∷ fs) s h opens c =
      ground (arith, forward_loop_shut k fs s h opens.1 c)
  forward_loop_shut k (headers i f b ∷ fs) s h opens c =
      ground (arith, forward_loop_shut k fs s h opens.1 c)
  forward_loop_shut k (syn_reply i f b ∷ fs) s h opens c =
      ground (arith, forward_loop_shut k fs s h opens.1 c)

  -- While the client opens no further stream and the writes to it do not fail before its shutdown, a
  -- backend's connection that is not shut down yet is given exactly the payloads that the client sends
  -- on the streams that are routed to it, in their order and each once, and nothing of any other
  -- stream, up to the first that carries FIN, behind which it is shut down, once, and given nothing
  -- more, or up to the first RST_STREAM or GOAWAY.
  pub forward_loop-on_socket :
      (k : ℕ) (fs : List Frame) (s : Forward Z D)
      → s.reading ≡ true
      → is_shut k s.shut ≡ false
      → ((n : ℕ) (x : List ℕ) → dialer.write_all k n x ≡ x)
      → All OpensNone fs
      → on_socket k (forward_loop codec dialer host netns fs s).backend
        ≡ on_socket k s.backend ++ payloads (socket_of s) k fs
  unfolding forward_loop forward_frame
  forward_loop-on_socket k [] s h c w opens = ground (arith, append-nil (on_socket k s.backend))
  forward_loop-on_socket k (syn_stream id asc p fl block ∷ fs) s h c w opens = absurd opens.0
  forward_loop-on_socket k (payload_data id fl bytes ∷ fs) s h c w opens =
      let t = forward_data dialer id fl bytes s in
      let route = socket_of-forward_data dialer id fl bytes s in
      ap (λ (u : Forward Z D). on_socket k u.backend)
        (forward_loop_on (payload_data id fl bytes) fs s h)
      ∙ go (goes_to k (socket_of s id)) (has_fin fl) (forward_data_open dialer k id fl bytes s w c)
          route.1 (forward_loop_shut k fs t (route.0 ∙ h) opens.1)
          (λ q. forward_loop-on_socket k fs t (route.0 ∙ h) q w opens.1)
    where
      t : Forward Z D
      t = forward_data dialer id fl bytes s

      go :
          (b fin : Bool)
          → (on_socket k t.backend ≡ on_socket k s.backend ++ sent_to b fin k bytes [])
            × (is_shut k t.shut ≡ b && fin)
          → socket_of t ≡ socket_of s
          → (is_shut k t.shut ≡ true
              → on_socket k (forward_loop codec dialer host netns fs t).backend
                ≡ on_socket k t.backend)
          → (is_shut k t.shut ≡ false
              → on_socket k (forward_loop codec dialer host netns fs t).backend
                ≡ on_socket k t.backend ++ payloads (socket_of t) k fs)
          → on_socket k (forward_loop codec dialer host netns fs t).backend
            ≡ on_socket k s.backend ++ sent_to b fin k bytes (payloads (socket_of s) k fs)
      go true true d e closed still = closed d.1 ∙ d.0
      go true false d e closed still =
          still d.1
          ∙ ap (λ (r : ℕ → Option ℕ). on_socket k t.backend ++ payloads r k fs) e
          ∙ ap (λ z. z ++ payloads (socket_of s) k fs) d.0
          ∙ append_assoc (on_socket k s.backend) (tcp_write k bytes ∷ [])
              (payloads (socket_of s) k fs)
      go false fin d e closed still =
          still d.1
          ∙ ap (λ (r : ℕ → Option ℕ). on_socket k t.backend ++ payloads r k fs) e
          ∙ ap (λ z. z ++ payloads (socket_of s) k fs) (d.0 ∙ append-nil (on_socket k s.backend))
  forward_loop-on_socket k (ping id ∷ fs) s h c w opens = ground (
    arith,
    forward_loop-on_socket k fs (record s { sent = s.sent ++ (ping id ∷ []) }) h c w opens.1,
    socket_of_sent (s.sent ++ (ping id ∷ [])) s,
  )
  forward_loop-on_socket k (rst_stream id st ∷ fs) s h c w opens = ground (
    arith,
    forward_loop_off fs (record s { reading = false }),
    append-nil (on_socket k s.backend),
  )
  forward_loop-on_socket k (goaway id st ∷ fs) s h c w opens = ground (
    arith,
    forward_loop_off fs (record s { reading = false }),
    append-nil (on_socket k s.backend),
  )
  forward_loop-on_socket k (settings p ∷ fs) s h c w opens =
      ground (arith, forward_loop-on_socket k fs s h c w opens.1)
  forward_loop-on_socket k (window_update i d ∷ fs) s h c w opens =
      ground (arith, forward_loop-on_socket k fs s h c w opens.1)
  forward_loop-on_socket k (headers i f b ∷ fs) s h c w opens =
      ground (arith, forward_loop-on_socket k fs s h c w opens.1)
  forward_loop-on_socket k (syn_reply i f b ∷ fs) s h c w opens =
      ground (arith, forward_loop-on_socket k fs s h c w opens.1)
