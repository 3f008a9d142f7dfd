-- ===== src/Stream/Spdy/PortForward/Handshake.antt =====
-- crates/lightr-cri-stream/src/spdy/conn.rs: the opening of a pair of streams in `run_portforward`.
use lightr_cri.Prelude.{
  ℕ, ◌≡◌, refl, Bool, true, false, List, [], ◌∷◌, ◌++◌, none, some, arith, Option, ◌==◌, append-nil,
  if◌then◌else◌, append_assoc, suc,
}
use lightr_cri.Prelude.Map.{text_key, nat_key, get, get-insert_self}
use lightr_cri.Prelude.Text.{Text, codes}
use lightr_cri.Stream.Spdy.Frame.{
  Frame, syn_reply, rst_stream, payload_data, flag_fin, rst_refused_stream,
}
use lightr_cri.Stream.Spdy.Headers.{serialize_headers}
use lightr_cri.Stream.Spdy.Exec.{Codec, read_headers}
use lightr_cri.Stream.Spdy.PortForward.{
  Dialer, Forward, Pair, dial_pf, dial_failed, socket_of, open_forward, open_data, open_error,
  accept, port_of, request_id, is_error_stream, pair_entry,
}

module _ {Z D : Type 0} where
  open_data_lem :
      (b : Bool) (req : Text) (id : ℕ) (entry : Pair) (s : Forward Z D)
      → entry.tcp ≡ none
      → (socket_of (open_data b req id entry s) id ≡ (if b then some s.dials else none))
        × ((open_data b req id entry s).sent
            ≡ s.sent ++ (if b then [] else dial_failed entry.error_stream id))
        × ((open_data b req id entry s).dials ≡ suc s.dials)
  unfolding open_data socket_of
  open_data_lem true req id entry s h = ground (
    arith,
    get-insert_self id req s.data_route,
    get-insert_self req (record entry { data_stream = some id; tcp = some s.dials }) s.pairs,
    append-nil s.sent,
  )
  open_data_lem false req id entry s h = ground (
    arith,
    get-insert_self id req s.data_route,
    get-insert_self req (record entry { data_stream = some id }) s.pairs,
  )

module _ {Z D : Type 0} (codec : Codec Z D) (dialer : Dialer) (host : Text) (netns : Option Text)
    (eid did : ℕ) (block1 block2 : List ℕ) where
  -- The SYN_REPLY without headers that a stream is answered with.
  abbrev pub replied : ℕ → Z → Frame
  replied id comp = syn_reply id 0 (codec.compress comp (serialize_headers [])).0

  open_error_lem :
      (s : Forward Z D) (hdr : List (Text × Text)) (d : D)
      → read_headers codec s.decomp block1 ≡ (hdr, d)
      → is_error_stream hdr ≡ true
      → get (request_id hdr) s.pairs ≡ none
      → let t = open_forward codec dialer host netns eid block1 s in
        (get (request_id hdr) t.pairs
          ≡ some (record {
            port = port_of hdr;
            data_stream = none;
            error_stream = some eid;
            tcp = none;
          }))
        × (t.sent ≡ s.sent ++ (replied eid s.comp ∷ []))
        × (t.dials ≡ s.dials)
        × (t.decomp ≡ d)
        × (t.comp ≡ (codec.compress s.comp (serialize_headers [])).1)
  unfolding open_forward open_error accept pair_entry
  open_error_lem s hdr d e k n = ground (
    arith,
    get-insert_self (request_id hdr)
        (record { port = port_of hdr; data_stream = none; error_stream = some eid; tcp = none })
        s.pairs,
  )

  reply_lem :
      (id : ℕ) (block : List ℕ) (s : Forward Z D)
      → ((accept codec id block s).sent ≡ s.sent ++ (replied id s.comp ∷ []))
        × ((accept codec id block s).dials ≡ s.dials)
        × ((accept codec id block s).pairs ≡ s.pairs)
  unfolding accept
  reply_lem id block s = (refl, refl, refl)

  open_forward_data :
      (s : Forward Z D) (pair : Pair) (hdr : List (Text × Text)) (d : D)
      → read_headers codec s.decomp block2 ≡ (hdr, d)
      → is_error_stream hdr ≡ false
      → get (request_id hdr) s.pairs ≡ some pair
      → let entry = pair_entry (some pair) (port_of hdr) in
        open_forward codec dialer host netns did block2 s
        ≡ open_data
            (dial_pf dialer s.dials host entry.port netns)
            (request_id hdr)
            did
            entry
            (accept codec did block2 s)
  unfolding open_forward
  open_forward_data s pair hdr d e k n = ground arith

  -- The client opens the error stream of a request of which nothing is known yet, and then its data
  -- stream. One dial is made, with the first port that is not 0 of the two streams. Where it
  -- succeeds, the Data frames of the data stream go to the new connection and nothing but the two
  -- replies is sent. Where it fails, they go nowhere, and the client is sent, after the replies, the
  -- text `dial failed` with FIN on the error stream and RST_STREAM on the data stream and on the
  -- error stream.
  pub open_forward-open_forward :
      (s : Forward Z D) (hdr1 hdr2 : List (Text × Text)) (d1 d2 : D)
      → read_headers codec s.decomp block1 ≡ (hdr1, d1)
      → read_headers codec d1 block2 ≡ (hdr2, d2)
      → is_error_stream hdr1 ≡ true
      → is_error_stream hdr2 ≡ false
      → request_id hdr1 ≡ request_id hdr2
      → get (request_id hdr1) s.pairs ≡ none
      → let t =
          open_forward codec dialer host netns did block2
            (open_forward codec dialer host netns eid block1 s) in
        let port = if port_of hdr1 == 0 then port_of hdr2 else port_of hdr1 in
        let dialled = dial_pf dialer s.dials host port netns in
        (socket_of t did ≡ (if dialled then some s.dials else none))
        × (t.dials ≡ suc s.dials)
        × (t.sent
            ≡ (s.sent
                ++ (replied eid s.comp
                    ∷ replied did (codec.compress s.comp (serialize_headers [])).1
                    ∷ []))
              ++ (if dialled
                  then []
                  else (payload_data eid flag_fin (codes "dial failed")
                      ∷ rst_stream did rst_refused_stream
                      ∷ rst_stream eid rst_refused_stream
                      ∷ [])))
  unfolding pair_entry dial_failed
  open_forward-open_forward s hdr1 hdr2 d1 d2 e1 e2 k1 k2 r n =
      let s1 = open_forward codec dialer host netns eid block1 s in
      let pair : Pair = record {
        port = port_of hdr1;
        data_stream = none;
        error_stream = some eid;
        tcp = none;
      } in
      let entry = pair_entry (some pair) (port_of hdr2) in
      let dialled = dial_pf dialer s1.dials host entry.port netns in
      let t1 = accept codec did block2 s1 in
      let first = open_error_lem s hdr1 d1 e1 k1 n in
      let second = open_forward_data s1 pair hdr2 d2 (rw first.3 e2) k2 (rw⁻¹ r first.0) in
      let both = open_data_lem dialled (request_id hdr2) did entry t1 (ground arith) in
      let answered = reply_lem did block2 s1 in
      let reply1 : List Frame = replied eid s.comp ∷ [] in
      let reply2 : List Frame = replied did (codec.compress s.comp (serialize_headers [])).1 ∷ [] in
      ground (arith, first, second, both, answered, append_assoc s.sent reply1 reply2)
