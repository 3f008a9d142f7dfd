-- ===== src/Stream/Spdy/Frame/RoundTrip.antt =====
-- frame.rs: `parse_frame` against `serialize`, on whole frames and what follows them.
use lightr_cri.Prelude.{
  ℕ, ◌+◌, ◌/◌, ◌%◌, ◌^◌, ◌≤◌, ◌<◌, ◌≡◌, refl, ap, ◌∙◌, List, [], ◌∷◌, ◌++◌, arith, length,
  length-append, take, drop, take-append, append_assoc, bit_and,
}
use lightr_cri.Prelude.Bits.{◌<<◌}
use lightr_cri.Stream.Spdy.Frame.{
  Frame, syn_stream, syn_reply, rst_stream, settings, ping, goaway, headers, window_update,
  payload_data, parsed, good, finish, decode_control, frame_length, is_control, control_version,
  parse_whole, parse_frame, be16, be24, be32, be31, control_header, serialize,
}
use lightr_cri.Stream.Spdy.Frame.Masks.{
  be_u32-be32, be_u31-be31, frame_length-be24, control_type-be16, is_control-be31,
}

-- The frames whose fields have the widths of the wire format.
abbrev pub IsWire : Frame → Type 0
IsWire (syn_stream id assoc priority flags block) =
    (id < 2 ^ 31) × (assoc < 2 ^ 31) × (priority < 8) × (10 + length block < 2 ^ 24)
IsWire (syn_reply id flags block) = (id < 2 ^ 31) × (4 + length block < 2 ^ 24)
IsWire (rst_stream id status) = (id < 2 ^ 31) × (status < 2 ^ 32)
IsWire (settings payload) = length payload < 2 ^ 24
IsWire (ping id) = id < 2 ^ 32
IsWire (goaway id status) = (id < 2 ^ 31) × (status < 2 ^ 32)
IsWire (headers id flags block) = (id < 2 ^ 31) × (4 + length block < 2 ^ 24)
IsWire (window_update id delta) = (id < 2 ^ 31) × (delta < 2 ^ 31)
IsWire (payload_data id flags bytes) = (id < 2 ^ 31) × (length bytes < 2 ^ 24)

parse_frame-whole :
    (buf : List ℕ) (n : ℕ)
    → frame_length buf ≡ n
    → 8 + n ≤ length buf
    → parse_frame buf ≡ parse_whole buf (8 + n)
unfolding parse_frame
parse_frame-whole buf n e h = ground arith

-- Eight header bytes whose length field is that of the payload behind them.
module _ (b0 b1 b2 b3 b4 : ℕ) (payload rest : List ℕ) (fits : length payload < 2 ^ 24) where
  abbrev framed : List ℕ
  framed = b0 ∷ b1 ∷ b2 ∷ b3 ∷ b4 ∷ be24 (length payload) ++ payload

  length-framed : length framed ≡ 8 + length payload
  unfolding be24
  length-framed = omega arith

  parse_frame-framed :
      parse_frame (framed ++ rest) ≡ parse_whole (framed ++ rest) (8 + length payload)
  parse_frame-framed =
      parse_frame-whole (framed ++ rest) (length payload)
        (ap (λ t. frame_length (b0 ∷ b1 ∷ b2 ∷ b3 ∷ b4 ∷ t))
            (append_assoc (be24 (length payload)) payload rest)
          ∙ frame_length-be24 b0 b1 b2 b3 b4 (length payload) (payload ++ rest) fits)
        (omega (arith, length-append framed rest, length-framed))

  payload-framed : drop 8 (take (8 + length payload) (framed ++ rest)) ≡ payload
  unfolding be24
  payload-framed = rw (take-append (8 + length payload) framed rest length-framed)

-- A control frame parses to what its type and payload decode to.
parse_frame-control :
    (ftype flags : ℕ) (payload rest : List ℕ)
    → ftype < 2 ^ 16
    → length payload < 2 ^ 24
    → parse_frame ((control_header ftype flags (length payload) ++ payload) ++ rest)
      ≡ finish (decode_control ftype flags payload) (8 + length payload)
unfolding control_header be16
parse_frame-control ftype flags payload rest ht hl =
    parse_frame-framed 0x80 3 (ftype / 2 ^ 8 % 256) (ftype % 256) flags payload rest hl
    ∙ unfold parse_whole is_control control_version in
      rw (payload-framed 0x80 3 (ftype / 2 ^ 8 % 256) (ftype % 256) flags payload rest hl) (
        ap (λ t. finish (decode_control t flags payload) (8 + length payload))
          (control_type-be16 0x80 3 ftype (flags ∷ (be24 (length payload) ++ payload) ++ rest) ht))

parse_frame-data :
    (id flags : ℕ) (bytes rest : List ℕ)
    → id < 2 ^ 31
    → length bytes < 2 ^ 24
    → parse_frame (serialize (payload_data id flags bytes) ++ rest)
      ≡ parsed (payload_data id flags bytes) (8 + length bytes)
unfolding serialize be31 be32
parse_frame-data id flags bytes rest hi hl =
    let n = bit_and id 0x7fff_ffff in
    let b0 = n / 2 ^ 24 % 256 in
    let b1 = n / 2 ^ 16 % 256 in
    let b2 = n / 2 ^ 8 % 256 in
    let b3 = n % 256 in
    parse_frame-framed b0 b1 b2 b3 flags bytes rest hl
    ∙ unfold parse_whole in
      rw (payload-framed b0 b1 b2 b3 flags bytes rest hl) (
        rw (is_control-be31 id (flags ∷ (be24 (length bytes) ++ bytes) ++ rest))
          (rw (be_u31-be31 id (flags ∷ (be24 (length bytes) ++ bytes) ++ rest) hi)))

module _ (id : ℕ) (hi : id < 2 ^ 31) where
  decode-syn_stream :
      (assoc priority flags : ℕ) (block : List ℕ)
      → assoc < 2 ^ 31
      → priority < 8
      → decode_control 1 flags (be31 id ++ (be31 assoc ++ ((priority << 5 % 256) ∷ 0 ∷ block)))
        ≡ good (syn_stream id assoc priority flags block)
  unfolding decode_control be31 be32
  decode-syn_stream assoc priority flags block ha hp =
      let back = (priority << 5 % 256) ∷ 0 ∷ block in
      ground (arith, be_u31-be31 id (be31 assoc ++ back) hi, be_u31-be31 assoc back ha)

  decode-syn_reply :
      (flags : ℕ) (block : List ℕ)
      → decode_control 2 flags (be31 id ++ block) ≡ good (syn_reply id flags block)
  unfolding decode_control be31 be32
  decode-syn_reply flags block = ground (arith, be_u31-be31 id block hi)

  decode-headers :
      (flags : ℕ) (block : List ℕ)
      → decode_control 8 flags (be31 id ++ block) ≡ good (headers id flags block)
  unfolding decode_control be31 be32
  decode-headers flags block = ground (arith, be_u31-be31 id block hi)

  decode-rst_stream :
      (status : ℕ)
      → status < 2 ^ 32
      → decode_control 3 0 (be31 id ++ be32 status) ≡ good (rst_stream id status)
  unfolding decode_control be31 be32
  decode-rst_stream status hs =
      ground (arith, be_u31-be31 id (be32 status) hi, be_u32-be32 status [] hs)

  decode-goaway :
      (status : ℕ)
      → status < 2 ^ 32
      → decode_control 7 0 (be31 id ++ be32 status) ≡ good (goaway id status)
  unfolding decode_control be31 be32
  decode-goaway status hs =
      ground (arith, be_u31-be31 id (be32 status) hi, be_u32-be32 status [] hs)

  decode-window_update :
      (delta : ℕ)
      → delta < 2 ^ 31
      → decode_control 9 0 (be31 id ++ be31 delta) ≡ good (window_update id delta)
  unfolding decode_control be31 be32
  decode-window_update delta hd =
      ground (arith, be_u31-be31 id (be31 delta) hi, be_u31-be31 delta [] hd)

decode-ping : (id : ℕ) → id < 2 ^ 32 → decode_control 6 0 (be32 id) ≡ good (ping id)
unfolding decode_control be32
decode-ping id h = ground (arith, be_u32-be32 id [] h)

length-control :
    (ftype flags n : ℕ) (payload : List ℕ)
    → length (control_header ftype flags n ++ payload) ≡ 8 + length payload
unfolding control_header be16 be24
length-control ftype flags n payload = omega arith

parse_frame-decoded :
    (ftype flags n : ℕ) (payload rest : List ℕ) (f : Frame)
    → ftype < 2 ^ 16
    → n < 2 ^ 24
    → length payload ≡ n
    → decode_control ftype flags payload ≡ good f
    → parse_frame ((control_header ftype flags n ++ payload) ++ rest)
      ≡ parsed f (length (control_header ftype flags n ++ payload))
parse_frame-decoded ftype flags n payload rest f ht hn e d =
    rw (length-control ftype flags n payload) (
      rw (← e) (
        parse_frame-control ftype flags payload rest ht (omega arith)
        ∙ ap (λ t. finish t (8 + length payload)) d))

-- A serialized frame whose fields have the widths of the wire is parsed back, with the count of its
-- bytes, whatever follows it in the buffer.
pub parse_frame-serialize :
    (f : Frame) (rest : List ℕ)
    → IsWire f
    → parse_frame (serialize f ++ rest) ≡ parsed f (length (serialize f))
unfolding serialize be31 be32
parse_frame-serialize (syn_stream id assoc priority flags block) rest (hi, ha, hp, hb) =
    parse_frame-decoded 1 flags (10 + length block) _ rest _ (omega arith) hb (omega arith)
      (decode-syn_stream id hi assoc priority flags block ha hp)
parse_frame-serialize (syn_reply id flags block) rest (hi, hb) =
    parse_frame-decoded 2 flags (4 + length block) _ rest _ (omega arith) hb (omega arith)
      (decode-syn_reply id hi flags block)
parse_frame-serialize (rst_stream id status) rest (hi, hs) =
    parse_frame-decoded 3 0 8 _ rest _ (omega arith) (omega arith) refl
      (decode-rst_stream id hi status hs)
parse_frame-serialize (settings payload) rest h =
    parse_frame-decoded 4 0 (length payload) payload rest _ (omega arith) h refl
      (unfold decode_control in refl)
parse_frame-serialize (ping id) rest h =
    parse_frame-decoded 6 0 4 _ rest _ (omega arith) (omega arith) refl (decode-ping id h)
parse_frame-serialize (goaway id status) rest (hi, hs) =
    parse_frame-decoded 7 0 8 _ rest _ (omega arith) (omega arith) refl
      (decode-goaway id hi status hs)
parse_frame-serialize (headers id flags block) rest (hi, hb) =
    parse_frame-decoded 8 flags (4 + length block) _ rest _ (omega arith) hb (omega arith)
      (decode-headers id hi flags block)
parse_frame-serialize (window_update id delta) rest (hi, hd) =
    parse_frame-decoded 9 0 8 _ rest _ (omega arith) (omega arith) refl
      (decode-window_update id hi delta hd)
parse_frame-serialize (payload_data id flags bytes) rest (hi, hb) =
    parse_frame-data id flags bytes rest hi hb
    ∙ ap (parsed (payload_data id flags bytes)) (unfold be24 in omega arith)
