-- ===== src/Stream/Spdy/Frame.antt =====
-- crates/lightr-cri-stream/src/spdy/frame.rs: SPDY/3.1 frames and their bytes. A byte slice is a
-- list of numbers, and an index that the code has checked reads 0 past the end.
pub mod Masks
pub mod RoundTrip
pub mod Partial
use Prim.Native.String.{String}
use lightr_cri.Prelude.{
  ℕ, zero, suc, ◌+◌, ◌*◌, ◌/◌, ◌%◌, ◌^◌, ◌<◌, bit_and, bit_or, Bool, not, List, [], ◌∷◌, ◌++◌, ltb,
  ◌==◌, if◌then◌else◌, length, take, drop, Option, none, some, get_elem?,
}
use lightr_cri.Prelude.Bits.{◌<<◌, ◌>>◌}
use lightr_cri.Prelude.Text.{Text, codes, decimal, at}

abbrev pub spdy_version : ℕ
spdy_version = 3

abbrev pub type_syn_stream : ℕ
type_syn_stream = 1

abbrev pub type_syn_reply : ℕ
type_syn_reply = 2

abbrev pub type_rst_stream : ℕ
type_rst_stream = 3

abbrev pub type_settings : ℕ
type_settings = 4

abbrev pub type_ping : ℕ
type_ping = 6

abbrev pub type_goaway : ℕ
type_goaway = 7

abbrev pub type_headers : ℕ
type_headers = 8

abbrev pub type_window_update : ℕ
type_window_update = 9

abbrev pub flag_fin : ℕ
flag_fin = 0x01

abbrev pub rst_refused_stream : ℕ
rst_refused_stream = 3

-- The fields stand in the order of the source's struct variants.
pub data Frame : Type 0 where
  syn_stream : ℕ → ℕ → ℕ → ℕ → List ℕ → Frame
  syn_reply : ℕ → ℕ → List ℕ → Frame
  rst_stream : ℕ → ℕ → Frame
  settings : List ℕ → Frame
  ping : ℕ → Frame
  goaway : ℕ → ℕ → Frame
  headers : ℕ → ℕ → List ℕ → Frame
  window_update : ℕ → ℕ → Frame
  payload_data : ℕ → ℕ → List ℕ → Frame

-- A frame with the count of bytes that it took.
pub data ParseResult : Type 0 where
  parsed : Frame → ℕ → ParseResult
  need_more : ParseResult
  malformed : Text → ParseResult

-- `u32::from_be_bytes` of the first four bytes.
unfoldable pub be_u32 : List ℕ → ℕ
be_u32 b = at b 0 * 2 ^ 24 + at b 1 * 2 ^ 16 + at b 2 * 2 ^ 8 + at b 3

-- `be_u32(b) & 0x7fff_ffff`, without the reserved bit.
unfoldable pub be_u31 : List ℕ → ℕ
be_u31 b = bit_and (be_u32 b) 0x7fff_ffff

-- What `match ftype` gives: a frame, or the text of an error.
pub data Decoded : Type 0 where
  good : Frame → Decoded
  bad : Text → Decoded

unfoldable pub decode_control : ℕ → ℕ → List ℕ → Decoded
decode_control ftype flags payload =
    if ftype == type_syn_stream
    then (if ltb (length payload) 10
        then bad (codes "short SYN_STREAM")
        else good (
            syn_stream (be_u31 payload) (be_u31 (drop 4 payload)) (at payload 8 >> 5) flags
              (drop 10 payload)))
    else if ftype == type_syn_reply
    then (if ltb (length payload) 4
        then bad (codes "short SYN_REPLY")
        else good (syn_reply (be_u31 payload) flags (drop 4 payload)))
    else if ftype == type_rst_stream
    then (if ltb (length payload) 8
        then bad (codes "short RST_STREAM")
        else good (rst_stream (be_u31 payload) (be_u32 (drop 4 payload))))
    else if ftype == type_settings
    then good (settings payload)
    else if ftype == type_ping
    then (if ltb (length payload) 4 then bad (codes "short PING") else good (ping (be_u32 payload)))
    else if ftype == type_goaway
    then (if ltb (length payload) 8
        then bad (codes "short GOAWAY")
        else good (goaway (be_u31 payload) (be_u32 (drop 4 payload))))
    else if ftype == type_headers
    then (if ltb (length payload) 4
        then bad (codes "short HEADERS")
        else good (headers (be_u31 payload) flags (drop 4 payload)))
    else if ftype == type_window_update
    then (if ltb (length payload) 8
        then bad (codes "short WINDOW_UPDATE")
        else good (window_update (be_u31 payload) (be_u31 (drop 4 payload))))
    else bad (codes "unknown control frame type " ++ decimal ftype)

unfoldable pub frame_length : List ℕ → ℕ
frame_length buf = bit_or (bit_or (at buf 5 << 16) (at buf 6 << 8)) (at buf 7)

unfoldable pub is_control : List ℕ → Bool
is_control buf = not (bit_and (at buf 0) 0x80 == 0)

unfoldable pub control_version : List ℕ → ℕ
control_version buf = bit_or (bit_and (at buf 0) 0x7f << 8) (at buf 1)

unfoldable pub control_type : List ℕ → ℕ
control_type buf = bit_or (at buf 2 << 8) (at buf 3)

abbrev pub finish : Decoded → ℕ → ParseResult
finish (good f) total = parsed f total
finish (bad e) total = malformed e

-- The frame that stands in the first `total` bytes.
unfoldable pub parse_whole : List ℕ → ℕ → ParseResult
parse_whole buf total =
    let payload = drop 8 (take total buf) in
    let flags = at buf 4 in
    if is_control buf
    then (if control_version buf == spdy_version
        then finish (decode_control (control_type buf) flags payload) total
        else malformed (codes "unsupported SPDY version " ++ decimal (control_version buf)))
    else parsed (payload_data (be_u31 buf) flags payload) total

unfoldable pub parse_frame : List ℕ → ParseResult
parse_frame buf =
    if ltb (length buf) 8
    then need_more
    else if ltb (length buf) (8 + frame_length buf)
    then need_more
    else parse_whole buf (8 + frame_length buf)

-- `to_be_bytes` of a u16 and of a u32, and the low three bytes of a length.
unfoldable pub be16 : ℕ → List ℕ
be16 n = (n / 2 ^ 8 % 256) ∷ (n % 256) ∷ []

unfoldable pub be24 : ℕ → List ℕ
be24 n = (n / 2 ^ 16 % 256) ∷ (n / 2 ^ 8 % 256) ∷ (n % 256) ∷ []

unfoldable pub be32 : ℕ → List ℕ
be32 n = (n / 2 ^ 24 % 256) ∷ (n / 2 ^ 16 % 256) ∷ (n / 2 ^ 8 % 256) ∷ (n % 256) ∷ []

unfoldable pub be31 : ℕ → List ℕ
be31 n = be32 (bit_and n 0x7fff_ffff)

unfoldable pub control_header : ℕ → ℕ → ℕ → List ℕ
control_header ftype flags len =
    bit_or 0x80 (spdy_version / 2 ^ 8 % 256) ∷ bit_and spdy_version 0xff ∷ be16 ftype
    ++ flags ∷ be24 len

unfoldable pub serialize : Frame → List ℕ
serialize (syn_reply id flags block) =
    control_header type_syn_reply flags (4 + length block) ++ (be31 id ++ block)
serialize (syn_stream id assoc priority flags block) =
    control_header type_syn_stream flags (10 + length block)
    ++ (be31 id ++ (be31 assoc ++ ((priority << 5 % 256) ∷ 0 ∷ block)))
serialize (headers id flags block) =
    control_header type_headers flags (4 + length block) ++ (be31 id ++ block)
serialize (rst_stream id status) = control_header type_rst_stream 0 8 ++ (be31 id ++ be32 status)
serialize (ping id) = control_header type_ping 0 4 ++ be32 id
serialize (goaway id status) = control_header type_goaway 0 8 ++ (be31 id ++ be32 status)
serialize (settings payload) = control_header type_settings 0 (length payload) ++ payload
serialize (window_update id delta) =
    control_header type_window_update 0 8 ++ (be31 id ++ be31 delta)
serialize (payload_data id flags bytes) = be31 id ++ (flags ∷ be24 (length bytes) ++ bytes)
