-- ===== src/Stream/Spdy/Reader.antt =====
-- crates/lightr-cri-stream/src/spdy/conn.rs: `read_frame`, which takes frames out of the bytes that
-- arrive on a connection. A stream is the list of what its reads give; its end is the end of input.
pub mod Chunks
use lightr_cri.Prelude.{ℕ, List, [], ◌∷◌, ◌++◌, drop}
use lightr_cri.Prelude.Text.{Text}
use lightr_cri.Stream.Spdy.Frame.{Frame, parsed, need_more, malformed, parse_frame}

-- One `stream.read`: bytes, of which none is the end of the stream, or an I/O error.
pub data Read : Type 0 where
  bytes : List ℕ → Read
  io_error : Text → Read

-- A frame with the buffer and the stream behind it, `Ok(None)`, and the two errors.
pub data ReadResult : Type 0 where
  frame_read : Frame → List ℕ → List Read → ReadResult
  closed : ReadResult
  invalid_data : Text → ReadResult
  failed : Text → ReadResult

-- A round that parses no frame takes one more read.
unfoldable pub read_frame : List Read → List ℕ → ReadResult
read_frame [] buf = elim (parse_frame buf) [
  | parsed f n ↦ frame_read f (drop n buf) []
  | malformed e ↦ invalid_data e
  | need_more ↦ closed
]
read_frame (io_error e ∷ stream) buf = elim (parse_frame buf) [
  | parsed f n ↦ frame_read f (drop n buf) (io_error e ∷ stream)
  | malformed t ↦ invalid_data t
  | need_more ↦ failed e
]
read_frame (bytes [] ∷ stream) buf = elim (parse_frame buf) [
  | parsed f n ↦ frame_read f (drop n buf) (bytes [] ∷ stream)
  | malformed e ↦ invalid_data e
  | need_more ↦ closed
]
read_frame (bytes (b ∷ tmp) ∷ stream) buf = elim (parse_frame buf) [
  | parsed f n ↦ frame_read f (drop n buf) (bytes (b ∷ tmp) ∷ stream)
  | malformed e ↦ invalid_data e
  | need_more ↦ read_frame stream (buf ++ (b ∷ tmp))
]
