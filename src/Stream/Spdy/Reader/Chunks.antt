-- ===== src/Stream/Spdy/Reader/Chunks.antt =====
-- conn.rs: the frames that `read_frame` takes out do not depend on how the bytes were cut into reads.
use lightr_cri.Prelude.{
  ℕ, ◌≡◌, inl, inr, refl, ap, ◌∙◌, List, [], ◌∷◌, ◌++◌, arith, length, length-append, drop,
  drop-append, append_assoc, append-eq-append, All,
}
use lightr_cri.Stream.Spdy.Frame.{Frame, parsed, parse_frame, serialize}
use lightr_cri.Stream.Spdy.Frame.RoundTrip.{IsWire, parse_frame-serialize}
use lightr_cri.Stream.Spdy.Frame.Partial.{parse_frame_cut}
use lightr_cri.Stream.Spdy.Reader.{
  Read, bytes, io_error, ReadResult, frame_read, closed, read_frame,
}

-- A stream of reads that all give a byte at least, and what they give together.
abbrev pub Flows : List Read → Type 0
Flows [] = Unit {0}
Flows (io_error e ∷ stream) = ⊥
Flows (bytes [] ∷ stream) = ⊥
Flows (bytes (b ∷ tmp) ∷ stream) = Flows stream

abbrev pub content : List Read → List ℕ
content [] = []
content (io_error e ∷ stream) = content stream
content (bytes bs ∷ stream) = bs ++ content stream

-- The frame is taken out, and what is left reads on as `tail`.
abbrev pub Takes : ReadResult → Frame → List ℕ → Type 0
Takes r f tail =
    (buf : List ℕ) × (stream : List Read) × (r ≡ frame_read f buf stream)
    × (buf ++ content stream ≡ tail)
    × Flows stream

parse_frame-whole_prefix :
    (f : Frame) (buf m : List ℕ)
    → IsWire f
    → buf ≡ serialize f ++ m
    → (parse_frame buf ≡ parsed f (length (serialize f))) × (drop (length (serialize f)) buf ≡ m)
parse_frame-whole_prefix f buf m w e =
    (rw e (parse_frame-serialize f m w), rw e (drop-append _ (serialize f) m refl))

-- Whatever way the bytes of a serialized frame and of what follows it are cut into reads, the frame
-- is read, and buffer and stream then hold what follows it.
pub read_frame-serialize :
    (stream : List Read) (buf : List ℕ) (f : Frame) (tail : List ℕ)
    → IsWire f
    → Flows stream
    → buf ++ content stream ≡ serialize f ++ tail
    → Takes (read_frame stream buf) f tail
unfolding read_frame
read_frame-serialize [] buf f tail w h e = elim (append-eq-append buf [] (serialize f) tail e) [
  | inl (m, p, q) ↦
      let (here, rest) = parse_frame-whole_prefix f buf m w p in
      (drop (length (serialize f)) buf, [], rw (here, read_frame), rw rest q, tt)
  | inr (x, back, p) ↦ absurd (
      omega (
        arith,
        ap length e,
        ap length p,
        length-append buf [],
        length-append (serialize f) tail,
        length-append buf (x ∷ back),
      ))
]
read_frame-serialize (io_error t ∷ stream) buf f tail w h e = absurd h
read_frame-serialize (bytes [] ∷ stream) buf f tail w h e = absurd h
read_frame-serialize (bytes (b ∷ tmp) ∷ stream) buf f tail w h e =
    elim (append-eq-append buf (b ∷ tmp ++ content stream) (serialize f) tail e) [
      | inl (m, p, q) ↦
          let (here, rest) = parse_frame-whole_prefix f buf m w p in
          (
            drop (length (serialize f)) buf,
            bytes (b ∷ tmp) ∷ stream,
            rw (here, read_frame),
            rw rest q,
            h,
          )
      | inr (x, back, p) ↦
          rw (parse_frame_cut f buf back x w p, read_frame)
            (read_frame-serialize stream (buf ++ (b ∷ tmp)) f tail w h
              (append_assoc buf (b ∷ tmp) (content stream) ∙ e))
    ]

-- The bytes of a list of frames.
abbrev pub serialize_all : List Frame → List ℕ
serialize_all [] = []
serialize_all (f ∷ fs) = serialize f ++ serialize_all fs

-- `fs` come out of the stream one after the other, and then the connection reads as closed.
abbrev pub Delivers : List Read → List ℕ → List Frame → Type 0
Delivers stream buf [] = read_frame stream buf ≡ closed
Delivers stream buf (f ∷ fs) =
    (buf' : List ℕ) × (stream' : List Read) × (read_frame stream buf ≡ frame_read f buf' stream')
    × Delivers stream' buf' fs

read_frame-end :
    (stream : List Read) (buf : List ℕ)
    → Flows stream
    → buf ++ content stream ≡ []
    → read_frame stream buf ≡ closed
unfolding read_frame parse_frame
read_frame-end [] [] h e = refl
read_frame-end [] (b ∷ buf) h e = cc
read_frame-end (io_error t ∷ stream) buf h e = absurd h
read_frame-end (bytes [] ∷ stream) buf h e = absurd h
read_frame-end (bytes (b ∷ tmp) ∷ stream) [] h e = cc
read_frame-end (bytes (b ∷ tmp) ∷ stream) (c ∷ buf) h e = cc

-- The bytes of a list of frames, cut into reads in any way, are read as those frames in order, and
-- then as the end of the connection.
pub read_frame-serialize_all :
    (fs : List Frame) (stream : List Read) (buf : List ℕ)
    → All IsWire fs
    → Flows stream
    → buf ++ content stream ≡ serialize_all fs
    → Delivers stream buf fs
read_frame-serialize_all [] stream buf w h e = read_frame-end stream buf h e
read_frame-serialize_all (f ∷ fs) stream buf w h e =
    let (buf', stream', r, rest, h') =
      read_frame-serialize stream buf f (serialize_all fs) w.0 h e in
    (buf', stream', r, read_frame-serialize_all fs stream' buf' w.1 h' rest)
