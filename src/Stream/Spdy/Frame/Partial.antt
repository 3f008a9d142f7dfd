-- ===== src/Stream/Spdy/Frame/Partial.antt =====
-- frame.rs: `parse_frame` on a buffer that more bytes may still join.
use lightr_cri.Prelude.{
  ℕ, zero, suc, ◌+◌, ◌≤◌, ◌<◌, ◌≡◌, ◌≢◌, refl, ap, List, [], ◌∷◌, ◌++◌, arith, length,
  length-append, take, drop, append-nil,
}
use lightr_cri.Prelude.Text.{at}
use lightr_cri.Stream.Spdy.Frame.{
  Frame, ParseResult, parsed, need_more, malformed, Decoded, good, bad, finish, decode_control,
  frame_length, is_control, control_version, control_type, parse_whole, parse_frame, be_u32, be_u31,
  serialize,
}
use lightr_cri.Stream.Spdy.Frame.RoundTrip.{IsWire, parse_frame-serialize}

at-append : (i : ℕ) (xs ys : List ℕ) → i < length xs → at (xs ++ ys) i ≡ at xs i
at-append i [] ys h = absurd (omega arith)
at-append zero (x ∷ xs) ys h = refl
at-append (suc i) (x ∷ xs) ys h = at-append i xs ys (omega arith)

take-append_le : (n : ℕ) (xs ys : List ℕ) → n ≤ length xs → take n (xs ++ ys) ≡ take n xs
take-append_le zero xs ys h = refl
take-append_le (suc n) [] ys h = absurd (omega arith)
take-append_le (suc n) (x ∷ xs) ys h = ap (λ t. x ∷ t) (take-append_le n xs ys (omega arith))

-- A header of eight bytes reads the same when bytes join behind it.
module _ (buf more : List ℕ) (h : 8 ≤ length buf) where
  byte : (i : ℕ) → i < 8 → at (buf ++ more) i ≡ at buf i
  byte i k = at-append i buf more (omega arith)

  frame_length-append : frame_length (buf ++ more) ≡ frame_length buf
  unfolding frame_length
  frame_length-append = cc (byte 5 (omega arith), byte 6 (omega arith), byte 7 (omega arith))

  be_u31-append : be_u31 (buf ++ more) ≡ be_u31 buf
  unfolding be_u31 be_u32
  be_u31-append =
      cc (byte 0 (omega arith), byte 1 (omega arith), byte 2 (omega arith), byte 3 (omega arith))

parse_whole-append :
    (buf more : List ℕ) (total : ℕ)
    → 8 ≤ length buf
    → total ≤ length buf
    → parse_whole (buf ++ more) total ≡ parse_whole buf total
unfolding parse_whole is_control control_version control_type
parse_whole-append buf more total h k = rw (
  be_u31-append buf more h,
  byte buf more h 0 (omega arith),
  byte buf more h 1 (omega arith),
  byte buf more h 2 (omega arith),
  byte buf more h 3 (omega arith),
  byte buf more h 4 (omega arith),
  take-append_le total buf more k,
)

-- Once `parse_frame` has answered with a frame or an error, bytes that join behind the buffer do
-- not change the answer.
pub parse_frame-append :
    (buf more : List ℕ) → parse_frame buf ≢ need_more → parse_frame (buf ++ more) ≡ parse_frame buf
unfolding parse_frame
parse_frame-append buf more h = ground (
  arith,
  length-append buf more,
  frame_length-append buf more,
  parse_whole-append buf more (8 + frame_length buf),
)

finish_count :
    (d : Decoded) (total : ℕ) (f : Frame) (n : ℕ) → finish d total ≡ parsed f n → n ≡ total
finish_count (good g) total f n e = ground arith
finish_count (bad t) total f n e = cc

parse_whole_count :
    (buf : List ℕ) (total : ℕ) (f : Frame) (n : ℕ) → parse_whole buf total ≡ parsed f n → n ≡ total
unfolding parse_whole
parse_whole_count buf total f n e = ground (
  arith,
  finish_count (decode_control (control_type buf) (at buf 4) (drop 8 (take total buf))) total f n,
)

-- A parse that answers with a frame takes the header's eight bytes at least, and no more than the
-- buffer holds.
pub parse_frame_bounds :
    (buf : List ℕ) (f : Frame) (n : ℕ) → parse_frame buf ≡ parsed f n → (8 ≤ n) × (n ≤ length buf)
unfolding parse_frame
parse_frame_bounds buf f n e = ground (arith, parse_whole_count buf (8 + frame_length buf) f n)

-- Every proper prefix of a serialized frame, whose fields have the widths of the wire, is answered
-- by `need_more`.
pub parse_frame_cut :
    (f : Frame) (front back : List ℕ) (x : ℕ)
    → IsWire f
    → serialize f ≡ front ++ (x ∷ back)
    → parse_frame front ≡ need_more
parse_frame_cut f front back x h e = go (parse_frame front) refl
  where
    whole : parse_frame (front ++ (x ∷ back)) ≡ parsed f (length front + suc (length back))
    whole = rw (append-nil, e, length-append front (x ∷ back)) at (parse_frame-serialize f [] h)

    go : (r : ParseResult) → parse_frame front ≡ r → parse_frame front ≡ need_more
    go (parsed g n) p =
        ground (arith, whole, parse_frame-append front (x ∷ back), parse_frame_bounds front g n p)
    go need_more p = p
    go (malformed t) p = ground (arith, whole, parse_frame-append front (x ∷ back))
