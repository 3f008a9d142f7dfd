-- ===== src/Stream/Channel.antt =====
-- crates/lightr-cri-stream/src/channel.rs: the channel byte and the two framings of the WebSocket path.
pub mod RoundTrip
use lightr_cri.Prelude.{
  ℕ, ◌+◌, ◌-◌, ◌&&◌, Bool, List, [], ◌∷◌, Option, none, some, leb, if◌then◌else◌,
}
use lightr_cri.Prelude.Text.{Text}
use lightr_cri.Stream.B64.{encode_std, decode_std}

abbrev pub stdin_channel : ℕ
stdin_channel = 0

abbrev pub stdout_channel : ℕ
stdout_channel = 1

abbrev pub stderr_channel : ℕ
stderr_channel = 2

abbrev pub error_channel : ℕ
error_channel = 3

abbrev pub resize_channel : ℕ
resize_channel = 4

unfoldable pub encode_binary : ℕ → List ℕ → List ℕ
encode_binary channel payload = channel ∷ payload

unfoldable pub decode_binary : List ℕ → Option (ℕ × List ℕ)
decode_binary [] = none
decode_binary (c ∷ rest) = some (c, rest)

-- A digit for the channel, which callers keep to 9 at most, before the base64 of the payload.
unfoldable pub encode_base64 : ℕ → List ℕ → Text
encode_base64 channel payload = (b'0' + channel) ∷ encode_std payload

abbrev pub is_ascii_digit : ℕ → Bool
is_ascii_digit b = leb b'0' b && leb b b'9'

abbrev with_channel : ℕ → Option (List ℕ) → Option (ℕ × List ℕ)
with_channel c none = none
with_channel c (some payload) = some (c, payload)

unfoldable pub decode_base64 : Text → Option (ℕ × List ℕ)
decode_base64 [] = none
decode_base64 (first ∷ rest) =
    if is_ascii_digit first then with_channel (first - b'0') (decode_std rest) else none

-- `parse_resize` over what the deserializer gives, the size of each object or an error: the last
-- size before the first error.
unfoldable pub parse_resize : List (Option (ℕ × ℕ)) → Option (ℕ × ℕ) → Option (ℕ × ℕ)
parse_resize [] last = last
parse_resize (none ∷ rest) last = last
parse_resize (some sz ∷ rest) last = parse_resize rest (some sz)
