-- ===== src/Stream/Channel/RoundTrip.antt =====
-- channel.rs: what one side frames the other side reads.
use lightr_cri.Prelude.{ℕ, ◌≤◌, ◌≡◌, refl, List, some, arith, All}
use lightr_cri.Stream.B64.RoundTrip.{IsByte, decode_std-encode_std}
use lightr_cri.Stream.Channel.{encode_base64, decode_base64, encode_binary, decode_binary}

-- Both framings give back channel and payload, for a channel of one digit and a payload of bytes.
pub decode-encode :
    (channel : ℕ) (payload : List ℕ)
    → channel ≤ 9
    → All IsByte payload
    → (decode_base64 (encode_base64 channel payload) ≡ some (channel, payload))
      × (decode_binary (encode_binary channel payload) ≡ some (channel, payload))
unfolding decode_base64 encode_base64 decode_binary encode_binary
decode-encode channel payload h hp = (ground (arith, decode_std-encode_std payload hp), refl)
