-- ===== src/Stream/B64.antt =====
-- crates/lightr-cri-stream/src/b64.rs: base64 by hand, with both alphabets. Texts are lists of bytes.
pub mod RoundTrip
pub mod UrlSafe
use lightr_cri.Prelude.{
  ℕ, zero, suc, ◌+◌, ◌-◌, ◌*◌, ◌/◌, ◌%◌, ◌^◌, bit_and, bit_or, Bool, true, false, ◌||◌, List, [],
  ◌∷◌, ◌++◌, Option, none, some, leb, ◌==◌, if◌then◌else◌,
}
use lightr_cri.Prelude.Bits.{◌<<◌, ◌>>◌}
use lightr_cri.Prelude.Text.{Text, codes, at}

unfoldable pub std_alphabet : Text
std_alphabet = codes "ABCDEFGHIJKLMNOPQRSTUVWXYZabcdefghijklmnopqrstuvwxyz0123456789+/"

unfoldable pub url_alphabet : Text
url_alphabet = codes "ABCDEFGHIJKLMNOPQRSTUVWXYZabcdefghijklmnopqrstuvwxyz0123456789-_"

-- `alphabet[((n >> k) & 0x3f) as usize]`.
unfoldable pub sextet : Text → ℕ → ℕ → ℕ
sextet alphabet n k = at alphabet (bit_and (n >> k) 0x3f)

-- The chunks of three bytes, and what `remainder` leaves.
unfoldable pub encode_with : Text → Bool → List ℕ → Text
encode_with alphabet pad (a ∷ b ∷ c ∷ rest) =
    let n = bit_or (bit_or (a << 16) (b << 8)) c in
    sextet alphabet n 18
    ∷ sextet alphabet n 12
    ∷ sextet alphabet n 6
    ∷ sextet alphabet n 0
    ∷ encode_with alphabet pad rest
encode_with alphabet pad (a ∷ b ∷ []) =
    let n = bit_or (a << 16) (b << 8) in
    sextet alphabet n 18
    ∷ sextet alphabet n 12
    ∷ sextet alphabet n 6
    ∷ (if pad then codes "=" else [])
encode_with alphabet pad (a ∷ []) =
    let n = a << 16 in
    sextet alphabet n 18 ∷ sextet alphabet n 12 ∷ (if pad then codes "==" else [])
encode_with alphabet pad [] = []

unfoldable pub encode_url_nopad : List ℕ → Text
encode_url_nopad = encode_with url_alphabet false

unfoldable pub encode_std : List ℕ → Text
encode_std = encode_with std_alphabet true

-- `position` counts from `i`.
unfoldable pub decode_value_from : ℕ → Text → ℕ → Option ℕ
decode_value_from i [] b = none
decode_value_from i (c ∷ alphabet) b =
    if c == b then some i else decode_value_from (i + 1) alphabet b

unfoldable pub decode_value : Text → ℕ → Option ℕ
unfolding decode_value_from
decode_value = decode_value_from 0

unfoldable pub is_skipped : ℕ → Bool
is_skipped b = b == b'=' || b == 13 || b == 10

-- The u32 accumulator loses what `<< 6` shifts out.
unfoldable pub decode_loop : Text → ℕ → ℕ → List ℕ → Option (List ℕ)
decode_loop [] acc nbits out = some out
decode_loop (b ∷ input) acc nbits out = elim (is_skipped b) [
  | true ↦ decode_loop input acc nbits out
  | false ↦ elim (decode_value std_alphabet b) [
    | none ↦ none
    | some v ↦
        let acc' = bit_or (acc << 6 % 2 ^ 32) v in
        if leb 8 (nbits + 6)
        then decode_loop input acc' (nbits + 6 - 8) (out ++ ((acc' >> (nbits + 6 - 8) % 256) ∷ []))
        else decode_loop input acc' (nbits + 6) out
  ]
]

unfoldable pub decode_std : Text → Option (List ℕ)
decode_std input = decode_loop input 0 0 []
