-- ===== src/Stream/B64/UrlSafe.antt =====
-- b64.rs: the length and the letters of what `encode_url_nopad` writes, which tokens are made of.
use lightr_cri.Prelude.{
  ℕ, ◌+◌, ◌*◌, ◌/◌, ◌≡◌, refl, Bool, true, ◌&&◌, ◌||◌, List, [], ◌∷◌, arith, leb, ◌==◌, length, All,
  all_below, all_below_sound, bit_and,
}
use lightr_cri.Prelude.Bits.{◌>>◌, bit_and-low_mask}
use lightr_cri.Prelude.Text.{Text, at}
use lightr_cri.Stream.B64.{url_alphabet, sextet, encode_with, encode_url_nopad}

-- A letter, a digit, `-` or `_`: what stands in a URL as it is.
abbrev pub is_url_safe : ℕ → Bool
is_url_safe c =
    (leb b'A' c && leb c b'Z')
    || ((leb b'a' c && leb c b'z') || ((leb b'0' c && leb c b'9') || ((c == b'-') || (c == b'_'))))

safe_table : all_below 64 (λ i. is_url_safe (at url_alphabet i)) ≡ true
unfolding url_alphabet all_below
safe_table = refl

sextet-safe : (n k : ℕ) → is_url_safe (sextet url_alphabet n k) ≡ true
unfolding sextet
sextet-safe n k =
    all_below_sound 64 _ safe_table (bit_and (n >> k) 0x3f)
      (ground (arith, bit_and-low_mask 6 (n >> k)))

abbrev pub IsUrlSafe : Text → Type 0
IsUrlSafe t = All (λ c. is_url_safe c ≡ true) t

-- The text for n bytes has (4n + 2) / 3 letters, eight for six bytes, and each of them is a letter, a digit,
-- `-` or `_`.
pub encode_url_nopad-IsUrlSafe :
    (xs : List ℕ)
    → (length (encode_url_nopad xs) ≡ (4 * length xs + 2) / 3) × IsUrlSafe (encode_url_nopad xs)
unfolding encode_url_nopad encode_with
encode_url_nopad-IsUrlSafe [] = (omega arith, tt)
encode_url_nopad-IsUrlSafe (a ∷ []) = (omega arith, (sextet-safe _ 18, (sextet-safe _ 12, tt)))
encode_url_nopad-IsUrlSafe (a ∷ b ∷ []) =
    (omega arith, (sextet-safe _ 18, (sextet-safe _ 12, (sextet-safe _ 6, tt))))
encode_url_nopad-IsUrlSafe (a ∷ b ∷ c ∷ xs) =
    let (n, rest) = encode_url_nopad-IsUrlSafe xs in
    (
      omega (arith, n),
      (sextet-safe _ 18, (sextet-safe _ 12, (sextet-safe _ 6, (sextet-safe _ 0, rest)))),
    )
