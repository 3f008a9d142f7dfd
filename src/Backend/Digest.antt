-- ===== src/Backend/Digest.antt =====
-- crates/lightr-cri-backend/src/vocab.rs: `Digest::to_hex` and `Digest::from_hex`. A digest is the
-- list of its bytes, which the array type keeps at 32.
use lightr_cri.Prelude.{
  ℕ, ◌+◌, ◌-◌, ◌*◌, ◌/◌, ◌%◌, ◌<◌, ◌≡◌, refl, ◌&&◌, bit_and, bit_or, List, [], ◌∷◌, Option, none,
  some, ltb, leb, ◌==◌, if◌then◌else◌, length, All, arith,
}
use lightr_cri.Prelude.Bits.{◌<<◌, ◌>>◌, bit_and-low_mask, bit_or-shifted}
use lightr_cri.Prelude.Text.{Text}

-- `char::from_digit(d, 16)`, on the digits below 16 that the code passes.
unfoldable pub from_digit : ℕ → ℕ
from_digit d = if ltb d 10 then 48 + d else 87 + d

-- `to_digit(16)`.
unfoldable pub to_digit : ℕ → Option ℕ
to_digit c =
    if leb 48 c && leb c 57
    then some (c - 48)
    else if leb 97 c && leb c 102
    then some (c - 87)
    else if leb 65 c && leb c 70
    then some (c - 55)
    else none

unfoldable pub to_hex : List ℕ → Text
to_hex [] = []
to_hex (b ∷ bs) = from_digit (b >> 4) ∷ from_digit (bit_and b 0xf) ∷ to_hex bs

abbrev joined : Option ℕ → Option ℕ → Option (List ℕ) → Option (List ℕ)
joined (some hi) (some lo) (some rest) = some ((bit_or (hi << 4) lo % 256) ∷ rest)
joined _ _ _ = none

-- The chunks of two bytes; a last odd byte is left out, as by `chunks_exact`.
unfoldable pub from_hex_chunks : Text → Option (List ℕ)
from_hex_chunks (h ∷ l ∷ rest) = joined (to_digit h) (to_digit l) (from_hex_chunks rest)
from_hex_chunks (h ∷ []) = some []
from_hex_chunks [] = some []

unfoldable pub from_hex : Text → Option (List ℕ)
from_hex s = if length s == 64 then from_hex_chunks s else none

to_digit-from_digit : (d : ℕ) → d < 16 → to_digit (from_digit d) ≡ some d
unfolding to_digit from_digit
to_digit-from_digit d h = ground arith

from_hex_chunks-to_hex :
    (bs : List ℕ) → All (λ b. b < 256) bs → from_hex_chunks (to_hex bs) ≡ some bs
unfolding from_hex_chunks to_hex
from_hex_chunks-to_hex [] h = refl
from_hex_chunks-to_hex (b ∷ bs) (h, hs) = ground (
  arith,
  bit_and-low_mask 4 b,
  to_digit-from_digit (b >> 4),
  to_digit-from_digit (bit_and b 0xf),
  bit_or-shifted 4 (b / 16) (b % 16),
  from_hex_chunks-to_hex bs hs,
)

length-to_hex : (bs : List ℕ) → length (to_hex bs) ≡ 2 * length bs
unfolding to_hex
length-to_hex [] = omega arith
length-to_hex (b ∷ bs) = omega (arith, length-to_hex bs)

-- A digest of 32 bytes is read back from its hexadecimal form, which has 64 digits.
pub from_hex-to_hex :
    (bs : List ℕ)
    → length bs ≡ 32
    → All (λ b. b < 256) bs
    → (from_hex (to_hex bs) ≡ some bs) × (length (to_hex bs) ≡ 64)
unfolding from_hex
from_hex-to_hex bs e h = ground (arith, length-to_hex bs, from_hex_chunks-to_hex bs h)
