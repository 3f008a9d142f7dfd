-- ===== src/Stream/Spdy/Frame/Masks.antt =====
-- The bit tests of frame.rs as arithmetic on bytes and words.
use lightr_cri.Prelude.{
  ℕ, ◌+◌, ◌*◌, ◌/◌, ◌%◌, ◌^◌, ◌<◌, bit_and, bit_or, ◌≡◌, refl, true, false, List, ◌∷◌, ◌++◌, arith,
  ◌==◌, all_below, all_below_sound, ap,
}
use lightr_cri.Prelude.Bits.{◌<<◌, bit_and-low_mask, bit_or-shifted}
use lightr_cri.Stream.Spdy.Frame.{
  be_u32, be_u31, be16, be24, be32, be31, frame_length, is_control, control_type,
}

pub mask31 : (n : ℕ) → bit_and n 0x7fff_ffff ≡ n % 2 ^ 31
mask31 n = bit_and-low_mask 31 n

pub be_u32-be32 : (n : ℕ) (rest : List ℕ) → n < 2 ^ 32 → be_u32 (be32 n ++ rest) ≡ n
unfolding be_u32 be32
be_u32-be32 n rest h = omega arith

pub be_u31-be31 : (n : ℕ) (rest : List ℕ) → n < 2 ^ 31 → be_u31 (be31 n ++ rest) ≡ n
unfolding be_u31 be31
be_u31-be31 n rest h = omega (
  arith,
  mask31 n,
  mask31 (be_u32 (be32 (bit_and n 0x7fff_ffff) ++ rest)),
  be_u32-be32 (bit_and n 0x7fff_ffff) rest (omega (arith, mask31 n)),
)

pub frame_length-be24 :
    (b0 b1 b2 b3 b4 n : ℕ) (rest : List ℕ)
    → n < 2 ^ 24
    → frame_length (b0 ∷ b1 ∷ b2 ∷ b3 ∷ b4 ∷ be24 n ++ rest) ≡ n
unfolding frame_length be24
frame_length-be24 b0 b1 b2 b3 b4 n rest h = omega (
  arith,
  bit_or-shifted 16 (n / 2 ^ 16 % 256) ((n / 2 ^ 8 % 256) << 8) (omega arith),
  ap (λ (t : ℕ). bit_or t (n % 256))
      (bit_or-shifted 16 (n / 2 ^ 16 % 256) ((n / 2 ^ 8 % 256) << 8) (omega arith)),
  ap (λ (t : ℕ). bit_or t (n % 256)) join,
  bit_or-shifted 8 (n / 2 ^ 8) (n % 256) (omega arith),
)
  where
    join : n / 2 ^ 16 % 256 * 2 ^ 16 + n / 2 ^ 8 % 256 * 2 ^ 8 ≡ n / 2 ^ 8 * 2 ^ 8
    join = omega arith

pub control_type-be16 :
    (b0 b1 n : ℕ) (rest : List ℕ) → n < 2 ^ 16 → control_type (b0 ∷ b1 ∷ be16 n ++ rest) ≡ n
unfolding control_type be16
control_type-be16 b0 b1 n rest h =
    omega (arith, bit_or-shifted 8 (n / 2 ^ 8 % 256) (n % 256) (omega arith))

top_bit_table : all_below 128 (λ b. bit_and b 0x80 == 0) ≡ true
unfolding all_below
top_bit_table = refl

-- The first byte of a u32 below 2^31 has no control bit.
pub is_control-be31 : (n : ℕ) (rest : List ℕ) → is_control (be31 n ++ rest) ≡ false
unfolding is_control be31 be32
is_control-be31 n rest =
    let b = bit_and n 0x7fff_ffff / 2 ^ 24 % 256 in
    ground (arith, all_below_sound 128 _ top_bit_table b (omega (arith, mask31 n)))
