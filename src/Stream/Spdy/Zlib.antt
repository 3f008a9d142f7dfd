-- ===== src/Stream/Spdy/Zlib.antt =====
-- crates/lightr-cri-stream/src/spdy/zlib.rs: the loops that compress and decompress a header block
-- through a buffer of 4096 bytes. The streams of flate2 are a parameter, `Flate2`. The fuel of a loop
-- bounds its rounds.
pub mod Blocks
pub mod RoundTrip
mod Tests
use lightr_cri.Prelude.{
  ℕ, zero, suc, Bool, true, false, ◌&&◌, List, [], ◌∷◌, ◌++◌, Option, none, some, ltb, ◌==◌,
  if◌then◌else◌, length, drop, ◌⊎◌, inl, inr, ◌||◌,
}
use lightr_cri.Prelude.Text.{Text, codes}

-- What a call took from its input and wrote to the buffer, by `total_in` and `total_out`.
pub record Call (Z : Type 0) : Type 0 where
  pub read : ℕ
  pub wrote : List ℕ
  pub after : Z

pub data Inflated (Z : Type 0) : Type 0 where
  done : Call Z → Inflated Z
  -- A `DecompressError`, with how much of the input was taken before it.
  failed : Text → ℕ → Z → Inflated Z

-- The calls of `Compress` and `Decompress`, with a buffer of 4096 bytes.
pub record Flate2 (C D : Type 0) : Type 0 where
  pub compress : C → List ℕ → Option (Call C)
  pub decompress : D → List ℕ → Inflated D
  pub set_dictionary : D → Text ⊎ D

pub record HeaderDecompressor (D : Type 0) : Type 0 where
  pub z : D
  pub dict_installed : Bool

abbrev pub buf_len : ℕ
buf_len = 4096

abbrev pub is_empty : List ℕ → Bool
is_empty [] = true
is_empty (b ∷ bs) = false

-- Whether a loop ends after a call: all input is consumed and the buffer was not filled, or there was
-- no progress.
unfoldable pub is_finished : {Z : Type 0} → Call Z → List ℕ → Bool
is_finished c rest =
    is_empty rest && ltb (length c.wrote) buf_len || c.read == 0 && is_empty c.wrote

module _ {C D : Type 0} (flate2 : Flate2 C D) where
  -- `none` where the call panics (its `expect`), or the fuel is spent.
  unfoldable pub compress_loop : ℕ → C → List ℕ → List ℕ → Option (List ℕ × C)
  compress_loop zero z input out = none
  compress_loop (suc n) z input out = elim (flate2.compress z input) [
    | none ↦ none
    | some c ↦
        let again = compress_loop n c.after (drop c.read input) (out ++ c.wrote) in
        if is_finished c (drop c.read input) then some (out ++ c.wrote, c.after) else again
  ]

  abbrev pub compress : ℕ → C → List ℕ → Option (List ℕ × C)
  compress n z input = compress_loop n z input []

  -- The dictionary is installed at the first error; an error after that is returned.
  unfoldable pub decompress_loop :
      ℕ → HeaderDecompressor D → List ℕ → List ℕ → Option (Text ⊎ (List ℕ × HeaderDecompressor D))
  decompress_loop zero s input out = none
  decompress_loop (suc n) s input out = elim (flate2.decompress s.z input) [
    | done c ↦
        let next = record s { z = c.after } in
        let again = decompress_loop n next (drop c.read input) (out ++ c.wrote) in
        if is_finished c (drop c.read input) then some (inr (out ++ c.wrote, next)) else again
    | failed e read z ↦
        if s.dict_installed
        then some (inl (codes "spdy header decompress: " ++ e))
        else elim (flate2.set_dictionary z) [
          | inl f ↦ some (inl (codes "set spdy dict: " ++ f))
          | inr primed ↦
              decompress_loop n (record { z = primed; dict_installed = true }) (drop read input) out
        ]
  ]

  abbrev pub decompress :
      ℕ → HeaderDecompressor D → List ℕ → Option (Text ⊎ (List ℕ × HeaderDecompressor D))
  decompress n s input = decompress_loop n s input []
