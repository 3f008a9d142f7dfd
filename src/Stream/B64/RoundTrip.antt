-- ===== src/Stream/B64/RoundTrip.antt =====
-- b64.rs: `decode_std` against `encode_std`.
use lightr_cri.Prelude.{
  ℕ, ◌+◌, ◌-◌, ◌*◌, ◌/◌, ◌%◌, ◌^◌, ◌<◌, ◌≡◌, refl, ap, ap₂, ◌∙◌, true, false, Bool, ◌&&◌, not, List,
  [], ◌∷◌, ◌++◌, Option, none, some, arith, leb, ◌==◌, All, if◌then◌else◌, all_below,
  all_below_sound, bit_or, append_assoc, append-nil,
}
use lightr_cri.Prelude.Bits.{◌<<◌, ◌>>◌, bit_or-shifted, bit_and-low_mask}
use lightr_cri.Prelude.Text.{Text, at}
use lightr_cri.Stream.B64.{
  std_alphabet, sextet, encode_with, encode_std, decode_value, decode_loop, decode_std, is_skipped,
}

abbrev is_some_of : ℕ → Option ℕ → Bool
is_some_of i none = false
is_some_of i (some v) = v == i

is_some_of_lem : (i : ℕ) (o : Option ℕ) → is_some_of i o ≡ true → o ≡ some i
is_some_of_lem i none e = cc
is_some_of_lem i (some v) e = ground arith

alphabet_table :
    all_below 64 (λ i.
      is_some_of i (decode_value std_alphabet (at std_alphabet i))
      && not (is_skipped (at std_alphabet i)))
    ≡ true
unfolding all_below decode_value std_alphabet is_skipped
alphabet_table = refl

and_parts :
    (o : Option ℕ) (b : Bool) (i : ℕ)
    → (is_some_of i o && not b) ≡ true
    → (o ≡ some i) × (b ≡ false)
and_parts none b i e = cc
and_parts (some v) b i e = ground arith

-- A letter of the alphabet is not skipped, and its value is its place.
letter :
    (i : ℕ)
    → i < 64
    → (decode_value std_alphabet (at std_alphabet i) ≡ some i)
      × (is_skipped (at std_alphabet i) ≡ false)
letter i h = and_parts _ _ i (all_below_sound 64 _ alphabet_table i h)

shifted_in : (acc i : ℕ) → i < 64 → bit_or ((acc << 6) % 2 ^ 32) i ≡ acc % 2 ^ 26 * 64 + i
shifted_in acc i h =
    let shift : (acc << 6) % 2 ^ 32 ≡ (acc % 2 ^ 26) << 6 = omega arith in
    ap (λ (t : ℕ). bit_or t i) shift ∙ bit_or-shifted 6 (acc % 2 ^ 26) i h

decode_loop-letter :
    (i : ℕ) (rest : Text) (acc nbits : ℕ) (out : List ℕ)
    → i < 64
    → decode_loop (at std_alphabet i ∷ rest) acc nbits out ≡ (
        let acc' = acc % 2 ^ 26 * 64 + i in
        if leb 8 (nbits + 6)
        then decode_loop rest acc' (nbits + 6 - 8) (out ++ ((acc' >> (nbits + 6 - 8) % 256) ∷ []))
        else decode_loop rest acc' (nbits + 6) out)
unfolding decode_loop
decode_loop-letter i rest acc nbits out h =
    rw ((letter i h).1, decode_loop) (rw ((letter i h).0, decode_loop) (rw (shifted_in acc i h)))

-- The accumulator after one more letter.
abbrev next : ℕ → ℕ → ℕ
next acc i = acc % 2 ^ 26 * 64 + i

module _ (i j : ℕ) (hi : i < 64) (hj : j < 64) (acc : ℕ) where
  decode_loop-two :
      (rest : Text) (out : List ℕ)
      → decode_loop (at std_alphabet i ∷ at std_alphabet j ∷ rest) acc 0 out
        ≡ decode_loop rest (next (next acc i) j) 4 (out ++ ((i * 4 + j / 16) ∷ []))
  decode_loop-two rest out =
      decode_loop-letter i (at std_alphabet j ∷ rest) acc 0 out hi
      ∙ decode_loop-letter j rest (next acc i) 6 out hj
      ∙ ap (λ t. decode_loop rest (next (next acc i) j) 4 (out ++ (t ∷ []))) (omega arith)

  decode_loop-three :
      (k : ℕ) (rest : Text) (out : List ℕ)
      → k < 64
      → decode_loop (at std_alphabet i ∷ at std_alphabet j ∷ at std_alphabet k ∷ rest) acc 0 out
        ≡ decode_loop rest
            (next (next (next acc i) j) k)
            2
            (out ++ ((i * 4 + j / 16) ∷ (j % 16 * 16 + k / 4) ∷ []))
  decode_loop-three k rest out hk =
      let a2 = next (next acc i) j in
      let o2 = out ++ ((i * 4 + j / 16) ∷ []) in
      decode_loop-two (at std_alphabet k ∷ rest) out
      ∙ decode_loop-letter k rest a2 4 o2 hk
      ∙ ap (λ t. decode_loop rest (next a2 k) 2 (o2 ++ (t ∷ []))) (omega arith)
      ∙ ap (decode_loop rest (next a2 k) 2) (append_assoc out _ _)

  decode_loop-four :
      (k l : ℕ) (rest : Text) (out : List ℕ)
      → k < 64
      → l < 64
      → decode_loop
          (at std_alphabet i ∷ at std_alphabet j ∷ at std_alphabet k ∷ at std_alphabet l ∷ rest)
          acc
          0
          out
        ≡ decode_loop rest
            (next (next (next (next acc i) j) k) l)
            0
            (out ++ ((i * 4 + j / 16) ∷ (j % 16 * 16 + k / 4) ∷ (k % 4 * 64 + l) ∷ []))
  decode_loop-four k l rest out hk hl =
      let a3 = next (next (next acc i) j) k in
      let o3 = out ++ ((i * 4 + j / 16) ∷ (j % 16 * 16 + k / 4) ∷ []) in
      decode_loop-three k (at std_alphabet l ∷ rest) out hk
      ∙ decode_loop-letter l rest a3 2 o3 hl
      ∙ ap (λ t. decode_loop rest (next a3 l) 0 (o3 ++ (t ∷ []))) (omega arith)
      ∙ ap (decode_loop rest (next a3 l) 0) (append_assoc out _ _)

abbrev pub IsByte : ℕ → Type 0
IsByte b = b < 256

-- The number that the bytes of a chunk make.
group-sum :
    (a b c : ℕ)
    → b < 256
    → c < 256
    → bit_or (bit_or (a << 16) (b << 8)) c ≡ a * 2 ^ 16 + b * 2 ^ 8 + c
group-sum a b c hb hc =
    let regroup : a * 2 ^ 16 + b * 2 ^ 8 ≡ (a * 2 ^ 8 + b) << 8 = omega arith in
    ap (λ (t : ℕ). bit_or t c) (bit_or-shifted 16 a (b << 8) (omega arith) ∙ regroup)
    ∙ bit_or-shifted 8 (a * 2 ^ 8 + b) c hc
    ∙ omega arith

pair-sum : (a b : ℕ) → b < 256 → bit_or (a << 16) (b << 8) ≡ a * 2 ^ 16 + b * 2 ^ 8
pair-sum a b hb = bit_or-shifted 16 a (b << 8) (omega arith)

sextet_lem : (alphabet : Text) (n k : ℕ) → sextet alphabet n k ≡ at alphabet (n / 2 ^ k % 64)
unfolding sextet
sextet_lem alphabet n k = ap (at alphabet) (bit_and-low_mask 6 (n / 2 ^ k))

decode_loop-encode_with :
    (xs : List ℕ) (acc : ℕ) (out : List ℕ)
    → All IsByte xs
    → decode_loop (encode_with std_alphabet true xs) acc 0 out ≡ some (out ++ xs)
unfolding encode_with
decode_loop-encode_with [] acc out h = unfold decode_loop in rw append-nil
decode_loop-encode_with (a ∷ []) acc out (ha, _) =
    let n : ℕ = a << 16 in
    rw (sextet_lem std_alphabet n 18, sextet_lem std_alphabet n 12)
      (decode_loop-two (n / 2 ^ 18 % 64) (n / 2 ^ 12 % 64) (omega arith) (omega arith) acc _ out
        ∙ unfold decode_loop is_skipped in ap (λ t. some (out ++ (t ∷ []))) (omega arith))
decode_loop-encode_with (a ∷ b ∷ []) acc out (ha, (hb, _)) =
    let n : ℕ = a * 2 ^ 16 + b * 2 ^ 8 in
    let i : ℕ = n / 2 ^ 18 % 64 in
    let j : ℕ = n / 2 ^ 12 % 64 in
    let k : ℕ = n / 2 ^ 6 % 64 in
    let x : i * 4 + j / 16 ≡ a = omega arith in
    let y : j % 16 * 16 + k / 4 ≡ b = omega arith in
    rw
      (
        pair-sum a b hb,
        sextet_lem std_alphabet n 18,
        sextet_lem std_alphabet n 12,
        sextet_lem std_alphabet n 6,
      )
      (decode_loop-three i j (omega arith) (omega arith) acc k _ out (omega arith)
        ∙ unfold decode_loop is_skipped in ap₂ (λ t u. some (out ++ (t ∷ u ∷ []))) x y)
decode_loop-encode_with (a ∷ b ∷ c ∷ rest) acc out (ha, (hb, (hc, hs))) =
    let n : ℕ = a * 2 ^ 16 + b * 2 ^ 8 + c in
    let i : ℕ = n / 2 ^ 18 % 64 in
    let j : ℕ = n / 2 ^ 12 % 64 in
    let k : ℕ = n / 2 ^ 6 % 64 in
    let l : ℕ = n / 2 ^ 0 % 64 in
    let x : i * 4 + j / 16 ≡ a = omega arith in
    let y : j % 16 * 16 + k / 4 ≡ b = omega arith in
    let z : k % 4 * 64 + l ≡ c = omega arith in
    let front : List ℕ = (i * 4 + j / 16) ∷ (j % 16 * 16 + k / 4) ∷ (k % 4 * 64 + l) ∷ [] in
    rw
      (
        group-sum a b c hb hc,
        sextet_lem std_alphabet n 18,
        sextet_lem std_alphabet n 12,
        sextet_lem std_alphabet n 6,
        sextet_lem std_alphabet n 0,
      )
      (decode_loop-four i j (omega arith) (omega arith) acc k l _ out (omega arith) (omega arith)
        ∙ decode_loop-encode_with rest _ (out ++ front) hs
        ∙ ap some (append_assoc out front rest)
        ∙ cc (x, y, z))

-- `decode_std` gives back the bytes that `encode_std` was given.
pub decode_std-encode_std : (xs : List ℕ) → All IsByte xs → decode_std (encode_std xs) ≡ some xs
unfolding decode_std encode_std
decode_std-encode_std xs h = decode_loop-encode_with xs 0 [] h
