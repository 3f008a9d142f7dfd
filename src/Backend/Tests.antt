-- ===== src/Backend/Tests.antt =====
-- crates/lightr-cri-backend: a digest at concrete bytes.
use lightr_cri.Prelude.{ℕ, ◌≡◌, ◌<◌, refl, List, [], ◌∷◌, some, arith, All}
use lightr_cri.Backend.Digest.{to_hex, from_hex, from_hex-to_hex}

abbrev eight : List ℕ → List ℕ
eight rest = 0 ∷ 9 ∷ 10 ∷ 15 ∷ 16 ∷ 160 ∷ 171 ∷ 255 ∷ rest

abbrev digest : List ℕ
digest = eight (eight (eight (eight [])))

abbrev AllBytes : List ℕ → Type 0
AllBytes bs = All (λ b. b < 256) bs

eight-AllBytes : (rest : List ℕ) → AllBytes rest → AllBytes (eight rest)
eight-AllBytes rest h = (
  omega arith,
  (
    omega arith,
    (omega arith, (omega arith, (omega arith, (omega arith, (omega arith, (omega arith, h)))))),
  ),
)

digest_read : from_hex (to_hex digest) ≡ some digest
digest_read =
    (from_hex-to_hex digest refl (
      eight-AllBytes (eight (eight (eight [])))
        (eight-AllBytes (eight (eight [])) (eight-AllBytes (eight []) (eight-AllBytes [] tt))))).0
