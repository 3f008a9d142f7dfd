-- ===== src/Stream/Spdy/Zlib/Blocks.antt =====
-- crates/lightr-cri-stream/src/spdy/zlib.rs: a header block through both loops.
use lightr_cri.Prelude.{
  ℕ, zero, suc, ◌≡◌, refl, sym, ap, ◌∙◌, Bool, true, false, List, [], ◌∷◌, ◌++◌, some, ltb, ◌<◌,
  ◌≤◌, arith, length, take, drop, inr, append_assoc, take-append-drop, length-drop,
}
use lightr_cri.Stream.Spdy.Zlib.{
  Call, done, Flate2, HeaderDecompressor, buf_len, is_empty, is_finished, compress_loop,
  decompress_loop,
}

pub take_short :
    (n : ℕ) (xs : List ℕ) → length (take n xs) < n → (take n xs ≡ xs) × (drop n xs ≡ [])
take_short zero xs h = absurd (omega arith)
take_short (suc n) [] h = (refl, refl)
take_short (suc n) (x ∷ xs) h = let (a, b) = take_short n xs (omega arith) in (ap (λ t. x ∷ t) a, b)

take_full : (n : ℕ) (xs : List ℕ) → n ≤ length (take n xs) → n ≤ length xs
take_full zero xs h = omega arith
take_full (suc n) [] h = h
take_full (suc n) (x ∷ xs) h = omega (arith, take_full n xs (omega arith))

not_empty : (xs : List ℕ) → buf_len ≤ length xs → is_empty xs ≡ false
not_empty [] h = absurd (omega arith)
not_empty (x ∷ xs) h = refl

-- What zlib documents of a stream that is flushed through a buffer: `due` is all that is to be written
-- for the rest of the input, of which a call writes as much as fits, and where the buffer was not
-- filled, all input was taken; `flushed` is the stream once nothing is due. It is said of the streams
-- that `P` holds of, which a call keeps.
pub record IsFlushed {Z : Type 0} (P : Z → Type 0) (call : Z → List ℕ → Call Z)
    (due : Z → List ℕ → List ℕ) (flushed : Z → List ℕ → Z) : Type 0 where
  pub keeps : (z : Z) (x : List ℕ) → P z → P (call z x).after
  pub writes : (z : Z) (x : List ℕ) → P z → (call z x).wrote ≡ take buf_len (due z x)
  pub leaves :
      (z : Z) (x : List ℕ)
      → P z
      → due (call z x).after (drop (call z x).read x) ≡ drop buf_len (due z x)
  pub takes :
      (z : Z) (x : List ℕ) → P z → length (call z x).wrote < buf_len → drop (call z x).read x ≡ []
  pub goes_on :
      (z : Z) (x : List ℕ) → P z → flushed (call z x).after (drop (call z x).read x) ≡ flushed z x
  pub ends : (z : Z) → P z → due z [] ≡ [] → flushed z [] ≡ z

-- The parts that a round writes and leaves make up what was due.
and_rest :
    (out part xs : List ℕ) → part ≡ take buf_len xs → (out ++ part) ++ drop buf_len xs ≡ out ++ xs
and_rest out part xs e = rw e (
    append_assoc out (take buf_len xs) (drop buf_len xs)
    ∙ ap (λ t. out ++ t) (take-append-drop buf_len xs))

module _ {Z : Type 0} {P : Z → Type 0} {call : Z → List ℕ → Call Z} {due : Z → List ℕ → List ℕ}
    {flushed : Z → List ℕ → Z} (drain : IsFlushed P call due flushed) where
  -- A call that ends a loop has written all.
  last_call :
      (z : Z) (x : List ℕ)
      → P z
      → length (call z x).wrote < buf_len
      → (is_finished (call z x) (drop (call z x).read x) ≡ true)
        × ((call z x).wrote ≡ due z x)
        × ((call z x).after ≡ flushed z x)
  unfolding is_finished
  last_call z x p h =
      let c = call z x in
      let none_left : drop c.read x ≡ [] = drain.takes z x p h in
      let (all, nothing) = take_short buf_len (due z x) (ground (arith, drain.writes z x p, h)) in
      (
        ground (arith, none_left, h),
        drain.writes z x p ∙ all,
        (ground (
          arith,
          drain.goes_on z x p,
          drain.leaves z x p,
          none_left,
          nothing,
          drain.ends c.after (drain.keeps z x p),
        )),
      )

  -- A call that fills the buffer is followed by another, with less to write.
  full_call :
      (z : Z) (x out : List ℕ)
      → P z
      → buf_len ≤ length (call z x).wrote
      → (is_finished (call z x) (drop (call z x).read x) ≡ false)
        × (length (due (call z x).after (drop (call z x).read x)) < length (due z x))
        × ((out ++ (call z x).wrote) ++ due (call z x).after (drop (call z x).read x)
            ≡ out ++ due z x)
  unfolding is_finished
  full_call z x out p h =
      let more = take_full buf_len (due z x) (rw (sym (drain.writes z x p)) h) in
      (
        ground (arith, h, not_empty (call z x).wrote),
        rw (drain.leaves z x p) (omega (arith, length-drop buf_len (due z x), more)),
        rw (drain.leaves z x p) (and_rest out (call z x).wrote (due z x) (drain.writes z x p)),
      )

module _ {C D : Type 0} (flate2 : Flate2 C D) where
  module _ {call : C → List ℕ → Call C} {due : C → List ℕ → List ℕ} {flushed : C → List ℕ → C}
      (compresses : (z : C) (x : List ℕ) → flate2.compress z x ≡ some (call z x))
      (drain : IsFlushed (λ z. Unit {0}) call due flushed) where
    pub compress_loop-due :
        (n : ℕ) (z : C) (x out : List ℕ)
        → length (due z x) < n
        → compress_loop flate2 n z x out ≡ some (out ++ due z x, flushed z x)
    unfolding compress_loop
    compress_loop-due zero z x out h = absurd (omega arith)
    compress_loop-due (suc n) z x out h =
        go (ltb (length (call z x).wrote) buf_len) refl
          (compress_loop-due n (call z x).after (drop (call z x).read x) (out ++ (call z x).wrote))
      where
        go :
            (b : Bool)
            → ltb (length (call z x).wrote) buf_len ≡ b
            → (length (due (call z x).after (drop (call z x).read x)) < n
                → compress_loop flate2 n
                    (call z x).after
                    (drop (call z x).read x)
                    (out ++ (call z x).wrote)
                  ≡ some (
                    (out ++ (call z x).wrote) ++ due (call z x).after (drop (call z x).read x),
                    flushed (call z x).after (drop (call z x).read x),
                  ))
            → compress_loop flate2 (suc n) z x out ≡ some (out ++ due z x, flushed z x)
        go true p rest =
            let (fin, wrote, after) = last_call drain z x tt (ground arith) in
            unfold compress_loop in ground (arith, compresses z x, fin, wrote, after)
        go false p rest =
            let (fin, less, all) = full_call drain z x out tt (ground arith) in
            let done = rest (omega (arith, less, h)) in
            unfold compress_loop in
            ground (arith, compresses z x, fin, all, done, drain.goes_on z x tt)

  module _ {P : D → Type 0} {call : D → List ℕ → Call D} {due : D → List ℕ → List ℕ}
      {flushed : D → List ℕ → D}
      (decompresses : (z : D) (x : List ℕ) → P z → flate2.decompress z x ≡ done (call z x))
      (drain : IsFlushed P call due flushed) where
    abbrev pub left : Bool → D → List ℕ → List ℕ × HeaderDecompressor D
    left b z x = (x, record { z = z; dict_installed = b })

    pub decompress_loop-due :
        (n : ℕ) (b : Bool) (z : D) (x out : List ℕ)
        → P z
        → length (due z x) < n
        → decompress_loop flate2 n (record { z = z; dict_installed = b }) x out
          ≡ some (inr (left b (flushed z x) (out ++ due z x)))
    unfolding decompress_loop
    decompress_loop-due zero b z x out p h = absurd (omega arith)
    decompress_loop-due (suc n) b z x out p h = go (ltb (length (call z x).wrote) buf_len) refl (
        decompress_loop-due n b (call z x).after (drop (call z x).read x) (out ++ (call z x).wrote)
          (drain.keeps z x p))
      where
        go :
            (c : Bool)
            → ltb (length (call z x).wrote) buf_len ≡ c
            → (length (due (call z x).after (drop (call z x).read x)) < n
                → decompress_loop flate2 n
                    (record { z = (call z x).after; dict_installed = b })
                    (drop (call z x).read x)
                    (out ++ (call z x).wrote)
                  ≡ some (
                      inr (
                        left b (flushed (call z x).after (drop (call z x).read x)) (
                          (out ++ (call z x).wrote)
                          ++ due (call z x).after (drop (call z x).read x)))))
            → decompress_loop flate2 (suc n) (record { z = z; dict_installed = b }) x out
              ≡ some (inr (left b (flushed z x) (out ++ due z x)))
        go true q rest =
            let (fin, wrote, after) = last_call drain z x p (ground arith) in
            unfold decompress_loop in ground (arith, decompresses z x p, fin, wrote, after)
        go false q rest =
            let (fin, less, all) = full_call drain z x out p (ground arith) in
            let ran = rest (omega (arith, less, h)) in
            unfold decompress_loop in
            ground (arith, decompresses z x p, fin, all, ran, drain.goes_on z x p)
