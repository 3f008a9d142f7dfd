-- ===== src/Stream/Spdy/Zlib/Tests.antt =====
-- crates/lightr-cri-stream/src/spdy/zlib.rs: a block through streams that copy their input, of which
-- that of the decompressor asks for the dictionary first.
use lightr_cri.Prelude.{
  ℕ, zero, suc, ◌≡◌, refl, Bool, true, false, List, [], ◌∷◌, some, arith, length, take, drop, inr,
}
use lightr_cri.Prelude.Text.{codes}
use lightr_cri.Stream.Spdy.Zlib.{
  Call, Inflated, done, failed, Flate2, HeaderDecompressor, buf_len, compress, decompress,
}
use lightr_cri.Stream.Spdy.Zlib.Blocks.{IsFlushed, take_short}
use lightr_cri.Stream.Spdy.Zlib.RoundTrip.{asked, decompress-compress}

abbrev copy : {Z : Type 0} → Z → List ℕ → Call Z
copy z x = record { read = length (take buf_len x); wrote = take buf_len x; after = z }

abbrev inflate : Bool → List ℕ → Inflated Bool
inflate true x = done (copy true x)
inflate false x = failed (codes "need dictionary") 0 false

abbrev copies : Flate2 (Unit {0}) Bool
copies = record {
  compress = λ z x. some (copy z x);
  decompress = inflate;
  set_dictionary = λ z. inr true;
}

drop_taken : (n : ℕ) (x : List ℕ) → drop (length (take n x)) x ≡ drop n x
drop_taken zero x = refl
drop_taken (suc n) [] = refl
drop_taken (suc n) (b ∷ x) = drop_taken n x

copy-IsFlushed : {Z : Type 0} (P : Z → Type 0) → IsFlushed P copy (λ z x. x) (λ z x. z)
copy-IsFlushed P = record {
  keeps = λ z x p. p;
  writes = λ z x p. refl;
  leaves = λ z x p. drop_taken buf_len x;
  takes = λ z x p h. rw (drop_taken buf_len x) (take_short buf_len x h).1;
  goes_on = λ z x p. refl;
  ends = λ z p e. refl;
}

inflates : (z : Bool) (x : List ℕ) → z ≡ true → inflate z x ≡ done (copy z x)
inflates true x p = refl
inflates false x p = absurd (ground (arith, p))

abbrev block : List ℕ
block = codes ":status200"

abbrev unprimed : HeaderDecompressor Bool
unprimed = record { z = false; dict_installed = false }

decompress-compress_example :
    (compress copies 20 tt block ≡ some (block, tt))
    × (decompress copies 21 unprimed block
        ≡ some (inr (block, record { z = true; dict_installed = true })))
decompress-compress_example =
    decompress-compress copies 20 tt unprimed true block block (λ z x. refl)
      (copy-IsFlushed (λ z. Unit {0})) inflates (copy-IsFlushed (λ z. z ≡ true))
      (asked (codes "need dictionary") 0 refl refl refl) refl refl (omega arith) (omega arith)
