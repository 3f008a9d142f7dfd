-- ===== src/Stream/Spdy/Zlib/RoundTrip.antt =====
-- crates/lightr-cri-stream/src/spdy/zlib.rs: what one side compresses, the other decompresses.
use lightr_cri.Prelude.{
  ℕ, suc, ◌≡◌, sym, Bool, true, false, List, [], some, ◌<◌, arith, length, drop, inr,
}
use lightr_cri.Prelude.Text.{Text}
use lightr_cri.Stream.Spdy.Zlib.{
  Call, done, failed, Flate2, HeaderDecompressor, compress, decompress_loop, decompress,
}
use lightr_cri.Stream.Spdy.Zlib.Blocks.{IsFlushed, compress_loop-due, decompress_loop-due}

module _ {C D : Type 0} (flate2 : Flate2 C D) where
  -- The stream, and the rest of the block, that a decompressor goes on with once it has the dictionary:
  -- it has it, or the first call fails and asks for it.
  pub data Primed (s : HeaderDecompressor D) (block : List ℕ) : D → List ℕ → Type 0 where
    installed : s.dict_installed ≡ true → Primed s block s.z block
    asked :
        {d e : D} (f : Text) (read : ℕ)
        → s.dict_installed ≡ false
        → flate2.decompress s.z block ≡ failed f read d
        → flate2.set_dictionary d ≡ inr e
        → Primed s block e (drop read block)

  decompress-Primed :
      {s : HeaderDecompressor D} {block rest x : List ℕ} {d e : D} (n : ℕ)
      → Primed s block d rest
      → ((b : Bool) (m : ℕ)
          → length x < m
          → decompress_loop flate2 m (record { z = d; dict_installed = b }) rest []
            ≡ some (inr (x, record { z = e; dict_installed = b })))
      → length x < n
      → decompress flate2 (suc n) s block ≡ some (inr (x, record { z = e; dict_installed = true }))
  unfolding decompress_loop
  decompress-Primed n (installed h) run l = ground (arith, h, run true (suc n) (omega (arith, l)))
  decompress-Primed n (asked f read h p q) run l = ground (arith, h, p, q, run true n l)

  -- A header block comes out as it went in, whatever the sizes of what the compressor writes, if the
  -- streams are ones that the calls of zlib flush, and what the one has to write for the block is read
  -- by the other as the block. The decompressor has the dictionary or asks for it with the block, and
  -- has it afterwards. More rounds than there are bytes are enough for both loops.
  pub decompress-compress :
      {P : D → Type 0} {pack : C → List ℕ → Call C} {unpack : D → List ℕ → Call D}
      {packed : C → List ℕ → List ℕ} {unpacked : D → List ℕ → List ℕ} {packer : C → List ℕ → C}
      {unpacker : D → List ℕ → D} (n : ℕ) (c : C) (s : HeaderDecompressor D) (d : D)
      (block rest : List ℕ)
      → ((z : C) (x : List ℕ) → flate2.compress z x ≡ some (pack z x))
      → IsFlushed (λ z. Unit {0}) pack packed packer
      → ((z : D) (x : List ℕ) → P z → flate2.decompress z x ≡ done (unpack z x))
      → IsFlushed P unpack unpacked unpacker
      → Primed s (packed c block) d rest
      → P d
      → unpacked d rest ≡ block
      → length (packed c block) < n
      → length block < n
      → (compress flate2 n c block ≡ some (packed c block, packer c block))
        × (decompress flate2 (suc n) s (packed c block)
            ≡ some (inr (block, record { z = unpacker d rest; dict_installed = true })))
  decompress-compress n c s d block rest cs fc ds fd pr p e l k = (
    compress_loop-due flate2 cs fc n c block [] l,
    decompress-Primed n pr
        (λ b m h. rw (sym e) (decompress_loop-due flate2 ds fd m b d rest [] p (rw e h))) k,
  )
