-- ===== src/Stream/Spdy/Headers/RoundTrip.antt =====
-- headers.rs: a block that was written is read back.
use lightr_cri.Prelude.{
  ℕ, ◌^◌, ◌≤◌, ◌<◌, ◌≡◌, refl, List, [], ◌∷◌, ◌++◌, Option, none, some, arith, length,
  length-append, take-append, drop-append, append_assoc, All,
}
use native.Mathlib.Nat.{mod-eq_of_lt}
use lightr_cri.Prelude.Text.{Text}
use lightr_cri.Stream.Spdy.Frame.{be32}
use lightr_cri.Stream.Spdy.Frame.Masks.{be_u32-be32}
use lightr_cri.Stream.Spdy.Headers.{
  serialize_pairs, serialize_headers, read_bytes, read_u32, read_pairs, deserialize_headers,
}

read_bytes-append :
    (bs rest : List ℕ) (n : ℕ) → length bs ≡ n → read_bytes (bs ++ rest) n ≡ some (bs, rest)
unfolding read_bytes
read_bytes-append bs rest n e =
    ground (arith, length-append bs rest, take-append n bs rest, drop-append n bs rest)

read_u32-be32 : (n : ℕ) (rest : List ℕ) → n < 2 ^ 32 → read_u32 (be32 n ++ rest) ≡ some (n, rest)
unfolding read_u32 be32
read_u32-be32 n rest h = ground (arith, be_u32-be32 n [] h)

-- A pair whose lengths fit a u32 and whose halves are texts.
abbrev pub IsHeader : (List ℕ → Option Text) → Text × Text → Type 0
IsHeader utf8 (name, value) =
    (length name < 2 ^ 32)
    × (length value < 2 ^ 32)
    × (utf8 name ≡ some name)
    × (utf8 value ≡ some value)

read_pairs-serialize :
    (utf8 : List ℕ → Option Text) (headers : List (Text × Text)) (rest : List ℕ)
    → All (IsHeader utf8) headers
    → read_pairs utf8 (length headers) (serialize_pairs headers ++ rest) ≡ some headers
unfolding read_pairs serialize_pairs
read_pairs-serialize utf8 [] rest h = refl
read_pairs-serialize utf8 ((name, value) ∷ headers) rest ((hn, hv, un, uv), hs) =
    let back = serialize_pairs headers ++ rest in
    simp (mod-eq_of_lt hn, mod-eq_of_lt hv, append_assoc)
      (rw (
        read_u32-be32 (length name) (name ++ (be32 (length value) ++ (value ++ back))) hn,
        read_bytes-append name (be32 (length value) ++ (value ++ back)) (length name) refl,
        read_u32-be32 (length value) (value ++ back) hv,
        read_bytes-append value back (length value) refl,
        un,
        uv,
        read_pairs-serialize utf8 headers rest hs,
      ))

-- A block of at most 1024 pairs, whose names and values are texts shorter than 2^32 bytes, is read
-- back as the pairs that were written, whatever follows it.
pub deserialize_headers-serialize_headers :
    (utf8 : List ℕ → Option Text) (headers : List (Text × Text)) (rest : List ℕ)
    → length headers ≤ 1024
    → All (IsHeader utf8) headers
    → deserialize_headers utf8 (serialize_headers headers ++ rest) ≡ some headers
unfolding deserialize_headers serialize_headers
deserialize_headers-serialize_headers utf8 headers rest h hs =
    let n = length headers in
    simp (mod-eq_of_lt {n = n} {m = 2 ^ 32} (omega arith), append_assoc)
      (rw (read_u32-be32 n (serialize_pairs headers ++ rest) (omega arith))
        (ground (arith, read_pairs-serialize utf8 headers rest hs)))

-- A block whose count is over 1024 is refused, whatever its bytes.
pub deserialize_headers_hostile :
    (utf8 : List ℕ → Option Text) (count : ℕ) (rest : List ℕ)
    → 1024 < count
    → count < 2 ^ 32
    → deserialize_headers utf8 (be32 count ++ rest) ≡ none
unfolding deserialize_headers
deserialize_headers_hostile utf8 count rest h k = rw (read_u32-be32 count rest k) (ground arith)
