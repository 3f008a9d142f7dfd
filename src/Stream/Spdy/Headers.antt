-- ===== src/Stream/Spdy/Headers.antt =====
-- crates/lightr-cri-stream/src/spdy/headers.rs: name/value header blocks. `String::from_utf8` is the
-- library's: a parameter says which byte strings are texts.
pub mod RoundTrip
use lightr_cri.Prelude.{
  ℕ, zero, suc, ◌+◌, ◌^◌, ◌%◌, Bool, true, false, List, [], ◌∷◌, ◌++◌, Option, none, some, ltb,
  if◌then◌else◌, length, take, drop,
}
use lightr_cri.Prelude.Text.{Text, eq_ignore_ascii_case}
use lightr_cri.Stream.Spdy.Frame.{be32, be_u32}

infixl 5 ◌>>=◌
abbrev pub ◌>>=◌ {ℓ κ} : {A : Type ℓ} {B : Type κ} → Option A → (A → Option B) → Option B
none >>= f = none
some a >>= f = f a

unfoldable pub serialize_pairs : List (Text × Text) → List ℕ
serialize_pairs [] = []
serialize_pairs ((name, value) ∷ rest) =
    be32 (length name % 2 ^ 32)
    ++ (name ++ (be32 (length value % 2 ^ 32) ++ (value ++ serialize_pairs rest)))

unfoldable pub serialize_headers : List (Text × Text) → List ℕ
serialize_headers headers = be32 (length headers % 2 ^ 32) ++ serialize_pairs headers

-- A cursor is the part of the buffer behind it: `buf.get(pos..pos + len)` fails when that is short.
unfoldable pub read_bytes : List ℕ → ℕ → Option (List ℕ × List ℕ)
read_bytes buf len = if ltb (length buf) len then none else some (take len buf, drop len buf)

unfoldable pub read_u32 : List ℕ → Option (ℕ × List ℕ)
unfolding read_bytes
read_u32 buf = do (slice, rest) ← read_bytes buf 4; some (be_u32 slice, rest)

module _ (from_utf8 : List ℕ → Option Text) where
  unfoldable pub read_pairs : ℕ → List ℕ → Option (List (Text × Text))
  read_pairs zero buf = some []
  read_pairs (suc count) buf = do
    (name_len, b1) ← read_u32 buf
    (name, b2) ← read_bytes b1 name_len
    (value_len, b3) ← read_u32 b2
    (value, b4) ← read_bytes b3 value_len
    n ← from_utf8 name
    v ← from_utf8 value
    rest ← read_pairs count b4
    some ((n, v) ∷ rest)

  unfoldable pub deserialize_headers : List ℕ → Option (List (Text × Text))
  deserialize_headers buf = do
    (count, rest) ← read_u32 buf
    if ltb 1024 count then none else read_pairs count rest

-- `get`: the value of the first name that is equal up to ASCII case.
unfoldable pub get_header : List (Text × Text) → Text → Option Text
get_header [] name = none
get_header ((k, v) ∷ rest) name =
    if eq_ignore_ascii_case k name then some v else get_header rest name
