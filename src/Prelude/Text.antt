-- ===== src/Prelude/Text.antt =====
-- Rust strings and byte slices as lists of byte values: comparison, literals, decimal numerals and
-- ASCII case.
use Prim.Native.Nat.{ℕ, zero, suc, ◌+◌, ◌-◌, ◌*◌, ◌/◌, ◌%◌}
use Prim.Native.Char.{code}
use Prim.Native.String.{String}
use mathlib.Core.Path.{◌≡◌, refl}
use mathlib.Core.Logic.{◌↔◌}
use mathlib.Core.Bool.{Bool, true, false, ◌&&◌, ◌||◌}
use mathlib.Core.Option.{Option, none, some}
use mathlib.Core.List.{List, [], ◌∷◌, ◌++◌, map}
use native.Mathlib.Omega.{arith}
use lightr_cri.Prelude.Tests.{ltb, leb, ◌==◌, if◌then◌else◌}

abbrev pub Text : Type 0
Text = List ℕ

-- `bytes[i]` where the code has checked the index; past the end it reads 0.
abbrev pub at : List ℕ → ℕ → ℕ
at [] i = 0
at (b ∷ bs) zero = b
at (b ∷ bs) (suc i) = at bs i

-- The bytes of an ASCII literal.
abbrev pub codes : String → Text
codes String.[] = []
codes (String.◌∷◌ c s) = code c ∷ codes s

unfoldable pub text_eq : Text → Text → Bool
text_eq [] [] = true
text_eq [] (d ∷ t) = false
text_eq (c ∷ s) [] = false
text_eq (c ∷ s) (d ∷ t) = c == d && text_eq s t

-- The byte order of `str`'s `Ord`.
unfoldable pub text_lt : Text → Text → Bool
text_lt s [] = false
text_lt [] (d ∷ t) = true
text_lt (c ∷ s) (d ∷ t) = ltb c d || c == d && text_lt s t

pub text_eq_refl : (s : Text) → text_eq s s ≡ true
unfolding text_eq
text_eq_refl [] = refl
text_eq_refl (c ∷ s) = ground (arith, text_eq_refl s)

eq_of_text_eq : (s t : Text) → text_eq s t ≡ true → s ≡ t
unfolding text_eq
eq_of_text_eq [] [] e = refl
eq_of_text_eq [] (d ∷ t) e = cc
eq_of_text_eq (c ∷ s) [] e = cc
eq_of_text_eq (c ∷ s) (d ∷ t) e = ground (arith, eq_of_text_eq s t)

pub text_eq_iff : (s t : Text) → (text_eq s t ≡ true) ↔ (s ≡ t)
text_eq_iff s t = (eq_of_text_eq s t, λ e. rw e (text_eq_refl t))

-- `{n}` in a format string. A number has no more digits than its value, plus one.
unfoldable pub decimal_loop : ℕ → ℕ → Text
decimal_loop zero n = []
decimal_loop (suc fuel) n =
    let front = decimal_loop fuel (n / 10) in
    if ltb n 10 then (n + 48) ∷ [] else front ++ ((n % 10 + 48) ∷ [])

unfoldable pub decimal : ℕ → Text
unfolding decimal_loop
decimal n = decimal_loop (suc n) n

-- `str::eq_ignore_ascii_case`.
unfoldable pub ascii_lower : ℕ → ℕ
ascii_lower c = if leb 65 c && leb c 90 then c + 32 else c

unfoldable pub eq_ignore_ascii_case : Text → Text → Bool
unfolding ascii_lower text_eq
eq_ignore_ascii_case s t = text_eq (map ascii_lower s) (map ascii_lower t)

decimal_runs : decimal 1700000000123456789 ≡ codes "1700000000123456789"
unfolding decimal
decimal_runs = refl

-- `str::parse` of an unsigned integer: an optional plus sign, at least one digit, and no value above
-- the maximum on the way.
unfoldable pub parse_digits : ℕ → List ℕ → ℕ → Option ℕ
parse_digits max [] n = some n
parse_digits max (c ∷ cs) n =
    let rest = parse_digits max cs (n * 10 + (c - 48)) in
    if leb 48 c && leb c 57 then (if ltb max (n * 10 + (c - 48)) then none else rest) else none

unfoldable pub parse_uint : ℕ → Text → Option ℕ
parse_uint max [] = none
parse_uint max (c ∷ []) = if c == b'+' then none else parse_digits max (c ∷ []) 0
parse_uint max (c ∷ d ∷ cs) =
    if c == b'+' then parse_digits max (d ∷ cs) 0 else parse_digits max (c ∷ d ∷ cs) 0
