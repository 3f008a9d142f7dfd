-- ===== src/Prelude/Map/Order.antt =====
-- The order of the keys of a map from texts, which `insert` keeps: a key then stands in it once.
use mathlib.Core.Path.{◌≡◌, refl, sym}
use mathlib.Core.Bool.{Bool, true, false}
use mathlib.Core.List.{[], ◌∷◌}
use mathlib.Core.Option.{none}
use native.Mathlib.Omega.{arith}
use lightr_cri.Prelude.Text.{Text, text_eq, text_eq_iff, text_lt}
use lightr_cri.Prelude.Map.{Map, text_key, get, insert}

text_lt_irrefl : (s : Text) → text_lt s s ≡ false
unfolding text_lt
text_lt_irrefl [] = refl
text_lt_irrefl (c ∷ s) = ground (arith, text_lt_irrefl s)

text_lt_trans : (s t u : Text) → text_lt s t ≡ true → text_lt t u ≡ true → text_lt s u ≡ true
unfolding text_lt
text_lt_trans s [] u h k = ground arith
text_lt_trans s (d ∷ t) [] h k = ground arith
text_lt_trans [] (d ∷ t) (e ∷ u) h k = refl
text_lt_trans (c ∷ s) (d ∷ t) (e ∷ u) h k = ground (arith, text_lt_trans s t u)

text_lt_total : (s t : Text) → text_eq s t ≡ false → text_lt t s ≡ false → text_lt s t ≡ true
unfolding text_lt text_eq
text_lt_total [] [] h k = ground arith
text_lt_total [] (d ∷ t) h k = refl
text_lt_total (c ∷ s) [] h k = ground arith
text_lt_total (c ∷ s) (d ∷ t) h k = ground (arith, text_lt_total s t)

module _ {V : Type 0} where
  -- Every key comes after `k`.
  unfoldable pub IsAfter : Text → Map Text V → Type 0
  IsAfter k [] = Unit {0}
  IsAfter k ((j, v) ∷ m) = (text_lt k j ≡ true) × IsAfter k m

  unfoldable pub IsOrdered : Map Text V → Type 0
  unfolding IsAfter
  IsOrdered [] = Unit {0}
  IsOrdered ((j, v) ∷ m) = IsAfter j m × IsOrdered m

  IsAfter-trans : (k j : Text) (m : Map Text V) → text_lt k j ≡ true → IsAfter j m → IsAfter k m
  unfolding IsAfter
  IsAfter-trans k j [] h a = tt
  IsAfter-trans k j ((i, v) ∷ m) h (a, b) = (text_lt_trans k j i h a, IsAfter-trans k j m h b)

  pub get-IsAfter : (k : Text) (m : Map Text V) → IsAfter k m → get k m ≡ none
  unfolding IsAfter get
  get-IsAfter k [] a = refl
  get-IsAfter k ((j, v) ∷ m) (a, b) =
      ground (arith, get-IsAfter k m b, text_lt_irrefl k, text_eq_iff j k, a)

  insert-IsAfter :
      (k j : Text) (v : V) (m : Map Text V)
      → text_lt j k ≡ true
      → IsAfter j m
      → IsAfter j (insert k v m)
  unfolding IsAfter insert
  insert-IsAfter k j v [] h a = (h, tt)
  insert-IsAfter k j v ((i, w) ∷ m) h (a, b) =
      go (text_eq i k) refl (text_lt k i) refl (insert-IsAfter k j v m h b)
    where
      go :
          (c : Bool)
          → text_eq i k ≡ c
          → (d : Bool) → text_lt k i ≡ d
          → IsAfter j (insert k v m)
          → IsAfter j (insert k v ((i, w) ∷ m))
      go true p d q rest = unfold IsAfter insert in rw p (h, b)
      go false p true q rest = unfold IsAfter insert in rw (p, q) (h, (a, b))
      go false p false q rest = unfold IsAfter insert in rw (p, q) (a, rest)

  pub insert-IsOrdered :
      (k : Text) (v : V) (m : Map Text V) → IsOrdered m → IsOrdered (insert k v m)
  unfolding IsOrdered IsAfter insert
  insert-IsOrdered k v [] a = (tt, tt)
  insert-IsOrdered k v ((j, w) ∷ m) (a, b) =
      go (text_eq j k) refl (text_lt k j) refl (insert-IsOrdered k v m b)
    where
      go :
          (c : Bool)
          → text_eq j k ≡ c
          → (d : Bool) → text_lt k j ≡ d
          → IsOrdered (insert k v m)
          → IsOrdered (insert k v ((j, w) ∷ m))
      go true p d q rest =
          unfold IsOrdered IsAfter insert in
          let same : j ≡ k = (text_eq_iff j k).0 p in rw p ((rw (sym same) a), b)
      go false p true q rest =
          unfold IsOrdered IsAfter insert in rw (p, q) ((q, IsAfter-trans k j m q a), (a, b))
      go false p false q rest =
          unfold IsOrdered IsAfter insert in
          rw (p, q) (insert-IsAfter k j v m (text_lt_total j k p q) a, rest)
