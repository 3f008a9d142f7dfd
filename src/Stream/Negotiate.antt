-- ===== src/Stream/Negotiate.antt =====
-- crates/lightr-cri-stream/src/spdy/mod.rs and ws.rs: the choice of a protocol version from a header.
-- `str::trim` is that of ASCII texts, which header values are.
pub mod Offers
use lightr_cri.Prelude.{
  ℕ, ◌≡◌, refl, ap, Bool, true, false, ◌&&◌, ◌||◌, List, [], ◌∷◌, ◌++◌, Option, none, some, leb,
  ◌==◌, if◌then◌else◌, any, All,
}
use lightr_cri.Prelude.Text.{Text, codes, text_eq}

-- `split` on a byte.
abbrev pub cut : ℕ → List Text → List Text
cut c [] = (c ∷ []) ∷ []
cut c (w ∷ ws) = (c ∷ w) ∷ ws

unfoldable pub split_on : ℕ → Text → List Text
split_on sep [] = [] ∷ []
split_on sep (c ∷ t) = let rest = split_on sep t in if c == sep then [] ∷ rest else cut c rest

abbrev pub is_space : ℕ → Bool
is_space c = (leb 9 c && leb c 13) || (c == 32)

unfoldable pub trim_start : Text → Text
trim_start [] = []
trim_start (c ∷ t) = let rest = trim_start t in if is_space c then rest else c ∷ t

abbrev kept_end : ℕ → Text → Text
kept_end c [] = if is_space c then [] else c ∷ []
kept_end c (d ∷ t) = c ∷ d ∷ t

unfoldable pub trim_end : Text → Text
trim_end [] = []
trim_end (c ∷ t) = kept_end c (trim_end t)

unfoldable pub trim : Text → Text
trim t = trim_end (trim_start t)

abbrev pub is_filled : Text → Bool
is_filled [] = false
is_filled (c ∷ t) = true

-- `header.split(',').flat_map(|s| s.split(' '))`, trimmed, without the empty ones.
unfoldable pub words : List Text → List Text
words [] = []
words (w ∷ ws) = let rest = words ws in if is_filled (trim w) then trim w ∷ rest else rest

unfoldable pub spaced : List Text → List Text
spaced [] = []
spaced (s ∷ ss) = split_on 32 s ++ spaced ss

unfoldable pub offers : Text → Text → Bool
offers header protocol = any (λ o. text_eq o protocol) (words (spaced (split_on b',' header)))

-- `SPDY_EXEC_PROTOCOLS`, lowest first, and read from its end.
unfoldable pub spdy_exec_protocols : List Text
spdy_exec_protocols =
    codes "channel.k8s.io"
    ∷ codes "v2.channel.k8s.io"
    ∷ codes "v3.channel.k8s.io"
    ∷ codes "v4.channel.k8s.io"
    ∷ codes "v5.channel.k8s.io"
    ∷ []

unfoldable pub reversed : List Text → List Text → List Text
reversed [] acc = acc
reversed (p ∷ ps) acc = reversed ps (p ∷ acc)

-- `find`.
unfoldable pub find : (Text → Bool) → List Text → Option Text
find p [] = none
find p (x ∷ xs) = if p x then some x else find p xs

unfoldable pub negotiate_exec_protocol : Text → Option Text
negotiate_exec_protocol header = find (offers header) (reversed spdy_exec_protocols [])

-- `ALLOWED_PROTOCOLS` of the WebSocket path, in the order of preference.
unfoldable pub allowed_protocols : List Text
allowed_protocols =
    codes "v5.channel.k8s.io"
    ∷ codes "v5.base64.channel.k8s.io"
    ∷ codes "v4.channel.k8s.io"
    ∷ codes "v4.base64.channel.k8s.io"
    ∷ codes "channel.k8s.io"
    ∷ codes "base64.channel.k8s.io"
    ∷ []

unfoldable pub lists : Text → Text → Bool
lists offered cand = any (λ p. text_eq (trim p) cand) (split_on b',' offered)

abbrev pub or_empty : Option Text → Text
or_empty none = []
or_empty (some p) = p

unfoldable pub negotiate : Option Text → Text
negotiate none = []
negotiate (some offered) = or_empty (find (lists offered) allowed_protocols)

-- What a choice in order of preference is: the first that is offered, or none where none is.
abbrev pub IsBest : (Text → Bool) → List Text → Option Text → Type 0
IsBest offered protocols none = All (λ q. offered q ≡ false) protocols
IsBest offered protocols (some p) =
    (front : List Text) × (back : List Text) × (protocols ≡ front ++ (p ∷ back))
    × (offered p ≡ true)
    × All (λ q. offered q ≡ false) front

find-IsBest :
    (offered : Text → Bool) (protocols : List Text)
    → IsBest offered protocols (find offered protocols)
unfolding find
find-IsBest offered [] = tt
find-IsBest offered (x ∷ xs) = go (offered x) refl (find offered xs) refl (find-IsBest offered xs)
  where
    go :
        (b : Bool)
        → offered x ≡ b
        → (o : Option Text) → find offered xs ≡ o
        → IsBest offered xs o
        → IsBest offered (x ∷ xs) (find offered (x ∷ xs))
    go true p o q h = rw (find, p) ([], xs, refl, p, tt)
    go false p none q h = rw (find, p, q) (p, h)
    go false p (some y) q (front, back, e, k, a) =
        rw (find, p, q) (x ∷ front, back, ap (λ (t : List Text). x ∷ t) e, k, (p, a))

-- The SPDY negotiation answers with the highest version that the header offers, v5 at most, and with
-- none where it offers none of them.
pub negotiate_exec_protocol-IsBest :
    (header : Text)
    → IsBest
        (offers header)
        (codes "v5.channel.k8s.io"
          ∷ codes "v4.channel.k8s.io"
          ∷ codes "v3.channel.k8s.io"
          ∷ codes "v2.channel.k8s.io"
          ∷ codes "channel.k8s.io"
          ∷ [])
        (negotiate_exec_protocol header)
unfolding negotiate_exec_protocol reversed spdy_exec_protocols
negotiate_exec_protocol-IsBest header =
    find-IsBest (offers header) (reversed spdy_exec_protocols [])

-- The WebSocket negotiation answers with the first of its protocols that the offer lists, v5 before
-- v4 and binary before base64, and with the empty text where the offer lists none of them.
pub negotiate-IsBest :
    (offered : Text)
    → (best : Option Text) × IsBest (lists offered) allowed_protocols best
      × (negotiate (some offered) ≡ or_empty best)
unfolding negotiate
negotiate-IsBest offered =
    (find (lists offered) allowed_protocols, find-IsBest (lists offered) allowed_protocols, refl)
