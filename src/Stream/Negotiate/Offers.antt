-- ===== src/Stream/Negotiate/Offers.antt =====
-- crates/lightr-cri-stream/src/spdy/mod.rs: what `offers` reads of a header, against the tokens that
-- were written into it.
use lightr_cri.Prelude.{
  ℕ, ◌≡◌, refl, ap, ◌∙◌, sym, Bool, true, false, List, [], ◌∷◌, ◌++◌, Option, none, some, arith,
  ◌==◌, if◌then◌else◌, any, All, append-nil,
}
use lightr_cri.Prelude.Text.{Text, codes, text_eq}
use lightr_cri.Stream.Negotiate.{
  split_on, cut, is_space, trim, trim_start, trim_end, is_filled, words, spaced, offers,
  negotiate_exec_protocol, IsBest, negotiate_exec_protocol-IsBest,
}

-- A byte of a token, and one that stands between tokens.
abbrev pub IsTokenByte : ℕ → Type 0
IsTokenByte c = ((c == b',') ≡ false) × (is_space c ≡ false)

abbrev pub is_separator : ℕ → Bool
is_separator c = if c == b',' then true else c == 32

abbrev pub IsSeparator : ℕ → Type 0
IsSeparator c = is_separator c ≡ true

-- The tokens behind the first, each with the separators before it: one byte at least.
abbrev pub Rest : Type 0
Rest = List (ℕ × List ℕ × Text)

abbrev pub written : Text → Rest → Text
written t [] = t
written t ((b, bs, u) ∷ more) = t ++ (b ∷ (bs ++ written u more))

abbrev pub tokens : Text → Rest → List Text
tokens t [] = t ∷ []
tokens t ((b, bs, u) ∷ more) = t ∷ tokens u more

abbrev pub IsToken : Text → Type 0
IsToken [] = ⊥
IsToken (c ∷ t) = IsTokenByte c × All IsTokenByte t

abbrev pub IsWritten : Text → Rest → Type 0
IsWritten t [] = IsToken t
IsWritten t ((b, bs, u) ∷ more) =
    IsToken t × (IsSeparator b × (All IsSeparator bs × IsWritten u more))

-- The pieces between commas and spaces.
abbrev pieces : Text → List Text
pieces t = spaced (split_on b',' t)

split_on_some : (sep : ℕ) (t : Text) → (w : Text) × (ws : List Text) × (split_on sep t ≡ w ∷ ws)
unfolding split_on
split_on_some sep [] = ([], [], refl)
split_on_some sep (c ∷ t) = let (w, ws, e) = split_on_some sep t in go (c == sep) w ws e
  where
    go :
        (b : Bool) (w : Text) (ws : List Text)
        → split_on sep t ≡ w ∷ ws
        → (v : Text) × (vs : List Text) × ((if b
              then [] ∷ split_on sep t
              else cut c (split_on sep t))
            ≡ v ∷ vs)
    go true w ws e = ([], split_on sep t, refl)
    go false w ws e = (c ∷ w, ws, ap (cut c) e)

cut-append : (c : ℕ) (w : Text) (ws vs : List Text) → cut c ((w ∷ ws) ++ vs) ≡ cut c (w ∷ ws) ++ vs
cut-append c w ws vs = refl

pieces_separator : (c : ℕ) (t : Text) → IsSeparator c → pieces (c ∷ t) ≡ [] ∷ pieces t
unfolding split_on spaced
pieces_separator c t h = let (w, ws, e) = split_on_some b',' t in ground (arith, h, e)

pieces_byte : (c : ℕ) (t : Text) → IsTokenByte c → pieces (c ∷ t) ≡ cut c (pieces t)
unfolding split_on spaced
pieces_byte c t h =
    let (w, ws, e) = split_on_some b',' t in
    let (v, vs, k) = split_on_some 32 w in ground (arith, h.0, h.1, e, k)

pieces_token :
    (t rest w : Text) (ws : List Text)
    → All IsTokenByte t
    → pieces rest ≡ w ∷ ws
    → pieces (t ++ rest) ≡ (t ++ w) ∷ ws
pieces_token [] rest w ws h e = e
pieces_token (c ∷ t) rest w ws h e =
    pieces_byte c (t ++ rest) h.0 ∙ ap (cut c) (pieces_token t rest w ws h.1 e)

trim_end_token : (t : Text) → All IsTokenByte t → trim_end t ≡ t
unfolding trim_end
trim_end_token [] h = refl
trim_end_token (c ∷ []) h = ground (arith, h.0.1)
trim_end_token (c ∷ d ∷ t) h = ground (arith, trim_end_token (d ∷ t) h.1)

trim_token : (t : Text) → IsToken t → (trim t ≡ t) × (is_filled t ≡ true)
unfolding trim trim_start
trim_token [] h = absurd h
trim_token (c ∷ t) h = (ground (arith, h.0.1, trim_end_token (c ∷ t) h), refl)

token_bytes : (t : Text) → IsToken t → All IsTokenByte t
token_bytes [] h = tt
token_bytes (c ∷ t) h = h

words_token : (t : Text) (ws : List Text) → IsToken t → words ((t ++ []) ∷ ws) ≡ t ∷ words ws
unfolding words
words_token t ws h = let k = trim_token t h in ground (arith, k, append-nil t)

words_separators : (bs t : Text) → All IsSeparator bs → words (pieces (bs ++ t)) ≡ words (pieces t)
unfolding words trim trim_start trim_end
words_separators [] t h = refl
words_separators (b ∷ bs) t h =
    ap words (pieces_separator b (bs ++ t) h.0) ∙ words_separators bs t h.1

words-written :
    (t : Text) (more : Rest) → IsWritten t more → words (pieces (written t more)) ≡ tokens t more
unfolding split_on spaced
words-written t [] h =
    ap words (ap pieces (sym (append-nil t)) ∙ pieces_token t [] [] [] (token_bytes t h) refl)
    ∙ words_token t [] h
    ∙ unfold words in refl
words-written t ((b, bs, u) ∷ more) h =
    ap words (
      pieces_token t (b ∷ (bs ++ written u more)) [] (pieces (bs ++ written u more))
        (token_bytes t h.0) (pieces_separator b (bs ++ written u more) h.1.0))
    ∙ words_token t (pieces (bs ++ written u more)) h.0
    ∙ ap (λ ws. t ∷ ws)
        (words_separators bs (written u more) h.1.1.0 ∙ words-written u more h.1.1.1)

-- Whether a version is one of some tokens.
abbrev pub is_among : List Text → Text → Bool
is_among ts p = any (λ o. text_eq o p) ts

none_offered :
    (f g : Text → Bool) (ps : List Text)
    → ((q : Text) → f q ≡ g q)
    → All (λ q. f q ≡ false) ps
    → All (λ q. g q ≡ false) ps
none_offered f g [] e h = tt
none_offered f g (p ∷ ps) e h = (sym (e p) ∙ h.0, none_offered f g ps e h.1)

same-IsBest :
    (f g : Text → Bool) (ps : List Text) (best : Option Text)
    → ((q : Text) → f q ≡ g q)
    → IsBest f ps best
    → IsBest g ps best
same-IsBest f g ps none e h = none_offered f g ps e h
same-IsBest f g ps (some p) e (front, back, k, a, b) =
    (front, back, k, sym (e p) ∙ a, none_offered f g front e b)

-- The versions of the protocol, the highest first.
abbrev pub versions : List Text
versions =
    codes "v5.channel.k8s.io"
    ∷ codes "v4.channel.k8s.io"
    ∷ codes "v3.channel.k8s.io"
    ∷ codes "v2.channel.k8s.io"
    ∷ codes "channel.k8s.io"
    ∷ []

-- Of a header that lists tokens, with commas and spaces in any number between them, the SPDY
-- negotiation answers with the highest version of the protocol, v5 at most, that is one of the tokens,
-- and with none where none of them is a version of the protocol.
pub negotiate_exec_protocol-written :
    (t : Text) (more : Rest)
    → IsWritten t more
    → IsBest (is_among (tokens t more)) versions (negotiate_exec_protocol (written t more))
unfolding offers
negotiate_exec_protocol-written t more h =
    same-IsBest (offers (written t more)) (is_among (tokens t more)) versions
      (negotiate_exec_protocol (written t more))
      (λ p. ap (any (λ o. text_eq o p)) (words-written t more h))
      (negotiate_exec_protocol-IsBest (written t more))
