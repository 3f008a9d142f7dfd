-- ===== src/Stream/Token/Cap.antt =====
-- token.rs: the cap on the tokens in flight, and any sequence of calls.
use lightr_cri.Prelude.{
  ℕ, zero, suc, ◌+◌, ◌≤◌, ◌<◌, ◌≡◌, ◌≢◌, refl, List, [], ◌∷◌, Option, none, some, arith, length,
  Option-cases, inl, inr,
}
use lightr_cri.Prelude.Map.{
  text_key, get, remove, retain, get-insert_ne, get-remove, get-remove_self, get-retain-none,
  length-insert_le, length-remove_le, length-retain_le,
}
use lightr_cri.Prelude.Text.{Text}
use lightr_cri.Stream.B64.{encode_url_nopad}
use lightr_cri.Stream.Token.{
  StreamVerb, StreamParams, max_inflight, Entry, Registry, is_live, sweep, Draws, mint_loop, mint,
  consume,
}
use lightr_cri.Stream.Token.Laws.{mint-some, mint_loop-none, entry}

mint_loop-length_le :
    (tries i : ℕ) (draws : Draws) (e : Entry) (m : Registry)
    → length (mint_loop tries i draws e m).1 ≤ length m + 1
unfolding mint_loop
mint_loop-length_le zero i draws e m = omega arith
mint_loop-length_le (suc tries) i draws e m =
    let again = mint_loop-length_le tries (suc i) draws e m in
    elim (Option-cases (draws i)) [
      | inl p ↦ ground (arith, p)
      | inr (buf, p) ↦ ground (arith, p, again, length-insert_le (encode_url_nopad buf) e m)
    ]

mint-cap :
    (verb : StreamVerb) (params : StreamParams) (now : ℕ) (draws : Draws) (m : Registry)
    → length m ≤ max_inflight
    → length (mint verb params now draws m).1 ≤ max_inflight
unfolding mint sweep
mint-cap verb params now draws m h = ground (
  arith,
  length-retain_le (is_live now) m,
  mint_loop-length_le 8 0 draws (entry verb params now) (retain (is_live now) m),
)

-- The calls that reach the registry, with the time and the random bytes that each meets.
pub data Call : Type 0 where
  mints : StreamVerb → StreamParams → ℕ → Draws → Call
  consumes : Text → ℕ → Call

unfoldable pub after : Call → Registry → Registry
after (mints verb params now draws) m = (mint verb params now draws m).1
after (consumes token now) m = (consume token now m).1

unfoldable pub run : List Call → Registry → Registry
run [] m = m
run (c ∷ cs) m = run cs (after c m)

after-cap : (c : Call) (m : Registry) → length m ≤ max_inflight → length (after c m) ≤ max_inflight
unfolding after consume
after-cap (mints verb params now draws) m h = mint-cap verb params now draws m h
after-cap (consumes token now) m h = omega (arith, length-remove_le token m)

-- From a registry within the cap no sequence of calls leads beyond it.
pub run-cap :
    (cs : List Call) (m : Registry) → length m ≤ max_inflight → length (run cs m) ≤ max_inflight
unfolding run
run-cap [] m h = h
run-cap (c ∷ cs) m h = run-cap cs (after c m) (after-cap c m h)

-- No call of the sequence mints `token` anew.
abbrev pub NeverMinted : Text → List Call → Registry → Type 0
NeverMinted token [] m = Unit {0}
NeverMinted token (mints verb params now draws ∷ cs) m =
    ((mint verb params now draws m).0 ≢ some token)
    × NeverMinted token cs (mint verb params now draws m).1
NeverMinted token (consumes t now ∷ cs) m = NeverMinted token cs (consume t now m).1

mint_gone :
    (token : Text) (verb : StreamVerb) (params : StreamParams) (now : ℕ) (draws : Draws)
    (m : Registry)
    → get token m ≡ none
    → (mint verb params now draws m).0 ≢ some token
    → get token (mint verb params now draws m).1 ≡ none
mint_gone token verb params now draws m h k = go (mint verb params now draws m) refl
  where
    swept : get token (sweep now m) ≡ none
    swept = unfold sweep in get-retain-none (is_live now) token m h

    go : (r : Option Text × Registry) → mint verb params now draws m ≡ r → get token r.1 ≡ none
    go (some t, m') q =
        let (room, fresh, p) = mint-some verb params now draws m m' t q in
        ground (arith, q, p, swept, get-insert_ne t token (entry verb params now) (sweep now m))
    go (none, m') q =
        unfold mint in
        ground (arith, swept, mint_loop-none 8 0 draws (entry verb params now) (sweep now m) m')

absent_stays :
    (token : Text) (cs : List Call) (m : Registry)
    → get token m ≡ none
    → NeverMinted token cs m
    → get token (run cs m) ≡ none
unfolding run after consume
absent_stays token [] m h k = h
absent_stays token (mints verb params now draws ∷ cs) m h k =
    absent_stays token cs _ (mint_gone token verb params now draws m h k.0) k.1
absent_stays token (consumes t now ∷ cs) m h k =
    absent_stays token cs (remove t m) (ground (arith, get-remove t token m)) k

-- A token that was consumed is refused for ever: after any further calls, none of which mints the
-- same text again, `consume` finds nothing.
pub consume_single_use :
    (token : Text) (now later : ℕ) (cs : List Call) (m : Registry)
    → NeverMinted token cs (consume token now m).1
    → (consume token later (run cs (consume token now m).1)).0 ≡ none
unfolding consume
consume_single_use token now later cs m k =
    rw (absent_stays token cs (remove token m) (get-remove_self token m) k)

-- Below the cap a mint succeeds as soon as the first draw is no live token, and returns its base64.
pub mint_available :
    (verb : StreamVerb) (params : StreamParams) (now : ℕ) (draws : Draws) (m : Registry)
    (buf : List ℕ)
    → length (sweep now m) < max_inflight
    → draws 0 ≡ some buf
    → get (encode_url_nopad buf) (sweep now m) ≡ none
    → (mint verb params now draws m).0 ≡ some (encode_url_nopad buf)
unfolding mint mint_loop
mint_available verb params now draws m buf h d f = ground arith
