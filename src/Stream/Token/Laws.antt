-- ===== src/Stream/Token/Laws.antt =====
-- token.rs: a token is good once, for its time, and for what it was minted for.
use lightr_cri.Prelude.{
  ℕ, zero, suc, ◌+◌, ◌≤◌, ◌<◌, ◌≡◌, refl, true, Option, none, some, arith, length,
}
use lightr_cri.Prelude.Map.{
  text_key, get, insert, get-insert_self, get-insert_ne, get-remove_self, get-retain_kept,
}
use lightr_cri.Prelude.Text.{Text}
use lightr_cri.Stream.Token.{
  StreamVerb, StreamParams, ttl, max_inflight, Entry, Registry, is_live, sweep, Draws, mint_loop,
  mint, consume,
}

-- A token that `mint_loop` returns was not in the map, and the map gained its entry alone.
mint_loop-some :
    (tries i : ℕ) (draws : Draws) (e : Entry) (m m' : Registry) (token : Text)
    → mint_loop tries i draws e m ≡ (some token, m')
    → (get token m ≡ none) × (m' ≡ insert token e m)
unfolding mint_loop
mint_loop-some zero i draws e m m' token h = cc
mint_loop-some (suc tries) i draws e m m' token h =
    ground (arith, mint_loop-some tries (suc i) draws e m m' token)

pub mint_loop-none :
    (tries i : ℕ) (draws : Draws) (e : Entry) (m m' : Registry)
    → mint_loop tries i draws e m ≡ (none, m')
    → m' ≡ m
unfolding mint_loop
mint_loop-none zero i draws e m m' h = ground arith
mint_loop-none (suc tries) i draws e m m' h =
    ground (arith, mint_loop-none tries (suc i) draws e m m')

abbrev pub entry : StreamVerb → StreamParams → ℕ → Entry
entry verb params now = record { verb = verb; params = params; minted_at = now }

-- A minted token is new among the live ones, and its entry is all that the swept map gains.
pub mint-some :
    (verb : StreamVerb) (params : StreamParams) (now : ℕ) (draws : Draws) (m m' : Registry)
    (token : Text)
    → mint verb params now draws m ≡ (some token, m')
    → (length (sweep now m) < max_inflight)
      × (get token (sweep now m) ≡ none)
      × (m' ≡ insert token (entry verb params now) (sweep now m))
unfolding mint
mint-some verb params now draws m m' token h =
    ground (arith, mint_loop-some 8 0 draws (entry verb params now) (sweep now m) m' token)

-- A minted token is consumed with its verb and its parameters before a minute has passed, and a
-- `consume` of it that follows finds nothing, at any time.
pub consume-mint :
    (verb : StreamVerb) (params : StreamParams) (now later last : ℕ) (draws : Draws)
    (m m' : Registry) (token : Text)
    → mint verb params now draws m ≡ (some token, m')
    → later < now + ttl
    → ((consume token later m').0 ≡ some (verb, params))
      × ((consume token last (consume token later m').1).0 ≡ none)
unfolding consume
consume-mint verb params now later last draws m m' token h ht =
    let (room, fresh, e) = mint-some verb params now draws m m' token h in
    let s = sweep now m in
    ground (arith, e, get-insert_self token (entry verb params now) s, get-remove_self token m')

-- A token whose minute has passed is not honoured, and its slot is free afterwards.
pub consume_expired :
    (token : Text) (e : Entry) (now : ℕ) (m : Registry)
    → get token m ≡ some e
    → e.minted_at + ttl ≤ now
    → ((consume token now m).0 ≡ none) × (get token (consume token now m).1 ≡ none)
unfolding consume
consume_expired token e now m h k = ground (arith, get-remove_self token m)

-- A mint, whether it succeeds or not, leaves every live token with its entry.
pub mint_keeps :
    (verb : StreamVerb) (params : StreamParams) (now : ℕ) (draws : Draws) (m : Registry) (t : Text)
    (e : Entry)
    → get t m ≡ some e
    → is_live now e ≡ true
    → get t (mint verb params now draws m).1 ≡ some e
mint_keeps verb params now draws m t e h k = go (mint verb params now draws m) refl
  where
    kept : get t (sweep now m) ≡ some e
    kept = unfold sweep in get-retain_kept (is_live now) t e m h k

    go : (r : Option Text × Registry) → mint verb params now draws m ≡ r → get t r.1 ≡ some e
    go (some token, m') q =
        let (room, fresh, p) = mint-some verb params now draws m m' token q in
        ground (arith, p, kept, fresh, get-insert_ne token t (entry verb params now) (sweep now m))
    go (none, m') q =
        unfold mint in
        ground (arith, kept, mint_loop-none 8 0 draws (entry verb params now) (sweep now m) m')
