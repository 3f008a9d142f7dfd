-- ===== src/Stream/Token.antt =====
-- crates/lightr-cri-stream/src/token.rs: the registry of single-use tokens. An `Instant` is a count
-- of nanoseconds, and the bytes that /dev/urandom gives are an argument, one draw for each try.
pub mod Laws
pub mod Cap
use lightr_cri.Prelude.{
  ℕ, zero, suc, ◌+◌, ◌-◌, ◌*◌, Bool, true, false, List, [], ◌∷◌, Option, none, some, ltb, leb,
  if◌then◌else◌, length,
}
use lightr_cri.Prelude.Map.{Map, Key, text_key, get, insert, remove, retain}
use lightr_cri.Prelude.Text.{Text}
use lightr_cri.Stream.B64.{encode_url_nopad}

pub data StreamVerb : Type 0 where
  exec attach port_forward : StreamVerb

pub record StreamParams : Type 0 where
  pub container : Option Text
  pub sandbox : Option Text
  pub cmd : List Text
  pub tty : Bool
  pub stdin : Bool
  pub ports : List ℕ
  pub dial_target : Option Text
  pub netns_path : Option Text

-- 60 seconds.
abbrev pub ttl : ℕ
ttl = 60_000_000_000

abbrev pub max_inflight : ℕ
max_inflight = 1000

pub record Entry : Type 0 where
  pub verb : StreamVerb
  pub params : StreamParams
  pub minted_at : ℕ

abbrev pub Registry : Type 0
Registry = Map Text Entry

-- `now.duration_since(e.minted_at) < TTL`; the difference stops at 0.
unfoldable pub is_live : ℕ → Entry → Bool
is_live now e = ltb (now - e.minted_at) ttl

unfoldable pub sweep : ℕ → Registry → Registry
sweep now = retain (is_live now)

-- A read of six bytes, or the failure of /dev/urandom.
abbrev pub Draws : Type 0
Draws = ℕ → Option (List ℕ)

-- The tries that are left, and the number of the next draw.
unfoldable pub mint_loop : ℕ → ℕ → Draws → Entry → Registry → Option Text × Registry
mint_loop zero i draws e m = (none, m)
mint_loop (suc tries) i draws e m = elim (draws i) [
  | none ↦ (none, m)
  | some buf ↦ elim (get (encode_url_nopad buf) m) [
    | some taken ↦ mint_loop tries (suc i) draws e m
    | none ↦ (some (encode_url_nopad buf), insert (encode_url_nopad buf) e m)
  ]
]

unfoldable pub mint : StreamVerb → StreamParams → ℕ → Draws → Registry → Option Text × Registry
mint verb params now draws m =
    let map = sweep now m in
    if leb max_inflight (length map)
    then (none, map)
    else mint_loop 8 0 draws (record { verb = verb; params = params; minted_at = now }) map

abbrev pub if_live : ℕ → Option Entry → Option (StreamVerb × StreamParams)
if_live now none = none
if_live now (some e) = if leb ttl (now - e.minted_at) then none else some (e.verb, e.params)

-- The entry is removed before its age is looked at.
unfoldable pub consume : Text → ℕ → Registry → Option (StreamVerb × StreamParams) × Registry
consume token now m = (if_live now (get token m), remove token m)
