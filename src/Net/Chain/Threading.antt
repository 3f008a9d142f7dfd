-- ===== src/Net/Chain/Threading.antt =====
-- crates/lightr-cri-net/src/chain.rs: how `add` hands each plugin the result of the one before it.
use lightr_cri.Prelude.{
  ℕ, suc, ◌≡◌, refl, Bool, true, false, if◌then◌else◌, map, ◌∙◌, List, [], ◌∷◌, Option, none, some,
  arith,
}
use lightr_cri.Prelude.Text.{Text, codes, text_eq, text_eq_iff}
use lightr_cri.Backend.{PortMapping}
use lightr_cri.Net.Json.{
  Value, object, array, string, number, boolean, null, Members, no_member, member, lookup,
  insert_member, get_field, as_object,
}
use lightr_cri.Net.Chain.{
  Cni, done, failed, CniEnv, Target, PluginRun, run_of, plugin_type, add_loop, plugin_config,
  with_prev, with_mappings, or_else, serialize_port_mapping, host_mapped, has_portmappings_cap,
}

lookup-insert_member :
    (k j : Text) (v : Value) (ms : Members)
    → lookup j (insert_member k v ms) ≡ (if text_eq k j then some v else lookup j ms)
unfolding lookup insert_member
lookup-insert_member k j v no_member = refl
lookup-insert_member k j v (member i w ms) =
    ground (arith, text_eq_iff k j, text_eq_iff i k, text_eq_iff i j, lookup-insert_member k j v ms)

-- What the `prevResult` of a plugin's input is to be: the result given, or else its own member.
abbrev pub expected_prev : Option Value → Value → Option Value
expected_prev none plugin = get_field (codes "prevResult") plugin
expected_prev (some result) plugin = some result

lookup-with_prev :
    (prev : Option Value) (plugin : Value) (ms : Members)
    → lookup (codes "prevResult") ms ≡ get_field (codes "prevResult") plugin
    → lookup (codes "prevResult") (with_prev prev ms) ≡ expected_prev prev plugin
unfolding text_eq
lookup-with_prev none plugin ms h = h
lookup-with_prev (some v) plugin ms h =
    lookup-insert_member (codes "prevResult") (codes "prevResult") v ms

lookup-with_mappings :
    (vs : List Value) (ms : Members)
    → lookup (codes "prevResult") (with_mappings vs ms) ≡ lookup (codes "prevResult") ms
unfolding text_eq
lookup-with_mappings [] ms = refl
lookup-with_mappings (v ∷ vs) ms =
    lookup-insert_member (codes "runtimeConfig") (codes "prevResult") _ ms

lookup-as_object :
    (k : Text) (plugin : Value)
    → lookup k (or_else no_member (as_object plugin)) ≡ get_field k plugin
unfolding lookup get_field
lookup-as_object k (object ms) = refl
lookup-as_object k (array vs) = refl
lookup-as_object k (string t) = refl
lookup-as_object k (number n) = refl
lookup-as_object k (boolean b) = refl
lookup-as_object k null = refl

lookup-plugin_config :
    (plugin : Value) (version name : Text) (prev : Option Value) (pms : List PortMapping)
    → lookup (codes "prevResult") (plugin_config plugin version name prev pms)
      ≡ expected_prev prev plugin
unfolding plugin_config text_eq
lookup-plugin_config plugin version name prev pms = go (has_portmappings_cap plugin)
  where
    obj : Members
    obj = or_else no_member (as_object plugin)

    versioned : Members
    versioned = insert_member (codes "cniVersion") (string version) obj

    base : Members
    base = with_prev prev (insert_member (codes "name") (string name) versioned)

    found : lookup (codes "prevResult") base ≡ expected_prev prev plugin
    found = lookup-with_prev prev plugin (insert_member (codes "name") (string name) versioned) (
        lookup-insert_member (codes "name") (codes "prevResult") (string name) versioned
        ∙ lookup-insert_member (codes "cniVersion") (codes "prevResult") (string version) obj
        ∙ lookup-as_object (codes "prevResult") plugin)

    go :
        (b : Bool)
        → lookup
            (codes "prevResult")
            (if b then with_mappings (map serialize_port_mapping (host_mapped pms)) base else base)
          ≡ expected_prev prev plugin
    go true = lookup-with_mappings (map serialize_port_mapping (host_mapped pms)) base ∙ found
    go false = found

module _ (env : CniEnv) (version name : Text) (to : Target) (pms : List PortMapping) where
  -- Runs of ADD for the target, from the n-th on, of all the plugins in order: each succeeds with a
  -- result that parses, the first is given `prev` and each other the result of the run before it, as
  -- the `prevResult` of the object on its stdin.
  abbrev pub IsThreaded : ℕ → Option Value → List Value → List PluginRun → Option Value → Type 0
  IsThreaded n prev [] [] last = last ≡ prev
  IsThreaded n prev [] (run ∷ runs) last = ⊥
  IsThreaded n prev (plugin ∷ plugins) [] last = ⊥
  IsThreaded n prev (plugin ∷ plugins) (run ∷ runs) last =
      (type : Text) × (stdout : Text) × (result : Value) × (plugin_type plugin ≡ some type)
      × (obj : Members) × (run.command ≡ codes "ADD")
      × (run.plugin ≡ type)
      × (run.target ≡ to)
      × (run.stdin ≡ env.to_string obj)
      × (lookup (codes "prevResult") obj ≡ expected_prev prev plugin)
      × (env.exec_plugin n run ≡ done stdout)
      × (env.from_str stdout ≡ done result)
      × IsThreaded (suc n) (some result) plugins runs last

  -- Where the chain of ADD succeeds, every plugin was run, in the order of the conflist, for the
  -- container and the network namespace given, each with the result of the one before it under
  -- `prevResult` in the object on its stdin (the first with `prev`, or where that is none with what
  -- its own object has there), and the chain's result is the last plugin's.
  pub add_loop-IsThreaded :
      (n : ℕ) (prev : Option Value) (plugins : List Value) (last : Option Value)
      → (add_loop env version name to pms n prev plugins).0 ≡ done last
      → IsThreaded n prev plugins (add_loop env version name to pms n prev plugins).1 last
  unfolding add_loop run_of
  add_loop-IsThreaded n prev [] last h = ground arith
  add_loop-IsThreaded n prev (plugin ∷ plugins) last h =
      go (plugin_type plugin) refl (λ k v q. add_loop-IsThreaded k v plugins last q)
    where
      go :
          (o : Option Text)
          → plugin_type plugin ≡ o
          → ((k : ℕ) (v : Option Value)
              → (add_loop env version name to pms k v plugins).0 ≡ done last
              → IsThreaded k v plugins (add_loop env version name to pms k v plugins).1 last)
          → IsThreaded n prev
              (plugin ∷ plugins)
              (add_loop env version name to pms n prev (plugin ∷ plugins)).1
              last
      go none p rest = absurd (ground arith)
      go (some type) p rest = ran (env.exec_plugin n run) refl
        where
          run : PluginRun
          run = run_of env version name to pms (codes "ADD") plugin type prev

          parsed :
              (stdout : Text) (c : Cni Value)
              → env.exec_plugin n run ≡ done stdout
              → env.from_str stdout ≡ c
              → IsThreaded n prev
                  (plugin ∷ plugins)
                  (add_loop env version name to pms n prev (plugin ∷ plugins)).1
                  last
          parsed stdout (failed m) q r = absurd (ground arith)
          parsed stdout (done result) q r =
              rw (add_loop, p, q, r)
                (
                  type,
                  stdout,
                  result,
                  p,
                  plugin_config plugin version name prev pms,
                  refl,
                  refl,
                  refl,
                  refl,
                  lookup-plugin_config plugin version name prev pms,
                  q,
                  r,
                  rest (suc n) (some result) (ground arith),
                )

          ran :
              (c : Cni Text)
              → env.exec_plugin n run ≡ c
              → IsThreaded n prev
                  (plugin ∷ plugins)
                  (add_loop env version name to pms n prev (plugin ∷ plugins)).1
                  last
          ran (failed m) q = absurd (ground arith)
          ran (done stdout) q = parsed stdout (env.from_str stdout) q refl
