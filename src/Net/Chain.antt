-- ===== src/Net/Chain.antt =====
-- crates/lightr-cri-net/src/chain.rs: the chain of CNI plugins of a conflist. The run of a plugin's
-- binary, the file and serde_json are parameters; a run is known by its number.
pub mod Teardown
pub mod Threading
pub mod Symmetry
use lightr_cri.Prelude.{
  ℕ, zero, suc, ◌==◌, ltb, Bool, true, false, not, List, [], ◌∷◌, ◌++◌, Option, none, some, map,
  keep, any, if◌then◌else◌,
}
use lightr_cri.Prelude.Text.{Text, codes}
use lightr_cri.Backend.{Protocol, tcp, udp, sctp, PortMapping}
use lightr_cri.Stream.Negotiate.{split_on}
use lightr_cri.Net.Json.{
  Value, object, array, string, number, boolean, Members, no_member, insert_member, get_field,
  as_object, as_array, as_str, as_bool, to_list, from_list,
}

-- `Result<_, CniError>`.
pub data Cni (A : Type 0) : Type 0 where
  done : A → Cni A
  failed : Text → Cni A

infixl 5 ◌>>=◌
abbrev ◌>>=◌ : {A B : Type 0} → Option A → (A → Option B) → Option B
none >>= f = none
some a >>= f = f a

abbrev pub or_else : {A : Type 0} → A → Option A → A
or_else a none = a
or_else a (some b) = b

unfoldable pub conflist_version : Value → Text
conflist_version c = or_else (codes "1.0.0") (do v ← get_field (codes "cniVersion") c; as_str v)

unfoldable pub conflist_name : Value → Text
conflist_name c = or_else [] (do v ← get_field (codes "name") c; as_str v)

unfoldable pub conflist_plugins : Value → Cni (List Value)
conflist_plugins c = elim (do p ← get_field (codes "plugins") c; as_array p) [
  | none ↦ failed (codes "conflist missing 'plugins' array")
  | some arr ↦ done (to_list arr)
]

unfoldable pub plugin_type : Value → Option Text
plugin_type plugin = do t ← get_field (codes "type") plugin; as_str t

abbrev pub no_type : Text
no_type = codes "plugin object missing 'type' field"

abbrev proto_text : Protocol → Text
proto_text tcp = codes "tcp"
proto_text udp = codes "udp"
proto_text sctp = codes "sctp"

unfoldable pub serialize_port_mapping : PortMapping → Value
serialize_port_mapping pm = object (
    insert_member (codes "hostPort") (number pm.host_port) (
      insert_member (codes "containerPort") (number pm.container_port) (
        insert_member (codes "protocol") (string (proto_text pm.protocol))
          (insert_member (codes "hostIP") (string pm.host_ip) no_member))))

unfoldable pub has_portmappings_cap : Value → Bool
has_portmappings_cap plugin = or_else false (do
  c ← get_field (codes "capabilities") plugin
  v ← get_field (codes "portMappings") c
  as_bool v)

unfoldable pub host_mapped : List PortMapping → List PortMapping
host_mapped pms = keep (λ pm. ltb 0 pm.host_port) pms

abbrev pub with_prev : Option Value → Members → Members
with_prev none obj = obj
with_prev (some prev) obj = insert_member (codes "prevResult") prev obj

abbrev pub with_mappings : List Value → Members → Members
with_mappings [] obj = obj
with_mappings (v ∷ vs) obj =
    insert_member (codes "runtimeConfig")
      (object (insert_member (codes "portMappings") (array (from_list (v ∷ vs))) no_member)) obj

-- The object that a plugin is given on its stdin.
unfoldable pub plugin_config : Value → Text → Text → Option Value → List PortMapping → Members
plugin_config plugin cni_version net_name prev_result port_mappings =
    let obj = with_prev prev_result (
      insert_member (codes "name") (string net_name) (
        insert_member (codes "cniVersion") (string cni_version)
          (or_else no_member (as_object plugin)))) in
    if has_portmappings_cap plugin
    then with_mappings (map serialize_port_mapping (host_mapped port_mappings)) obj
    else obj

-- The address before its prefix length; an address with a colon is none of IPv4.
abbrev head_or : Text → List Text → Text
head_or t [] = t
head_or t (u ∷ us) = u

-- An entry without an address ends the search.
unfoldable pub first_ipv4 : List Value → Option Text
first_ipv4 [] = none
first_ipv4 (entry ∷ entries) =
    let rest = first_ipv4 entries in
    elim (do a ← get_field (codes "address") entry; as_str a) [
      | none ↦ none
      | some addr ↦
          if any (λ c. c == b':') addr then rest else some (head_or addr (split_on b'/' addr))
    ]

unfoldable pub extract_first_ipv4 : Value → Option Text
extract_first_ipv4 result = do
  ips ← get_field (codes "ips") result
  entries ← as_array ips
  first_ipv4 (to_list entries)

-- What a plugin is run for: CNI_CONTAINERID and CNI_NETNS.
pub record Target : Type 0 where
  pub container_id : Text
  pub netns : Text

-- One run of a plugin: its type, ADD or DEL, what it is for, and its stdin.
pub record PluginRun : Type 0 where
  pub target : Target
  pub plugin : Text
  pub command : Text
  pub stdin : Text

-- `to_string` and `from_str` of serde_json, the conflist by its path, and what the n-th run gives on
-- its stdout.
pub record CniEnv : Type 0 where
  pub to_string : Members → Text
  pub from_str : Text → Cni Value
  pub load_conflist : Cni Value
  pub exec_plugin : ℕ → PluginRun → Cni Text

unfoldable pub parse_cni_error : CniEnv → Text → Text
parse_cni_error env stdout = elim (env.from_str stdout) [
  | failed e ↦ stdout
  | done v ↦ elim (do m ← get_field (codes "msg") v; as_str m) [
    | some msg ↦ msg
    | none ↦ or_else stdout (do m ← get_field (codes "details") v; as_str m)
  ]
]

abbrev pub last_error : Option Text → Cni Text → Option Text
last_error last (done stdout) = last
last_error last (failed e) = some e

module _ (env : CniEnv) (version name : Text) (to : Target) (pms : List PortMapping) where
  unfoldable pub run_of : Text → Value → Text → Option Value → PluginRun
  run_of command plugin type prev = record {
    target = to;
    plugin = type;
    command = command;
    stdin = env.to_string (plugin_config plugin version name prev pms);
  }

  -- The loop of ADD from the n-th run on: the last result, and the runs that were made.
  unfoldable pub add_loop : ℕ → Option Value → List Value → Cni (Option Value) × List PluginRun
  add_loop n prev [] = (done prev, [])
  add_loop n prev (plugin ∷ plugins) = elim (plugin_type plugin) [
    | none ↦ (failed no_type, [])
    | some type ↦
        let run = run_of (codes "ADD") plugin type prev in
        elim (env.exec_plugin n run) [
          | failed e ↦ (failed e, run ∷ [])
          | done stdout ↦ elim (env.from_str stdout) [
            | failed e ↦
                (failed (codes "parse result from " ++ (type ++ (codes ": " ++ e))), run ∷ [])
            | done result ↦
                let rest = add_loop (suc n) (some result) plugins in (rest.0, run ∷ rest.1)
          ]
        ]
  ]

  -- The loop of DEL over the plugins in their reverse order: the last error, and the runs.
  unfoldable pub del_loop : ℕ → Option Text → List Value → Option Text × List PluginRun
  del_loop n last [] = (last, [])
  del_loop n last (plugin ∷ plugins) = elim (plugin_type plugin) [
    | none ↦ del_loop n last plugins
    | some type ↦
        let run = run_of (codes "DEL") plugin type none in
        let rest = del_loop (suc n) (last_error last (env.exec_plugin n run)) plugins in
        (rest.0, run ∷ rest.1)
  ]

unfoldable pub reverse : List Value → List Value → List Value
reverse [] acc = acc
reverse (v ∷ vs) acc = reverse vs (v ∷ acc)

abbrev ip_of : Cni (Option Value) → Cni (Option Text)
ip_of (failed e) = failed e
ip_of (done none) = done none
ip_of (done (some result)) = done (extract_first_ipv4 result)

abbrev deleted : Option Text → Cni (Unit {0})
deleted none = done tt
deleted (some e) = failed e

module _ (env : CniEnv) (to : Target) (pms : List PortMapping) where
  unfoldable pub add : Cni (Option Text) × List PluginRun
  add = elim env.load_conflist [
    | failed e ↦ (failed e, [])
    | done conflist ↦ elim (conflist_plugins conflist) [
      | failed e ↦ (failed e, [])
      | done plugins ↦
          let r =
            add_loop env (conflist_version conflist) (conflist_name conflist) to pms 0 none
              plugins in
          (ip_of r.0, r.1)
    ]
  ]

  unfoldable pub del : Cni (Unit {0}) × List PluginRun
  del = elim env.load_conflist [
    | failed e ↦ (failed e, [])
    | done conflist ↦ elim (conflist_plugins conflist) [
      | failed e ↦ (failed e, [])
      | done plugins ↦
          let r =
            del_loop env (conflist_version conflist) (conflist_name conflist) to pms 0 none
              (reverse plugins []) in
          (deleted r.0, r.1)
    ]
  ]
