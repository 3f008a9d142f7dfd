-- ===== src/Fake/Sandbox.antt =====
-- lightr-cri-fake: `run_sandbox`, `stop_sandbox` and `remove_sandbox`.
pub mod Stop
pub mod Remove
use lightr_cri.Prelude.{
  ℕ, zero, suc, Bool, true, false, List, [], ◌∷◌, ◌++◌, Option, none, some, if◌then◌else◌,
}
use lightr_cri.Prelude.Map.{Map, Key, text_key, get, insert, remove}
use lightr_cri.Prelude.Text.{Text, codes, text_eq}
use lightr_cri.Backend.{
  pos, SandboxConfig, SandboxState, ready, not_ready, BackendError, internal, Result, ok, err,
}
use lightr_cri.Fake.World.{
  SandboxRecord, ContainerRecord, NetSetup, unavailable, network, setup_error, Effect, net_teardown,
  Env, World, M, ◌>>=◌, ◌>>◌, and_then, next, now_nanos, fresh_id, count_id, json_file,
  write_sandbox,
}
use lightr_cri.Fake.Container.{stop_container, remove_container}

-- The ids of the sandbox's containers, in the order of the index.
unfoldable pub container_ids : Text → Map Text ContainerRecord → List Text
container_ids id [] = []
container_ids id ((k, rec) ∷ m) =
    if text_eq rec.sandbox id then rec.id ∷ container_ids id m else container_ids id m

abbrev pub teardown : {J : Type 0} → Text → Option Text → Option Text → World J → World J
teardown id none ip w = w
teardown id (some ns) ip w = record w { effects = w.effects ++ (net_teardown id ns ip ∷ []) }

module _ {J : Type 0} (env : Env J) where
  -- The record of a new sandbox is on disk before it is in the cache.
  unfoldable pub add_sandbox : Text → SandboxConfig → Option Text → Option Text → M J Text
  add_sandbox id cfg ip netns_path w =
      let rec : SandboxRecord = record {
        id = id;
        config = cfg;
        state = ready;
        created_at_nanos = now_nanos env w;
        ip = ip;
        netns_path = netns_path;
      } in
      and_then (write_sandbox env id rec (next w))
        (λ _ v. (ok id, record v { sandboxes = insert id rec v.sandboxes }))

  unfoldable pub run_sandbox : SandboxConfig → M J Text
  run_sandbox cfg w =
      let id = fresh_id env (codes "sb-") w in
      let v = count_id w in
      if cfg.host_network
      then add_sandbox id cfg none none v
      else elim (env.net_setup v.tick id cfg.port_mappings) [
        | unavailable ↦ add_sandbox id cfg none none (next v)
        | network ip ns_path ↦ add_sandbox id cfg ip (some ns_path) (next v)
        | setup_error e ↦
            (err (internal (codes "CNI setup for sandbox " ++ (id ++ (codes ": " ++ e)))), next v)
      ]

  -- The cache's entry changes first; its copy is then written.
  unfoldable pub stop_sandbox : Text → M J (Unit {0})
  stop_sandbox id w = elim (get id w.sandboxes) [
    | none ↦ (ok tt, w)
    | some rec ↦ elim rec.state [
      | not_ready ↦ (ok tt, w)
      | ready ↦
          let stopped = record rec { state = not_ready } in
          write_sandbox env id stopped (record w { sandboxes = insert id stopped w.sandboxes })
    ]
  ]

  unfoldable pub remove_containers : List Text → M J (Unit {0})
  remove_containers [] w = (ok tt, w)
  remove_containers (cid ∷ cids) w =
      and_then (stop_container env cid (pos 0) w)
        (λ _ v. and_then (remove_container env cid v) (λ _. remove_containers cids))

  -- The index entry goes first, then the file, whose removal may fail unseen.
  unfoldable pub forget_sandbox : Text → World J → World J
  forget_sandbox id w = elim (get id w.sandboxes) [
    | none ↦ w
    | some rec ↦
        if env.unlink w.tick
        then record (next w) {
          sandboxes = remove id w.sandboxes;
          sandboxes_dir = remove (json_file id) w.sandboxes_dir;
        }
        else record (next w) { sandboxes = remove id w.sandboxes }
  ]

  unfoldable pub remove_sandbox : Text → M J (Unit {0})
  remove_sandbox id w = and_then (stop_sandbox id w) (λ _ v. elim (get id v.sandboxes) [
    | none ↦ (ok tt, v)
    | some rec ↦
        and_then (remove_containers (container_ids id v.containers) v)
          (λ _ u. (ok tt, forget_sandbox id (teardown id rec.netns_path rec.ip u)))
  ])
