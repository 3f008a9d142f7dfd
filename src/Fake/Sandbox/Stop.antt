-- ===== src/Fake/Sandbox/Stop.antt =====
-- lightr-cri-fake: what `run_sandbox`, `stop_sandbox` and `remove_sandbox` leave.
use lightr_cri.Prelude.{
  ◌≢◌, ◌≡◌, refl, Option, none, some, arith, inl, inr, Option-cases, Bool-cases,
}
use lightr_cri.Prelude.Map.{text_key, get, insert, get-remove_self, get-insert_self}
use lightr_cri.Prelude.Text.{Text, codes}
use lightr_cri.Backend.{
  BackendError, SandboxConfig, SandboxState, ready, not_ready, Result, ok, err,
}
use lightr_cri.Fake.Filter.{sandbox_state_eq}
use lightr_cri.Fake.World.{
  NetSetup, network, SandboxRecord, Env, World, and_then, next, now_nanos, fresh_id, count_id,
  write_sandbox,
}
use lightr_cri.Fake.World.Disk.{disk_sandbox, write_sandbox_ok}
use lightr_cri.Fake.Sandbox.{
  teardown, add_sandbox, run_sandbox, stop_sandbox, container_ids, remove_containers,
  forget_sandbox, remove_sandbox,
}

-- `SandboxState` of the index.
abbrev pub state_in : Option SandboxRecord → Option SandboxState
state_in none = none
state_in (some s) = some s.state

module _ {J : Type 0} (env : Env J) where
  add_sandbox_ok :
      (id id' : Text) (cfg : SandboxConfig) (ip ns : Option Text) (w v : World J)
      → add_sandbox env id cfg ip ns w ≡ (ok id', v)
      → (state_in (get id' v.sandboxes) ≡ some ready)
        × (disk_sandbox env id' v ≡ get id' v.sandboxes)
  unfolding add_sandbox
  add_sandbox_ok id id' cfg ip ns w v h = go (write_sandbox env id rec (next w)) refl
    where
      rec : SandboxRecord
      rec = record {
        id = id;
        config = cfg;
        state = ready;
        created_at_nanos = now_nanos env w;
        ip = ip;
        netns_path = ns;
      }

      go :
          (r : Result (Unit {0}) × World J)
          → write_sandbox env id rec (next w) ≡ r
          → (state_in (get id' v.sandboxes) ≡ some ready)
            × (disk_sandbox env id' v ≡ get id' v.sandboxes)
      go (err e, x) p = unfold add_sandbox in ground arith
      go (ok u, x) p =
          unfold add_sandbox in
          unfold disk_sandbox in
          ground
            (arith, write_sandbox_ok env id rec (next w) x p, get-insert_self id rec x.sandboxes)

  -- A sandbox that was run is Ready, in the index and on disk alike, with or without a network.
  pub run_sandbox_ok :
      (id : Text) (cfg : SandboxConfig) (w v : World J)
      → run_sandbox env cfg w ≡ (ok id, v)
      → (state_in (get id v.sandboxes) ≡ some ready) × (disk_sandbox env id v ≡ get id v.sandboxes)
  run_sandbox_ok id cfg w v h = go (env.net_setup u.tick new cfg.port_mappings) refl
    where
      u : World J
      u = count_id w

      new : Text
      new = fresh_id env (codes "sb-") w

      go :
          (n : NetSetup)
          → env.net_setup u.tick new cfg.port_mappings ≡ n
          → (state_in (get id v.sandboxes) ≡ some ready)
            × (disk_sandbox env id v ≡ get id v.sandboxes)
      go (network ip ns) p =
          unfold run_sandbox in
          ground (
            arith,
            add_sandbox_ok new id cfg none none u v,
            add_sandbox_ok new id cfg ip (some ns) (next u) v,
          )
      go other p =
          unfold run_sandbox in
          ground (
            arith,
            add_sandbox_ok new id cfg none none u v,
            add_sandbox_ok new id cfg none none (next u) v,
          )

  -- Where a stop of a Ready sandbox succeeds, its record is NotReady in the index and on disk alike.
  pub stop_sandbox_ready :
      (id : Text) (rec : SandboxRecord) (w v : World J)
      → get id w.sandboxes ≡ some rec
      → rec.state ≡ ready
      → stop_sandbox env id w ≡ (ok tt, v)
      → (get id v.sandboxes ≡ some (record rec { state = not_ready }))
        × (disk_sandbox env id v ≡ get id v.sandboxes)
  unfolding stop_sandbox
  stop_sandbox_ready id rec w v e k h = ground (
    arith,
    write_sandbox_ok env id stopped (record w { sandboxes = insert id stopped w.sandboxes }) v,
    get-insert_self id stopped w.sandboxes,
  )
    where
      stopped : SandboxRecord
      stopped = record rec { state = not_ready }

  -- A stop that succeeds leaves the sandbox NotReady or absent, and the same stop made again
  -- changes nothing.
  pub stop_sandbox_ok :
      (id : Text) (w v : World J)
      → stop_sandbox env id w ≡ (ok tt, v)
      → (state_in (get id v.sandboxes) ≢ some ready) × (stop_sandbox env id v ≡ (ok tt, v))
  stop_sandbox_ok id w v h = go (get id w.sandboxes) refl
    where
      go :
          (o : Option SandboxRecord)
          → get id w.sandboxes ≡ o
          → (state_in (get id v.sandboxes) ≢ some ready) × (stop_sandbox env id v ≡ (ok tt, v))
      go none p = unfold stop_sandbox in (ground arith, ground arith)
      go (some rec) p = elim (Bool-cases (sandbox_state_eq rec.state ready)) [
        | inl b ↦
            let (q, d) =
              stop_sandbox_ready id rec w v p (unfold sandbox_state_eq in ground arith) h in
            unfold stop_sandbox in (ground arith, ground arith)
        | inr b ↦ unfold stop_sandbox in unfold sandbox_state_eq in (ground arith, ground arith)
      ]

  -- Where a stop of a Ready sandbox fails, its file is as it was; the same stop made again then
  -- returns `ok` and writes nothing, so the file still has what it had before the two calls.
  pub stop_sandbox_unwritten :
      (id : Text) (rec : SandboxRecord) (e : BackendError) (w v : World J)
      → get id w.sandboxes ≡ some rec
      → rec.state ≡ ready
      → stop_sandbox env id w ≡ (err e, v)
      → (stop_sandbox env id v ≡ (ok tt, v)) × (v.sandboxes_dir ≡ w.sandboxes_dir)
  unfolding stop_sandbox write_sandbox
  stop_sandbox_unwritten id rec e w v p k h =
      ground (arith, get-insert_self id (record rec { state = not_ready }) w.sandboxes)

  pub forgotten : (id : Text) (w : World J) → get id (forget_sandbox env id w).sandboxes ≡ none
  unfolding forget_sandbox
  forgotten id w = ground (arith, get-remove_self id w.sandboxes)

  -- A removal that succeeds leaves no entry for the sandbox, and the same removal made again changes
  -- nothing.
  pub remove_sandbox_ok :
      (id : Text) (w v : World J)
      → remove_sandbox env id w ≡ (ok tt, v)
      → (get id v.sandboxes ≡ none) × (remove_sandbox env id v ≡ (ok tt, v))
  remove_sandbox_ok id w v h = (gone, again)
    where
      after_stop :
          (x : World J) (r : SandboxRecord) (y : Result (Unit {0}) × World J)
          → remove_containers env (container_ids id x.containers) x ≡ y
          → and_then y (λ _ u. (ok tt, forget_sandbox env id (teardown id r.netns_path r.ip u)))
            ≡ (ok tt, v)
          → get id v.sandboxes ≡ none
      after_stop x r (err e, u) p q = ground arith
      after_stop x r (ok a, u) p q = ground (arith, forgotten id (teardown id r.netns_path r.ip u))

      stopped :
          (r : Result (Unit {0}) × World J) → stop_sandbox env id w ≡ r → get id v.sandboxes ≡ none
      stopped (err e, x) p = unfold remove_sandbox in ground arith
      stopped (ok a, x) p =
          unfold remove_sandbox in
          elim (Option-cases (get id x.sandboxes)) [
            | inl q ↦ ground arith
            | inr (rec, q) ↦
                after_stop x rec (remove_containers env (container_ids id x.containers) x) refl
                  (ground arith)
          ]

      gone : get id v.sandboxes ≡ none
      gone = stopped (stop_sandbox env id w) refl

      again : remove_sandbox env id v ≡ (ok tt, v)
      again = unfold remove_sandbox stop_sandbox in ground (arith, gone)
