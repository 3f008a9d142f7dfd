-- ===== src/Fake/Container/Create.antt =====
-- lightr-cri-fake: what `create_container` promises, on every branch.
use lightr_cri.Prelude.{◌≡◌, refl, Option, none, some, arith}
use lightr_cri.Prelude.Map.{text_key, get, get-insert_self}
use lightr_cri.Prelude.Text.{Text, codes}
use lightr_cri.Backend.{SandboxState, ready, ContainerConfig, BackendError, Result, ok, err}
use lightr_cri.Fake.World.{
  ContainerRecord, Env, World, next, now_nanos, fresh_id, count_id, write_container,
}
use lightr_cri.Fake.World.Disk.{disk_container, write_container_ok}
use lightr_cri.Fake.Container.{new_container, create_container}

-- The state of a sandbox in the index.
abbrev pub sandbox_state : {J : Type 0} → Text → World J → Option SandboxState
sandbox_state sandbox w = elim (get sandbox w.sandboxes) [ none ↦ none | some s ↦ some s.state ]

module _ {J : Type 0} (env : Env J) where
  -- A container is created in a sandbox that is Ready only. Its record, Created and with the given
  -- sandbox and configuration, is then in the index and on disk alike.
  pub create_container_ok :
      (sandbox id : Text) (cfg : ContainerConfig) (w v : World J)
      → create_container env sandbox cfg w ≡ (ok id, v)
      → (sandbox_state sandbox w ≡ some ready)
        × (get id v.containers ≡ some (new_container id sandbox cfg (now_nanos env (count_id w))))
        × (disk_container env id v ≡ get id v.containers)
  unfolding create_container
  create_container_ok sandbox id cfg w v h = go (write_container env new rec (next u)) refl
    where
      u : World J
      u = count_id w

      new : Text
      new = fresh_id env (codes "ct-") w

      rec : ContainerRecord
      rec = new_container new sandbox cfg (now_nanos env u)

      go :
          (r : Result (Unit {0}) × World J)
          → write_container env new rec (next u) ≡ r
          → (sandbox_state sandbox w ≡ some ready)
            × (get id v.containers ≡ some (new_container id sandbox cfg (now_nanos env u)))
            × (disk_container env id v ≡ get id v.containers)
      go (err e, x) p = unfold create_container in ground arith
      go (ok a, x) p =
          unfold create_container in
          unfold disk_container in
          ground (
            arith,
            write_container_ok env new rec (next u) x p,
            get-insert_self new rec x.containers,
          )

  -- A refused or failed creation leaves every container's entry and file as they were.
  pub create_container_err :
      (sandbox : Text) (cfg : ContainerConfig) (w v : World J) (e : BackendError)
      → create_container env sandbox cfg w ≡ (err e, v)
      → (v.containers ≡ w.containers) × (v.containers_dir ≡ w.containers_dir)
  unfolding create_container write_container
  create_container_err sandbox cfg w v e h = ground arith
