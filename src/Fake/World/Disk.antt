-- ===== src/Fake/World/Disk.antt =====
-- lightr-cri-fake: what a write leaves in the index and on disk.
use lightr_cri.Prelude.{◌≡◌, refl, Option, none, some, arith}
use lightr_cri.Prelude.Map.{text_key, get, get-insert_self}
use lightr_cri.Prelude.Text.{Text}
use lightr_cri.Backend.{Result, ok, err}
use lightr_cri.Fake.World.{
  SandboxRecord, ContainerRecord, Env, World, json_file, write_sandbox, write_container,
}

module _ {J : Type 0} (env : Env J) where
  -- The record that a restart would read for an id.
  unfoldable pub disk_container : Text → World J → Option ContainerRecord
  disk_container id w = elim (get (json_file id) w.containers_dir) [
    | none ↦ none
    | some j ↦ env.containers.from_slice j
  ]

  unfoldable pub disk_sandbox : Text → World J → Option SandboxRecord
  disk_sandbox id w = elim (get (json_file id) w.sandboxes_dir) [
    | none ↦ none
    | some j ↦ env.sandboxes.from_slice j
  ]

  pub write_container_index :
      (id : Text) (rec : ContainerRecord) (w : World J)
      → ((write_container env id rec w).1.containers ≡ w.containers)
        × ((write_container env id rec w).1.sandboxes ≡ w.sandboxes)
        × ((write_container env id rec w).1.reapers ≡ w.reapers)
  unfolding write_container
  write_container_index id rec w = ground arith

  pub write_container_ok :
      (id : Text) (rec : ContainerRecord) (w v : World J)
      → write_container env id rec w ≡ (ok tt, v)
      → disk_container id v ≡ some rec
  unfolding write_container disk_container
  write_container_ok id rec w v h = go (env.containers.to_vec rec) refl
    where
      go : (r : Result J) → env.containers.to_vec rec ≡ r → disk_container id v ≡ some rec
      go (err e) p = ground arith
      go (ok j) p =
          unfold disk_container in
          ground (
            arith,
            env.containers.from_slice-to_vec rec j p,
            get-insert_self (json_file id) j w.containers_dir,
          )

  pub write_sandbox_ok :
      (id : Text) (rec : SandboxRecord) (w v : World J)
      → write_sandbox env id rec w ≡ (ok tt, v)
      → (disk_sandbox id v ≡ some rec) × (v.sandboxes ≡ w.sandboxes)
  unfolding write_sandbox disk_sandbox
  write_sandbox_ok id rec w v h = go (env.sandboxes.to_vec rec) refl
    where
      go :
          (r : Result J)
          → env.sandboxes.to_vec rec ≡ r
          → (disk_sandbox id v ≡ some rec) × (v.sandboxes ≡ w.sandboxes)
      go (err e) p = ground arith
      go (ok j) p =
          unfold disk_sandbox in
          ground (
            arith,
            env.sandboxes.from_slice-to_vec rec j p,
            get-insert_self (json_file id) j w.sandboxes_dir,
          )
