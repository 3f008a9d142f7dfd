-- ===== src/Fake/Recovery/Alive.antt =====
-- lightr-cri-fake: what a restart holds for running.
use lightr_cri.Prelude.{
  ℕ, ◌≡◌, refl, Bool, true, false, [], ◌∷◌, Option, none, some, arith, inl, inr, Bool-cases, ltb,
}
use lightr_cri.Prelude.Map.{Map, text_key, get, insert, get-insert}
use lightr_cri.Prelude.Text.{Text, text_eq}
use lightr_cri.Backend.{ok}
use lightr_cri.Fake.World.{ContainerRecord, Env, World, next, write_container}
use lightr_cri.Fake.Container.{is_running}
use lightr_cri.Fake.Recovery.{
  load_container, load_sandbox, load_image, has_json_extension, recover_container, load_containers,
  load_sandboxes, load_images, empty_index, open_root,
}

module _ {J : Type 0} (env : Env J) where
  -- A record that is not Running, or whose process was found alive when it was probed.
  abbrev pub IsProbed : ContainerRecord → Type 0
  IsProbed rec =
      is_running rec.state ≡ true
      → (ltb 0 rec.pid ≡ true) × (t : ℕ) × (env.pid_alive t rec.pid ≡ true)

  abbrev pub AllProbed : World J → Type 0
  AllProbed w = (k : Text) (rec : ContainerRecord) → get k w.containers ≡ some rec → IsProbed rec

  recovered :
      (rec : ContainerRecord) (w : World J)
      → is_running (recover_container env rec w).0.state ≡ true
      → (ltb 0 (recover_container env rec w).0.pid ≡ true)
        × (env.pid_alive w.tick (recover_container env rec w).0.pid ≡ true)
  unfolding recover_container
  recovered rec w h = ground arith

  recover_container-IsProbed :
      (rec : ContainerRecord) (w : World J) → IsProbed (recover_container env rec w).0
  recover_container-IsProbed rec w h = let (a, b) = recovered rec w h in (a, w.tick, b)

  recover_container-containers :
      (rec : ContainerRecord) (w : World J)
      → (recover_container env rec w).1.containers ≡ w.containers
  unfolding recover_container write_container
  recover_container-containers rec w = ground arith

  insert-AllProbed :
      (id : Text) (rec : ContainerRecord) (m : Map Text ContainerRecord)
      → ((k : Text) (r : ContainerRecord) → get k m ≡ some r → IsProbed r)
      → IsProbed rec
      → (k : Text) (r : ContainerRecord) → get k (insert id rec m) ≡ some r
      → IsProbed r
  insert-AllProbed id rec m h p k r e = go (text_eq id k) refl
    where
      go : (b : Bool) → text_eq id k ≡ b → IsProbed r
      go true q = let same : r ≡ rec = ground (arith, get-insert id k rec m) in rw same p
      go false q = h k r (ground (arith, get-insert id k rec m))

  load_container-AllProbed :
      (name : Text) (j : J) (w : World J)
      → ((k : Text) (r : ContainerRecord) → get k w.containers ≡ some r → IsProbed r)
      → (k : Text) (r : ContainerRecord) → get k (load_container env name j w).containers ≡ some r
      → IsProbed r
  load_container-AllProbed name j w h k r e = go (env.containers.from_slice j) refl
    where
      go : (o : Option ContainerRecord) → env.containers.from_slice j ≡ o → IsProbed r
      go none q = h k r (ground arith)
      go (some rec) q = elim (Bool-cases (has_json_extension name)) [
        | inl b ↦
            let fixed : ContainerRecord = (recover_container env rec w).0 in
            insert-AllProbed fixed.id fixed w.containers h (recover_container-IsProbed rec w) k r
              (ground (arith, recover_container-containers rec w))
        | inr b ↦ h k r (ground arith)
      ]

  load_containers-AllProbed :
      (files : Map Text J) (w : World J)
      → ((k : Text) (r : ContainerRecord) → get k w.containers ≡ some r → IsProbed r)
      → (k : Text) (r : ContainerRecord) → get k (load_containers env files w).containers ≡ some r
      → IsProbed r
  unfolding load_containers
  load_containers-AllProbed [] w h = h
  load_containers-AllProbed ((name, j) ∷ files) w h =
      load_containers-AllProbed files (load_container env name j w)
        (load_container-AllProbed name j w h)

  load_sandboxes-containers :
      (files : Map Text J) (w : World J) → (load_sandboxes env files w).containers ≡ w.containers
  unfolding load_sandboxes
  load_sandboxes-containers [] w = refl
  load_sandboxes-containers ((name, j) ∷ files) w =
      ground (arith, load_sandboxes-containers files (load_sandbox env name j w))

  load_images-containers :
      (files : Map Text J) (w : World J) → (load_images env files w).containers ≡ w.containers
  unfolding load_images
  load_images-containers [] w = refl
  load_images-containers ((name, j) ∷ files) w =
      ground (arith, load_images-containers files (load_image env name j w))

  -- The index when the containers begin to be read.
  abbrev pub before_containers : World J → World J
  before_containers w =
      let b : World J = next (next (empty_index w)) in next (load_sandboxes env b.sandboxes_dir b)

  pub open_root-containers :
      (w v : World J)
      → open_root env w ≡ (ok tt, v)
      → v.containers
        ≡ (load_containers env
            (before_containers w).containers_dir
            (before_containers w)).containers
  unfolding open_root
  open_root-containers w v h =
      let c = before_containers w in
      let d = next (load_containers env c.containers_dir c) in
      ground (arith, load_images-containers d.images_dir d)

  none_held :
      (k : Text) (r : ContainerRecord) (m : Map Text ContainerRecord)
      → m ≡ []
      → get k m ≡ some r
      → ⊥
  unfolding get
  none_held k r [] h p = ground arith
  none_held k r (x ∷ m) h p = ground arith

  -- A restart that succeeds holds a container for Running only where its record has a pid and the
  -- process of that pid was found alive, whatever the files said.
  pub open_root_alive :
      (w v : World J) (k : Text) (rec : ContainerRecord)
      → open_root env w ≡ (ok tt, v)
      → get k v.containers ≡ some rec
      → is_running rec.state ≡ true
      → (ltb 0 rec.pid ≡ true) × (t : ℕ) × (env.pid_alive t rec.pid ≡ true)
  open_root_alive w v k rec h e =
      let c = before_containers w in
      let b : World J = next (next (empty_index w)) in
      let empty : c.containers ≡ [] = load_sandboxes-containers b.sandboxes_dir b in
      load_containers-AllProbed c.containers_dir c
        (λ j r p. absurd (none_held j r c.containers empty p)) k rec
        (ground (arith, open_root-containers w v h))
