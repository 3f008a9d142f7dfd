-- ===== src/Fake/Recovery.antt =====
-- lightr-cri-fake: `open`, here `open_root`, which rebuilds the index from the state root.
pub mod Alive
pub mod Named
pub mod RoundTrip
use lightr_cri.Prelude.{
  ℕ, ◌-◌, Bool, true, false, ◌&&◌, not, List, [], ◌∷◌, ◌++◌, Option, none, some, ltb, ◌==◌,
  if◌then◌else◌, length, drop,
}
use lightr_cri.Prelude.Map.{Map, Key, text_key, get, insert}
use lightr_cri.Prelude.Text.{Text, codes, text_eq}
use lightr_cri.Backend.{negsuc, exited, io, Result, ok, err}
use lightr_cri.Fake.World.{
  SandboxRecord, ContainerRecord, ImageDiskRecord, Env, World, M, and_then, next, now_nanos,
  write_container,
}
use lightr_cri.Fake.Container.{is_running, drop_result}

-- `path.extension() == Some("json")`: a name that is only `.json` has no extension.
unfoldable pub has_json_extension : Text → Bool
has_json_extension name =
    ltb 5 (length name) && text_eq (drop (length name - 5) name) (codes ".json")

abbrev pub lost : ContainerRecord → Text → ℕ → ContainerRecord
lost rec reason now = record rec {
  state = exited;
  exit_code = negsuc 0;
  reason = reason;
  finished_at_nanos = now;
}

-- A fresh index, no held descriptor and no reaper.
abbrev pub empty_index : {J : Type 0} → World J → World J
empty_index w = record w {
  sandboxes = [];
  containers = [];
  images = [];
  io_table = [];
  reapers = [];
}

module _ {J : Type 0} (env : Env J) where
  -- The corrected record is written back; a failure is not looked at.
  abbrev pub correct : ContainerRecord → Text → World J → ContainerRecord × World J
  correct rec reason w =
      let fixed = lost rec reason (now_nanos env w) in
      (fixed, drop_result (write_container env rec.id fixed (next w)))

  -- A Running record is kept only where its process is alive.
  unfoldable pub recover_container : ContainerRecord → World J → ContainerRecord × World J
  recover_container rec w =
      if is_running rec.state
      then (if ltb 0 rec.pid && not (env.pid_alive w.tick rec.pid)
          then correct rec (codes "lost-exit-reaped-elsewhere") (next w)
          else if rec.pid == 0
          then correct rec (codes "lost-start-window") (next w)
          else (rec, next w))
      else (rec, w)

  abbrev pub admit_container : ContainerRecord × World J → World J
  admit_container (rec, w) = record w { containers = insert rec.id rec w.containers }

  abbrev pub load_container : Text → J → World J → World J
  load_container name j w =
      if has_json_extension name
      then elim (env.containers.from_slice j) [
        | none ↦ w
        | some rec ↦ admit_container (recover_container rec w)
      ]
      else w

  -- The entries of the directory, in the order in which it lists them. A file that cannot be read
  -- or parsed is passed over.
  unfoldable pub load_containers : Map Text J → World J → World J
  load_containers [] w = w
  load_containers ((name, j) ∷ files) w = load_containers files (load_container name j w)

  abbrev pub load_sandbox : Text → J → World J → World J
  load_sandbox name j w =
      if has_json_extension name
      then elim (env.sandboxes.from_slice j) [
        | none ↦ w
        | some rec ↦ record w { sandboxes = insert rec.id rec w.sandboxes }
      ]
      else w

  unfoldable pub load_sandboxes : Map Text J → World J → World J
  load_sandboxes [] w = w
  load_sandboxes ((name, j) ∷ files) w = load_sandboxes files (load_sandbox name j w)

  abbrev pub load_image : Text → J → World J → World J
  load_image name j w =
      if has_json_extension name
      then elim (env.images.from_slice j) [
        | none ↦ w
        | some rec ↦ record w { images = insert rec.id rec w.images }
      ]
      else w

  unfoldable pub load_images : Map Text J → World J → World J
  load_images [] w = w
  load_images ((name, j) ∷ files) w = load_images files (load_image name j w)

  -- `fs::create_dir_all` and `fs::read_dir`.
  abbrev pub dir_ready : M J (Unit {0})
  dir_ready w = elim (env.dir_error w.tick) [
    | none ↦ (ok tt, next w)
    | some e ↦ (err (io e), next w)
  ]

  unfoldable pub open_root : M J (Unit {0})
  open_root w = and_then (dir_ready (empty_index w)) (λ _ a. and_then (dir_ready a) (λ _ b.
      and_then (dir_ready (load_sandboxes b.sandboxes_dir b)) (λ _ c.
        and_then (dir_ready (load_containers c.containers_dir c))
          (λ _ d. (ok tt, load_images d.images_dir d)))))
