-- ===== src/Shell/Fake.antt =====
-- The gRPC services over the file-backed backend: crates/lightr-cri-fake as the `CriBackend` of
-- crates/lightr-cri-shell. None of its methods panics.
use lightr_cri.Prelude.{ℕ, Bool}
use lightr_cri.Prelude.Text.{Text}
use lightr_cri.Backend.{Result}
use lightr_cri.Fake.World.{Env, World, M, next}
use lightr_cri.Fake.Sandbox.{run_sandbox, stop_sandbox, remove_sandbox}
use lightr_cri.Fake.Status.{sandbox_status, list_sandboxes, container_status, list_containers}
use lightr_cri.Fake.Container.{create_container, stop_container, remove_container}
use lightr_cri.Fake.Container.Start.{start_container}
use lightr_cri.Fake.Stats.{Proc, container_stats, list_container_stats}
use lightr_cri.Fake.ExecSync.{ExecEnv, exec_sync}
use lightr_cri.Fake.Images.{pull_image, image_status, list_images, remove_image, image_fs_info}
use lightr_cri.Shell.{CriBackend, joined, Call}

module _ {J : Type 0} where
  abbrev call : {A : Type 0} → M J A → Call (World J) A
  call m w = let (r, v) = m w in (joined r, v)

  abbrev look : {A : Type 0} → (World J → Result A) → Call (World J) A
  look f w = (joined (f w), w)

  -- What the host gives beside the `Env`: /proc, the runs of exec_sync by the event they begin at,
  -- the state root, and whether CNI is
  -- available.
  unfoldable pub fake_backend : Env J → Proc → (ℕ → ExecEnv) → Text → Bool → CriBackend (World J)
  fake_backend env proc execs state_root cni = record {
    run_sandbox = λ cfg. call (run_sandbox env cfg);
    stop_sandbox = λ id. call (stop_sandbox env id);
    remove_sandbox = λ id. call (remove_sandbox env id);
    sandbox_status = λ id. look (sandbox_status id);
    list_sandboxes = λ filter. look (list_sandboxes filter);
    create_container = λ sandbox cfg. call (create_container env sandbox cfg);
    start_container = λ id. call (start_container env id);
    stop_container = λ id grace. call (stop_container env id grace);
    remove_container = λ id. call (remove_container env id);
    container_status = λ id. look (container_status id);
    list_containers = λ filter. look (list_containers filter);
    container_stats = λ id. call (container_stats env proc id);
    list_container_stats = λ filter. call (list_container_stats env proc filter);
    exec_sync =
        λ id cmd timeout. call (λ w. ((exec_sync (execs w.tick) id cmd timeout w).0, next w));
    pull_image = λ image. call (pull_image env image);
    image_status = λ image. look (image_status image);
    list_images = look list_images;
    remove_image = λ image. call (remove_image env image);
    image_fs_info = call (image_fs_info env state_root);
    network_ready = λ w. cni;
  }
