-- ===== src/Fake/Tests/Sandboxes.antt =====
-- crates/lightr-cri-fake: the laws of sandboxes and of a restart at concrete states.
use lightr_cri.Prelude.{ℕ, ◌≡◌, refl, true, none, some, ltb, arith}
use lightr_cri.Prelude.Map.{text_key, get, insert}
use lightr_cri.Prelude.Text.{Text, codes, text_eq, text_eq_iff}
use lightr_cri.Backend.{ok}
use lightr_cri.Fake.World.{
  Env, World, fresh_id, now_nanos, count_id, write_sandbox, write_container,
}
use lightr_cri.Fake.Container.{
  stop_process, kill_and_wait, wait_until_exited, wait_loop, reap_all, reap, reap_record,
  stop_container, remove_container, create_container, new_container,
}
use lightr_cri.Fake.Sandbox.{
  add_sandbox, container_ids, remove_containers, run_sandbox, stop_sandbox, remove_sandbox,
}
use lightr_cri.Fake.Recovery.{
  load_sandboxes, load_containers, load_images, has_json_extension, recover_container, open_root,
}
use lightr_cri.Fake.Recovery.Alive.{open_root_alive}
use lightr_cri.Fake.Recovery.Named.{IsNamed}
use lightr_cri.Fake.Recovery.RoundTrip.{open_root-create_container}
use lightr_cri.Prelude.Map.Order.{IsOrdered, IsAfter}
use lightr_cri.Fake.Sandbox.Remove.{remove_sandbox_containers}
use lightr_cri.Fake.Sandbox.Stop.{stop_sandbox_unwritten}
use lightr_cri.Backend.{io, err}
use lightr_cri.Fake.Tests.{Json, env, sandbox_config, sandbox, live, world, config}

abbrev new_sandbox : Text
new_sandbox = fresh_id env (codes "sb-") (world live)

abbrev after_run : World Json
after_run = (run_sandbox env sandbox_config (world live)).1

ran : run_sandbox env sandbox_config (world live) ≡ (ok new_sandbox, after_run)
unfolding run_sandbox add_sandbox write_sandbox
ran = refl

abbrev after_stop : World Json
after_stop = (stop_sandbox env (codes "s") (world live)).1

stopped : stop_sandbox env (codes "s") (world live) ≡ (ok tt, after_stop)
unfolding stop_sandbox get text_eq write_sandbox
stopped = refl

abbrev after_removal : World Json
after_removal = (remove_sandbox env (codes "s") (world live)).1

removal : remove_sandbox env (codes "s") (world live) ≡ (ok tt, after_removal)
unfolding remove_sandbox stop_sandbox get text_eq write_sandbox insert container_ids
    remove_containers stop_container remove_container stop_process kill_and_wait wait_until_exited
    wait_loop reap_all reap reap_record write_container
removal = refl

abbrev after_open : World Json
after_open = (open_root env (world live)).1

opened : open_root env (world live) ≡ (ok tt, after_open)
unfolding open_root
opened = refl

reopened : get (codes "c") after_open.containers ≡ some live
unfolding open_root load_sandboxes load_containers load_images has_json_extension text_eq
    recover_container insert get
reopened = refl

open_root_alive_example : (ltb 0 42 ≡ true) × (t : ℕ) × (true ≡ true)
open_root_alive_example =
    open_root_alive env (world live) after_open (codes "c") live opened reopened refl

remove_sandbox_containers_example : get (codes "c") after_removal.containers ≡ none
remove_sandbox_containers_example =
    remove_sandbox_containers env (codes "s") sandbox live (world live) after_removal
      (unfold get text_eq in refl) (unfold get text_eq in refl) refl removal

-- No write succeeds.
abbrev full_disk : Env Json
full_disk = record env { write_error = λ t. some (codes "disk full") }

abbrev after_failure : World Json
after_failure = (stop_sandbox full_disk (codes "s") (world live)).1

failure :
    stop_sandbox full_disk (codes "s") (world live) ≡ (err (io (codes "disk full")), after_failure)
unfolding stop_sandbox get text_eq write_sandbox
failure = refl

stop_sandbox_unwritten_example :
    (stop_sandbox full_disk (codes "s") after_failure ≡ (ok tt, after_failure))
    × (after_failure.sandboxes_dir ≡ (world live).sandboxes_dir)
stop_sandbox_unwritten_example =
    stop_sandbox_unwritten full_disk (codes "s") sandbox (io (codes "disk full")) (world live)
      after_failure (unfold get text_eq in refl) refl failure

-- A container created before a restart.
abbrev new_container_id : Text
new_container_id = fresh_id env (codes "ct-") (world live)

abbrev after_create : World Json
after_create = (create_container env (codes "s") config (world live)).1

abbrev after_restart : World Json
after_restart = (open_root env after_create).1

create_ran :
    create_container env (codes "s") config (world live) ≡ (ok new_container_id, after_create)
unfolding create_container get text_eq write_container
create_ran = refl

restarted : open_root env after_create ≡ (ok tt, after_restart)
unfolding open_root
restarted = refl

live-IsNamed : IsNamed env (world live).containers_dir
unfolding get
live-IsNamed name j rec p q = ground (arith, p, q, text_eq_iff (codes "c.json") name)

open_root-create_container_example :
    get new_container_id after_restart.containers
    ≡ some
        (new_container new_container_id (codes "s") config (now_nanos env (count_id (world live))))
open_root-create_container_example =
    open_root-create_container env (codes "s") new_container_id config (world live) after_create
      after_restart (unfold IsOrdered IsAfter in (tt, tt)) live-IsNamed create_ran restarted
