-- ===== src/Fake/Tests/Containers.antt =====
-- crates/lightr-cri-fake: the laws of containers at concrete states.
use lightr_cri.Prelude.{◌≡◌, refl, true, some}
use lightr_cri.Prelude.Map.{text_key, get, insert}
use lightr_cri.Prelude.Text.{Text, codes, text_eq}
use lightr_cri.Backend.{pos, created, ok}
use lightr_cri.Fake.World.{World, fresh_id, write_container}
use lightr_cri.Fake.Container.{sigterm, send, wait_until_exited, stop_container, remove_container}
use lightr_cri.Fake.Container.Lifecycle.{FollowsAll}
use lightr_cri.Fake.Container.Lifecycle.Stop.{stop_container-Follows}
use lightr_cri.Fake.Container.Start.{
  prepare, open_cri_log, write_resolv_conf, effective_command, launch, spawn_child, adopt_child,
  start_container,
}
use lightr_cri.Fake.Path.{file_name}
use lightr_cri.Fake.Container.Start.Guard.{container_state, IsStarted, start_container_ok}
use lightr_cri.Fake.Container.Lifecycle.Signals.{signals, stop_container-signals}
use lightr_cri.Fake.Tests.{Json, env, fresh, live, world}

stop_container-Follows_example :
    FollowsAll
      (world live).containers
      (stop_container env (codes "c") (pos 3) (world live)).1.containers
stop_container-Follows_example = stop_container-Follows env (codes "c") (pos 3) (world live)

abbrev created_id : Text
created_id = fresh_id env (codes "ct-") (world live)

abbrev after_remove : World Json
after_remove = (remove_container env (codes "c") (world live)).1

removed : remove_container env (codes "c") (world live) ≡ (ok tt, after_remove)
unfolding remove_container stop_container get text_eq
removed = refl

abbrev after_start : World Json
after_start = (start_container env (codes "c") (world fresh)).1

started : start_container env (codes "c") (world fresh) ≡ (ok tt, after_start)
unfolding start_container get text_eq prepare open_cri_log write_resolv_conf effective_command
    file_name launch write_container insert spawn_child adopt_child
started = refl

start_container_ok_example :
    (container_state (codes "c") (world fresh) ≡ some created)
    × IsStarted env (codes "c") after_start
start_container_ok_example = start_container_ok env (codes "c") (world fresh) after_start started

stop_container-signals_example :
    (stop_container env (codes "c") (pos 3) (world live)).1.effects
    ≡ signals env 42 true (wait_until_exited env (codes "c") (send env 42 sigterm (world live))).0
stop_container-signals_example =
    stop_container-signals env (codes "c") live (pos 3) (world live) (unfold get text_eq in refl)
      refl refl
