-- ===== src/Fake/Cni/Tests.antt =====
-- lightr-cri-fake: the network of a concrete sandbox.
use lightr_cri.Prelude.{◌≡◌, refl, false, [], ◌∷◌, ◌++◌, List, Option, none, some, map}
use lightr_cri.Prelude.Text.{Text, codes, text_eq, text_lt}
use lightr_cri.Net.Json.{
  Value, string, array, object, cons, nil, member, no_member, get_field, lookup,
}
use lightr_cri.Net.Chain as Chain
use lightr_cri.Net.Chain.{
  PluginRun, add, add_loop, conflist_plugins, plugin_type, extract_first_ipv4,
}
use lightr_cri.Net.Chain.Symmetry.{types, labelled, backwards}
use lightr_cri.Net.Netns.{
  Host, detached, done, touched, pinned, umounted, removed, create, create_on_thread,
}
use lightr_cri.Net.Probe.{
  CniEnv, first_conflist, sort, insert_sorted, is_conflist, extension, last_dot,
}
use lightr_cri.Fake.Cni.{called, ran, ns_name, add_plugins, cni_setup, cni_teardown}
use lightr_cri.Fake.Cni.Symmetry.{target, calls, runs, cni_setup-calls, cni_teardown-cni_setup}

abbrev host : Host
host = record {
  create_dir_error = none;
  touch_error = λ path. none;
  thread_panicked = false;
  unshare_error = none;
  mount_error = λ path. none;
  umount = λ path. detached;
  remove_error = λ path. none;
  open_error = λ path. none;
  setns_error = λ path. none;
  connect_error = λ address port. none;
}

abbrev cni : CniEnv
cni = record { conf_dir = codes "/c"; bin_dir = codes "/b" }

abbrev plugin : Text → Value
plugin type = object (member (codes "type") (string type) no_member)

abbrev conflist : Value
conflist = object (
    member (codes "plugins")
      (array (cons (plugin (codes "bridge")) (cons (plugin (codes "portmap")) nil))) no_member)

abbrev chain : Text → Chain.CniEnv
chain path = record {
  to_string = λ obj. [];
  from_str = λ t. Chain.done (string t);
  load_conflist = Chain.done conflist;
  exec_plugin = λ n run. Chain.done (codes "ok");
}

-- No plugin of the later chain succeeds.
abbrev later : Text → Chain.CniEnv
later path = record (chain path) { exec_plugin = λ n run. Chain.failed (codes "gone") }

abbrev listing : Text → Option (List Text)
listing dir = some (codes "b.conflist" ∷ codes "a.conf" ∷ codes "a.conflist" ∷ [])

first_conflist_test :
    first_conflist (codes "/c") (listing (codes "/c")) ≡ some (codes "/c/a.conflist")
unfolding first_conflist sort insert_sorted is_conflist extension last_dot text_eq text_lt
first_conflist_test = refl

abbrev path : Text
path = codes "/run/netns/lightr-s"

made : (create host (ns_name (codes "s"))).0 ≡ done path
unfolding create create_on_thread ns_name
made = refl

set_up : (cni_setup host listing chain (codes "s") cni []).0 ≡ done (none, path)
unfolding cni_setup create create_on_thread ns_name add_plugins first_conflist sort insert_sorted
    is_conflist extension last_dot text_eq text_lt add add_loop conflist_plugins plugin_type
    extract_first_ipv4 get_field lookup
set_up = refl

cni_setup-calls_example :
    calls (cni_setup host listing later (codes "s") cni []).1 ≡ touched path ∷ pinned path ∷ []
cni_setup-calls_example = cni_setup-calls host listing later (codes "s") cni [] path made

cni_teardown-cni_setup_example :
    (dels : List PluginRun) × (cni_teardown host listing later (codes "s") (some cni) path
      ≡ map ran dels ++ (called (umounted path) ∷ called (removed path) ∷ []))
    × (plugins : List Text) × (types (runs (cni_setup host listing chain (codes "s") cni []).1)
        ≡ labelled (codes "ADD") (target (codes "s") path) plugins)
    × (types dels ≡ labelled (codes "DEL") (target (codes "s") path) (backwards plugins))
    × (calls (cni_setup host listing chain (codes "s") cni []).1 ≡ touched path ∷ pinned path ∷ [])
cni_teardown-cni_setup_example =
    cni_teardown-cni_setup host listing chain later (codes "s") cni [] none path set_up (λ c. refl)
      refl refl
