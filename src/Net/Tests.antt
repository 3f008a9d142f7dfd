-- ===== src/Net/Tests.antt =====
-- crates/lightr-cri-net: the plugin chain on a concrete conflist.
use lightr_cri.Prelude.{◌≡◌, refl, List, [], ◌∷◌, none, some, ◌⊎◌}
use lightr_cri.Prelude.Text.{Text, codes, text_eq}
use lightr_cri.Net.Json.{
  Value, string, array, object, cons, nil, member, no_member, get_field, lookup,
}
use lightr_cri.Net.Chain.{
  done, failed, CniEnv, Target, add_loop, del, conflist_plugins, conflist_version, conflist_name,
  plugin_type,
}
use lightr_cri.Net.Chain.Teardown.{teardown_runs, AllDone, del-teardown_runs}
use lightr_cri.Net.Chain.Threading.{IsThreaded, add_loop-IsThreaded}

abbrev plugin : Text → Value
plugin type = object (member (codes "type") (string type) no_member)

abbrev conflist : Value
conflist = object (
    member (codes "name") (string (codes "pod")) (
      member (codes "plugins")
        (array (cons (plugin (codes "bridge")) (cons (plugin (codes "portmap")) nil))) no_member))

abbrev target : Target
target = record { container_id = codes "s"; netns = codes "/run/netns/s" }

abbrev env : CniEnv
env = record {
  to_string = λ obj. [];
  from_str = λ t. done (string t);
  load_conflist = done conflist;
  exec_plugin = λ n run. done (codes "ok");
}

plugins_read :
    conflist_plugins conflist ≡ done (plugin (codes "bridge") ∷ plugin (codes "portmap") ∷ [])
unfolding conflist_plugins get_field lookup text_eq
plugins_read = refl

del-teardown_runs_example :
    ((del env target []).1
      ≡ teardown_runs env
          (conflist_version conflist)
          (conflist_name conflist)
          target
          []
          (plugin (codes "bridge") ∷ plugin (codes "portmap") ∷ []))
    × (((e : Text) × ((del env target []).0 ≡ failed e))
        ⊎ AllDone env
            (conflist_version conflist)
            (conflist_name conflist)
            target
            []
            0
            (del env target []).1)
del-teardown_runs_example = del-teardown_runs env target [] conflist _ refl plugins_read

abbrev both : List Value
both = plugin (codes "bridge") ∷ plugin (codes "portmap") ∷ []

both_added : (add_loop env [] [] target [] 0 none both).0 ≡ done (some (string (codes "ok")))
unfolding add_loop plugin_type get_field lookup text_eq
both_added = refl

add_loop-IsThreaded_example :
    IsThreaded env [] [] target [] 0 none both
      (add_loop env [] [] target [] 0 none both).1
      (some (string (codes "ok")))
add_loop-IsThreaded_example =
    add_loop-IsThreaded env [] [] target [] 0 none both (some (string (codes "ok"))) both_added
