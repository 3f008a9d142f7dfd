-- ===== src/Fake/Cni.antt =====
-- lightr-cri-fake: `cni_setup` and `cni_teardown`, over the network namespaces and the plugin chain
-- of crates/lightr-cri-net. The plugin chain of a conflist is its `CniEnv`.
pub mod Symmetry
mod Tests
use lightr_cri.Prelude.{ℕ, Bool, List, [], ◌∷◌, ◌++◌, Option, none, some, map, take}
use lightr_cri.Prelude.Text.{Text, codes}
use lightr_cri.Backend.{PortMapping}
use lightr_cri.Net.Chain as Chain
use lightr_cri.Net.Chain.{Cni, PluginRun, add, del}
use lightr_cri.Net.Netns.{Io, done, failed, Host, Call, create, teardown}
use lightr_cri.Net.Probe.{CniEnv, first_conflist}

-- What reaches the host: a call of the namespaces, or the run of a plugin.
pub data Event : Type 0 where
  called : Call → Event
  ran : PluginRun → Event

unfoldable pub ns_name : Text → Text
ns_name id = codes "lightr-" ++ take 24 id

abbrev pub ran_all : {A : Type 0} → Cni A × List PluginRun → List Event
ran_all (r, runs) = map ran runs

abbrev outcome : Text → Cni (Option Text) → Io (Option Text × Text)
outcome path (Chain.done ip) = done (ip, path)
outcome path (Chain.failed e) = failed (codes "CNI ADD: " ++ e)

module _ (host : Host) (read_dir : Text → Option (List Text)) (chain : Text → Chain.CniEnv) where
  -- Behind the namespace: the conflist and the ADD of its plugins.
  unfoldable pub add_plugins :
      Text → CniEnv → List PortMapping → Text → Io (Option Text × Text) × List Event
  add_plugins id cni pms path = elim (first_conflist cni.conf_dir (read_dir cni.conf_dir)) [
    | none ↦ (failed (codes "no .conflist found in " ++ cni.conf_dir), [])
    | some conflist ↦
        let r = add (chain conflist) (record { container_id = id; netns = path }) pms in
        (outcome path r.0, ran_all r)
  ]

  abbrev behind :
      Io Text × List Call
      → (Text → Io (Option Text × Text) × List Event)
      → Io (Option Text × Text) × List Event
  behind (failed e, calls) f = (failed e, map called calls)
  behind (done path, calls) f = let r = f path in (r.0, map called calls ++ r.1)

  unfoldable pub cni_setup : Text → CniEnv → List PortMapping → Io (Option Text × Text) × List Event
  cni_setup id cni pms = behind (create host (ns_name id)) (add_plugins id cni pms)

  -- The DEL of the plugins, where CNI is available and a conflist is found; its errors are logged.
  unfoldable pub del_plugins : Text → Option CniEnv → Text → List Event
  del_plugins id none path = []
  del_plugins id (some cni) path = elim (first_conflist cni.conf_dir (read_dir cni.conf_dir)) [
    | none ↦ []
    | some conflist ↦ ran_all (del (chain conflist) (record { container_id = id; netns = path }) [])
  ]

  unfoldable pub cni_teardown : Text → Option CniEnv → Text → List Event
  cni_teardown id cni path = del_plugins id cni path ++ map called (teardown host path).1
