-- ===== src/Fake/Cni/Symmetry.antt =====
-- lightr-cri-fake: what `cni_teardown` undoes of `cni_setup`, and what a failed set-up leaves.
use lightr_cri.Prelude.{
  ◌≡◌, refl, sym, List, [], ◌∷◌, ◌++◌, Option, none, some, arith, ◌∙◌, ap, map,
}
use lightr_cri.Prelude.Text.{Text, codes}
use lightr_cri.Backend.{PortMapping}
use lightr_cri.Net.Chain as Chain
use lightr_cri.Net.Chain.{Cni, Target, PluginRun, add, del}
use lightr_cri.Net.Chain.Symmetry.{types, labelled, backwards, del-add}
use lightr_cri.Net.Netns.{
  Io, done, failed, detached, Host, Call, touched, pinned, umounted, removed, create,
  create_on_thread, teardown,
}
use lightr_cri.Net.Probe.{CniEnv, first_conflist}
use lightr_cri.Fake.Cni.{
  Event, called, ran, ns_name, add_plugins, cni_setup, del_plugins, cni_teardown,
}

abbrev pub calls : List Event → List Call
calls [] = []
calls (called c ∷ es) = c ∷ calls es
calls (ran run ∷ es) = calls es

abbrev pub runs : List Event → List PluginRun
runs [] = []
runs (called c ∷ es) = runs es
runs (ran run ∷ es) = run ∷ runs es

calls-append : (xs ys : List Event) → calls (xs ++ ys) ≡ calls xs ++ calls ys
calls-append [] ys = refl
calls-append (called c ∷ xs) ys = ap (λ t. c ∷ t) (calls-append xs ys)
calls-append (ran run ∷ xs) ys = calls-append xs ys

runs-append : (xs ys : List Event) → runs (xs ++ ys) ≡ runs xs ++ runs ys
runs-append [] ys = refl
runs-append (called c ∷ xs) ys = runs-append xs ys
runs-append (ran run ∷ xs) ys = ap (λ t. run ∷ t) (runs-append xs ys)

calls-map-ran : (rs : List PluginRun) → (calls (map ran rs) ≡ []) × (runs (map ran rs) ≡ rs)
calls-map-ran [] = (refl, refl)
calls-map-ran (r ∷ rs) = let h = calls-map-ran rs in (h.0, ap (λ t. r ∷ t) h.1)

calls-map-called : (cs : List Call) → (calls (map called cs) ≡ cs) × (runs (map called cs) ≡ [])
calls-map-called [] = (refl, refl)
calls-map-called (c ∷ cs) = let h = calls-map-called cs in (ap (λ t. c ∷ t) h.0, h.1)

create_done :
    (host : Host) (name path : Text)
    → (create host name).0 ≡ done path
    → (create host name).1 ≡ touched path ∷ pinned path ∷ []
unfolding create create_on_thread
create_done host name path h = ground (arith, h)

abbrev pub target : Text → Text → Target
target id path = record { container_id = id; netns = path }

module _ (host : Host) (read_dir : Text → Option (List Text)) (chain : Text → Chain.CniEnv) where
  setup_split :
      (id : Text) (cni : CniEnv) (pms : List PortMapping) (path : Text)
      → (create host (ns_name id)).0 ≡ done path
      → let (r, es) = cni_setup host read_dir chain id cni pms in
        let (q, more) = add_plugins host read_dir chain id cni pms path in
        (r ≡ q) × (es ≡ called (touched path) ∷ called (pinned path) ∷ more)
  unfolding cni_setup
  setup_split id cni pms path h =
      let c = create_done host (ns_name id) path h in (rw h refl, rw h (rw c refl))

  add_plugins-calls :
      (id : Text) (cni : CniEnv) (pms : List PortMapping) (path : Text)
      → calls (add_plugins host read_dir chain id cni pms path).1 ≡ []
  unfolding add_plugins
  add_plugins-calls id cni pms path = go (first_conflist cni.conf_dir (read_dir cni.conf_dir)) refl
    where
      go :
          (o : Option Text)
          → first_conflist cni.conf_dir (read_dir cni.conf_dir) ≡ o
          → calls (add_plugins host read_dir chain id cni pms path).1 ≡ []
      go none p = rw (add_plugins, p) refl
      go (some c) p = rw (add_plugins, p) (calls-map-ran (add (chain c) (target id path) pms).1).0

  -- Once its namespace is created, a set-up leaves it pinned whatever follows: where no conflist is
  -- found or the plugins fail, too, it is neither unmounted nor is its file removed.
  pub cni_setup-calls :
      (id : Text) (cni : CniEnv) (pms : List PortMapping) (path : Text)
      → (create host (ns_name id)).0 ≡ done path
      → calls (cni_setup host read_dir chain id cni pms).1 ≡ touched path ∷ pinned path ∷ []
  cni_setup-calls id cni pms path h =
      ap calls (setup_split id cni pms path h).1
      ∙ ap (λ t. touched path ∷ pinned path ∷ t) (add_plugins-calls id cni pms path)

  add_plugins_done :
      (id : Text) (cni : CniEnv) (pms : List PortMapping) (path at : Text) (ip : Option Text)
      → (add_plugins host read_dir chain id cni pms path).0 ≡ done (ip, at)
      → (conflist : Text) × (first_conflist cni.conf_dir (read_dir cni.conf_dir) ≡ some conflist)
        × (at ≡ path)
        × ((add (chain conflist) (target id path) pms).0 ≡ Chain.done ip)
        × (runs (add_plugins host read_dir chain id cni pms path).1
            ≡ (add (chain conflist) (target id path) pms).1)
  unfolding add_plugins
  add_plugins_done id cni pms path at ip h =
      go (first_conflist cni.conf_dir (read_dir cni.conf_dir)) refl
    where
      go :
          (o : Option Text)
          → first_conflist cni.conf_dir (read_dir cni.conf_dir) ≡ o
          → (conflist : Text) × (first_conflist cni.conf_dir (read_dir cni.conf_dir)
              ≡ some conflist)
            × (at ≡ path)
            × ((add (chain conflist) (target id path) pms).0 ≡ Chain.done ip)
            × (runs (add_plugins host read_dir chain id cni pms path).1
                ≡ (add (chain conflist) (target id path) pms).1)
      go none p = absurd (ground (arith, h))
      go (some c) p = (
        c,
        p,
        ground (arith, h),
        ground (arith, h),
        rw (add_plugins, p) (calls-map-ran (add (chain c) (target id path) pms).1).1,
      )

  -- Setting up, and what it was that succeeded.
  setup_done :
      (id : Text) (cni : CniEnv) (pms : List PortMapping) (path : Text) (ip : Option Text)
      → (cni_setup host read_dir chain id cni pms).0 ≡ done (ip, path)
      → ((create host (ns_name id)).0 ≡ done path)
        × ((add_plugins host read_dir chain id cni pms path).0 ≡ done (ip, path))
  unfolding cni_setup
  setup_done id cni pms path ip h = go (create host (ns_name id)).0 refl
    where
      go :
          (r : Io Text)
          → (create host (ns_name id)).0 ≡ r
          → ((create host (ns_name id)).0 ≡ done path)
            × ((add_plugins host read_dir chain id cni pms path).0 ≡ done (ip, path))
      go (failed e) p = absurd (ground (arith, h))
      go (done at) p =
          let split = setup_split id cni pms at p in
          let inner : (add_plugins host read_dir chain id cni pms at).0 ≡ done (ip, path) =
            sym split.0 ∙ h in
          let (c, q, same, added, ran_same) = add_plugins_done id cni pms at path ip inner in
          (rw same p, ap (λ x. (add_plugins host read_dir chain id cni pms x).0) same ∙ inner)

  cni_teardown-map :
      (later : Text → Chain.CniEnv) (id : Text) (cni : CniEnv) (path c : Text)
      → first_conflist cni.conf_dir (read_dir cni.conf_dir) ≡ some c
      → host.umount path ≡ detached
      → host.remove_error path ≡ none
      → cni_teardown host read_dir later id (some cni) path
        ≡ map ran (del (later c) (target id path) []).1
          ++ (called (umounted path) ∷ called (removed path) ∷ [])
  unfolding cni_teardown teardown del_plugins
  cni_teardown-map later id cni path c found detach remove = ground arith

  -- A teardown undoes a set-up that succeeded, where it finds the same listing and conflist: it runs
  -- DEL of just the plugins whose ADD was run, in the reverse order and for the same container and
  -- network namespace, which is the one that the set-up pinned, and behind that, whatever those runs
  -- come to, unmounts the namespace that the set-up pinned and then removes its file, if the host
  -- lets it. The chain that the teardown finds may answer otherwise in every other respect.
  pub cni_teardown-cni_setup :
      (later : Text → Chain.CniEnv) (id : Text) (cni : CniEnv) (pms : List PortMapping)
      (ip : Option Text) (path : Text)
      → (cni_setup host read_dir chain id cni pms).0 ≡ done (ip, path)
      → ((c : Text) → (chain c).load_conflist ≡ (later c).load_conflist)
      → host.umount path ≡ detached
      → host.remove_error path ≡ none
      → (dels : List PluginRun) × (cni_teardown host read_dir later id (some cni) path
          ≡ map ran dels ++ (called (umounted path) ∷ called (removed path) ∷ []))
        × (plugins : List Text) × (types (runs (cni_setup host read_dir chain id cni pms).1)
            ≡ labelled (codes "ADD") (target id path) plugins)
        × (types dels ≡ labelled (codes "DEL") (target id path) (backwards plugins))
        × (calls (cni_setup host read_dir chain id cni pms).1 ≡ touched path ∷ pinned path ∷ [])
  cni_teardown-cni_setup later id cni pms ip path h same detach remove =
      let (made, added) = setup_done id cni pms path ip h in
      let (c, found, at, add_ok, ran_same) = add_plugins_done id cni pms path path ip added in
      let split = setup_split id cni pms path made in
      let dels = (del (later c) (target id path) []).1 in
      let (plugins, adds, removes) =
        del-add (chain c) (later c) (target id path) pms [] ip add_ok (same c) in
      (
        dels,
        cni_teardown-map later id cni path c found detach remove,
        plugins,
        ap (λ es. types (runs es)) split.1 ∙ ap types ran_same ∙ adds,
        removes,
        cni_setup-calls id cni pms path made,
      )
