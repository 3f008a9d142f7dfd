-- ===== src/Net/Chain/Symmetry.antt =====
-- crates/lightr-cri-net/src/chain.rs: the plugins of a teardown against those of a set-up.
use lightr_cri.Prelude.{
  ℕ, suc, ◌≡◌, refl, sym, List, [], ◌∷◌, ◌++◌, Option, none, some, arith, ◌∙◌, ap, ap₂, append-nil,
}
use lightr_cri.Prelude.Text.{Text, codes}
use lightr_cri.Backend.{PortMapping}
use lightr_cri.Net.Json.{Value}
use lightr_cri.Net.Chain.{
  Cni, done, failed, CniEnv, Target, PluginRun, plugin_type, add_loop, run_of, add, del,
  conflist_plugins, conflist_version, conflist_name,
}
use lightr_cri.Net.Chain.Teardown.{del_run, teardown_runs, del-teardown_runs}
use lightr_cri.Net.Chain.Threading.{IsThreaded, add_loop-IsThreaded}

-- The command, the plugin and the target of each run.
abbrev pub types : List PluginRun → List (Text × Text × Target)
types [] = []
types (run ∷ runs) = (run.command, run.plugin, run.target) ∷ types runs

-- The same command for each of some plugins.
abbrev pub labelled : Text → Target → List Text → List (Text × Text × Target)
labelled command to [] = []
labelled command to (plugin ∷ plugins) = (command, plugin, to) ∷ labelled command to plugins

labelled-append :
    (command : Text) (to : Target) (xs ys : List Text)
    → labelled command to (xs ++ ys) ≡ labelled command to xs ++ labelled command to ys
labelled-append command to [] ys = refl
labelled-append command to (x ∷ xs) ys =
    ap (λ t. (command, x, to) ∷ t) (labelled-append command to xs ys)

abbrev pub backwards : List Text → List Text
backwards [] = []
backwards (t ∷ ts) = backwards ts ++ (t ∷ [])

abbrev type_list : Option Text → List Text
type_list none = []
type_list (some t) = t ∷ []

abbrev named : List Value → List Text
named [] = []
named (plugin ∷ plugins) = type_list (plugin_type plugin) ++ named plugins

types-append : (xs ys : List PluginRun) → types (xs ++ ys) ≡ types xs ++ types ys
types-append [] ys = refl
types-append (x ∷ xs) ys = ap (λ t. (x.command, x.plugin, x.target) ∷ t) (types-append xs ys)

backwards-type_list :
    (o : Option Text) (ts : List Text) → backwards (type_list o ++ ts) ≡ backwards ts ++ type_list o
backwards-type_list none ts = sym (append-nil (backwards ts))
backwards-type_list (some t) ts = refl

module _ (env : CniEnv) (version name : Text) (to : Target) (pms : List PortMapping) where
  types-IsThreaded :
      (n : ℕ) (prev : Option Value) (plugins : List Value) (runs : List PluginRun)
      (last : Option Value)
      → IsThreaded env version name to pms n prev plugins runs last
      → types runs ≡ labelled (codes "ADD") to (named plugins)
  types-IsThreaded n prev [] [] last h = refl
  types-IsThreaded n prev [] (run ∷ runs) last h = absurd h
  types-IsThreaded n prev (plugin ∷ plugins) [] last h = absurd h
  types-IsThreaded n prev (plugin ∷ plugins) (run ∷ runs) last h =
      let (type, stdout, result, p, obj, c, k, at, stdin, prev, q, r, rest) = h in
      let tail = types-IsThreaded (suc n) (some result) plugins runs last rest in
      rw p (rw c (rw k (rw at (rw tail refl))))

  types-del_run :
      (o : Option Text) (plugin : Value)
      → types (del_run env version name to pms o plugin) ≡ labelled (codes "DEL") to (type_list o)
  unfolding run_of
  types-del_run none plugin = refl
  types-del_run (some type) plugin = refl

  types-teardown_runs :
      (plugins : List Value)
      → types (teardown_runs env version name to pms plugins)
        ≡ labelled (codes "DEL") to (backwards (named plugins))
  types-teardown_runs [] = refl
  types-teardown_runs (plugin ∷ plugins) =
      let o = plugin_type plugin in
      types-append (teardown_runs env version name to pms plugins)
        (del_run env version name to pms o plugin)
      ∙ ap₂ (◌++◌) (types-teardown_runs plugins) (types-del_run o plugin)
      ∙ sym (
          ap (labelled (codes "DEL") to) (backwards-type_list o (named plugins))
          ∙ labelled-append (codes "DEL") to (backwards (named plugins)) (type_list o))

add_done :
    (env : CniEnv) (to : Target) (pms : List PortMapping) (ip : Option Text)
    → (add env to pms).0 ≡ done ip
    → (conflist : Value) × (plugins : List Value) × (env.load_conflist ≡ done conflist)
      × (conflist_plugins conflist ≡ done plugins)
      × (types (add env to pms).1 ≡ labelled (codes "ADD") to (named plugins))
unfolding add
add_done env to pms ip h = loaded env.load_conflist refl
  where
    chained :
        (conflist : Value) (plugins : List Value) (c : Cni (Option Value))
        → env.load_conflist ≡ done conflist
        → conflist_plugins conflist ≡ done plugins
        → (add_loop env
            (conflist_version conflist)
            (conflist_name conflist)
            to
            pms
            0
            none
            plugins).0
          ≡ c
        → types (add env to pms).1 ≡ labelled (codes "ADD") to (named plugins)
    chained conflist plugins (failed e) p q r = absurd (ground (arith, h))
    chained conflist plugins (done last) p q r =
        let version = conflist_version conflist in
        let name = conflist_name conflist in
        let loop = add_loop env version name to pms 0 none plugins in
        let threaded = add_loop-IsThreaded env version name to pms 0 none plugins last r in
        let same = types-IsThreaded env version name to pms 0 none plugins loop.1 last threaded in
        ground arith

    listed :
        (conflist : Value) (c : Cni (List Value))
        → env.load_conflist ≡ done conflist
        → conflist_plugins conflist ≡ c
        → (d : Value) × (plugins : List Value) × (env.load_conflist ≡ done d)
          × (conflist_plugins d ≡ done plugins)
          × (types (add env to pms).1 ≡ labelled (codes "ADD") to (named plugins))
    listed conflist (failed e) p q = absurd (ground (arith, h))
    listed conflist (done plugins) p q =
        let loop =
          add_loop env (conflist_version conflist) (conflist_name conflist) to pms 0 none plugins in
        (conflist, plugins, p, q, chained conflist plugins loop.0 p q refl)

    loaded :
        (c : Cni Value)
        → env.load_conflist ≡ c
        → (d : Value) × (plugins : List Value) × (env.load_conflist ≡ done d)
          × (conflist_plugins d ≡ done plugins)
          × (types (add env to pms).1 ≡ labelled (codes "ADD") to (named plugins))
    loaded (failed e) p = absurd (ground (arith, h))
    loaded (done conflist) p = listed conflist (conflist_plugins conflist) p refl

-- A teardown undoes a set-up: where ADD of a conflist succeeded and DEL finds the same conflist, it
-- runs DEL of just the plugins whose ADD was run, in the reverse order and for the same target,
-- whatever the environments of the two answer otherwise.
pub del-add :
    (env later : CniEnv) (to : Target) (pms del_pms : List PortMapping) (ip : Option Text)
    → (add env to pms).0 ≡ done ip
    → env.load_conflist ≡ later.load_conflist
    → (plugins : List Text) × (types (add env to pms).1 ≡ labelled (codes "ADD") to plugins)
      × (types (del later to del_pms).1 ≡ labelled (codes "DEL") to (backwards plugins))
del-add env later to pms del_pms ip h same =
    let (conflist, plugins, p, q, ran) = add_done env to pms ip h in
    let down = del-teardown_runs later to del_pms conflist plugins (sym same ∙ p) q in
    (
      named plugins,
      ran,
      ap types down.0
          ∙ types-teardown_runs later (conflist_version conflist) (conflist_name conflist) to
              del_pms plugins,
    )
