-- ===== src/Net/Chain/Teardown.antt =====
-- crates/lightr-cri-net/src/chain.rs: what `del` runs, and what it reports.
use lightr_cri.Prelude.{
  ℕ, suc, ◌≡◌, refl, List, [], ◌∷◌, ◌++◌, Option, none, some, arith, Option-cases, inl, inr, ◌⊎◌,
  append_assoc, append-nil, ◌∙◌, sym,
}
use lightr_cri.Prelude.Text.{Text, codes}
use lightr_cri.Backend.{PortMapping}
use lightr_cri.Net.Json.{Value}
use lightr_cri.Net.Chain.{
  Cni, done, failed, CniEnv, Target, PluginRun, run_of, plugin_type, del_loop, del, reverse,
  conflist_plugins, last_error, conflist_version, conflist_name,
}

module _ (env : CniEnv) (version name : Text) (to : Target) (pms : List PortMapping) where
  abbrev pub del_run : Option Text → Value → List PluginRun
  del_run none plugin = []
  del_run (some type) plugin = run_of env version name to pms (codes "DEL") plugin type none ∷ []

  -- The runs of a full teardown: every plugin with a type, the last of the conflist first.
  abbrev pub teardown_runs : List Value → List PluginRun
  teardown_runs [] = []
  teardown_runs (plugin ∷ plugins) = teardown_runs plugins ++ del_run (plugin_type plugin) plugin

  abbrev in_order : List Value → List PluginRun
  in_order [] = []
  in_order (plugin ∷ plugins) = del_run (plugin_type plugin) plugin ++ in_order plugins

  -- Runs from the n-th on that all gave an output.
  abbrev pub AllDone : ℕ → List PluginRun → Type 0
  AllDone n [] = Unit
  AllDone n (run ∷ runs) =
      ((stdout : Text) × (env.exec_plugin n run ≡ done stdout)) × AllDone (suc n) runs

  del_loop-runs :
      (n : ℕ) (last : Option Text) (plugins : List Value)
      → (del_loop env version name to pms n last plugins).1 ≡ in_order plugins
  unfolding del_loop
  del_loop-runs n last [] = refl
  del_loop-runs n last (plugin ∷ plugins) = elim (Option-cases (plugin_type plugin)) [
    | inl e ↦ ground (arith, del_loop-runs n last plugins)
    | inr (type, e) ↦
        let run = run_of env version name to pms (codes "DEL") plugin type none in
        ground (arith, del_loop-runs (suc n) (last_error last (env.exec_plugin n run)) plugins)
  ]

  in_order-reverse :
      (plugins acc : List Value)
      → in_order (reverse plugins acc) ≡ teardown_runs plugins ++ in_order acc
  unfolding reverse
  in_order-reverse [] acc = refl
  in_order-reverse (plugin ∷ plugins) acc =
      in_order-reverse plugins (plugin ∷ acc)
      ∙ sym (
          append_assoc (teardown_runs plugins) (del_run (plugin_type plugin) plugin) (in_order acc))

  -- An error is never forgotten.
  del_loop-some :
      (n : ℕ) (e : Text) (plugins : List Value)
      → (x : Text) × ((del_loop env version name to pms n (some e) plugins).0 ≡ some x)
  unfolding del_loop
  del_loop-some n e [] = (e, refl)
  del_loop-some n e (plugin ∷ plugins) =
      go (plugin_type plugin) refl (λ k x. del_loop-some k x plugins)
    where
      go :
          (o : Option Text)
          → plugin_type plugin ≡ o
          → ((k : ℕ) (x : Text)
              → (y : Text) × ((del_loop env version name to pms k (some x) plugins).0 ≡ some y))
          → (x : Text) × ((del_loop env version name to pms n (some e) (plugin ∷ plugins)).0
              ≡ some x)
      go none p rest = rw (del_loop, p) (rest n e)
      go (some type) p rest =
          rw (del_loop, p)
            (after
              (env.exec_plugin n (run_of env version name to pms (codes "DEL") plugin type none)))
        where
          after :
              (c : Cni Text)
              → (x : Text) × ((del_loop env version name to pms
                    (suc n)
                    (last_error (some e) c)
                    plugins).0
                  ≡ some x)
          after (done stdout) = rest (suc n) e
          after (failed m) = rest (suc n) m

  del_loop-none :
      (n : ℕ) (plugins : List Value)
      → (del_loop env version name to pms n none plugins).0 ≡ none
      → AllDone n (del_loop env version name to pms n none plugins).1
  unfolding del_loop
  del_loop-none n [] h = tt
  del_loop-none n (plugin ∷ plugins) h =
      go (plugin_type plugin) refl (λ k q. del_loop-none k plugins q)
    where
      go :
          (o : Option Text)
          → plugin_type plugin ≡ o
          → ((k : ℕ)
              → (del_loop env version name to pms k none plugins).0 ≡ none
              → AllDone k (del_loop env version name to pms k none plugins).1)
          → AllDone n (del_loop env version name to pms n none (plugin ∷ plugins)).1
      go none p rest = rw (del_loop, p) (rest n (ground arith))
      go (some type) p rest = ran (env.exec_plugin n run) refl
        where
          run : PluginRun
          run = run_of env version name to pms (codes "DEL") plugin type none

          ran :
              (c : Cni Text)
              → env.exec_plugin n run ≡ c
              → AllDone n (del_loop env version name to pms n none (plugin ∷ plugins)).1
          ran (done stdout) q = rw (del_loop, p, q) ((stdout, refl), rest (suc n) (ground arith))
          ran (failed m) q = let (x, k) = del_loop-some (suc n) m plugins in absurd (ground arith)

module _ (env : CniEnv) (to : Target) (pms : List PortMapping) where
  -- A teardown of a conflist that can be read runs DEL for every plugin that has a type, the last one
  -- first and each once, whatever the outcomes of the runs are; and it reports an error unless every
  -- run succeeded.
  pub del-teardown_runs :
      (conflist : Value) (plugins : List Value)
      → env.load_conflist ≡ done conflist
      → conflist_plugins conflist ≡ done plugins
      → let version = conflist_version conflist in
        let name = conflist_name conflist in
        ((del env to pms).1 ≡ teardown_runs env version name to pms plugins)
        × (((e : Text) × ((del env to pms).0 ≡ failed e))
            ⊎ AllDone env version name to pms 0 (del env to pms).1)
  unfolding del
  del-teardown_runs conflist plugins e k =
      let version = conflist_version conflist in
      let name = conflist_name conflist in
      let r = del_loop env version name to pms 0 none (reverse plugins []) in
      let same : (del env to pms).1 ≡ r.1 = ground arith in
      (
        same
            ∙ del_loop-runs env version name to pms 0 none (reverse plugins [])
            ∙ in_order-reverse env version name to pms plugins []
            ∙ append-nil (teardown_runs env version name to pms plugins),
        elim (Option-cases r.0) [
          | inl q ↦ inr (rw same (del_loop-none env version name to pms 0 (reverse plugins []) q))
          | inr (m, q) ↦ inl (m, ground arith)
        ],
      )
