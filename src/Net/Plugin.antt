-- ===== src/Net/Plugin.antt =====
-- crates/lightr-cri-net/src/chain.rs: the run of one plugin binary. The process is a parameter.
use lightr_cri.Prelude.{ℕ, Bool, true, false, List, [], ◌∷◌, ◌++◌, Option, none, some}
use lightr_cri.Prelude.Text.{Text, codes}
use lightr_cri.Net.Netns.{join}
use lightr_cri.Net.Chain.{Cni, done, failed, CniEnv, parse_cni_error}

-- The variables that a plugin is started with.
pub record PluginEnv : Type 0 where
  pub command : Text
  pub container_id : Text
  pub netns : Text
  pub ifname : Text
  pub path : Text

-- The spawn of a binary, the write of its stdin, the wait for it, whether it succeeded, and what it
-- wrote; the two readings of bytes as UTF-8.
pub record Process : Type 0 where
  pub spawn_error : Text → PluginEnv → Option Text
  pub stdin_error : Text → Option Text
  pub wait_error : Option Text
  pub success : Bool
  pub stdout : List ℕ
  pub stderr : List ℕ
  pub from_utf8 : List ℕ → Cni Text
  pub from_utf8_lossy : List ℕ → Text

-- The directory that holds the binaries.
unfoldable pub bin_dir_from_env : Option Text → Text
bin_dir_from_env none = codes "/opt/cni/bin"
bin_dir_from_env (some v) = v

abbrev near : Text → Text → Text → Text
near what name e = what ++ (name ++ (codes ": " ++ e))

abbrev utf8_or : Text → Cni Text → Cni Text
utf8_or name (done t) = done t
utf8_or name (failed e) = failed (near (codes "non-utf8 stdout from ") name e)

module _ (env : CniEnv) (p : Process) where
  unfoldable pub plugin_error : Text
  plugin_error = elim (p.from_utf8_lossy p.stdout) [
    | [] ↦ p.from_utf8_lossy p.stderr
    | ◌∷◌ c out ↦ parse_cni_error env (c ∷ out)
  ]

  unfoldable pub plugin_output : Text → Cni Text
  plugin_output name = elim p.success [
    | true ↦ utf8_or name (p.from_utf8 p.stdout)
    | false ↦ failed (name ++ (codes ": " ++ plugin_error))
  ]

  unfoldable pub exec_plugin : Text → Text → Text → Text → Text → Text → Cni Text
  exec_plugin bin_dir plugin_type command container_id netns stdin_json =
      let binary = join bin_dir plugin_type in
      let vars : PluginEnv = record {
        command = command;
        container_id = container_id;
        netns = netns;
        ifname = codes "eth0";
        path = bin_dir;
      } in
      elim (p.spawn_error binary vars) [
        | some e ↦ failed (near (codes "spawn ") binary e)
        | none ↦ elim (p.stdin_error stdin_json) [
          | some e ↦ failed (near (codes "write stdin to ") plugin_type e)
          | none ↦ elim p.wait_error [
            | some e ↦ failed (near (codes "wait for ") plugin_type e)
            | none ↦ plugin_output plugin_type
          ]
        ]
      ]
