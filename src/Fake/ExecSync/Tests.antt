-- ===== src/Fake/ExecSync/Tests.antt =====
-- lightr-cri-fake: `exec_sync` on a concrete container.
use lightr_cri.Prelude.{[], ◌∷◌, none}
use lightr_cri.Prelude.Map.{text_key}
use lightr_cri.Fake.World.{child}
use lightr_cri.Fake.ExecSync.{ExecEnv, still_running, output, by_code}

abbrev hangs : ExecEnv
hangs = record {
  mnt_uts_error = none;
  netns_error = λ path. none;
  spawn = child 41;
  polls = still_running ∷ still_running ∷ [];
  wait_with_output = output (by_code 0) [] [];
}
