-- ===== src/Fake/ExecSync/Collected.antt =====
-- lightr-cri-fake: when `exec_sync` runs a command, and that it leaves no child behind.
use lightr_cri.Prelude.{◌≡◌, List, [], ◌∷◌, ◌⊎◌, ℕ}
use lightr_cri.Prelude.Map.{text_key}
use lightr_cri.Prelude.Text.{Text, codes}
use lightr_cri.Backend.{internal, ExecResult, Result, ok, err}
use lightr_cri.Fake.World.{World}
use lightr_cri.Fake.ExecSync.{
  Act, collected, kill_pid, kill_group, child_kill, Poll, try_wait_error, Output, output_error,
}

abbrev pub IsAnswered : Poll → Type 0
IsAnswered (try_wait_error e) = ⊥
IsAnswered p = Unit

abbrev pub IsWaited : Output → Type 0
IsWaited (output_error e) = ⊥
IsWaited o = Unit

-- How a started child ends: it is collected with its result, or the time ran out and it is killed, by
-- its pid, by its group and by its handle, and then collected.
abbrev pub IsOver : ℕ → Result ExecResult × List Act → Type 0
IsOver pid r =
    ((x : ExecResult) × (r ≡ (ok x, collected pid ∷ [])))
    ⊎ (r ≡ (
      err (internal (codes "exec timeout")),
      kill_pid pid ∷ kill_group pid ∷ child_kill pid ∷ collected pid ∷ [],
    ))

-- The start of a command, and behind it the end of its child.
abbrev pub Ends : ℕ → Result ExecResult × List Act → Type 0
Ends pid r =
    (start : Act) × (rest : Result ExecResult × List Act) × IsOver pid rest
    × (r ≡ (rest.0, start ∷ rest.1))
