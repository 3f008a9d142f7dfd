-- ===== src/Fake/Log/Tests.antt =====
-- lightr-cri-fake: the CRI log on concrete bytes.
use lightr_cri.Prelude.{ℕ, ◌+◌, ◌≡◌, refl, [], ◌∷◌, ◌++◌, some, arith, true}
use lightr_cri.Prelude.Text.{codes}
use lightr_cri.Fake.Log.{
  Tee, civil, cri_log_line, tee_loop, drain_lines, year_of_era, day_of_year, month_shifted,
}
use lightr_cri.Fake.Log.Civil.{civil-day_after_epoch, day_after_epoch}
use lightr_cri.Fake.Log.Lines.{lines}
use lightr_cri.Fake.Log.Chunks.{tee_loop-delivered, drain_lines-settle, settle}

abbrev clock : ℕ → ℕ × ℕ
clock n = (1700000000 + n, 5)

abbrev waiting : Tee
waiting = record { log_pending = 65 ∷ []; records = 3; log = some []; broadcast = [] }

leap_day : civil 11016 ≡ (2000, 2, 29)
unfolding civil year_of_era day_of_year month_shifted
leap_day = refl

civil-day_after_epoch_example : civil 59 ≡ day_after_epoch 59
civil-day_after_epoch_example = civil-day_after_epoch 59

-- Two lines, cut in the middle of the first.
tee_loop-delivered_example :
    (tee_loop clock (codes "stdout") true (some (66 ∷ []) ∷ some (10 ∷ 67 ∷ []) ∷ []) waiting).log
    ≡ some (
        []
        ++ (cri_log_line (clock 3) (codes "stdout") (65 ∷ 66 ∷ 10 ∷ [])
            ++ (cri_log_line (clock 4) (codes "stdout") (67 ∷ []) ++ [])))
unfolding lines
tee_loop-delivered_example =
    tee_loop-delivered clock (codes "stdout") true (some (66 ∷ []) ∷ some (10 ∷ 67 ∷ []) ∷ [])
      waiting refl

drain_lines-settle_example :
    drain_lines clock (codes "stdout") 4 waiting
    ≡ settle clock (codes "stdout") (lines (65 ∷ [])) waiting
drain_lines-settle_example = drain_lines-settle clock (codes "stdout") 4 waiting (omega arith)
