-- ===== src/Fake/Log.antt =====
-- lightr-cri-fake: the CRI log of a container (`cri_log_line`, `epoch_to_ymd_hms`,
-- `spawn_tee_thread`). A read of the output pipe is an argument, as is the clock at each record that
-- is formatted. `position` finds a line's end.
pub mod Lines
pub mod Chunks
pub mod Civil
mod Tests
use lightr_cri.Prelude.{
  ℕ, zero, suc, ◌+◌, ◌-◌, ◌*◌, ◌/◌, ◌%◌, ◌^◌, ◌==◌, ltb, leb, Bool, true, false, List, [], ◌∷◌,
  ◌++◌, Option, none, some, if◌then◌else◌, length, take, drop,
}
use lightr_cri.Prelude.Text.{Text, codes, decimal}

-- What `epoch_to_ymd_hms` makes of a count of seconds; the casts to u32 are kept.
pub record DateTime : Type 0 where
  pub year : ℕ
  pub month : ℕ
  pub day : ℕ
  pub hour : ℕ
  pub minute : ℕ
  pub second : ℕ

-- The civil date of a count of days since 1970-01-01, by steps: the day of the era of 400 years, the
-- year of the era, the day of a year that begins in March, and the month of that year.
unfoldable pub year_of_era : ℕ → ℕ
year_of_era doe = (doe - doe / 1460 + doe / 36524 - doe / 146096) / 365

unfoldable pub day_of_year : ℕ → ℕ
day_of_year doe = let yoe = year_of_era doe in doe - (365 * yoe + yoe / 4 - yoe / 100)

unfoldable pub month_shifted : ℕ → ℕ
month_shifted doy = (5 * doy + 2) / 153

unfoldable pub civil : ℕ → ℕ × ℕ × ℕ
civil days =
    let z = days + 719468 in
    let doe = z % 146097 in
    let doy = day_of_year doe in
    let mp = month_shifted doy in
    let d = doy - (153 * mp + 2) / 5 + 1 in
    let mo = if ltb mp 10 then mp + 3 else mp - 9 in
    let y = year_of_era doe + z / 146097 * 400 in (if leb mo 2 then y + 1 else y, mo, d)

unfoldable pub epoch_to_ymd_hms : ℕ → DateTime
epoch_to_ymd_hms secs =
    let date = civil (secs / 86400) in
    record {
      year = date.0 % 2 ^ 32;
      month = date.1 % 2 ^ 32;
      day = date.2 % 2 ^ 32;
      hour = secs / 3600 % 24;
      minute = secs / 60 % 60;
      second = secs % 60;
    }

-- `{:0w}` of a number.
unfoldable pub zeros : ℕ → Text
zeros zero = []
zeros (suc n) = b'0' ∷ zeros n

unfoldable pub padded : ℕ → ℕ → Text
padded w n = zeros (w - length (decimal n)) ++ decimal n

-- A clock gives seconds and nanoseconds.
unfoldable pub timestamp : ℕ × ℕ → Text
timestamp (secs, nanos) =
    let t = epoch_to_ymd_hms secs in
    padded 4 t.year
    ++ (codes "-"
        ++ (padded 2 t.month
            ++ (codes "-"
                ++ (padded 2 t.day
                    ++ (codes "T"
                        ++ (padded 2 t.hour
                            ++ (codes ":"
                                ++ (padded 2 t.minute
                                    ++ (codes ":"
                                        ++ (padded 2 t.second
                                            ++ (codes "."
                                                ++ (padded 9 nanos ++ codes "Z"))))))))))))

abbrev pub newline : ℕ
newline = 10

unfoldable pub ends_with_newline : List ℕ → Bool
ends_with_newline [] = false
ends_with_newline (b ∷ []) = b == newline
ends_with_newline (b ∷ c ∷ bytes) = ends_with_newline (c ∷ bytes)

unfoldable pub cri_log_line : ℕ × ℕ → Text → List ℕ → List ℕ
cri_log_line now stream bytes =
    let full = ends_with_newline bytes in
    timestamp now
    ++ (codes " "
        ++ (stream
            ++ (codes " "
                ++ ((if full then codes "F" else codes "P")
                    ++ (codes " " ++ (bytes ++ (if full then [] else newline ∷ [])))))))

-- The state of a tee thread: the bytes of the line that has not ended, the records made so far, the
-- log, if it is open, and what the attachers were sent.
pub record Tee : Type 0 where
  pub log_pending : List ℕ
  pub records : ℕ
  pub log : Option (List ℕ)
  pub broadcast : List (List ℕ)

unfoldable pub position : List ℕ → Option ℕ
position [] = none
position (b ∷ bytes) =
    let rest = position bytes in
    if b == newline then some 0 else (elim rest [ none ↦ none | some i ↦ some (suc i) ])

abbrev pub append_log : Option (List ℕ) → List ℕ → Option (List ℕ)
append_log none line = none
append_log (some log) line = some (log ++ line)

module _ (clock : ℕ → ℕ × ℕ) (stream : Text) where
  unfoldable pub write_record : List ℕ → Tee → Tee
  write_record line t = record t {
    log = append_log t.log (cri_log_line (clock t.records) stream line);
    records = suc t.records;
  }

  -- The inner loop: one record for each line that has ended. Each round takes at least a byte.
  unfoldable pub drain_lines : ℕ → Tee → Tee
  drain_lines zero t = t
  drain_lines (suc fuel) t = elim (position t.log_pending) [
    | none ↦ t
    | some pos ↦ drain_lines fuel (record (write_record (take (suc pos) t.log_pending) t) {
      log_pending = drop (suc pos) t.log_pending;
    })
  ]

  unfoldable pub tee_chunk : Bool → List ℕ → Tee → Tee
  tee_chunk fanout chunk t =
      let pending = t.log_pending ++ chunk in
      drain_lines (length pending) (record t {
        log_pending = pending;
        broadcast = if fanout then t.broadcast ++ (chunk ∷ []) else t.broadcast;
      })

  abbrev pub flush_pending : Tee → Tee
  flush_pending t = elim t.log_pending [ [] ↦ t | ◌∷◌ b rest ↦ write_record t.log_pending t ]

  -- The reads of the pipe; no bytes are its end, `none` an error.
  unfoldable pub tee_loop : Bool → List (Option (List ℕ)) → Tee → Tee
  tee_loop fanout [] t = flush_pending t
  tee_loop fanout (none ∷ reads) t = flush_pending t
  tee_loop fanout (some [] ∷ reads) t = flush_pending t
  tee_loop fanout (some (b ∷ chunk) ∷ reads) t =
      tee_loop fanout reads (tee_chunk fanout (b ∷ chunk) t)
