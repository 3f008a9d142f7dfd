-- ===== src/Fake/Stats.antt =====
-- lightr-cri-fake: `read_proc_stats`, `container_stats` and `list_container_stats`. The files of /proc
-- and the clock's ticks are arguments; whitespace is that of ASCII texts.
use lightr_cri.Prelude.{
  ℕ, ◌+◌, ◌-◌, ◌*◌, ◌/◌, ◌%◌, ◌^◌, ◌==◌, ltb, Bool, false, List, [], ◌∷◌, ◌++◌, Option, none, some,
  if◌then◌else◌, length, get_elem?, take,
}
use lightr_cri.Prelude.Map.{text_key, get, values}
use lightr_cri.Prelude.Text.{Text, codes, text_eq, parse_uint}
use lightr_cri.Backend.{ContainerStatsRec, ContainerFilter, running, not_found, Result, ok, err}
use lightr_cri.Stream.Negotiate.{split_on, is_space, is_filled}
use lightr_cri.Fake.World.{ContainerRecord, World, Env, now_nanos, next}
use lightr_cri.Fake.Filter.{container_matches}

-- `split_whitespace`.
unfoldable pub split_whitespace : Text → Text → List Text
split_whitespace [] [] = []
split_whitespace (d ∷ word) [] = (d ∷ word) ∷ []
split_whitespace word (c ∷ t) =
    let after = split_whitespace [] t in
    let within = split_whitespace (word ++ (c ∷ [])) t in
    if is_space c then (if is_filled word then word ∷ after else after) else within

abbrev pub u64_max : ℕ
u64_max = 2 ^ 64 - 1

abbrev parsed_field : Option Text → ℕ
parsed_field none = 0
parsed_field (some f) = elim (parse_uint u64_max f) [ none ↦ 0 | some n ↦ n ]

-- utime and stime, the 14th and 15th field of /proc/<pid>/stat, in ticks.
unfoldable pub cpu_nanos : ℕ → Option Text → ℕ
cpu_nanos clk_tck none = 0
cpu_nanos clk_tck (some stat) =
    let fields = split_whitespace [] stat in
    let nanos_per_tick = if clk_tck == 0 then 0 else 1_000_000_000 / clk_tck in
    if ltb 14 (length fields)
    then (parsed_field (get_elem? fields 13) + parsed_field (get_elem? fields 14))
      * nanos_per_tick
      % 2 ^ 64
    else 0

abbrev rss_kb : List Text → ℕ
rss_kb [] = 0
rss_kb (line ∷ lines) =
    let rest = rss_kb lines in
    if text_eq (take 6 line) (codes "VmRSS:")
    then parsed_field (get_elem? (split_whitespace [] line) 1)
    else rest

-- VmRSS of /proc/<pid>/status, in bytes.
unfoldable pub mem_bytes : Option Text → ℕ
mem_bytes none = 0
mem_bytes (some status) = rss_kb (split_on 10 status) * 1024 % 2 ^ 64

-- `sysconf(_SC_CLK_TCK)`, and the two files at an event by the pid.
pub record Proc : Type 0 where
  pub clk_tck : ℕ
  pub stat : ℕ → ℕ → Option Text
  pub status : ℕ → ℕ → Option Text

unfoldable pub read_proc_stats : Proc → ℕ → ℕ → ℕ × ℕ
read_proc_stats proc tick pid =
    (cpu_nanos proc.clk_tck (proc.stat tick pid), mem_bytes (proc.status tick pid))

abbrev pub is_live_process : ContainerRecord → Bool
is_live_process rec = elim rec.state [ running ↦ ltb 0 rec.pid | other ↦ false ]

module _ {J : Type 0} (env : Env J) (proc : Proc) where
  unfoldable pub stats_of_record : Text → ContainerRecord → World J → ContainerStatsRec
  stats_of_record id rec w =
      let usage = read_proc_stats proc w.tick rec.pid in
      record {
        id = id;
        timestamp_nanos = now_nanos env w;
        cpu_usage_core_nanos = if is_live_process rec then usage.0 else 0;
        memory_working_set_bytes = if is_live_process rec then usage.1 else 0;
      }

  unfoldable pub container_stats : Text → World J → Result ContainerStatsRec × World J
  container_stats id w = elim (get id w.containers) [
    | none ↦ (err (not_found (codes "container " ++ id)), w)
    | some rec ↦ (ok (stats_of_record id rec w), next w)
  ]

  unfoldable pub matching_ids : ContainerFilter → List ContainerRecord → List Text
  matching_ids filter [] = []
  matching_ids filter (rec ∷ recs) =
      let rest = matching_ids filter recs in
      if container_matches rec filter then rec.id ∷ rest else rest

  -- `map(container_stats).collect()`: up to the first error.
  unfoldable pub stats_of_ids : List Text → World J → Result (List ContainerStatsRec) × World J
  stats_of_ids [] w = (ok [], w)
  stats_of_ids (id ∷ ids) w =
      let (r, w1) = container_stats id w in
      let (rs, w2) = stats_of_ids ids w1 in
      elim r [
        | err e ↦ (err e, w1)
        | ok rec ↦ (elim rs [ err e ↦ err e | ok recs ↦ ok (rec ∷ recs) ], w2)
      ]

  unfoldable pub list_container_stats :
      ContainerFilter → World J → Result (List ContainerStatsRec) × World J
  list_container_stats filter w = stats_of_ids (matching_ids filter (values w.containers)) w
