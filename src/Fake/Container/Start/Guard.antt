-- ===== src/Fake/Container/Start/Guard.antt =====
-- lightr-cri-fake: `start_container` starts Created containers only, and what a start leaves.
use lightr_cri.Prelude.{ℕ, ◌≢◌, ◌≡◌, refl, [], Option, none, some, arith}
use lightr_cri.Prelude.Map.{text_key, get, insert, get-insert_self}
use lightr_cri.Prelude.Text.{Text}
use lightr_cri.Backend.{ContainerState, created, running, Result, ok, err}
use lightr_cri.Fake.World.{
  ContainerRecord, Spawn, child, spawn_error, Env, World, and_then, next, now_nanos,
}
use lightr_cri.Fake.World.Disk.{disk_container, write_container_ok, write_container_index}
use lightr_cri.Fake.Container.{put_container, store_container}
use lightr_cri.Fake.Container.Start.{
  starting, adopt_child, spawn_child, launch, prepare, start_container,
}

abbrev pub container_state : {J : Type 0} → Text → World J → Option ContainerState
container_state id w = elim (get id w.containers) [ none ↦ none | some r ↦ some r.state ]

abbrev pub container_pid : {J : Type 0} → Text → World J → Option ℕ
container_pid id w = elim (get id w.containers) [ none ↦ none | some r ↦ some r.pid ]

module _ {J : Type 0} (env : Env J) where
  -- A container that is not Created is refused, and nothing is touched.
  pub start_container_refused :
      (id : Text) (w : World J)
      → container_state id w ≢ some created
      → ((start_container env id w).1 ≡ w) × ((start_container env id w).0 ≢ ok tt)
  unfolding start_container
  start_container_refused id w h = (ground arith, ground arith)

  store_container_ok :
      (id : Text) (rec : ContainerRecord) (w v : World J)
      → store_container env id rec w ≡ (ok tt, v)
      → (get id v.containers ≡ some rec)
        × (disk_container env id v ≡ some rec)
        × (v.reapers ≡ w.reapers)
  store_container_ok id rec w v h = ground (
    arith,
    write_container_ok env id rec (put_container env id rec w) v,
    write_container_index env id rec (put_container env id rec w),
    get-insert_self id rec w.containers,
  )

  -- What a start leaves behind that returns `ok`.
  abbrev pub IsStarted : Text → World J → Type 0
  IsStarted id v =
      (container_state id v ≡ some running)
      × (disk_container env id v ≡ get id v.containers)
      × (get id v.reapers ≡ container_pid id v)

  adopt_child_ok :
      (id : Text) (pid : ℕ) (w v : World J)
      → container_state id w ≡ some running
      → adopt_child env id pid w ≡ (ok tt, v)
      → IsStarted id v
  adopt_child_ok id pid w v s h = go (get id w.containers) refl
    where
      held : World J
      held = record (next w) { io_table = insert id (env.new_fds w.tick) w.io_table }

      stored :
          (rec : ContainerRecord)
          → rec.state ≡ running
          → (r : Result (Unit {0}) × World J)
          → store_container env id (record rec { pid = pid; reason = [] }) held ≡ r
          → and_then r (λ _ u. (ok tt, record u { reapers = insert id pid u.reapers })) ≡ (ok tt, v)
          → IsStarted id v
      stored rec k (err e, x) p q = absurd (ground arith)
      stored rec k (ok a, x) p q =
          unfold disk_container in
          ground (
            arith,
            store_container_ok id (record rec { pid = pid; reason = [] }) held x p,
            get-insert_self id pid x.reapers,
          )

      go : (o : Option ContainerRecord) → get id w.containers ≡ o → IsStarted id v
      go none p = absurd (ground arith)
      go (some rec) p =
          stored rec (ground arith)
            (store_container env id (record rec { pid = pid; reason = [] }) held) refl
            (unfold adopt_child in ground arith)

  spawn_child_ok :
      (id : Text) (w v : World J)
      → container_state id w ≡ some running
      → spawn_child env id w ≡ (ok tt, v)
      → IsStarted id v
  spawn_child_ok id w v s h = go (env.spawn w.tick) refl
    where
      go : (p : Spawn) → env.spawn w.tick ≡ p → IsStarted id v
      go (spawn_error e) q = absurd (unfold spawn_child in ground arith)
      go (child pid) q = adopt_child_ok id pid (next w) v s (unfold spawn_child in ground arith)

  launch_ok : (id : Text) (w v : World J) → launch env id w ≡ (ok tt, v) → IsStarted id v
  launch_ok id w v h = go (get id w.containers) refl
    where
      stored :
          (rec : ContainerRecord)
          → (r : Result (Unit {0}) × World J)
          → store_container env id (starting rec (now_nanos env w)) (next w) ≡ r
          → and_then r (λ _. spawn_child env id) ≡ (ok tt, v)
          → IsStarted id v
      stored rec (err e, x) p q = absurd (ground arith)
      stored rec (ok a, x) p q =
          spawn_child_ok id x v
            (ground (arith, store_container_ok id (starting rec (now_nanos env w)) (next w) x p)) q

      go : (o : Option ContainerRecord) → get id w.containers ≡ o → IsStarted id v
      go none p = absurd (unfold launch in ground arith)
      go (some rec) p =
          stored rec (store_container env id (starting rec (now_nanos env w)) (next w)) refl
            (unfold launch in ground arith)

  -- A start that succeeds was of a Created container. It leaves the record Running, the same in the
  -- index and on disk, and a reaper that waits for the process whose pid the record has.
  pub start_container_ok :
      (id : Text) (w v : World J)
      → start_container env id w ≡ (ok tt, v)
      → (container_state id w ≡ some created) × IsStarted id v
  start_container_ok id w v h = go (get id w.containers) refl
    where
      prepared :
          (r : Result (Unit {0}) × World J)
          → and_then r (λ _. launch env id) ≡ (ok tt, v)
          → IsStarted id v
      prepared (err e, x) q = absurd (ground arith)
      prepared (ok a, x) q = launch_ok id x v q

      go :
          (o : Option ContainerRecord)
          → get id w.containers ≡ o
          → (container_state id w ≡ some created) × IsStarted id v
      go none p = absurd (unfold start_container in ground arith)
      go (some rec) p =
          let s : container_state id w ≡ some created = unfold start_container in ground arith in
          (s, prepared (prepare env rec w) (unfold start_container in ground arith))
