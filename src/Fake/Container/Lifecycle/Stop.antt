-- ===== src/Fake/Container/Lifecycle/Stop.antt =====
-- lightr-cri-fake: `stop_container`, and its wait for the reaper, move a record forward only.
use lightr_cri.Prelude.{
  sym, ℕ, ◌+◌, ◌≡◌, refl, Bool, true, false, List, [], ◌∷◌, Option, none, some, arith, inl, inr,
  Bool-cases, ltb, if◌then◌else◌,
}
use lightr_cri.Prelude.Map.{text_key, get, insert}
use lightr_cri.Prelude.Text.{Text, codes}
use lightr_cri.Backend.{ℤ, pos}
use lightr_cri.Fake.World.{
  ContainerRecord, WaitStatus, Env, World, next, now_nanos, write_container,
}
use lightr_cri.Fake.Container.{
  send, sigkill, sigterm, is_positive, is_running, finished, reap_all, has_exited, wait_loop,
  wait_until_exited, kill_and_wait, stop_process, stop_container,
}
use lightr_cri.Fake.Container.Lifecycle.{
  Follows, Follows-refl, Follows-trans, FollowsAll, insert-FollowsAll, finished-Follows,
  reap_all-Follows,
}

module _ {J : Type 0} (env : Env J) where
  wait_loop-Follows :
      (id : Text) (rounds : List (List (Text × WaitStatus))) (w : World J)
      → FollowsAll w.containers (wait_loop env id rounds w).1.containers
  unfolding wait_loop
  wait_loop-Follows id [] w k = Follows-refl (get k w.containers)
  wait_loop-Follows id (r ∷ rounds) w k = go (has_exited env id w) refl (
      Follows-trans (get k w.containers) (get k (reap_all env r w).containers)
        (get k (wait_loop env id rounds (reap_all env r w)).1.containers)
        (reap_all-Follows env r w k) (wait_loop-Follows id rounds (reap_all env r w) k))
    where
      go :
          (b : Bool)
          → has_exited env id w ≡ b
          → Follows
              (get k w.containers)
              (get k (wait_loop env id rounds (reap_all env r w)).1.containers)
          → Follows (get k w.containers) (get k (wait_loop env id (r ∷ rounds) w).1.containers)
      go true p f = unfold wait_loop in rw (wait_loop, p) (Follows-refl (get k w.containers))
      go false p f = unfold wait_loop in rw (wait_loop, p) f

  -- A wait that says that the container has exited is right: its entry is gone or not Running.
  pub wait_loop_sound :
      (id : Text) (rounds : List (List (Text × WaitStatus))) (w : World J)
      → (wait_loop env id rounds w).0 ≡ true
      → has_exited env id (wait_loop env id rounds w).1 ≡ true
  unfolding wait_loop
  wait_loop_sound id [] w h = h
  wait_loop_sound id (r ∷ rounds) w h = ground (arith, wait_loop_sound id rounds (reap_all env r w))

  wait-Follows :
      (id : Text) (w : World J) → FollowsAll w.containers (wait_until_exited env id w).1.containers
  unfolding wait_until_exited
  wait-Follows id w = wait_loop-Follows id (env.finish_polls w.tick) (next w)

  kill-Follows :
      (id : Text) (pid : ℕ) (w : World J)
      → FollowsAll w.containers (kill_and_wait env id pid w).containers
  unfolding kill_and_wait
  kill-Follows id pid w = wait-Follows id (send env pid sigkill w)

  stop_process-Follows :
      (id : Text) (pid : ℕ) (grace : ℤ) (w : World J)
      → FollowsAll w.containers (stop_process env id pid grace w).containers
  stop_process-Follows id pid grace w k =
      go (is_positive grace) refl (wait_until_exited env id (send env pid sigterm w)) refl
    where
      moved :
          (r : Bool × World J)
          → wait_until_exited env id (send env pid sigterm w) ≡ r
          → Follows (get k w.containers) (get k r.1.containers)
      moved r q = rw (sym q) (wait-Follows id (send env pid sigterm w) k)

      go :
          (b : Bool)
          → is_positive grace ≡ b
          → (r : Bool × World J) → wait_until_exited env id (send env pid sigterm w) ≡ r
          → Follows (get k w.containers) (get k (stop_process env id pid grace w).containers)
      go false p r q = unfold stop_process in rw (stop_process, p) (kill-Follows id pid w k)
      go true p (true, x) q = unfold stop_process in rw (stop_process, p, q) (moved (true, x) q)
      go true p (false, x) q =
          unfold stop_process in
          rw (stop_process, p, q)
            (Follows-trans (get k w.containers) (get k x.containers)
              (get k (kill_and_wait env id pid x).containers) (moved (false, x) q)
              (kill-Follows id pid x k))

  -- A stop, also one that fails, loses no container and moves no container's state back, and every
  -- container keeps its sandbox, its pid and the time of its start.
  pub stop_container-Follows :
      (id : Text) (grace : ℤ) (w : World J)
      → FollowsAll w.containers (stop_container env id grace w).1.containers
  stop_container-Follows id grace w k = go (get id w.containers) refl
    where
      same :
          (stop_container env id grace w).1.containers ≡ w.containers
          → Follows (get k w.containers) (get k (stop_container env id grace w).1.containers)
      same e = rw e (Follows-refl (get k w.containers))

      go :
          (o : Option ContainerRecord)
          → get id w.containers ≡ o
          → Follows (get k w.containers) (get k (stop_container env id grace w).1.containers)
      go none p = same (unfold stop_container in ground arith)
      go (some rec) p = elim (Bool-cases (is_running rec.state)) [
        | inr b ↦ same (unfold stop_container in ground arith)
        | inl b ↦ elim (Bool-cases (ltb 0 rec.pid)) [
          | inl c ↦
              let e : (stop_container env id grace w).1 ≡ stop_process env id rec.pid grace w =
                unfold stop_container in ground arith in
              rw e (stop_process-Follows id rec.pid grace w k)
          | inr c ↦
              let r : ContainerRecord =
                finished rec (pos (128 + (if is_positive grace then sigterm else sigkill)))
                  (codes "stopped") (now_nanos env w) in
              let e : (stop_container env id grace w).1.containers ≡ insert id r w.containers =
                unfold stop_container write_container in ground arith in
              rw e (
                insert-FollowsAll id rec r w.containers p
                  (finished-Follows env rec
                    (pos (128 + (if is_positive grace then sigterm else sigkill))) (codes "stopped")
                    (now_nanos env w) b)
                  k)
        ]
      ]
