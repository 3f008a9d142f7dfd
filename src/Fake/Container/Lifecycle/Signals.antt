-- ===== src/Fake/Container/Lifecycle/Signals.antt =====
-- lightr-cri-fake: the signals that `stop_container` sends, and their order.
use lightr_cri.Prelude.{
  sym, ap, ◌∙◌, ℕ, ◌≡◌, refl, Bool, true, false, List, [], ◌∷◌, ◌++◌, some, arith, inl, inr,
  Option-cases, ltb, append_assoc,
}
use lightr_cri.Prelude.Map.{text_key, get, remove}
use lightr_cri.Prelude.Text.{Text}
use lightr_cri.Backend.{ℤ, running}
use lightr_cri.Fake.World.{
  ContainerRecord, WaitStatus, Effect, kill, Env, World, next, write_container,
}
use lightr_cri.Fake.Container.{
  sigkill, sigterm, is_positive, reap_record, reap, reap_all, wait_loop, wait_until_exited,
  kill_and_wait, stop_process, stop_container, send,
}

module _ {J : Type 0} (env : Env J) where
  reap_record-effects :
      (id : Text) (status : WaitStatus) (rec : ContainerRecord) (w : World J)
      → (reap_record env id status rec w).effects ≡ w.effects
  unfolding reap_record write_container
  reap_record-effects id status rec w = ground arith

  reap-effects :
      (id : Text) (status : WaitStatus) (w : World J)
      → (reap env (id, status) w).effects ≡ w.effects
  unfolding reap
  reap-effects id status w = elim (Option-cases (get id w.containers)) [
    | inl p ↦ ground arith
    | inr (rec, p) ↦
        let v : World J = record w {
          reapers = remove id w.reapers;
          io_table = remove id w.io_table;
        } in
        ground (arith, reap_record-effects id status rec v)
  ]

  reap_all-effects :
      (rs : List (Text × WaitStatus)) (w : World J) → (reap_all env rs w).effects ≡ w.effects
  unfolding reap_all
  reap_all-effects [] w = refl
  reap_all-effects ((id, s) ∷ rs) w = reap_all-effects rs (reap env (id, s) w) ∙ reap-effects id s w

  wait_loop-effects :
      (id : Text) (rounds : List (List (Text × WaitStatus))) (w : World J)
      → (wait_loop env id rounds w).1.effects ≡ w.effects
  unfolding wait_loop
  wait_loop-effects id [] w = refl
  wait_loop-effects id (r ∷ rounds) w =
      ground (arith, reap_all-effects r w, wait_loop-effects id rounds (reap_all env r w))

  wait-effects : (id : Text) (w : World J) → (wait_until_exited env id w).1.effects ≡ w.effects
  unfolding wait_until_exited
  wait-effects id w = wait_loop-effects id (env.finish_polls w.tick) (next w)

  kill-effects :
      (id : Text) (pid : ℕ) (w : World J)
      → (kill_and_wait env id pid w).effects ≡ w.effects ++ (kill pid sigkill ∷ [])
  unfolding kill_and_wait
  kill-effects id pid w = wait-effects id (send env pid sigkill w)

  -- The signals of a stop, by whether it has a grace and whether the process ended within it.
  abbrev pub signals : ℕ → Bool → Bool → List Effect
  signals pid false graceful = kill pid sigkill ∷ []
  signals pid true true = kill pid sigterm ∷ []
  signals pid true false = kill pid sigterm ∷ kill pid sigkill ∷ []

  stop_process-effects :
      (id : Text) (pid : ℕ) (grace : ℤ) (w : World J)
      → (stop_process env id pid grace w).effects
        ≡ w.effects
          ++ signals pid (is_positive grace) (wait_until_exited env id (send env pid sigterm w)).0
  unfolding stop_process kill_and_wait
  stop_process-effects id pid grace w =
      go (is_positive grace) refl (wait_until_exited env id (send env pid sigterm w)) refl
    where
      go :
          (b : Bool)
          → is_positive grace ≡ b
          → (r : Bool × World J) → wait_until_exited env id (send env pid sigterm w) ≡ r
          → (stop_process env id pid grace w).effects
            ≡ w.effects
              ++ signals pid
                  (is_positive grace)
                  (wait_until_exited env id (send env pid sigterm w)).0
      go false p r q = rw (stop_process, p) (kill-effects id pid w)
      go true p (true, x) q =
          rw (stop_process, p, q)
            (ap (λ (y : Bool × World J). y.1.effects) (sym q)
              ∙ wait-effects id (send env pid sigterm w))
      go true p (false, x) q =
          rw (stop_process, p, q)
            (kill-effects id pid x
              ∙ ap (λ es. es ++ (kill pid sigkill ∷ []))
                  (ap (λ (y : Bool × World J). y.1.effects) (sym q)
                    ∙ wait-effects id (send env pid sigterm w))
              ∙ append_assoc w.effects (kill pid sigterm ∷ []) (kill pid sigkill ∷ []))

  -- A stop of a Running container with a process sends SIGTERM alone where there is a grace and the
  -- process ends within it, SIGTERM and then SIGKILL where it does not, and SIGKILL alone where
  -- there is no grace; every signal goes to the pid of the record.
  pub stop_container-signals :
      (id : Text) (rec : ContainerRecord) (grace : ℤ) (w : World J)
      → get id w.containers ≡ some rec
      → rec.state ≡ running
      → ltb 0 rec.pid ≡ true
      → (stop_container env id grace w).1.effects
        ≡ w.effects
          ++ signals rec.pid
              (is_positive grace)
              (wait_until_exited env id (send env rec.pid sigterm w)).0
  stop_container-signals id rec grace w e k h =
      let same : (stop_container env id grace w).1 ≡ stop_process env id rec.pid grace w =
        unfold stop_container in ground arith in
      rw same (stop_process-effects id rec.pid grace w)
