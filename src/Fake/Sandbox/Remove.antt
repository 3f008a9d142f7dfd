-- ===== src/Fake/Sandbox/Remove.antt =====
-- lightr-cri-fake: `remove_sandbox` takes the sandbox's containers with it.
use lightr_cri.Prelude.{
  ◌≢◌, IsIn, sym, ap, ◌≡◌, refl, Bool, true, false, List, [], ◌∷◌, Option, none, some, arith, inl,
  inr, Option-cases,
}
use lightr_cri.Prelude.Map.{Map, text_key, get, get-remove, get-insert_self}
use lightr_cri.Prelude.Text.{Text, text_eq, text_eq_iff}
use lightr_cri.Backend.{not_ready, pos, Result, ok, err}
use lightr_cri.Fake.World.{SandboxRecord, ContainerRecord, Env, World, and_then, write_sandbox}
use lightr_cri.Fake.Container.{stop_container, remove_container}
use lightr_cri.Fake.Container.Lifecycle.{Follows}
use lightr_cri.Fake.Container.Lifecycle.Stop.{stop_container-Follows}
use lightr_cri.Fake.Container.Remove.{remove_container_ok}
use lightr_cri.Fake.Sandbox.{
  teardown, stop_sandbox, container_ids, remove_containers, forget_sandbox, remove_sandbox,
}

Follows-absent : (o p : Option ContainerRecord) → Follows o p → o ≡ none → p ≡ none
Follows-absent none none f h = refl
Follows-absent none (some r) f h = absurd f
Follows-absent (some q) p f h = absurd (ground arith)

container_ids_complete :
    (id k : Text) (rec : ContainerRecord) (m : Map Text ContainerRecord)
    → get k m ≡ some rec
    → rec.sandbox ≡ id
    → IsIn rec.id (container_ids id m)
unfolding container_ids
container_ids_complete id k rec [] h e = absurd (unfold get in ground arith)
container_ids_complete id k rec ((j, r) ∷ m) h e =
    go (text_eq j k) refl (text_eq r.sandbox id) refl (λ p. container_ids_complete id k rec m p e)
  where
    go :
        (b : Bool)
        → text_eq j k ≡ b
        → (c : Bool) → text_eq r.sandbox id ≡ c
        → (get k m ≡ some rec → IsIn rec.id (container_ids id m))
        → IsIn rec.id (container_ids id ((j, r) ∷ m))
    go true p true q rest =
        let same : r ≡ rec = unfold get in ground arith in
        rw (container_ids, q) (inl (ap (λ (x : ContainerRecord). x.id) same))
    go true p false q rest =
        let same : r ≡ rec = unfold get in ground arith in
        absurd
          (ground (arith, text_eq_iff r.sandbox id, ap (λ (x : ContainerRecord). x.sandbox) same))
    go false p true q rest = rw (container_ids, q) (inr (rest (unfold get in ground arith)))
    go false p false q rest = rw (container_ids, q) (rest (unfold get in ground arith))

module _ {J : Type 0} (env : Env J) where
  stop_container-absent :
      (k id : Text) (w : World J)
      → get k w.containers ≡ none
      → get k (stop_container env id (pos 0) w).1.containers ≡ none
  stop_container-absent k id w h =
      Follows-absent (get k w.containers) (get k (stop_container env id (pos 0) w).1.containers)
        (stop_container-Follows env id (pos 0) w k) h

  remove_container-absent :
      (k id : Text) (w : World J)
      → get k w.containers ≡ none
      → get k (remove_container env id w).1.containers ≡ none
  remove_container-absent k id w h = go (stop_container env id (pos 0) w) refl
    where
      go :
          (r : Result (Unit {0}) × World J)
          → stop_container env id (pos 0) w ≡ r
          → get k (remove_container env id w).1.containers ≡ none
      go (err e, x) p =
          unfold remove_container in
          ground (arith, stop_container-absent k id w h, get-remove id k w.containers)
      go (ok a, x) p =
          unfold remove_container in
          ground (
            arith,
            stop_container-absent k id w h,
            get-remove id k w.containers,
            get-remove id k x.containers,
          )

  -- A round of the loop that succeeds: both calls have succeeded, and the rest goes on from there.
  abbrev round : Text → World J → World J
  round id w = (remove_container env id (stop_container env id (pos 0) w).1).1

  remove_containers_step :
      (id : Text) (ids : List Text) (w v : World J)
      → remove_containers env (id ∷ ids) w ≡ (ok tt, v)
      → (remove_container env id (stop_container env id (pos 0) w).1 ≡ (ok tt, round id w))
        × (remove_containers env ids (round id w) ≡ (ok tt, v))
  unfolding remove_containers
  remove_containers_step id ids w v h =
      go (stop_container env id (pos 0) w) refl
        (remove_container env id (stop_container env id (pos 0) w).1) refl
    where
      go :
          (r : Result (Unit {0}) × World J)
          → stop_container env id (pos 0) w ≡ r
          → (q : Result (Unit {0}) × World J)
          → remove_container env id (stop_container env id (pos 0) w).1 ≡ q
          → (remove_container env id (stop_container env id (pos 0) w).1 ≡ (ok tt, round id w))
            × (remove_containers env ids (round id w) ≡ (ok tt, v))
      go (err e, x) p q s = absurd (unfold remove_containers in ground arith)
      go (ok a, x) p (err e, y) s = absurd (unfold remove_containers in ground arith)
      go (ok a, x) p (ok b, y) s = unfold remove_containers in (ground arith, ground arith)

  remove_containers-absent :
      (k : Text) (ids : List Text) (w v : World J)
      → remove_containers env ids w ≡ (ok tt, v)
      → get k w.containers ≡ none
      → get k v.containers ≡ none
  unfolding remove_containers
  remove_containers-absent k [] w v h e = ground arith
  remove_containers-absent k (id ∷ ids) w v h e =
      let (one, rest) = remove_containers_step id ids w v h in
      remove_containers-absent k ids (round id w) v rest (
        remove_container-absent k id (stop_container env id (pos 0) w).1
          (stop_container-absent k id w e))

  remove_containers_gone :
      (k : Text) (ids : List Text) (w v : World J)
      → remove_containers env ids w ≡ (ok tt, v)
      → IsIn k ids
      → get k v.containers ≡ none
  remove_containers_gone k [] w v h (i) = absurd i
  remove_containers_gone k (id ∷ ids) w v h (inl e) =
      let (one, rest) = remove_containers_step id ids w v h in
      let (gone, again) =
        remove_container_ok env id (stop_container env id (pos 0) w).1 (round id w) one in
      remove_containers-absent k ids (round id w) v rest (rw (sym e) gone)
  remove_containers_gone k (id ∷ ids) w v h (inr i) =
      let (one, rest) = remove_containers_step id ids w v h in
      remove_containers_gone k ids (round id w) v rest i

  stop_sandbox-containers :
      (id : Text) (w : World J) → (stop_sandbox env id w).1.containers ≡ w.containers
  unfolding stop_sandbox write_sandbox
  stop_sandbox-containers id w = ground arith

  stop_sandbox-present :
      (id : Text) (s : SandboxRecord) (w : World J)
      → get id w.sandboxes ≡ some s
      → get id (stop_sandbox env id w).1.sandboxes ≢ none
  unfolding stop_sandbox write_sandbox
  stop_sandbox-present id s w h =
      ground (arith, get-insert_self id (record s { state = not_ready }) w.sandboxes)

  forget_sandbox-containers :
      (id : Text) (w : World J) → (forget_sandbox env id w).containers ≡ w.containers
  unfolding forget_sandbox
  forget_sandbox-containers id w = ground arith

  -- A removal of a sandbox that is there, when it succeeds, leaves no container that was in it: each
  -- entry whose record names the sandbox is gone, where it stood under the id of its record.
  pub remove_sandbox_containers :
      (id : Text) (s : SandboxRecord) (rec : ContainerRecord) (w v : World J)
      → get id w.sandboxes ≡ some s
      → get rec.id w.containers ≡ some rec
      → rec.sandbox ≡ id
      → remove_sandbox env id w ≡ (ok tt, v)
      → get rec.id v.containers ≡ none
  remove_sandbox_containers id s rec w v hs hc e h = go (stop_sandbox env id w) refl
    where
      removed :
          (x : World J) (t : SandboxRecord)
          → get rec.id x.containers ≡ some rec
          → (y : Result (Unit {0}) × World J)
          → remove_containers env (container_ids id x.containers) x ≡ y
          → and_then y (λ _ u. (ok tt, forget_sandbox env id (teardown id t.netns_path t.ip u)))
            ≡ (ok tt, v)
          → get rec.id v.containers ≡ none
      removed x t g (err f, u) p q = absurd (ground arith)
      removed x t g (ok a, u) p q = ground (
        arith,
        forget_sandbox-containers id (teardown id t.netns_path t.ip u),
        remove_containers_gone rec.id (container_ids id x.containers) x u p
            (container_ids_complete id rec.id rec x.containers g e),
      )

      go :
          (r : Result (Unit {0}) × World J)
          → stop_sandbox env id w ≡ r
          → get rec.id v.containers ≡ none
      go (err f, x) p = absurd (unfold remove_sandbox in ground arith)
      go (ok a, x) p = elim (Option-cases (get id x.sandboxes)) [
        | inl n ↦ absurd (ground (arith, stop_sandbox-present id s w hs))
        | inr (t, n) ↦
            removed x t (ground (arith, stop_sandbox-containers id w))
              (remove_containers env (container_ids id x.containers) x) refl
              (unfold remove_sandbox in ground arith)
      ]
