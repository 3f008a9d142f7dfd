-- ===== src/Fake/Container/Remove.antt =====
-- lightr-cri-fake: what `remove_container` leaves.
use lightr_cri.Prelude.{◌≡◌, refl, none, arith}
use lightr_cri.Prelude.Map.{text_key, get, get-remove_self}
use lightr_cri.Prelude.Text.{Text}
use lightr_cri.Backend.{pos, Result, ok, err}
use lightr_cri.Fake.World.{Env, World}
use lightr_cri.Fake.Container.{stop_container, forget_container, remove_container}

module _ {J : Type 0} (env : Env J) where
  pub forgotten : (id : Text) (w : World J) → get id (forget_container env id w).containers ≡ none
  forgotten id w = ground (arith, get-remove_self id w.containers)

  -- A removal that succeeds leaves no entry for the id, whatever state the container was in, and
  -- the same removal made again changes nothing.
  pub remove_container_ok :
      (id : Text) (w v : World J)
      → remove_container env id w ≡ (ok tt, v)
      → (get id v.containers ≡ none) × (remove_container env id v ≡ (ok tt, v))
  unfolding remove_container
  remove_container_ok id w v h = go (stop_container env id (pos 0) w) refl
    where
      go :
          (r : Result (Unit {0}) × World J)
          → stop_container env id (pos 0) w ≡ r
          → (get id v.containers ≡ none) × (remove_container env id v ≡ (ok tt, v))
      go (err e, x) p = unfold remove_container in ground (arith, get-remove_self id w.containers)
      go (ok u, x) p =
          unfold remove_container in
          ground (arith, get-remove_self id w.containers, get-remove_self id x.containers)
