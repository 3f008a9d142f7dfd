-- ===== src/Fake/Container/Lifecycle.antt =====
-- lightr-cri-fake: a reaper moves a container's record forward only.
pub mod Stop
pub mod Signals
use lightr_cri.Prelude.{
  sym, ◌∙◌, ℕ, zero, suc, ◌+◌, ◌≤◌, ◌≡◌, refl, Bool, true, false, not, List, [], ◌∷◌, Option, none,
  some, arith, inl, inr, Option-cases, Bool-cases, ltb, if◌then◌else◌, ◌++◌,
}
use lightr_cri.Prelude.Map.{Map, Key, text_key, get, insert, remove, get-insert}
use lightr_cri.Prelude.Text.{Text, codes, text_eq, text_eq_iff}
use lightr_cri.Backend.{
  ℤ, pos, negsuc, ContainerState, created, running, exited, unknown, Result, ok, err,
}
use lightr_cri.Fake.World.{
  ContainerRecord, WaitStatus, Env, World, next, now_nanos, write_container,
}
use lightr_cri.Fake.World.Disk.{write_container_index, write_container_ok, disk_container}
use lightr_cri.Fake.Container.{
  send, sigkill, sigterm, is_positive, is_running, finished, reaped_code, reaped_reason,
  put_container, store_container, stop_orphan, reap_record, reap, reap_all, has_exited, wait_loop,
  wait_until_exited, kill_and_wait, stop_process, stop_container, drop_result,
}

-- A state's place in a container's life.
abbrev pub rank : ContainerState → ℕ
rank created = 0
rank running = 1
rank exited = 2
rank unknown = 2

-- What stays true of a container's entry: it is not lost, its state does not go back, and it keeps
-- its sandbox, its pid and the time of its start.
abbrev pub Follows : Option ContainerRecord → Option ContainerRecord → Type 0
Follows none none = Unit {0}
Follows none (some r) = ⊥
Follows (some q) none = ⊥
Follows (some q) (some r) =
    (rank q.state ≤ rank r.state)
    × (r.sandbox ≡ q.sandbox)
    × (r.pid ≡ q.pid)
    × (r.started_at_nanos ≡ q.started_at_nanos)

pub Follows-refl : (o : Option ContainerRecord) → Follows o o
Follows-refl none = tt
Follows-refl (some r) = (omega arith, refl, refl, refl)

pub Follows-trans : (o p q : Option ContainerRecord) → Follows o p → Follows p q → Follows o q
Follows-trans none none none g h = tt
Follows-trans none none (some c) g h = elim h [ ]
Follows-trans none (some b) q g h = elim g [ ]
Follows-trans (some a) none q g h = elim g [ ]
Follows-trans (some a) (some b) none g h = elim h [ ]
Follows-trans (some a) (some b) (some c) (g, g1, g2, g3) (h, h1, h2, h3) =
    (omega arith, h1 ∙ g1, h2 ∙ g2, h3 ∙ g3)

abbrev pub FollowsAll : Map Text ContainerRecord → Map Text ContainerRecord → Type 0
FollowsAll m n = (k : Text) → Follows (get k m) (get k n)

pub insert-FollowsAll :
    (id : Text) (q r : ContainerRecord) (m : Map Text ContainerRecord)
    → get id m ≡ some q
    → Follows (some q) (some r)
    → FollowsAll m (insert id r m)
insert-FollowsAll id q r m h f k = go (text_eq id k) refl
  where
    go : (b : Bool) → text_eq id k ≡ b → Follows (get k m) (get k (insert id r m))
    go true p =
        let old : get k m ≡ some q = ground (arith, text_eq_iff id k) in
        let new : get k (insert id r m) ≡ some r = ground (arith, get-insert id k r m) in
        rw (old, new) f
    go false p =
        let same : get k (insert id r m) ≡ get k m = ground (arith, get-insert id k r m) in
        rw same (Follows-refl (get k m))

module _ {J : Type 0} (env : Env J) where
  reap_record-containers :
      (id : Text) (status : WaitStatus) (rec : ContainerRecord) (w : World J)
      → (reap_record env id status rec w).containers ≡ (
          if is_running rec.state
          then insert id
              (finished rec (reaped_code status) (reaped_reason status) (now_nanos env w))
              w.containers
          else w.containers)
  unfolding reap_record write_container
  reap_record-containers id status rec w = ground arith

  pub finished-Follows :
      (rec : ContainerRecord) (c : ℤ) (t : Text) (now : ℕ)
      → is_running rec.state ≡ true
      → Follows (some rec) (some (finished rec c t now))
  finished-Follows rec c t now h = (ground arith, refl, refl, refl)

  reap-Follows :
      (id : Text) (status : WaitStatus) (w : World J)
      → FollowsAll w.containers (reap env (id, status) w).containers
  unfolding reap
  reap-Follows id status w k = go (get id w.containers) refl
    where
      go :
          (o : Option ContainerRecord)
          → get id w.containers ≡ o
          → Follows (get k w.containers) (get k (reap env (id, status) w).containers)
      go none p =
          let same : (reap env (id, status) w).containers ≡ w.containers =
            unfold reap in ground arith in
          rw same (Follows-refl (get k w.containers))
      go (some rec) p =
          let v : World J = record w {
            reapers = remove id w.reapers;
            io_table = remove id w.io_table;
          } in
          let r : ContainerRecord =
            finished rec (reaped_code status) (reaped_reason status) (now_nanos env w) in
          elim (Option-cases (get id w.reapers)) [
            | inl q ↦
                let same : (reap env (id, status) w).containers ≡ w.containers = ground arith in
                rw same (Follows-refl (get k w.containers))
            | inr (pid, q) ↦ elim (Bool-cases (is_running rec.state)) [
              | inl b ↦
                  let new : (reap env (id, status) w).containers ≡ insert id r w.containers =
                    ground (arith, reap_record-containers id status rec v) in
                  rw new (
                    insert-FollowsAll id rec r w.containers p
                      (finished-Follows rec (reaped_code status) (reaped_reason status)
                        (now_nanos env v) b)
                      k)
              | inr b ↦
                  let same : (reap env (id, status) w).containers ≡ w.containers =
                    ground (arith, reap_record-containers id status rec v) in
                  rw same (Follows-refl (get k w.containers))
            ]
          ]

  pub reap_all-Follows :
      (rs : List (Text × WaitStatus)) (w : World J)
      → FollowsAll w.containers (reap_all env rs w).containers
  unfolding reap_all
  reap_all-Follows [] w k = Follows-refl (get k w.containers)
  reap_all-Follows ((id, s) ∷ rs) w k =
      Follows-trans (get k w.containers) (get k (reap env (id, s) w).containers)
        (get k (reap_all env rs (reap env (id, s) w)).containers) (reap-Follows id s w k)
        (reap_all-Follows rs (reap env (id, s) w) k)
