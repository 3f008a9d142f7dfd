-- ===== src/Fake/Recovery/RoundTrip.antt =====
-- lightr-cri-fake: what a restart finds of the records that were written.
use lightr_cri.Prelude.{
  ℕ, ◌≡◌, refl, if◌then◌else◌, sym, ◌∙◌, Bool, true, false, [], ◌∷◌, ◌++◌, Option, none, some,
  arith,
}
use lightr_cri.Prelude.Map.{Map, text_key, get, insert, get-insert}
use lightr_cri.Prelude.Map.Order.{IsOrdered, insert-IsOrdered}
use lightr_cri.Prelude.Text.{Text, codes, text_eq, text_eq_iff, decimal}
use lightr_cri.Backend.{ContainerConfig, Result, ok, err}
use lightr_cri.Fake.World.{
  ContainerRecord, Env, World, json_file, fresh_id, id_text, next, write_container, count_id,
  now_nanos,
}
use lightr_cri.Fake.World.Disk.{disk_container}
use lightr_cri.Fake.Container.{new_container, create_container}
use lightr_cri.Fake.Container.Create.{create_container_ok}
use lightr_cri.Fake.Recovery.{
  recover_container, load_sandboxes, load_sandbox, open_root, empty_index,
}
use lightr_cri.Fake.Recovery.Alive.{before_containers, open_root-containers}
use lightr_cri.Fake.Recovery.Named.{IsNamed, IsKept, load_containers_kept}

module _ {J : Type 0} (env : Env J) where
  load_sandboxes-containers_dir :
      (files : Map Text J) (w : World J)
      → (load_sandboxes env files w).containers_dir ≡ w.containers_dir
  unfolding load_sandboxes
  load_sandboxes-containers_dir [] w = refl
  load_sandboxes-containers_dir ((name, j) ∷ files) w =
      ground (arith, load_sandboxes-containers_dir files (load_sandbox env name j w))

  -- A restart finds a container exactly as its file has it, unless the file says that it runs and its
  -- process is gone.
  open_root_kept :
      (c : ℕ) (id : Text) (rec : ContainerRecord) (w v : World J)
      → IsOrdered w.containers_dir
      → IsNamed env w.containers_dir
      → open_root env w ≡ (ok tt, v)
      → disk_container env (c ∷ id) w ≡ some rec
      → rec.id ≡ c ∷ id
      → IsKept env rec
      → get (c ∷ id) v.containers ≡ some rec
  open_root_kept c id rec w v o h r d i k = go (get (json_file (c ∷ id)) w.containers_dir) refl
    where
      before : World J
      before = before_containers env w

      dir : before.containers_dir ≡ w.containers_dir
      dir =
          let b : World J = next (next (empty_index w)) in
          load_sandboxes-containers_dir b.sandboxes_dir b

      go :
          (f : Option J)
          → get (json_file (c ∷ id)) w.containers_dir ≡ f
          → get (c ∷ id) v.containers ≡ some rec
      go none p = unfold disk_container in ground arith
      go (some j) p =
          unfold disk_container in
          ground (
            arith,
            open_root-containers env w v r,
            load_containers_kept env c id j rec w.containers_dir before o h p (ground arith) i k,
            dir,
          )

  insert-IsNamed :
      (j : J) (rec : ContainerRecord) (dir : Map Text J)
      → env.containers.from_slice j ≡ some rec
      → IsNamed env dir
      → IsNamed env (insert (json_file rec.id) j dir)
  insert-IsNamed j rec dir f h name i s q e =
      go (text_eq (json_file rec.id) name) refl (get-insert (json_file rec.id) name j dir)
    where
      go :
          (b : Bool)
          → text_eq (json_file rec.id) name ≡ b
          → get name (insert (json_file rec.id) j dir)
            ≡ (if text_eq (json_file rec.id) name then some j else get name dir)
          → name ≡ json_file s.id
      go false p g = h name i s (ground (arith, p, g, q)) e
      go true p g =
          let same : json_file rec.id ≡ name = (text_eq_iff (json_file rec.id) name).0 p in
          let held : i ≡ j = ground (arith, p, g, q) in
          let held : s ≡ rec = ground (arith, e, f) in rw held (sym same)

  -- The directory stays one of files named after what they hold.
  write_container-IsNamed :
      (rec : ContainerRecord) (w v : World J)
      → write_container env rec.id rec w ≡ (ok tt, v)
      → IsOrdered w.containers_dir
      → IsNamed env w.containers_dir
      → IsOrdered v.containers_dir × IsNamed env v.containers_dir
  write_container-IsNamed rec w v r o h = go (env.containers.to_vec rec) refl
    where
      go :
          (f : Result J)
          → env.containers.to_vec rec ≡ f
          → IsOrdered v.containers_dir × IsNamed env v.containers_dir
      go (err e) p = absurd (unfold write_container in ground arith)
      go (ok j) p =
          let dir : v.containers_dir ≡ insert (json_file rec.id) j w.containers_dir =
            unfold write_container in ground arith in
          (
            rw dir (insert-IsOrdered (json_file rec.id) j w.containers_dir o),
            rw dir (
                insert-IsNamed j rec w.containers_dir (env.containers.from_slice-to_vec rec j p) h),
          )

  -- A container that was created is found after a restart exactly as it was created. The directory of
  -- the records is one whose files are named after what they hold, as the backend itself leaves it.
  pub open_root-create_container :
      (sandbox id : Text) (cfg : ContainerConfig) (w v u : World J)
      → IsOrdered w.containers_dir
      → IsNamed env w.containers_dir
      → create_container env sandbox cfg w ≡ (ok id, v)
      → open_root env v ≡ (ok tt, u)
      → get id u.containers ≡ some (new_container id sandbox cfg (now_nanos env (count_id w)))
  open_root-create_container sandbox id cfg w v u o h r s =
      go (write_container env new rec (next (count_id w))) refl
    where
      new : Text
      new = fresh_id env (codes "ct-") w

      digits : Text
      digits = codes "t-" ++ (decimal (now_nanos env w) ++ (codes "-" ++ decimal w.counter))

      rec : ContainerRecord
      rec = new_container new sandbox cfg (now_nanos env (count_id w))

      go :
          (f : Result (Unit {0}) × World J)
          → write_container env new rec (next (count_id w)) ≡ f
          → get id u.containers ≡ some (new_container id sandbox cfg (now_nanos env (count_id w)))
      go (err e, x) p = absurd (unfold create_container in ground arith)
      go (ok a, x) p =
          let same : id ≡ new = unfold create_container in ground arith in
          let dir : v.containers_dir ≡ x.containers_dir = unfold create_container in ground arith in
          let named = write_container-IsNamed rec (next (count_id w)) x p o h in
          let (ready, index, disk) = create_container_ok env sandbox id cfg w v r in
          let shape : id ≡ 99 ∷ digits = same ∙ unfold id_text in refl in
          let made : ContainerRecord =
            new_container (99 ∷ digits) sandbox cfg (now_nanos env (count_id w)) in
          ground (
            arith,
            open_root_kept 99 digits made v u (rw dir named.0) (rw dir named.1) s
                (ground (arith, disk, index, shape)) refl (λ y. unfold recover_container in refl),
            shape,
          )
