-- ===== src/Fake/Recovery/Named.antt =====
-- lightr-cri-fake: the files of a directory that are named after the containers that they hold, and
-- what the loop of `open` over them leaves in the index.
use lightr_cri.Prelude.{
  ℕ, ◌-◌, ◌≡◌, refl, Bool, true, false, [], ◌∷◌, Option, none, some, arith, length, drop,
  length-append, drop-append,
}
use lightr_cri.Prelude.Map.{Map, text_key, get, get-insert}
use lightr_cri.Prelude.Map.Order.{IsOrdered, get-IsAfter}
use lightr_cri.Prelude.Text.{Text, codes, text_eq, text_eq_iff, text_eq_refl}
use lightr_cri.Fake.World.{ContainerRecord, Env, World, json_file, write_container}
use lightr_cri.Fake.Recovery.{
  has_json_extension, recover_container, load_container, load_containers,
}

drop_at : (m n : ℕ) (xs ys : Text) → m ≡ n → drop n xs ≡ ys → drop m xs ≡ ys
drop_at m n xs ys e h = rw e h

json_file-has_json_extension : (c : ℕ) (id : Text) → has_json_extension (json_file (c ∷ id)) ≡ true
unfolding has_json_extension
json_file-has_json_extension c id = ground (
  arith,
  length-append (c ∷ id) (codes ".json"),
  drop_at (length (json_file (c ∷ id)) - 5) (length (c ∷ id)) (json_file (c ∷ id)) (codes ".json")
      (omega (arith, length-append (c ∷ id) (codes ".json")))
      (drop-append (length (c ∷ id)) (c ∷ id) (codes ".json") refl),
  text_eq_refl (codes ".json"),
)

module _ {J : Type 0} (env : Env J) where
  -- A file that holds a container is named after it.
  abbrev pub IsNamed : Map Text J → Type 0
  IsNamed dir =
      (name : Text) (j : J) (rec : ContainerRecord)
      → get name dir ≡ some j
      → env.containers.from_slice j ≡ some rec
      → name ≡ json_file rec.id

  recover_container-id :
      (rec : ContainerRecord) (w : World J) → (recover_container env rec w).0.id ≡ rec.id
  unfolding recover_container
  recover_container-id rec w = ground arith

  recover_container-get :
      (k : Text) (rec : ContainerRecord) (w : World J)
      → get k (recover_container env rec w).1.containers ≡ get k w.containers
  unfolding recover_container write_container
  recover_container-get k rec w = ground arith

  IsNamed-tail :
      (name : Text) (j : J) (files : Map Text J)
      → IsOrdered ((name, j) ∷ files)
      → IsNamed ((name, j) ∷ files)
      → IsNamed files
  unfolding IsOrdered get
  IsNamed-tail name j files (a, b) h n i rec p q =
      h n i rec (ground (arith, get-IsAfter name files a, text_eq_iff name n, p)) q

  load_container-skips :
      (id name : Text) (j : J) (w : World J)
      → text_eq name (json_file id) ≡ false
      → ((rec : ContainerRecord) → env.containers.from_slice j ≡ some rec → name ≡ json_file rec.id)
      → get id (load_container env name j w).containers ≡ get id w.containers
  load_container-skips id name j w e h = go (env.containers.from_slice j) refl
    where
      go :
          (o : Option ContainerRecord)
          → env.containers.from_slice j ≡ o
          → get id (load_container env name j w).containers ≡ get id w.containers
      go none q = ground arith
      go (some rec) q =
          let r = recover_container env rec w in
          ground (
            arith,
            h rec q,
            recover_container-id rec w,
            recover_container-get id rec w,
            get-insert r.0.id id r.0 r.1.containers,
            text_eq_iff rec.id id,
            text_eq_iff name (json_file id),
          )

  load_containers-skips :
      (id : Text) (files : Map Text J) (w : World J)
      → IsOrdered files
      → IsNamed files
      → get (json_file id) files ≡ none
      → get id (load_containers env files w).containers ≡ get id w.containers
  unfolding load_containers IsOrdered get
  load_containers-skips id [] w o h e = refl
  load_containers-skips id ((name, j) ∷ files) w o h e =
      let below = load_container env name j w in
      ground (
        arith,
        load_containers-skips id files below o.1 (IsNamed-tail name j files o h) (ground arith),
        load_container-skips id name j w (ground arith)
            (λ rec q. h name j rec (ground (arith, text_eq_refl name)) q),
      )

  -- A record that a restart takes as it is: of a container that does not run, or whose process lives.
  abbrev pub IsKept : ContainerRecord → Type 0
  IsKept rec = (w : World J) → (recover_container env rec w).0 ≡ rec

  load_container_kept :
      (c : ℕ) (id : Text) (j : J) (rec : ContainerRecord) (w : World J)
      → env.containers.from_slice j ≡ some rec
      → rec.id ≡ c ∷ id
      → IsKept rec
      → get (c ∷ id) (load_container env (json_file (c ∷ id)) j w).containers ≡ some rec
  load_container_kept c id j rec w e i k =
      let r = recover_container env rec w in
      ground (
        arith,
        json_file-has_json_extension c id,
        e,
        k w,
        i,
        get-insert r.0.id (c ∷ id) r.0 r.1.containers,
        text_eq_refl (c ∷ id),
      )

  pub load_containers_kept :
      (c : ℕ) (id : Text) (j : J) (rec : ContainerRecord) (files : Map Text J) (w : World J)
      → IsOrdered files
      → IsNamed files
      → get (json_file (c ∷ id)) files ≡ some j
      → env.containers.from_slice j ≡ some rec
      → rec.id ≡ c ∷ id
      → IsKept rec
      → get (c ∷ id) (load_containers env files w).containers ≡ some rec
  unfolding load_containers IsOrdered get
  load_containers_kept c id j rec [] w o h e f i k = absurd (ground arith)
  load_containers_kept c id j rec ((name, i0) ∷ files) w o h e f i k =
      go (text_eq name (json_file (c ∷ id))) refl (
        load_containers_kept c id j rec files (load_container env name i0 w) o.1
          (IsNamed-tail name i0 files o h))
    where
      below : World J
      below = load_container env name i0 w

      go :
          (b : Bool)
          → text_eq name (json_file (c ∷ id)) ≡ b
          → (get (json_file (c ∷ id)) files ≡ some j
              → env.containers.from_slice j ≡ some rec
              → rec.id ≡ c ∷ id
              → IsKept rec
              → get (c ∷ id) (load_containers env files below).containers ≡ some rec)
          → get (c ∷ id) (load_containers env files below).containers ≡ some rec
      go false p rest = rest (ground arith) f i k
      go true p rest =
          let same : name ≡ json_file (c ∷ id) = (text_eq_iff name (json_file (c ∷ id))).0 p in
          ground (
            arith,
            load_containers-skips (c ∷ id) files below o.1 (IsNamed-tail name i0 files o h)
                (ground (arith, get-IsAfter name files o.0)),
            load_container_kept c id j rec w f i k,
          )
