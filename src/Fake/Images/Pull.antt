-- ===== src/Fake/Images/Pull.antt =====
-- lightr-cri-fake: a pulled image is there until it is removed, and is not removed while in use.
use lightr_cri.Prelude.{
  ◌≢◌, ◌≡◌, refl, true, false, [], ◌∷◌, Option, none, some, arith, inl, inr, Option-cases,
}
use lightr_cri.Prelude.Map.{Map, text_key, get, insert, get-remove_self}
use lightr_cri.Prelude.Text.{Text, text_eq_refl, text_eq_iff}
use lightr_cri.Backend.{exited, PulledImage, ImageRecord, Result, ok, err}
use lightr_cri.Fake.Filter.{container_state_eq}
use lightr_cri.Fake.World.{ContainerRecord, ImageDiskRecord, Env, World, write_image}
use lightr_cri.Fake.Images.{
  find_image, find_user, image_status, image_id, new_image, is_bad_ref, pull_image, remove_image,
}

-- An image that was inserted is found by its reference.
find_image-insert :
    (id : Text) (r : ImageDiskRecord) (m : Map Text ImageDiskRecord)
    → find_image r.ref_name (insert id r m) ≢ none
unfolding find_image insert
find_image-insert id r [] = ground (arith, text_eq_refl r.ref_name)
find_image-insert id r ((k, s) ∷ m) =
    ground (arith, text_eq_refl r.ref_name, find_image-insert id r m)

pub find_image_sound :
    (image_ref : Text) (r : ImageDiskRecord) (m : Map Text ImageDiskRecord)
    → find_image image_ref m ≡ some r
    → r.ref_name ≡ image_ref
unfolding find_image
find_image_sound image_ref r [] h = ground arith
find_image_sound image_ref r ((k, s) ∷ m) h =
    ground (arith, find_image_sound image_ref r m, text_eq_iff s.ref_name image_ref)

pub find_user_sound :
    (image_ref : Text) (k : Text) (c : ContainerRecord) (m : Map Text ContainerRecord)
    → find_user image_ref m ≡ none
    → get k m ≡ some c
    → c.config.image_ref ≡ image_ref
    → container_state_eq c.state exited ≡ true
unfolding find_user get
find_user_sound image_ref k c [] h e f = ground arith
find_user_sound image_ref k c ((j, d) ∷ m) h e f =
    ground (arith, find_user_sound image_ref k c m, text_eq_iff d.config.image_ref image_ref)

abbrev pub ref_of : Result (Option ImageRecord) → Option Text
ref_of (err e) = none
ref_of (ok none) = none
ref_of (ok (some r)) = some r.ref_name

module _ {J : Type 0} (env : Env J) where
  -- A pull that succeeds is of a reference that is not empty and has no white space, and the status
  -- of the reference then shows an image of that name.
  pub image_status-pull_image :
      (image_ref : Text) (p : PulledImage) (w v : World J)
      → pull_image env image_ref w ≡ (ok p, v)
      → (is_bad_ref image_ref ≡ false) × (ref_of (image_status image_ref v) ≡ some image_ref)
  unfolding pull_image image_status
  image_status-pull_image image_ref p w v h = go (write_image env (image_id env image_ref) r w) refl
    where
      r : ImageDiskRecord
      r = new_image env image_ref

      go :
          (y : Result (Unit {0}) × World J)
          → write_image env (image_id env image_ref) r w ≡ y
          → (is_bad_ref image_ref ≡ false) × (ref_of (image_status image_ref v) ≡ some image_ref)
      go (err e, x) q = absurd (unfold pull_image in ground arith)
      go (ok a, x) q =
          elim (Option-cases (find_image image_ref (insert (image_id env image_ref) r x.images))) [
            | inl n ↦ absurd (find_image-insert (image_id env image_ref) r x.images n)
            | inr (s, n) ↦
                unfold pull_image in
                unfold image_status in
                ground (
                  arith,
                  find_image_sound image_ref s (insert (image_id env image_ref) r x.images) n,
                )
          ]

  -- Where the removal of an image that is there succeeds, each container of the index that names it
  -- has exited, and the image's entry is gone.
  pub remove_image_unused :
      (image_ref k : Text) (r : ImageDiskRecord) (c : ContainerRecord) (w v : World J)
      → find_image image_ref w.images ≡ some r
      → remove_image env image_ref w ≡ (ok tt, v)
      → get k w.containers ≡ some c
      → c.config.image_ref ≡ image_ref
      → (container_state_eq c.state exited ≡ true) × (get r.id v.images ≡ none)
  unfolding remove_image
  remove_image_unused image_ref k r c w v f h e g =
      ground (arith, find_user_sound image_ref k c w.containers, get-remove_self r.id w.images)
