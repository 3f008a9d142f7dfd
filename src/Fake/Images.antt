-- ===== src/Fake/Images.antt =====
-- lightr-cri-fake: the image plane.
pub mod Pull
use lightr_cri.Prelude.{
  ℕ, ◌+◌, ◌%◌, ◌^◌, Bool, true, false, ◌&&◌, ◌||◌, not, List, [], ◌∷◌, ◌++◌, Option, none, some,
  ◌==◌, if◌then◌else◌, length, take, any,
}
use lightr_cri.Prelude.Map.{Map, Key, text_key, get, insert, remove}
use lightr_cri.Prelude.Text.{Text, codes, text_eq}
use lightr_cri.Backend.{
  exited, PulledImage, ImageRecord, FsInfo, invalid_argument, in_use, Result, ok, err,
}
use lightr_cri.Fake.Filter.{container_state_eq}
use lightr_cri.Fake.World.{
  ContainerRecord, ImageDiskRecord, Env, World, M, and_then, next, now_nanos, json_file,
  write_image,
}

-- `u8::is_ascii_whitespace`: space, tab, line feed, form feed and carriage return.
abbrev pub is_ascii_whitespace : ℕ → Bool
is_ascii_whitespace c = (c == 32) || ((c == 9) || ((c == 10) || ((c == 12) || (c == 13))))

abbrev pub is_bad_ref : Text → Bool
is_bad_ref [] = true
is_bad_ref (c ∷ t) = any is_ascii_whitespace (c ∷ t)

abbrev pub image_record : ImageDiskRecord → ImageRecord
image_record r = record { id = r.id; ref_name = r.ref_name; size = r.size }

-- `values().find(|r| r.ref_name == image_ref)`.
unfoldable pub find_image : Text → Map Text ImageDiskRecord → Option ImageDiskRecord
find_image image_ref [] = none
find_image image_ref ((k, r) ∷ m) =
    if text_eq r.ref_name image_ref then some r else find_image image_ref m

unfoldable pub image_records : Map Text ImageDiskRecord → List ImageRecord
image_records [] = []
image_records ((k, r) ∷ m) = image_record r ∷ image_records m

-- The first container that keeps an image in use: it names it and has not exited.
unfoldable pub find_user : Text → Map Text ContainerRecord → Option ContainerRecord
find_user image_ref [] = none
find_user image_ref ((k, c) ∷ m) =
    if text_eq c.config.image_ref image_ref && not (container_state_eq c.state exited)
    then some c
    else find_user image_ref m

-- The sum of the sizes, a u64.
unfoldable pub used_bytes : Map Text ImageDiskRecord → ℕ
used_bytes [] = 0
used_bytes ((k, r) ∷ m) = (r.size + used_bytes m) % 2 ^ 64

module _ {J : Type 0} where
  unfoldable pub image_status : Text → World J → Result (Option ImageRecord)
  image_status image_ref w = elim (find_image image_ref w.images) [
    | none ↦ ok none
    | some r ↦ ok (some (image_record r))
  ]

  unfoldable pub list_images : World J → Result (List ImageRecord)
  list_images w = ok (image_records w.images)

module _ {J : Type 0} (env : Env J) where
  abbrev pub image_id : Text → Text
  image_id image_ref = codes "sha-" ++ take 16 (env.blake3_hex image_ref)

  abbrev pub new_image : Text → ImageDiskRecord
  new_image image_ref = record {
    id = image_id image_ref;
    ref_name = image_ref;
    size = length image_ref;
  }

  unfoldable pub pull_image : Text → M J PulledImage
  pull_image image_ref w =
      if is_bad_ref image_ref
      then (
        err (
            invalid_argument (
              codes "image_ref "
              ++ (env.debug_text image_ref ++ codes " is empty or contains whitespace"))),
        w,
      )
      else and_then (write_image env (image_id image_ref) (new_image image_ref) w) (λ _ v. (
        ok record {
          ref_name = image_ref;
          root_hex = env.blake3_hex image_ref;
          total_size = length image_ref;
        },
        record v { images = insert (image_id image_ref) (new_image image_ref) v.images },
      ))

  abbrev pub forget_image : Text → World J → World J
  forget_image id w =
      if env.unlink w.tick
      then record (next w) {
        images = remove id w.images;
        images_dir = remove (json_file id) w.images_dir;
      }
      else record (next w) { images = remove id w.images }

  unfoldable pub remove_image : Text → M J (Unit {0})
  remove_image image_ref w = elim (find_image image_ref w.images) [
    | none ↦ (ok tt, w)
    | some r ↦ elim (find_user image_ref w.containers) [
      | some c ↦ (
        err (in_use (codes "image " ++ (image_ref ++ (codes " referenced by container " ++ c.id)))),
        w,
      )
      | none ↦ (ok tt, forget_image r.id w)
    ]
  ]

  unfoldable pub image_fs_info : Text → M J FsInfo
  image_fs_info state_root w = (
    ok record {
      timestamp_nanos = now_nanos env w;
      mountpoint = state_root;
      used_bytes = used_bytes w.images;
      inodes_used = length w.images;
    },
    next w,
  )
