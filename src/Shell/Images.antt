-- ===== src/Shell/Images.antt =====
-- crates/lightr-cri-shell/src/image.rs: the ImageService.
use lightr_cri.Prelude.{
  Bool, true, ◌||◌, List, [], ◌∷◌, ◌++◌, Option, none, some, map, keep, any, ◌==◌, if◌then◌else◌,
}
use lightr_cri.Prelude.Text.{Text, codes, text_eq}
use lightr_cri.Backend.{ImageRecord, PulledImage, FsInfo}
use lightr_cri.Stream.Negotiate.{split_on}
use lightr_cri.Shell.{CriBackend, Reply, then_reply}
use lightr_cri.Shell.Proto
use lightr_cri.Shell.Decode.{or_empty, non_empty, map_option}

-- `rsplit('/').next()`: the part behind the last slash.
abbrev last_of : Text → List Text → Text
last_of t [] = t
last_of t (u ∷ us) = last_of u us

unfoldable pub last_part : Text → Text
last_part t = last_of [] (split_on b'/' t)

unfoldable pub tagged : Text → Text
tagged ref_name =
    if any (λ c. c == b':') (last_part ref_name) then ref_name else ref_name ++ codes ":latest"

unfoldable pub record_to_proto : ImageRecord → Proto.Image
record_to_proto r = record {
  id = r.id;
  repo_tags = tagged r.ref_name ∷ [];
  repo_digests = r.id ∷ [];
  size = r.size;
}

unfoldable pub matches : Option Text → ImageRecord → Bool
matches none r = true
matches (some needle) r =
    text_eq r.ref_name needle || (text_eq r.id needle || text_eq (tagged r.ref_name) needle)

abbrev filter_of : Option Text → Option Text
filter_of none = none
filter_of (some image) = non_empty image

module _ {S : Type 0} (backend : CriBackend S) where
  unfoldable pub pull_image : Option Text → S → Reply Text × S
  pull_image image s =
      then_reply (backend.pull_image (or_empty image) s)
        (λ (p : PulledImage). codes "blake3:" ++ p.root_hex)

  unfoldable pub image_status : Option Text → S → Reply (Option Proto.Image) × S
  image_status image s =
      then_reply (backend.image_status (or_empty image) s) (map_option record_to_proto)

  -- The filter is the image of the request's filter, if it has both.
  unfoldable pub list_images : Option Text → S → Reply (List Proto.Image) × S
  list_images filter s =
      then_reply (backend.list_images s)
        (λ rs. map record_to_proto (keep (matches (filter_of filter)) rs))

  unfoldable pub remove_image : Option Text → S → Reply (Unit {0}) × S
  remove_image image s = then_reply (backend.remove_image (or_empty image) s) (λ u. u)

  unfoldable pub image_fs_info : S → Reply Proto.FilesystemUsage × S
  image_fs_info s = then_reply (backend.image_fs_info s) (λ (i : FsInfo). record {
    timestamp = i.timestamp_nanos;
    mountpoint = i.mountpoint;
    used_bytes = i.used_bytes;
    inodes_used = i.inodes_used;
  })
