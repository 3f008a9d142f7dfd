-- ===== src/Fake/Tests/Images.antt =====
-- crates/lightr-cri-fake: the laws of images and of the status calls at concrete states.
use lightr_cri.Prelude.{◌≡◌, refl, [], ◌∷◌, none, some, IsIn}
use lightr_cri.Prelude.Map.{text_key, get}
use lightr_cri.Prelude.Text.{codes, text_eq}
use lightr_cri.Backend.{pos, exited, ContainerFilter, ContainerStatus, PulledImage, ok}
use lightr_cri.Fake.World.{ContainerRecord, ImageDiskRecord, World, write_image}
use lightr_cri.Fake.Filter.{container_state_eq, container_matches, admits, has_labels}
use lightr_cri.Fake.Status.{rec_to_status, log_directory, container_status}
use lightr_cri.Fake.Status.Agree.{listed, list_containers_complete}
use lightr_cri.Fake.Images.{pull_image, remove_image}
use lightr_cri.Fake.Tests.{Json, env, live, world}

abbrev after_pull : World Json
after_pull = (pull_image env (codes "busybox") (world live)).1

abbrev pulled : PulledImage
pulled = record { ref_name = codes "busybox"; root_hex = codes "busybox"; total_size = 7 }

pull : pull_image env (codes "busybox") (world live) ≡ (ok pulled, after_pull)
unfolding pull_image write_image
pull = refl

-- The container has ended, and an image is there.
abbrev ended : ContainerRecord
ended = record live { state = exited; exit_code = pos 137; reason = codes "stopped" }

abbrev image : ImageDiskRecord
image = record { id = codes "sha-1"; ref_name = codes "busybox"; size = 7 }

abbrev imaged : World Json
imaged = record (world ended) { images = (codes "sha-1", image) ∷ [] }

abbrev unimaged : World Json
unimaged = (remove_image env (codes "busybox") imaged).1

abbrev shown_status : ContainerStatus
shown_status = rec_to_status ended (log_directory (world ended).sandboxes (codes "s"))

status_found : container_status (codes "c") (world ended) ≡ ok shown_status
unfolding container_status get text_eq
status_found = refl

abbrev exited_filter : ContainerFilter
exited_filter = record {
  id = none;
  sandbox = some (codes "s");
  state = some exited;
  label_selector = [];
}

list_containers_complete_example : IsIn shown_status (listed exited_filter (world ended))
list_containers_complete_example =
    list_containers_complete exited_filter (codes "c") ended shown_status (world ended)
      (unfold get text_eq in refl)
      (unfold container_matches admits text_eq container_state_eq has_labels in refl) status_found
