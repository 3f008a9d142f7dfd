-- ===== src/Fake/Status/Agree.antt =====
-- lightr-cri-fake: what the status calls show, and that the lists agree with them.
use lightr_cri.Prelude.{
  IsIn, ◌≡◌, refl, Bool, true, false, List, [], ◌∷◌, some, arith, inl, inr, if◌then◌else◌,
}
use lightr_cri.Prelude.Map.{Map, text_key, get}
use lightr_cri.Prelude.Text.{Text, codes, text_eq}
use lightr_cri.Backend.{exited, ContainerFilter, ContainerStatus, ok, err}
use lightr_cri.Fake.Filter.{container_matches}
use lightr_cri.Fake.World.{SandboxRecord, ContainerRecord, World}
use lightr_cri.Fake.Status.{
  is_empty, is_zero, shown, rec_to_status, log_directory, matching_containers, container_status,
  list_containers,
}

listed_from :
    (filter : ContainerFilter) (sandboxes : Map Text SandboxRecord) (k : Text)
    (rec : ContainerRecord) (m : Map Text ContainerRecord)
    → get k m ≡ some rec
    → container_matches rec filter ≡ true
    → IsIn
        (rec_to_status rec (log_directory sandboxes rec.sandbox))
        (matching_containers filter sandboxes m)
unfolding matching_containers
listed_from filter sandboxes k rec [] h e = absurd (unfold get in ground arith)
listed_from filter sandboxes k rec ((j, r) ∷ m) h e =
    go (text_eq j k) refl (container_matches r filter) refl (listed_from filter sandboxes k rec m)
  where
    go :
        (b : Bool)
        → text_eq j k ≡ b
        → (c : Bool) → container_matches r filter ≡ c
        → (get k m ≡ some rec
            → container_matches rec filter ≡ true
            → IsIn
                (rec_to_status rec (log_directory sandboxes rec.sandbox))
                (matching_containers filter sandboxes m))
        → IsIn
            (rec_to_status rec (log_directory sandboxes rec.sandbox))
            (matching_containers filter sandboxes ((j, r) ∷ m))
    go true p c q rest =
        let same : r ≡ rec = unfold get in ground arith in
        rw (matching_containers, same, e) (inl refl)
    go false p true q rest = rw (matching_containers, q) (inr (rest (unfold get in ground arith) e))
    go false p false q rest = rw (matching_containers, q) (rest (unfold get in ground arith) e)

module _ {J : Type 0} where
  -- The status of an Exited container has the reason `Completed` where its exit code is 0 and `Error`
  -- where it is not; the recorded reason is kept as the message where no message was recorded, and
  -- the state and the exit code are those of the record.
  pub container_status_exited :
      (id : Text) (rec : ContainerRecord) (s : ContainerStatus) (w : World J)
      → get id w.containers ≡ some rec
      → rec.state ≡ exited
      → container_status id w ≡ ok s
      → (s.reason ≡ (if is_zero rec.exit_code then codes "Completed" else codes "Error"))
        × (s.message ≡ (if is_empty rec.message then rec.reason else rec.message))
        × (s.state ≡ exited)
        × (s.exit_code ≡ rec.exit_code)
  unfolding container_status rec_to_status shown
  container_status_exited id rec s w h k e = ground arith

  -- The statuses that `list_containers` returns.
  abbrev pub listed : ContainerFilter → World J → List ContainerStatus
  listed filter w = elim (list_containers filter w) [ ok ss ↦ ss | err e ↦ [] ]

  -- A container of the index that the filter admits is in the list, with the status that
  -- `container_status` returns for it.
  pub list_containers_complete :
      (filter : ContainerFilter) (id : Text) (rec : ContainerRecord) (s : ContainerStatus)
      (w : World J)
      → get id w.containers ≡ some rec
      → container_matches rec filter ≡ true
      → container_status id w ≡ ok s
      → IsIn s (listed filter w)
  unfolding list_containers
  list_containers_complete filter id rec s w h e k =
      let same : s ≡ rec_to_status rec (log_directory w.sandboxes rec.sandbox) =
        unfold container_status in ground arith in
      rw same (listed_from filter w.sandboxes id rec w.containers h e)
