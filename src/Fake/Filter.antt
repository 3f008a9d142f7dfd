-- ===== src/Fake/Filter.antt =====
-- lightr-cri-fake: `sandbox_matches` and `container_matches`.
use lightr_cri.Prelude.{Bool, true, false, ◌&&◌, [], ◌∷◌, Option, none, some}
use lightr_cri.Prelude.Map.{Map, text_key, get}
use lightr_cri.Prelude.Text.{Text, text_eq}
use lightr_cri.Backend.{
  SandboxState, ready, not_ready, ContainerState, created, running, exited, unknown, SandboxFilter,
  ContainerFilter,
}
use lightr_cri.Fake.World.{SandboxRecord, ContainerRecord}

unfoldable pub sandbox_state_eq : SandboxState → SandboxState → Bool
sandbox_state_eq ready ready = true
sandbox_state_eq not_ready not_ready = true
sandbox_state_eq ready not_ready = false
sandbox_state_eq not_ready ready = false

abbrev pub state_code : ContainerState → Bool × Bool
state_code created = (false, false)
state_code running = (false, true)
state_code exited = (true, false)
state_code unknown = (true, true)

abbrev bool_eq : Bool → Bool → Bool
bool_eq true b = b
bool_eq false true = false
bool_eq false false = true

unfoldable pub container_state_eq : ContainerState → ContainerState → Bool
container_state_eq s t =
    bool_eq (state_code s).0 (state_code t).0 && bool_eq (state_code s).1 (state_code t).1

-- A field of a filter that is not set admits every record.
unfoldable pub admits : {A : Type 0} → (A → A → Bool) → Option A → A → Bool
admits eq none x = true
admits eq (some y) x = eq x y

abbrev pub has_label : Map Text Text → Text → Text → Bool
has_label labels k v = elim (get k labels) [ none ↦ false | some u ↦ text_eq u v ]

unfoldable pub has_labels : Map Text Text → Map Text Text → Bool
has_labels labels [] = true
has_labels labels ((k, v) ∷ selector) = has_label labels k v && has_labels labels selector

unfoldable pub sandbox_matches : SandboxRecord → SandboxFilter → Bool
sandbox_matches rec filter =
    admits text_eq filter.id rec.id
    && (admits sandbox_state_eq filter.state rec.state
        && has_labels rec.config.labels filter.label_selector)

unfoldable pub container_matches : ContainerRecord → ContainerFilter → Bool
container_matches rec filter =
    admits text_eq filter.id rec.id
    && (admits text_eq filter.sandbox rec.sandbox
        && (admits container_state_eq filter.state rec.state
            && has_labels rec.config.labels filter.label_selector))
