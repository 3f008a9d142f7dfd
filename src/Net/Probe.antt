-- ===== src/Net/Probe.antt =====
-- crates/lightr-cri-net/src/lib.rs on Linux: whether CNI is available, and the choice of a conflist
-- (crates/lightr-cri-fake/src/lib.rs). A directory is the names of its entries, in any order, as far
-- as they can be read.
use lightr_cri.Prelude.{
  ◌==◌, Bool, false, List, [], ◌∷◌, Option, none, some, if◌then◌else◌, any, keep,
}
use lightr_cri.Prelude.Text.{Text, codes, text_eq, text_lt}
use lightr_cri.Net.Netns.{join}

-- The name before its last dot and the extension behind it.
unfoldable pub last_dot : Text → Option (Text × Text)
last_dot [] = none
last_dot (c ∷ name) = elim (last_dot name) [
  | some (before, after) ↦ some (c ∷ before, after)
  | none ↦ if c == b'.' then some ([], name) else none
]

-- `Path::extension`: a name that begins with its only dot has none.
unfoldable pub extension : Text → Option Text
extension name = elim (last_dot name) [
  | none ↦ none
  | some (before, after) ↦ elim before [ [] ↦ none | ◌∷◌ c rest ↦ some after ]
]

unfoldable pub is_conflist : Text → Bool
is_conflist name = elim (extension name) [ none ↦ false | some x ↦ text_eq x (codes "conflist") ]

unfoldable pub insert_sorted : Text → List Text → List Text
insert_sorted name [] = name ∷ []
insert_sorted name (n ∷ names) =
    let rest = insert_sorted name names in if text_lt n name then n ∷ rest else name ∷ n ∷ names

unfoldable pub sort : List Text → List Text
sort [] = []
sort (name ∷ names) = insert_sorted name (sort names)

abbrev pub head : List Text → Option Text
head [] = none
head (name ∷ names) = some name

-- `first_conflist`; the directory itself may not be readable.
unfoldable pub first_conflist : Text → Option (List Text) → Option Text
first_conflist conf_dir none = none
first_conflist conf_dir (some names) = elim (head (sort (keep is_conflist names))) [
  | none ↦ none
  | some name ↦ some (join conf_dir name)
]

pub record CniEnv : Type 0 where
  pub conf_dir : Text
  pub bin_dir : Text

abbrev or_default : Text → Option Text → Text
or_default d none = d
or_default d (some v) = v

-- The two variables of the environment, the listing of a directory, whether a path is one, and
-- whether a thread may unshare its network namespace.
unfoldable pub cni_available :
    Option Text → Option Text → (Text → Option (List Text)) → (Text → Bool) → Bool → Option CniEnv
cni_available conf bin read_dir is_dir privileged =
    let conf_dir = or_default (codes "/etc/cni/net.d") conf in
    let bin_dir = or_default (codes "/opt/cni/bin") bin in
    elim (read_dir conf_dir) [
      | none ↦ none
      | some names ↦
          if any is_conflist names
          then (if is_dir bin_dir
              then (if privileged
                  then some (record { conf_dir = conf_dir; bin_dir = bin_dir })
                  else none)
              else none)
          else none
    ]
