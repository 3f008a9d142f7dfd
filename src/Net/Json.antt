-- ===== src/Net/Json.antt =====
-- `serde_json::Value`, as far as the plugin chain uses it: objects are ordered by key.
use lightr_cri.Prelude.{ℕ, Bool, List, [], ◌∷◌, Option, none, some, if◌then◌else◌}
use lightr_cri.Prelude.Text.{Text, text_eq, text_lt}

mutual
  pub data Value : Type 0 where
    null : Value
    boolean : Bool → Value
    number : ℕ → Value
    string : Text → Value
    array : Values → Value
    object : Members → Value

  pub data Values : Type 0 where
    nil : Values
    cons : Value → Values → Values

  pub data Members : Type 0 where
    no_member : Members
    member : Text → Value → Members → Members

unfoldable pub lookup : Text → Members → Option Value
lookup k no_member = none
lookup k (member j v ms) = if text_eq j k then some v else lookup k ms

unfoldable pub insert_member : Text → Value → Members → Members
insert_member k v no_member = member k v no_member
insert_member k v (member j w ms) =
    let rest = insert_member k v ms in
    if text_eq j k
    then member k v ms
    else if text_lt k j
    then member k v (member j w ms)
    else member j w rest

unfoldable pub get_field : Text → Value → Option Value
get_field k (object ms) = lookup k ms
get_field k v = none

abbrev pub as_object : Value → Option Members
as_object (object ms) = some ms
as_object v = none

abbrev pub as_array : Value → Option Values
as_array (array vs) = some vs
as_array v = none

abbrev pub as_str : Value → Option Text
as_str (string t) = some t
as_str v = none

abbrev pub as_bool : Value → Option Bool
as_bool (boolean b) = some b
as_bool v = none

abbrev pub to_list : Values → List Value
to_list nil = []
to_list (cons v vs) = v ∷ to_list vs

abbrev pub from_list : List Value → Values
from_list [] = nil
from_list (v ∷ vs) = cons v (from_list vs)
