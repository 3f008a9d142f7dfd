-- ===== src/Fake/Path.antt =====
-- The parts of `std::path::Path` that lightr-cri-fake calls, on paths of `/`.
use lightr_cri.Prelude.{Bool, false, [], ◌∷◌, ◌++◌, ◌==◌, if◌then◌else◌}
use lightr_cri.Prelude.Text.{Text, codes}

abbrev ends_with_slash : Text → Bool
ends_with_slash [] = false
ends_with_slash (x ∷ []) = x == b'/'
ends_with_slash (x ∷ y ∷ t) = ends_with_slash (y ∷ t)

-- `Path::join`: an absolute second path replaces the first.
unfoldable pub path_join : Text → Text → Text
path_join base [] = base ++ codes "/"
path_join [] (c ∷ rel) = c ∷ rel
path_join (b ∷ base) (c ∷ rel) =
    if c == b'/'
    then c ∷ rel
    else if ends_with_slash (b ∷ base)
    then (b ∷ base) ++ (c ∷ rel)
    else (b ∷ base) ++ (b'/' ∷ c ∷ rel)

-- `Path::file_name`, for a path that ends in a component: what stands behind the last slash.
unfoldable pub file_name : Text → Text → Text
file_name acc [] = acc
file_name acc (c ∷ t) = file_name (if c == b'/' then [] else acc ++ (c ∷ [])) t
