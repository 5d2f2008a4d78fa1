-- ===== src/FilePath/Rel.antt =====
-- filepath.Rel on Unix: the second path as seen from the first.
use nsbox.Base.{
  Text, List, [], ◌∷◌, ◌++◌, codes, not, ◌&&◌, ◌||◌, is_empty, str_eq, filter_out, if◌then◌else◌,
  join, split, map, Result, ok, err, errorf,
}
use nsbox.FilePath.{slash, is_abs, clean}

-- The elements of a path that is clean.
unfoldable pub elements : Text → List Text
elements path = filter_out is_empty (split slash path)

cannot_relate : Text → Text → Result Text
cannot_relate base target =
    err (errorf (codes "Rel: can't make " ++ (target ++ (codes " relative to " ++ base))))

-- Up from each element of the base that is left, and down to the target.
from_difference : Text → Text → List Text → List Text → Result Text
unfolding cannot_relate
from_difference base target [] rest = ok (join (codes "/") rest)
from_difference base target (up ∷ ups) rest =
    if str_eq up (codes "..")
    then cannot_relate base target
    else ok (join (codes "/") (map (λ e. codes "..") (up ∷ ups) ++ rest))

skip_common : Text → Text → List Text → List Text → Result Text
unfolding from_difference
skip_common base target [] rest = from_difference base target [] rest
skip_common base target (b ∷ bs) [] = from_difference base target (b ∷ bs) []
skip_common base target (b ∷ bs) (t ∷ ts) =
    if str_eq b t
    then skip_common base target bs ts
    else from_difference base target (b ∷ bs) (t ∷ ts)

-- The base `.` counts as no element.
base_elements : Text → List Text
unfolding elements
base_elements base = if str_eq base (codes ".") then [] else elements base

unfoldable pub rel : Text → Text → Result Text
unfolding cannot_relate skip_common base_elements elements
rel base_path target_path =
    let base = clean base_path in
    let target = clean target_path in
    if str_eq target base
    then ok (codes ".")
    else if (is_abs base && not (is_abs target)) || (is_abs target && not (is_abs base))
    then cannot_relate base_path target_path
    else skip_common base_path target_path (base_elements base) (elements target)
