-- ===== src/FilePath.antt =====
-- path/filepath on Unix, as far as the program uses it: paths as texts.
pub mod Joined
pub mod Children
pub mod Beside
pub mod Rel
pub mod Apart
pub mod Inside
pub mod Glob
use mathlib.Core.List.{reverse, foldl}
use nsbox.Base.{
  ℕ, List, [], ◌∷◌, ◌++◌, Bool, true, false, Text, codes, str_eq, has_prefix, split, join, is_empty,
  if◌then◌else◌, ◌||◌, ◌==◌,
}

abbrev pub slash : ℕ
slash = b'/'

-- filepath.IsAbs
unfoldable pub is_abs : Text → Bool
is_abs path = has_prefix path (codes "/")

-- One element of the path, read onto the elements so far, last first.
unfoldable pub clean_step : Bool → List Text → Text → List Text
clean_step rooted [] part =
    if is_empty part || str_eq part (codes ".")
    then []
    else if str_eq part (codes "..")
    then (if rooted then [] else part ∷ [])
    else part ∷ []
clean_step rooted (last ∷ out) part =
    if is_empty part || str_eq part (codes ".")
    then last ∷ out
    else if str_eq part (codes "..")
    then (if str_eq last (codes "..") then part ∷ last ∷ out else out)
    else part ∷ last ∷ out

unfoldable pub clean_parts : Bool → List Text → List Text
unfolding clean_step
clean_parts rooted parts = reverse (foldl (clean_step rooted) [] parts)

abbrev pub relative_text : List Text → Text
relative_text [] = codes "."
relative_text (part ∷ parts) = join (codes "/") (part ∷ parts)

-- The absolute path with these elements.
abbrev pub absolute_text : List Text → Text
absolute_text parts = slash ∷ join (codes "/") parts

-- filepath.Clean
unfoldable pub clean : Text → Text
unfolding is_abs clean_parts
clean path =
    let parts = clean_parts (is_abs path) (split slash path) in
    if is_abs path then absolute_text parts else relative_text parts

abbrev drop_empty : List Text → List Text
drop_empty [] = []
drop_empty ([] ∷ parts) = drop_empty parts
drop_empty ((c ∷ part) ∷ parts) = (c ∷ part) ∷ parts

abbrev clean_joined : List Text → Text
clean_joined [] = []
clean_joined (part ∷ parts) = clean (join (codes "/") (part ∷ parts))

-- filepath.Join
unfoldable pub join_path : List Text → Text
unfolding clean
join_path parts = clean_joined (drop_empty parts)

-- The path up to its last slash, and what comes behind it.
unfoldable pub split_last : Text → Text × Text
split_last [] = ([], [])
split_last (c ∷ s) =
    let (front, rest) = split_last s in
    if is_empty front
    then (if c == slash then (c ∷ [], rest) else ([], c ∷ rest))
    else (c ∷ front, rest)

-- filepath.Dir
unfoldable pub dir_name : Text → Text
unfolding split_last
dir_name path = clean (split_last path).0

abbrev drop_slashes : Text → Text
drop_slashes [] = []
drop_slashes (c ∷ s) = let rest = drop_slashes s in if c == slash then rest else c ∷ s

-- filepath.Base
unfoldable pub base_name : Text → Text
unfolding split_last
base_name path =
    let stripped = reverse (drop_slashes (reverse path)) in
    if is_empty path
    then codes "."
    else if is_empty stripped
    then codes "/"
    else (split_last stripped).1
