-- ===== src/Store/Files.antt =====
-- The file names of the instances directory: `Store._file`, `Updater._prev_file`, and the sorted
-- `*.yaml` files that `Store.list` walks.
use linuxmuster_radius.Prelude.{
  Bool, not, ◌||◌, List, [], ◌∷◌, ◌++◌, Text, codes, has, contains, text_eq, if◌then◌else◌, text_le,
}
use linuxmuster_radius.Models.Fields.{nonempty}

-- Not `not name or "/" in name or "\\" in name or ".." in name`; `ca._safe_name` is the same test.
unfoldable pub safe_name : Text → Bool
unfolding contains
safe_name name =
    not (not (nonempty name) || has b'/' name || has 92 name || contains name (codes ".."))

unfoldable pub yaml_file : Text → Text
yaml_file name = name ++ codes ".yaml"

-- `_prev_file`, and what `file.with_suffix(".prev")` makes of the record's file.
unfoldable pub prev_file : Text → Text
prev_file name = name ++ codes ".prev"

-- `file.endswith(t)`, by the tails of the text.
unfoldable pub ends_with : Text → Text → Bool
unfolding text_eq
ends_with [] t = text_eq [] t
ends_with (c ∷ s) t = text_eq (c ∷ s) t || ends_with s t

unfoldable pub insert_sorted : Text → List Text → List Text
unfolding text_le
insert_sorted s [] = s ∷ []
insert_sorted s (t ∷ ts) = if text_le s t then s ∷ t ∷ ts else t ∷ insert_sorted s ts

unfoldable pub sorted : List Text → List Text
unfolding insert_sorted
sorted [] = []
sorted (s ∷ ts) = insert_sorted s (sorted ts)

-- `glob("*.yaml")`
unfoldable pub glob_yaml : List Text → List Text
unfolding ends_with
glob_yaml [] = []
glob_yaml (s ∷ ts) =
    let rest = glob_yaml ts in if ends_with s (codes ".yaml") then s ∷ rest else rest

unfoldable pub yaml_names : List Text → List Text
unfolding sorted glob_yaml
yaml_names names = sorted (glob_yaml names)
